-- ===== src/Clock/Rounds.antt =====
-- internal/clock/service.go: one poll of one enclave, from the answer to what is recorded and asked
-- for. Polls of one enclave never overlap, so a poll is one step on what is held of that enclave. The
-- store is taken to accept what is recorded, and the clock to be on.
use container_app_service_mo.Base.{
  ℕ, ◌+◌, Bool, true, false, not, ◌&&◌, if◌then◌else◌, List, [], ◌∷◌, String, Option, none, some,
}
use container_app_service_mo.Base.Int.{ℤ, pos}
use container_app_service_mo.Clock.{
  Library, PollOutcome, ok, refused, is_unreachable, ClockVerdict, monitor_clock_wrong,
  ClockReading, Reason, never_acknowledged, now_acknowledged, ClockEnclave, Enclave, clock_armed,
  clock_never_configured, is_vault,
}
use container_app_service_mo.Clock.Decide.{
  is_ok, config_missing, ClockOp, quarantine, release, Decision, decide, Family, vault,
  unconfigured, ClockEvent, recovered, VaultDecision, decide_alert,
}

abbrev pub answer_fields : PollOutcome → ClockReading → ClockEnclave → ClockEnclave
answer_fields ok r st = record st {
  last_ok_ms = r.monitor_ms;
  last_verdict = some r.verdict;
  last_flagged = r.flagged;
  last_reason = r.reason;
  last_drift_ms = r.drift_ms;
  last_host_ms = r.host_ms;
  last_config_key = r.config_key_id;
}
answer_fields _ r st = st

abbrev pub missing_after : PollOutcome → ClockReading → String → Bool → Bool
missing_after ok r key_id before = config_missing r key_id
missing_after refused r key_id before = config_missing r key_id
missing_after _ r key_id before = before

-- `advance`.
unfoldable pub advance : ClockEnclave → Enclave → ClockReading → String → Bool → ClockEnclave
advance prev e r key_id platform_quarantined =
    let seen = answer_fields r.outcome r (record prev {
      enclave_id = e.id;
      name = e.name;
      tee_type = e.tee_type;
      mgr_hostname = e.mgr_hostname;
      last_reading_id = r.id;
      last_outcome = some r.outcome;
      last_ms = r.monitor_ms;
      updated_ms = r.monitor_ms;
    }) in
    let kept = prev.quarantined && platform_quarantined in
    let lifted = prev.quarantined && not platform_quarantined in
    record seen {
      config_missing = missing_after r.outcome r key_id prev.config_missing;
      failed_polls = if is_unreachable r.outcome then prev.failed_polls + 1 else 0;
      quarantined = kept;
      quarantined_ms = if lifted then pos 0 else prev.quarantined_ms;
      quarantine_reason = if lifted then none else prev.quarantine_reason;
    }

-- The alerts that a reading calls for by itself.
pub data Notice : Type 0 where
  monitor_wrong missing_key : Notice

abbrev pub says_monitor_wrong : ClockVerdict → Bool
says_monitor_wrong monitor_clock_wrong = true
says_monitor_wrong _ = false

unfoldable pub alert_on_reading : ClockEnclave → ClockEnclave → ClockReading → List Notice
alert_on_reading prev next r =
    let rest = if next.config_missing && not prev.config_missing then missing_key ∷ [] else [] in
    if is_ok r.outcome && says_monitor_wrong r.verdict then monitor_wrong ∷ rest else rest

pub record ClockVaultAlert : Type 0 where
  pub event : Option ClockEvent
  pub reason : Reason
  pub reading_id : String
  pub raised_ms : ℤ
  pub updated_ms : ℤ

pub record ClockAction : Type 0 where
  pub op : ClockOp
  pub reason : Reason
  pub reading_id : String
  pub applied : Bool
  pub http_status : ℕ
  pub error : String
  pub at_ms : ℤ

-- The control plane's answer to a request; `none` is no error.
pub record CallResult : Type 0 where
  pub status : ℕ
  pub failure : Option String

-- What is held of one enclave: its stored position (blank but for its identifier where none is stored),
-- its entry in the list, the alert that stands.
pub record Held : Type 0 where
  pub position : ClockEnclave
  pub listed : Option Enclave
  pub standing : Option ClockVaultAlert

pub record Polled : Type 0 where
  pub held : Held
  pub actions : List ClockAction
  pub events : List ClockEvent
  pub notices : List Notice

abbrev pub is_recovered : ClockEvent → Bool
is_recovered (recovered family) = true
is_recovered _ = false

abbrev pub standing_event : Option ClockVaultAlert → Option ClockEvent
standing_event none = none
standing_event (some alert) = alert.event

abbrev pub alert_after : VaultDecision → ClockReading → ClockVaultAlert
alert_after d r =
    let back = is_recovered d.event in
    record {
      event = if back then none else some d.event;
      reason = d.reason;
      reading_id = r.id;
      raised_ms = if back then pos 0 else r.monitor_ms;
      updated_ms = r.monitor_ms;
    }

abbrev pub record_alert : Option VaultDecision → ClockReading → Polled → Polled
record_alert none r p = p
record_alert (some d) r p = record p {
  held = record p.held { standing = some (alert_after d r) };
  events = d.event ∷ [];
}

-- `alertOnVault`.
unfoldable pub alert_on_vault :
    Library → Family → ClockEnclave → ClockReading → String → Polled → Polled
unfolding decide_alert
alert_on_vault lib family prev r key_id p =
    record_alert (decide_alert lib family prev r (standing_event p.held.standing) key_id) r p

-- A problem of the family "unconfigured".
abbrev pub is_unconfigured_problem : Option ClockEvent → Bool
is_unconfigured_problem (some (ClockEvent.clock_wrong unconfigured)) = true
is_unconfigured_problem (some (ClockEvent.gone unconfigured)) = true
is_unconfigured_problem _ = false

-- `clearUnconfiguredAlert`.
unfoldable pub clear_unconfigured_alert : Enclave → ClockReading → Polled → Polled
clear_unconfigured_alert e r p =
    if is_unconfigured_problem (standing_event p.held.standing)
    then record p {
      held = record p.held {
        standing = some (record {
          event = none;
          reason = now_acknowledged e.clock_config_version;
          reading_id = r.id;
          raised_ms = pos 0;
          updated_ms = r.monitor_ms;
        });
      };
      events = recovered unconfigured ∷ [];
    }
    else p

abbrev pub set_platform_quarantined : Bool → Option Reason → Option Enclave → Option Enclave
set_platform_quarantined q reason none = none
set_platform_quarantined q reason (some e) =
    some (record e { quarantined = q; quarantine_reason = reason })

abbrev pub applied_op : ClockOp → Reason → ℤ → Held → Held
applied_op quarantine reason at held = record held {
  position = record held.position {
    quarantined = true;
    quarantined_ms = at;
    quarantine_reason = some reason;
    updated_ms = at;
  };
  listed = set_platform_quarantined true (some reason) held.listed;
}
applied_op release reason at held = record held {
  position = record held.position {
    quarantined = false;
    quarantined_ms = pos 0;
    quarantine_reason = none;
    updated_ms = at;
  };
  listed = set_platform_quarantined false none held.listed;
}

abbrev pub after_call : Decision → ClockReading → ℤ → CallResult → Option String → Polled → Polled
after_call d r at result none p = record p {
  held = applied_op d.op d.reason at p.held;
  actions =
      record {
        op = d.op;
        reason = d.reason;
        reading_id = r.id;
        applied = true;
        http_status = result.status;
        error = "";
        at_ms = at;
      }
      ∷ [];
}
after_call d r at result (some why) p = record p {
  held = record p.held { position = record p.held.position { updated_ms = at } };
  actions =
      record {
        op = d.op;
        reason = d.reason;
        reading_id = r.id;
        applied = false;
        http_status = result.status;
        error = why;
        at_ms = at;
      }
      ∷ [];
}

-- `control` is the control plane, which takes or refuses a request.
module _ (control : ClockOp → String → Reason → CallResult) where
  -- `act`.
  unfoldable pub act : Enclave → ClockReading → Decision → ℤ → Polled → Polled
  act e r d at p =
      let result = control d.op e.id d.reason in after_call d r at result result.failure p

  abbrev pub act_on : Enclave → ClockReading → Option Decision → ℤ → Polled → Polled
  act_on e r none at p = p
  act_on e r (some d) at p = act e r d at p

  abbrev pub latest_entry : Enclave → Option Enclave → Enclave
  latest_entry e none = e
  latest_entry e (some known) = record e {
    clock_config_version = known.clock_config_version;
    clock_config_current = known.clock_config_current;
    clock_config_known = known.clock_config_known;
  }

  abbrev pub platform_holds : Option Enclave → Bool
  platform_holds none = false
  platform_holds (some known) = known.quarantined

  -- `Poll`, from the reading on.
  unfoldable pub poll : Library → String → Enclave → Held → ClockReading → ℤ → Polled
  unfolding advance alert_on_reading alert_on_vault clear_unconfigured_alert act decide
  poll lib key_id listed_as held r at =
      let platform_quarantined = platform_holds held.listed in
      let e = latest_entry listed_as held.listed in
      let next = advance held.position e r key_id platform_quarantined in
      let p : Polled = record {
        held = record held { position = next };
        actions = [];
        events = [];
        notices = alert_on_reading held.position next r;
      } in
      if is_vault lib e
      then alert_on_vault lib vault held.position r key_id p
      else if not (clock_armed e)
      then (let alerted = alert_on_vault lib unconfigured held.position r key_id p in
          if next.quarantined && (platform_quarantined && clock_never_configured e)
          then act e r (record { op = release; reason = never_acknowledged e.clock_config_current })
              at alerted
          else alerted)
      else act_on e r
          (decide lib (record held.position { quarantined = next.quarantined }) r
            platform_quarantined key_id)
          at (clear_unconfigured_alert e r p)
