-- ===== src/Clock/Decide.antt =====
-- internal/clock/decide.go: what a reading calls for, on an enclave and on a vault.
use text.Mathlib.Text.{◌==◌ as str_eq}
use container_app_service_mo.Base.{
  ℕ, ◌+◌, Bool, true, false, not, ◌&&◌, ◌||◌, ◌==◌, if◌then◌else◌, leb, String, Option, none, some,
}
use container_app_service_mo.Base.Int.{ltb_ℤ, leb_ℤ}
use container_app_service_mo.Clock.{
  Library, PollOutcome, ok, refused, is_unreachable, ClockVerdict, in_sync, monitor_clock_wrong,
  host_clock_wrong, another, ClockReading, Reason, wrong_host, no_trusted_time, frozen,
  failed_closed, drifted, back_in_sync, silent, was_flagged, ClockEnclave, abs, tolerance, is_zero,
}

abbrev pub max_failed_polls : ℕ
max_failed_polls = 2

pub data ClockOp : Type 0 where
  quarantine release : ClockOp

pub record Decision : Type 0 where
  pub op : ClockOp
  pub reason : Reason

abbrev pub missing_by : PollOutcome → ClockReading → String → Bool
missing_by ok r key_id = not (str_eq r.config_key_id key_id)
missing_by refused r key_id = r.http_status == 409 || r.http_status == 401
missing_by _ r key_id = false

abbrev pub config_missing : ClockReading → String → Bool
config_missing r key_id = missing_by r.outcome r key_id

-- The cases of `clockProblem` that the verdict does not settle.
abbrev pub measured_problem : ClockReading → Option Reason
measured_problem r =
    if is_zero r.trusted_ms || str_eq r.reason "nts_unreachable"
    then some (no_trusted_time r.reason)
    else if r.flagged
    then some (frozen r.reason)
    else if ltb_ℤ tolerance (abs r.drift_ms)
    then some (drifted r.drift_ms r.host_ms r.monitor_ms)
    else none

abbrev pub problem_by : ClockVerdict → ClockReading → Option Reason
problem_by host_clock_wrong r = some (wrong_host r.host_ms r.nts_ms r.sent_ms)
problem_by monitor_clock_wrong r = none
problem_by in_sync r = measured_problem r
problem_by (another word) r = measured_problem r

unfoldable pub clock_problem : ClockReading → Option Reason
clock_problem r = problem_by r.verdict r

abbrev pub is_ok : PollOutcome → Bool
is_ok ok = true
is_ok _ = false

abbrev pub is_refused : PollOutcome → Bool
is_refused refused = true
is_refused _ = false

abbrev pub says_in_sync : ClockVerdict → Bool
says_in_sync in_sync = true
says_in_sync _ = false

abbrev pub clean_reading : ClockReading → Bool
clean_reading r =
    is_ok r.outcome
    && (says_in_sync r.verdict
        && (not r.flagged && (not (is_zero r.trusted_ms) && leb_ℤ (abs r.drift_ms) tolerance)))

abbrev pub has_failed_closed : Library → ClockReading → Bool
has_failed_closed lib r =
    is_refused r.outcome
    && (r.http_status == 503 && not (lib.contains (lib.to_lower r.error) "not enabled"))

-- `Decide` on an answer, by what `clockProblem` finds.
abbrev pub decide_answer : Option Reason → ClockEnclave → ClockReading → Bool → Option Decision
decide_answer (some reason) prev r platform_quarantined =
    if prev.quarantined || platform_quarantined
    then none
    else some (record { op = quarantine; reason = reason })
decide_answer none prev r platform_quarantined =
    if prev.quarantined && clean_reading r
    then some (record { op = release; reason = back_in_sync r.drift_ms })
    else none

-- The rest of `Decide`, where the runtime gave no answer.
abbrev pub decide_silence : Library → ClockEnclave → ClockReading → Bool → String → Option Decision
decide_silence lib prev r platform_quarantined key_id =
    let in_service = not prev.quarantined && not platform_quarantined in
    if config_missing r key_id
    then none
    else if has_failed_closed lib r && in_service
    then some (record { op = quarantine; reason = failed_closed r.error })
    else if is_unreachable r.outcome && (leb max_failed_polls (prev.failed_polls + 1) && in_service)
    then some (record { op = quarantine; reason = silent (prev.failed_polls + 1) r.error })
    else if prev.last_flagged && in_service
    then some (record { op = quarantine; reason = was_flagged prev.last_reason r.outcome })
    else none

unfoldable pub decide : Library → ClockEnclave → ClockReading → Bool → String → Option Decision
unfolding clock_problem
decide lib prev r platform_quarantined key_id =
    if is_ok r.outcome
    then decide_answer (clock_problem r) prev r platform_quarantined
    else decide_silence lib prev r platform_quarantined key_id

-- `alertEvents`: the two families of events.
pub data Family : Type 0 where
  vault unconfigured : Family

pub data ClockEvent : Type 0 where
  clock_wrong gone recovered : Family → ClockEvent

abbrev pub same_family : Family → Family → Bool
same_family vault vault = true
same_family unconfigured unconfigured = true
same_family _ _ = false

abbrev pub same_event : ClockEvent → ClockEvent → Bool
same_event (clock_wrong f) (clock_wrong g) = same_family f g
same_event (gone f) (gone g) = same_family f g
same_event (recovered f) (recovered g) = same_family f g
same_event _ _ = false

pub record VaultDecision : Type 0 where
  pub event : ClockEvent
  pub reason : Reason

-- `raise`, against the alert that stands.
abbrev pub raise_new : Option ClockEvent → ClockEvent → Reason → Option VaultDecision
raise_new none event reason = some (record { event = event; reason = reason })
raise_new (some standing) event reason =
    if same_event event standing then none else some (record { event = event; reason = reason })

abbrev pub is_standing : Option ClockEvent → Bool
is_standing none = false
is_standing (some _) = true

abbrev pub alert_answer :
    Option Reason → Family → ClockReading → Option ClockEvent → Option VaultDecision
alert_answer (some reason) family r standing = raise_new standing (clock_wrong family) reason
alert_answer none family r standing =
    if is_standing standing && clean_reading r
    then some (record { event = recovered family; reason = back_in_sync r.drift_ms })
    else none

-- `decideAlert`; `DecideVault` and `DecideUnconfigured` are its two families.
unfoldable pub decide_alert :
    Library
    → Family
    → ClockEnclave
    → ClockReading
    → Option ClockEvent
    → String
    → Option VaultDecision
unfolding clock_problem
decide_alert lib family prev r standing key_id =
    if is_ok r.outcome
    then alert_answer (clock_problem r) family r standing
    else if config_missing r key_id
    then none
    else if has_failed_closed lib r
    then raise_new standing (clock_wrong family) (failed_closed r.error)
    else if is_unreachable r.outcome && leb max_failed_polls (prev.failed_polls + 1)
    then raise_new standing (gone family) (silent (prev.failed_polls + 1) r.error)
    else none
