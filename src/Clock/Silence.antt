-- ===== src/Clock/Silence.antt =====
-- When a poll asks for a quarantine, and how silent polls are counted (internal/clock/service.go).
use container_app_service_mo.Base.{
  ◌≡◌, ◌∙◌, ◌≤◌, Bool, true, false, not, ◌&&◌, if◌then◌else◌, [], String, Option, none, some, arith,
  any, ap,
}
use container_app_service_mo.Base.Int.{ℤ}
use container_app_service_mo.Clock.{
  Library, unreachable, ClockReading, Reason, Enclave, clock_armed, is_vault,
}
use container_app_service_mo.Clock.Decide.{
  ClockOp, Decision, Family, vault, unconfigured, decide_alert,
}
use container_app_service_mo.Clock.Rounds.{
  alert_on_vault, clear_unconfigured_alert, CallResult, Held, Polled, ClockAction, act, act_on,
  after_call, poll, platform_holds, standing_event,
}
use container_app_service_mo.Clock.Grounds.{
  has_grounds, asks_quarantine, is_quarantine, decide-asks,
}
use container_app_service_mo.Clock.Tracked.{
  entry, is_own, before, asked, start, alerted, lift, record_alert-actions, clear-actions,
}

-- The poll asks the control plane for a quarantine.
abbrev pub quarantines : Polled → Bool
quarantines p = any (λ a. is_quarantine a.op) p.actions

module _ (control : ClockOp → String → Reason → CallResult) where
  after_call-quarantines :
      (d : Decision) (r : ClockReading) (at : ℤ) (result : CallResult) (failure : Option String)
      (p : Polled)
      → quarantines (after_call d r at result failure p) ≡ is_quarantine d.op
  after_call-quarantines d r at result none p = ground arith
  after_call-quarantines d r at result (some why) p = ground arith

  act_on-quarantines :
      (e : Enclave) (r : ClockReading) (o : Option Decision) (at : ℤ) (p : Polled)
      → p.actions ≡ []
      → quarantines (act_on control e r o at p) ≡ asks_quarantine o
  unfolding act
  act_on-quarantines e r none at p empty = ap (any (λ (a : ClockAction). is_quarantine a.op)) empty
  act_on-quarantines e r (some d) at p empty =
      after_call-quarantines d r at (control d.op e.id d.reason) _ p

module _ (control : ClockOp → String → Reason → CallResult) (lib : Library) (key_id : String)
    (listed_as : Enclave) (held : Held) (r : ClockReading) (at : ℤ) where
  abbrev here : Enclave
  here = entry control lib key_id listed_as held r at

  abbrev on_platform : Bool
  on_platform = platform_holds control held.listed

  -- Everything that a quarantine takes, and nothing else.
  abbrev pub is_called_for : Bool
  is_called_for =
      not (is_vault lib here)
      && (clock_armed here
          && (has_grounds lib held.position r key_id
              && (not (is_own control lib key_id listed_as held r at) && not on_platform)))

  alerted-quarantines :
      (family : Family)
      → quarantines (alerted control lib key_id listed_as held r at family) ≡ false
  unfolding alert_on_vault
  alerted-quarantines family = ap (any (λ (a : ClockAction). is_quarantine a.op)) (
      record_alert-actions
        (decide_alert lib family held.position r (standing_event held.standing) key_id) r
        (start control lib key_id listed_as held r at))

  unarmed-quarantines :
      (due : Bool)
      → quarantines (
          if due
          then act control here r
              (lift control lib key_id listed_as held r at)
              at
              (alerted control lib key_id listed_as held r at unconfigured)
          else alerted control lib key_id listed_as held r at unconfigured)
        ≡ false
  unfolding act lift
  unarmed-quarantines true =
      let d : Decision = lift control lib key_id listed_as held r at in
      after_call-quarantines control d r at (control d.op here.id d.reason) _
        (alerted control lib key_id listed_as held r at unconfigured)
  unarmed-quarantines false = alerted-quarantines unconfigured

  asked-quarantines : asks_quarantine (asked control lib key_id listed_as held r at) ≡ (
      has_grounds lib held.position r key_id
      && (not (is_own control lib key_id listed_as held r at) && not on_platform))
  unfolding asked
  asked-quarantines =
      (decide-asks lib (before control lib key_id listed_as held r at) r on_platform key_id).0

  branches-quarantine :
      (is_a_vault armed due : Bool)
      → quarantines (
          if is_a_vault
          then alerted control lib key_id listed_as held r at vault
          else if not armed
          then (if due
              then act control here r
                  (lift control lib key_id listed_as held r at)
                  at
                  (alerted control lib key_id listed_as held r at unconfigured)
              else alerted control lib key_id listed_as held r at unconfigured)
          else act_on control here r
              (asked control lib key_id listed_as held r at)
              at
              (clear_unconfigured_alert here r (start control lib key_id listed_as held r at)))
        ≡ (not is_a_vault
            && (armed
                && (has_grounds lib held.position r key_id
                    && (not (is_own control lib key_id listed_as held r at) && not on_platform))))
  branches-quarantine true armed due = alerted-quarantines vault
  branches-quarantine false false due = unarmed-quarantines due
  branches-quarantine false true due =
      act_on-quarantines control here r _ at _
        (clear-actions here r (start control lib key_id listed_as held r at))
      ∙ asked-quarantines

  -- A poll asks the platform for a quarantine exactly when the enclave is not a vault, its runtime
  -- acknowledged the current clock config, the reading shows a problem (an answer with one; or,
  -- without an answer, a runtime that holds the key and has failed closed, a second silent poll in
  -- a row, or a flag at the last answer), and neither the monitor nor the platform holds the
  -- enclave out already.
  pub poll-quarantines : quarantines (poll control lib key_id listed_as held r at) ≡ is_called_for
  unfolding poll asked lift
  poll-quarantines = branches-quarantine (is_vault lib here) (clock_armed here) _

module _ (control : ClockOp → String → Reason → CallResult) (lib : Library) (key_id : String)
    (listed_as : Enclave) where
  -- A poll without an answer asks for a quarantine of an armed enclave that is no vault and that
  -- the platform does not hold out, once one poll before it had no answer.
  pub silence-quarantines :
      (held : Held) (r : ClockReading) (at : ℤ)
      → is_vault lib (entry control lib key_id listed_as held r at) ≡ false
      → clock_armed (entry control lib key_id listed_as held r at) ≡ true
      → platform_holds control held.listed ≡ false
      → r.outcome ≡ unreachable
      → 1 ≤ held.position.failed_polls
      → quarantines (poll control lib key_id listed_as held r at) ≡ true
  silence-quarantines held r at v a p u k =
      poll-quarantines control lib key_id listed_as held r at ∙ ground (arith, v, a, p, u, k)
