-- ===== src/Clock/Counting.antt =====
-- How silent polls are counted (internal/clock/service.go, `advance` and `Poll`).
use container_app_service_mo.Base.{
  ℕ, ◌≡◌, refl, ◌∙◌, ◌+◌, Bool, true, false, not, if◌then◌else◌, List, [], ◌∷◌, String, Option,
  none, some, arith, All, length,
}
use container_app_service_mo.Base.Int.{ℤ}
use container_app_service_mo.Clock.{
  Library, is_unreachable, ClockReading, Reason, Enclave, clock_armed, is_vault,
}
use container_app_service_mo.Clock.Decide.{
  ClockOp, quarantine, release, Decision, Family, vault, unconfigured, VaultDecision, decide_alert,
}
use container_app_service_mo.Clock.Rounds.{
  advance, record_alert, alert_on_vault, clear_unconfigured_alert, CallResult, Held, Polled, act,
  act_on, after_call, applied_op, poll, standing_event,
}
use container_app_service_mo.Clock.Tracked.{entry, asked, start, alerted, lift}

-- Readings of one enclave, one after the other, each acted on when it arrives.
unfoldable pub poll_run :
    (ClockOp → String → Reason → CallResult)
    → Library
    → String
    → Enclave
    → Held
    → List ClockReading
    → Held
unfolding poll
poll_run control lib key_id listed_as held [] = held
poll_run control lib key_id listed_as held (r ∷ rs) =
    poll_run control lib key_id listed_as
      (poll control lib key_id listed_as held r r.monitor_ms).held rs

-- The counter of silent polls, after whatever else a poll does.
record Counts (n : ℕ) (p : Polled) : Type 0 where
  counted : p.held.position.failed_polls ≡ n

record_alert-Counts :
    (n : ℕ) (d : Option VaultDecision) (r : ClockReading) (p : Polled)
    → Counts n p
    → Counts n (record_alert d r p)
record_alert-Counts n none r p h = h
record_alert-Counts n (some d) r p h = record { counted = h.counted }

clear-Counts :
    (n : ℕ) (e : Enclave) (r : ClockReading) (p : Polled)
    → Counts n p
    → Counts n (clear_unconfigured_alert e r p)
unfolding clear_unconfigured_alert
clear-Counts n e r p h = record { counted = ground (arith, h.counted) }

applied-counts :
    (op : ClockOp) (reason : Reason) (at : ℤ) (held : Held)
    → (applied_op op reason at held).position.failed_polls ≡ held.position.failed_polls
applied-counts quarantine reason at held = refl
applied-counts release reason at held = refl

after_call-Counts :
    (n : ℕ) (d : Decision) (r : ClockReading) (at : ℤ) (result : CallResult)
    (failure : Option String) (p : Polled)
    → Counts n p
    → Counts n (after_call d r at result failure p)
after_call-Counts n d r at result none p h = record {
  counted = applied-counts d.op d.reason at p.held ∙ h.counted;
}
after_call-Counts n d r at result (some why) p h = record { counted = h.counted }

act_on-Counts :
    (control : ClockOp → String → Reason → CallResult) (n : ℕ) (e : Enclave) (r : ClockReading)
    (o : Option Decision) (at : ℤ) (p : Polled)
    → Counts n p
    → Counts n (act_on control e r o at p)
unfolding act
act_on-Counts control n e r none at p h = h
act_on-Counts control n e r (some d) at p h =
    after_call-Counts n d r at (control d.op e.id d.reason) _ p h

module _ (control : ClockOp → String → Reason → CallResult) (lib : Library) (key_id : String)
    (listed_as : Enclave) where
  module _ (held : Held) (r : ClockReading) (at : ℤ) where
    abbrev count_after : ℕ
    count_after = if is_unreachable r.outcome then held.position.failed_polls + 1 else 0

    abbrev e' : Enclave
    e' = entry control lib key_id listed_as held r at

    abbrev begun : Polled
    begun = start control lib key_id listed_as held r at

    begun-Counts : Counts count_after begun
    unfolding advance
    begun-Counts = record { counted = refl }

    alerted-Counts :
        (family : Family)
        → Counts count_after (alerted control lib key_id listed_as held r at family)
    unfolding alert_on_vault
    alerted-Counts family =
        record_alert-Counts count_after
          (decide_alert lib family held.position r (standing_event held.standing) key_id) r begun
          begun-Counts

    unarmed-Counts :
        (due : Bool)
        → Counts count_after (
            if due
            then act control e' r
                (lift control lib key_id listed_as held r at)
                at
                (alerted control lib key_id listed_as held r at unconfigured)
            else alerted control lib key_id listed_as held r at unconfigured)
    unarmed-Counts true =
        act_on-Counts control count_after e' r (some (lift control lib key_id listed_as held r at))
          at (alerted control lib key_id listed_as held r at unconfigured)
          (alerted-Counts unconfigured)
    unarmed-Counts false = alerted-Counts unconfigured

    branches-Counts :
        (is_a_vault armed due : Bool)
        → Counts count_after (
            if is_a_vault
            then alerted control lib key_id listed_as held r at vault
            else if not armed
            then (if due
                then act control e' r
                    (lift control lib key_id listed_as held r at)
                    at
                    (alerted control lib key_id listed_as held r at unconfigured)
                else alerted control lib key_id listed_as held r at unconfigured)
            else act_on control e' r
                (asked control lib key_id listed_as held r at)
                at
                (clear_unconfigured_alert e' r begun))
    branches-Counts true armed due = alerted-Counts vault
    branches-Counts false false due = unarmed-Counts due
    branches-Counts false true due =
        act_on-Counts control count_after e' r (asked control lib key_id listed_as held r at) at
          (clear_unconfigured_alert e' r begun) (clear-Counts count_after e' r begun begun-Counts)

    poll-Counts : Counts count_after (poll control lib key_id listed_as held r at)
    unfolding poll asked lift
    poll-Counts = branches-Counts (is_vault lib e') (clock_armed e') _

  -- Over a run of polls without an answer the counter of failed polls grows by the length of the
  -- run, whatever the platform answers to the requests made meanwhile.
  pub silent_run-counts :
      (held : Held) (rs : List ClockReading)
      → All (λ r. is_unreachable r.outcome ≡ true) rs
      → (poll_run control lib key_id listed_as held rs).position.failed_polls
        ≡ held.position.failed_polls + length rs
  unfolding poll_run
  silent_run-counts held [] h = omega arith
  silent_run-counts held (r ∷ rs) h =
      let one = poll-Counts held r r.monitor_ms in
      let next : Held = (poll control lib key_id listed_as held r r.monitor_ms).held in
      silent_run-counts next rs h.1 ∙ ground (arith, one.counted, h.0)
