-- ===== src/Clock/Grounds.antt =====
-- On what grounds an enclave is quarantined, released or alerted on (internal/clock/decide.go and
-- `Poll` of service.go).
use container_app_service_mo.Base.{
  ◌≡◌, refl, ◌+◌, Bool, true, false, not, ◌&&◌, ◌||◌, if◌then◌else◌, leb, String, Option, none,
  some, arith, if_both,
}
use container_app_service_mo.Clock.{
  Library, is_unreachable, ClockReading, Reason, failed_closed, silent, ClockEnclave,
}
use container_app_service_mo.Clock.Decide.{
  is_ok, config_missing, clock_problem, clean_reading, has_failed_closed, max_failed_polls, ClockOp,
  quarantine, release, Decision, decide, decide_answer, decide_silence, Family, ClockEvent,
  decide_alert, VaultDecision, raise_new, same_event, alert_answer,
}

abbrev pub is_some {ℓ} : {A : Type ℓ} → Option A → Bool
is_some none = false
is_some (some _) = true

-- The grounds where the runtime gave no answer.
abbrev pub silent_grounds : Library → ClockEnclave → ClockReading → String → Bool
silent_grounds lib prev r key_id =
    not (config_missing r key_id)
    && (has_failed_closed lib r
        || (is_unreachable r.outcome && leb max_failed_polls (prev.failed_polls + 1)
            || prev.last_flagged))

-- What is wrong with the clock, or with the silence, of an enclave.
abbrev pub has_grounds : Library → ClockEnclave → ClockReading → String → Bool
has_grounds lib prev r key_id =
    if is_ok r.outcome then is_some (clock_problem r) else silent_grounds lib prev r key_id

abbrev pub is_quarantine : ClockOp → Bool
is_quarantine quarantine = true
is_quarantine release = false

abbrev pub asks_quarantine : Option Decision → Bool
asks_quarantine none = false
asks_quarantine (some d) = is_quarantine d.op

abbrev pub asks_release : Option Decision → Bool
asks_release none = false
asks_release (some d) = not (is_quarantine d.op)

answer-asks :
    (found : Option Reason) (prev : ClockEnclave) (r : ClockReading) (held : Bool)
    → (asks_quarantine (decide_answer found prev r held)
        ≡ (is_some found && (not prev.quarantined && not held)))
      × (asks_release (decide_answer found prev r held)
          ≡ (not (is_some found) && (prev.quarantined && clean_reading r)))
answer-asks none prev r held = ground arith
answer-asks (some reason) prev r held = ground arith

silence-asks :
    (lib : Library) (prev : ClockEnclave) (r : ClockReading) (held : Bool) (key_id : String)
    → (asks_quarantine (decide_silence lib prev r held key_id)
        ≡ (silent_grounds lib prev r key_id && (not prev.quarantined && not held)))
      × (asks_release (decide_silence lib prev r held key_id) ≡ false)
silence-asks lib prev r held key_id = ground arith

module _ (lib : Library) (prev : ClockEnclave) (r : ClockReading) (held : Bool)
    (key_id : String) where
  branch-asks :
      (answered : Bool) (found : Option Reason)
      → let d =
          if answered
          then decide_answer found prev r held
          else decide_silence lib prev r held key_id in
        (asks_quarantine d ≡ (
          (if answered then is_some found else silent_grounds lib prev r key_id)
          && (not prev.quarantined && not held)))
        × (asks_release d
            ≡ (answered && (not (is_some found) && (prev.quarantined && clean_reading r))))
  branch-asks true found = answer-asks found prev r held
  branch-asks false found = silence-asks lib prev r held key_id

  pub decide-asks :
      (asks_quarantine (decide lib prev r held key_id)
        ≡ (has_grounds lib prev r key_id && (not prev.quarantined && not held)))
      × (asks_release (decide lib prev r held key_id) ≡ (
          is_ok r.outcome
          && (not (is_some (clock_problem r)) && (prev.quarantined && clean_reading r))))
  unfolding decide
  decide-asks = branch-asks (is_ok r.outcome) (clock_problem r)

-- The problem alerts are raised on the grounds that a quarantine is asked for, the flag of the last
-- answer left aside.
alert-answer_raises :
    (found : Option Reason) (family : Family) (r : ClockReading)
    → is_some (alert_answer found family r none) ≡ is_some found
alert-answer_raises none family r = refl
alert-answer_raises (some reason) family r = refl

module _ (lib : Library) (family : Family) (prev : ClockEnclave) (r : ClockReading)
    (key_id : String) where
  -- On a vault or an unconfigured runtime with no alert standing, a reading raises an alert
  -- exactly when it is grounds for the quarantine of an enclave whose last answer was not flagged.
  pub decide_alert-raises :
      is_some (decide_alert lib family prev r none key_id)
      ≡ has_grounds lib (record prev { last_flagged = false }) r key_id
  unfolding decide_alert
  decide_alert-raises = ground (arith, alert-answer_raises (clock_problem r) family r)

abbrev pub event_is : ClockEvent → Option VaultDecision → Bool
event_is event none = false
event_is event (some d) = same_event d.event event

abbrev pub is_problem : ClockEvent → Bool
is_problem (ClockEvent.recovered family) = false
is_problem _ = true

raise_new-differs :
    (standing event : ClockEvent) (reason : Reason)
    → event_is standing (raise_new (some standing) event reason) ≡ false
raise_new-differs standing event reason = ground arith

answer-differs :
    (standing : ClockEvent) (found : Option Reason) (family : Family) (r : ClockReading)
    → is_problem standing ≡ true
    → event_is standing (alert_answer found family r (some standing)) ≡ false
answer-differs standing none family r h = ground arith
answer-differs standing (some reason) family r h =
    raise_new-differs standing (ClockEvent.clock_wrong family) reason

-- While an alert of a problem stands, no reading raises the same alert again.
pub decide_alert-differs :
    (lib : Library) (family : Family) (prev : ClockEnclave) (r : ClockReading) (key_id : String)
    (standing : ClockEvent)
    → is_problem standing ≡ true
    → event_is standing (decide_alert lib family prev r (some standing) key_id) ≡ false
unfolding decide_alert
decide_alert-differs lib family prev r key_id standing h =
    if_both (λ d. event_is standing d ≡ false) (is_ok r.outcome) _ _
      (answer-differs standing (clock_problem r) family r h)
      (if_both (λ d. event_is standing d ≡ false) (config_missing r key_id) none _ refl
        (if_both (λ d. event_is standing d ≡ false) (has_failed_closed lib r) _ _
          (raise_new-differs standing (ClockEvent.clock_wrong family) (failed_closed r.error))
          (if_both (λ d. event_is standing d ≡ false)
            (is_unreachable r.outcome && leb max_failed_polls (prev.failed_polls + 1)) _ none
            (raise_new-differs standing (ClockEvent.gone family)
              (silent (prev.failed_polls + 1) r.error))
            refl)))
