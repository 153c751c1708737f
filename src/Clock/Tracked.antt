-- ===== src/Clock/Tracked.antt =====
-- What a poll does to an enclave, and what it keeps (internal/clock/service.go, `Poll`).
use container_app_service_mo.Base.{
  ◌≡◌, refl, Bool, true, false, not, ◌&&◌, ◌||◌, if◌then◌else◌, List, [], ◌∷◌, String, Option, none,
  some, arith, All, ap, Bool-cases, inl, inr,
}
use container_app_service_mo.Base.Int.{ℤ}
use container_app_service_mo.Clock.{
  Library, ClockReading, Reason, never_acknowledged, ClockEnclave, Enclave, clock_armed,
  clock_never_configured, is_vault,
}
use container_app_service_mo.Clock.Decide.{
  is_ok, clean_reading, ClockOp, release, Decision, decide, Family, vault, unconfigured,
  decide_alert, VaultDecision,
}
use container_app_service_mo.Clock.Rounds.{
  advance, alert_on_reading, record_alert, alert_on_vault, clear_unconfigured_alert, CallResult,
  Held, Polled, ClockAction, act, act_on, after_call, poll, latest_entry, platform_holds,
  standing_event,
}
use container_app_service_mo.Clock.Grounds.{
  has_grounds, asks_quarantine, asks_release, decide-asks, is_quarantine,
}

-- An action asked for on these grounds: Q for a quarantine, R for a release.
abbrev pub Rests : Type 0 → Type 0 → ClockAction → Type 0
Rests Q R a = (is_quarantine a.op ≡ true → Q) × (is_quarantine a.op ≡ false → R)

pub record_alert-actions :
    (d : Option VaultDecision) (r : ClockReading) (p : Polled)
    → (record_alert d r p).actions ≡ p.actions
record_alert-actions none r p = refl
record_alert-actions (some d) r p = refl

pub clear-actions :
    (e : Enclave) (r : ClockReading) (p : Polled)
    → (clear_unconfigured_alert e r p).actions ≡ p.actions
unfolding clear_unconfigured_alert
clear-actions e r p = ground arith

module _ (Q R : Type 0) (control : ClockOp → String → Reason → CallResult) where
  after_call-Rests :
      (d : Decision) (r : ClockReading) (at : ℤ) (result : CallResult) (failure : Option String)
      (p : Polled)
      → (is_quarantine d.op ≡ true → Q)
      → (is_quarantine d.op ≡ false → R)
      → All (Rests Q R) (after_call d r at result failure p).actions
  after_call-Rests d r at result none p hq hr = ((hq, hr), tt)
  after_call-Rests d r at result (some why) p hq hr = ((hq, hr), tt)

  act_on-Rests :
      (e : Enclave) (r : ClockReading) (o : Option Decision) (at : ℤ) (p : Polled)
      → p.actions ≡ []
      → (asks_quarantine o ≡ true → Q)
      → (asks_release o ≡ true → R)
      → All (Rests Q R) (act_on control e r o at p).actions
  unfolding act
  act_on-Rests e r none at p empty hq hr = rw empty tt
  act_on-Rests e r (some d) at p empty hq hr =
      after_call-Rests d r at (control d.op e.id d.reason) _ p hq (λ h. hr (ap not h))

module _ (control : ClockOp → String → Reason → CallResult) (lib : Library) (key_id : String)
    (listed_as : Enclave) (held : Held) (r : ClockReading) (at : ℤ) where
  -- The entry that the poll acts on, and whether the quarantine that stands is the monitor's own.
  abbrev pub entry : Enclave
  entry = latest_entry control listed_as held.listed

  abbrev pub is_own : Bool
  is_own = held.position.quarantined && platform_holds control held.listed

  abbrev pub MayQuarantine : Type 0
  MayQuarantine =
      (is_vault lib entry ≡ false)
      × (clock_armed entry ≡ true)
      × (platform_holds control held.listed ≡ false)
      × (has_grounds lib held.position r key_id ≡ true)

  abbrev pub MayRelease : Type 0
  MayRelease =
      (is_own ≡ true)
      × ((clock_never_configured entry || is_ok r.outcome && clean_reading r) ≡ true)

  -- The position with which `Decide` is asked.
  abbrev pub before : ClockEnclave
  before = record held.position { quarantined = is_own }

  unfoldable pub asked : Option Decision
  asked = decide lib before r (platform_holds control held.listed) key_id

  asks-MayQuarantine :
      is_vault lib entry ≡ false
      → clock_armed entry ≡ true
      → asks_quarantine asked ≡ true
      → MayQuarantine
  unfolding asked
  asks-MayQuarantine v a h =
      let both = decide-asks lib before r (platform_holds control held.listed) key_id in
      (v, a, ground (arith, both.0, h), ground (arith, both.0, h))

  asks-MayRelease : asks_release asked ≡ true → MayRelease
  unfolding asked
  asks-MayRelease h =
      let both = decide-asks lib before r (platform_holds control held.listed) key_id in
      (ground (arith, both.1, h), ground (arith, both.1, h))

  -- The poll before anything is raised or asked for.
  abbrev pub start : Polled
  start =
      let next = advance held.position entry r key_id (platform_holds control held.listed) in
      record {
        held = record held { position = next };
        actions = [];
        events = [];
        notices = alert_on_reading held.position next r;
      }

  abbrev pub alerted : Family → Polled
  alerted family = alert_on_vault lib family held.position r key_id start

  alerted-Rests : (family : Family) → All (Rests MayQuarantine MayRelease) (alerted family).actions
  unfolding alert_on_vault
  alerted-Rests family =
      rw
        (record_alert-actions
          (decide_alert lib family held.position r (standing_event held.standing) key_id) r start)
        tt

  unfoldable pub lift : Decision
  lift = record { op = release; reason = never_acknowledged entry.clock_config_current }

  unarmed-Rests :
      (due : Bool)
      → (due ≡ true → MayRelease)
      → All
          (Rests MayQuarantine MayRelease)
          (if due
            then act control entry r lift at (alerted unconfigured)
            else alerted unconfigured).actions
  unfolding lift act
  unarmed-Rests true h =
      after_call-Rests MayQuarantine MayRelease control lift r at
        (control lift.op entry.id lift.reason) _ (alerted unconfigured) (λ q. absurd (cc q))
        (λ q. h refl)
  unarmed-Rests false h = alerted-Rests unconfigured

  branches-Rests :
      (is_a_vault unarmed : Bool)
      → is_vault lib entry ≡ is_a_vault
      → not (clock_armed entry) ≡ unarmed
      → All
          (Rests MayQuarantine MayRelease)
          (if is_a_vault
            then alerted vault
            else if unarmed
            then (if is_own && (platform_holds control held.listed && clock_never_configured entry)
                then act control entry r lift at (alerted unconfigured)
                else alerted unconfigured)
            else act_on control entry r asked at (clear_unconfigured_alert entry r start)).actions
  branches-Rests true unarmed v a = alerted-Rests vault
  branches-Rests false true v a = unarmed-Rests _ (λ h. ground (arith, h))
  branches-Rests false false v a =
      act_on-Rests MayQuarantine MayRelease control entry r asked at
        (clear_unconfigured_alert entry r start) (clear-actions entry r start)
        (asks-MayQuarantine v (ground (arith, a))) asks-MayRelease

  -- Every quarantine that a poll asks for is of an armed enclave that is no vault, in service, and
  -- with grounds; every release is of a quarantine that is the monitor's own and that the platform
  -- still shows, on a clean answer or where the runtime never acknowledged any config.
  pub poll-Rests :
      All (Rests MayQuarantine MayRelease) (poll control lib key_id listed_as held r at).actions
  unfolding poll asked lift
  poll-Rests = branches-Rests (is_vault lib entry) (not (clock_armed entry)) refl refl

  no_actions :
      (actions : List ClockAction)
      → platform_holds control held.listed ≡ true
      → is_own ≡ false
      → All (Rests MayQuarantine MayRelease) actions
      → actions ≡ []
  no_actions [] p own h = refl
  no_actions (a ∷ actions) p own h = elim (Bool-cases (is_quarantine a.op)) [
    | inl on ↦ let may : MayQuarantine = h.0.0 on in absurd (cc (may.2, p))
    | inr off ↦ let may : MayRelease = h.0.1 off in absurd (cc (may.0, own))
  ]

  -- A poll asks for nothing, quarantine or release, where the platform shows a quarantine that is
  -- not the monitor's own.
  pub poll-leaves_operators :
      platform_holds control held.listed ≡ true
      → held.position.quarantined ≡ false
      → (poll control lib key_id listed_as held r at).actions ≡ []
  poll-leaves_operators p own = no_actions _ p (ground (arith, own)) poll-Rests
