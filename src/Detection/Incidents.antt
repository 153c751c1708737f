-- ===== src/Detection/Incidents.antt =====
-- The incident that a component is tied to when it goes down (internal/core/detect.go,
-- `openAutoIncident`).
use container_app_service_mo.Base.{
  ℕ, ◌≡◌, refl, ◌≤◌, Bool, true, false, List, [], ◌∷◌, arith, String, Option, none, some,
  Bool-cases, inl, inr, All, ◌⊎◌, if◌then◌else◌, ltb,
}
use mathlib.Core.List.{Memᴰ}
use container_app_service_mo.Model.{Sample}
use container_app_service_mo.Detection.{Component}
use container_app_service_mo.Detection.Changes.{
  Incident, WriteOp, insert_incident, update_incident, investigating, is_open_on, latest_open,
  open_auto_incident, open_found, auto_incident,
}

module _ (like : String → String → Bool) (c : Component) where
  -- No incident of the list is open on the component.
  abbrev pub NoneOpen : List Incident → Type 0
  NoneOpen = All (λ inc. is_open_on like c inc ≡ false)

  -- Of those that are, none opened later.
  abbrev pub NoneLater : ℕ → List Incident → Type 0
  NoneLater at = All (λ inc. is_open_on like c inc ≡ true → inc.opened_at ≤ at)

  abbrev pub IsLatestOpen : List Incident → Option Incident → Type 0
  IsLatestOpen incidents none = NoneOpen incidents
  IsLatestOpen incidents (some inc) =
      Memᴰ inc incidents × (is_open_on like c inc ≡ true) × NoneLater inc.opened_at incidents

  NoneOpen-NoneLater : (at : ℕ) (incs : List Incident) → NoneOpen incs → NoneLater at incs
  NoneOpen-NoneLater at [] h = tt
  NoneOpen-NoneLater at (inc ∷ incs) h =
      (λ on. ground (arith, on, h.0), NoneOpen-NoneLater at incs h.1)

  NoneLater-mono : (a b : ℕ) (incs : List Incident) → a ≤ b → NoneLater a incs → NoneLater b incs
  NoneLater-mono a b [] le h = tt
  NoneLater-mono a b (inc ∷ incs) le h =
      (λ on. omega (arith, h.0 on), NoneLater-mono a b incs le h.1)

  pick_later :
      (inc other : Incident) (incs : List Incident) (b : Bool)
      → ltb inc.opened_at other.opened_at ≡ b
      → is_open_on like c inc ≡ true
      → IsLatestOpen incs (some other)
      → IsLatestOpen (inc ∷ incs) (some (if b then other else inc))
  pick_later inc other incs true lt on h = (Memᴰ.tail h.0, h.1, ((λ w. ground (arith, lt)), h.2))
  pick_later inc other incs false ge on h = (
    Memᴰ.head refl,
    on,
    (
      (λ w. omega arith),
      NoneLater-mono other.opened_at inc.opened_at incs (ground (arith, ge)) h.2,
    ),
  )

  step_open :
      (inc : Incident) (incs : List Incident) (rest : Option Incident)
      → is_open_on like c inc ≡ true
      → IsLatestOpen incs rest
      → IsLatestOpen (inc ∷ incs) (elim rest [
        | none ↦ some inc
        | some other ↦ some (if ltb inc.opened_at other.opened_at then other else inc)
      ])
  step_open inc incs none on h =
      (Memᴰ.head refl, on, ((λ w. omega arith), NoneOpen-NoneLater inc.opened_at incs h))
  step_open inc incs (some other) on h = pick_later inc other incs _ refl on h

  step_shut :
      (inc : Incident) (incs : List Incident) (rest : Option Incident)
      → is_open_on like c inc ≡ false
      → IsLatestOpen incs rest
      → IsLatestOpen (inc ∷ incs) rest
  step_shut inc incs none off h = (off, h)
  step_shut inc incs (some other) off h = (Memᴰ.tail h.0, h.1, ((λ w. ground (arith, w, off)), h.2))

  pub latest_open-IsLatestOpen :
      (incs : List Incident) → IsLatestOpen incs (latest_open like c incs)
  unfolding latest_open
  latest_open-IsLatestOpen [] = tt
  latest_open-IsLatestOpen (inc ∷ incs) = elim (Bool-cases (is_open_on like c inc)) [
    | inl on ↦
        rw on (step_open inc incs (latest_open like c incs) on (latest_open-IsLatestOpen incs))
    | inr off ↦
        rw off (step_shut inc incs (latest_open like c incs) off (latest_open-IsLatestOpen incs))
  ]

-- The incident that a component which goes down is tied to.
abbrev pub IsTied :
    (String → String → Bool) → Component → List Incident → String → String × List WriteOp → Type 0
IsTied like c incidents new_id r =
    ((inc : Incident) × IsLatestOpen like c incidents (some inc) × (r.0 ≡ inc.id) × (r.1 ≡ []))
    ⊎ (NoneOpen like c incidents
        × (r.0 ≡ new_id)
        × ((inc : Incident) × (r.1
              ≡ insert_incident inc ∷ update_incident new_id investigating inc.opened_at ∷ [])
            × (inc.id ≡ new_id)
            × (inc.components ≡ c.id)
            × (inc.auto ≡ true)))

open_found-IsTied :
    (like : String → String → Bool) (c : Component) (incidents : List Incident)
    (o : Option Incident) (samples : List Sample) (now : ℕ) (new_id : String)
    → IsLatestOpen like c incidents o
    → IsTied like c incidents new_id (open_found o c samples now new_id)
open_found-IsTied like c incidents none samples now new_id h =
    inr (h, refl, (auto_incident c samples now new_id, refl, refl, refl, refl))
open_found-IsTied like c incidents (some inc) samples now new_id h = inl (inc, h, refl, refl)

-- A component that goes down is tied to the open incident on it that opened last, with nothing
-- written; only where none is open is a new one inserted, on that component and marked as the
-- monitor's own.
pub open_auto_incident-IsTied :
    (like : String → String → Bool) (c : Component) (incidents : List Incident)
    (samples : List Sample) (now : ℕ) (new_id : String)
    → IsTied like c incidents new_id (open_auto_incident like incidents c samples now new_id)
unfolding open_auto_incident
open_auto_incident-IsTied like c incidents samples now new_id =
    open_found-IsTied like c incidents (latest_open like c incidents) samples now new_id
      (latest_open-IsLatestOpen like c incidents)
