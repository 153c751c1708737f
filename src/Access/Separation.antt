-- ===== src/Access/Separation.antt =====
-- The check that no incompatible roles are held together (internal/auth/rbac.go, `Resolve`).
use container_app_service_mo.Base.{
  ◌≡◌, refl, ap, ◌∙◌, Bool, true, false, List, [], ◌∷◌, String, arith, if◌then◌else◌, Option, none,
  some, Bool-cases, inl, inr,
}
use container_app_service_mo.Base.Words.{contains}
use container_app_service_mo.Base.Results.{Result, ok, err, ◌>>◌}
use container_app_service_mo.Access.{
  RoleSpec, role, spec_incompatible, ResolveError, no_register_role, separation_of_duties,
  acting_not_held, first_held, check_separation, refuse_pair,
}
use text.Mathlib.Text.{◌==◌ as str_eq}
use text.Mathlib.TextEquality.{eq_iff}

-- Looking for a held role in a list.
abbrev pub Finds : List String → List String → Option String → Type 0
Finds held others none =
    (other : String) → contains other others ≡ true → contains other held ≡ false
Finds held others (some other) = (contains other others ≡ true) × (contains other held ≡ true)

pub first_held-Finds : (held others : List String) → Finds held others (first_held held others)
unfolding first_held
first_held-Finds held [] = λ other h. cc
first_held-Finds held (o ∷ os) =
    step (contains o held) refl (first_held held os) (first_held-Finds held os)
  where
    step :
        (b : Bool)
        → contains o held ≡ b
        → (rest : Option String) → Finds held os rest
        → Finds held (o ∷ os) (if b then some o else rest)
    step true on rest h = (ground (arith, eq_iff o o), on)
    step false off none h = λ other at. elim (Bool-cases (str_eq other o)) [
      | inl same ↦ ap (λ w. contains w held) ((eq_iff other o).0 same) ∙ off
      | inr apart ↦ h other (ground arith)
    ]
    step false off (some other) h = (ground (arith, h.0), h.1)

abbrev pub Separates :
    List RoleSpec → List String → List String → Result ResolveError (Unit {0}) → Type 0
Separates specs held ns (ok u) =
    (name other : String)
    → contains name ns ≡ true
    → contains other (spec_incompatible (role specs name)) ≡ true
    → contains other held ≡ false
Separates specs held ns (err (separation_of_duties name other)) =
    (contains name ns ≡ true)
    × (contains other held ≡ true)
    × (contains other (spec_incompatible (role specs name)) ≡ true)
Separates specs held ns (err no_register_role) = ⊥
Separates specs held ns (err (acting_not_held w)) = ⊥

pub check_separation-Separates :
    (specs : List RoleSpec) (held ns : List String)
    → Separates specs held ns (check_separation specs held ns)
unfolding check_separation
check_separation-Separates specs held [] = λ name other h k. cc
check_separation-Separates specs held (n ∷ ns) =
    step (first_held held (spec_incompatible (role specs n)))
      (first_held-Finds held (spec_incompatible (role specs n))) (check_separation specs held ns)
      (check_separation-Separates specs held ns)
  where
    step :
        (found : Option String)
        → Finds held (spec_incompatible (role specs n)) found
        → (rest : Result ResolveError (Unit {0})) → Separates specs held ns rest
        → Separates specs held (n ∷ ns) (refuse_pair n found >> rest)
    step (some other) f rest h = (ground (arith, eq_iff n n), f.1, f.0)
    step none f (ok u) h = λ name other at bad. elim (Bool-cases (str_eq name n)) [
      | inl same ↦ f other (rw ((eq_iff name n).0 same) at bad)
      | inr apart ↦ h name other (ground arith) bad
    ]
    step none f (err (separation_of_duties name other)) h = (ground (arith, h.0), h.1, h.2)
    step none f (err no_register_role) h = absurd h
    step none f (err (acting_not_held w)) h = absurd h
