-- ===== src/Access/Resolved.antt =====
-- What resolving a caller gives (internal/auth/rbac.go, `Resolve`), against the declared roles.
use container_app_service_mo.Base.{
  ◌≡◌, refl, sym, ap, ◌∙◌, Bool, true, false, ◌&&◌, List, [], ◌∷◌, String, arith, if◌then◌else◌,
  any, Bool-cases, inl, inr,
}
use container_app_service_mo.Base.Words.{contains}
use container_app_service_mo.Base.Results.{Result, ok, err, ◌>>=◌, ◌>>◌}
use container_app_service_mo.Access.{
  RoleSpec, Model, names_of, new_model, role, spec_permissions, spec_incompatible, Identity,
  Principal, ResolveError, no_register_role, separation_of_duties, acting_not_held,
  check_separation, acting_role, union_permissions, clears_pii, is_nil, resolve, can, head_or,
}
use text.Mathlib.Text.{◌==◌ as str_eq}
use text.Mathlib.TextEquality.{eq_iff}
use container_app_service_mo.Access.Tables.{
  is_held, names, contains-names, new_model-Filled, any-congr,
}
use container_app_service_mo.Access.Lookups.{contains-union_permissions, any-role}
use container_app_service_mo.Access.Separation.{Separates, check_separation-Separates}

-- What the declared roles that are held allow.
abbrev pub is_allowed : List RoleSpec → Identity → String → Bool
is_allowed specs id perm = any (λ s. is_held specs id s.name && contains perm s.permissions) specs

pub record IsGranted (specs : List RoleSpec) (id : Identity) (requested : String) (p : Principal)
    : Type 0 where
  pub holds : (name : String) → contains name p.roles ≡ is_held specs id name
  pub acts : is_held specs id p.acting ≡ true
  pub acts_as_asked : str_eq requested "" ≡ false → p.acting ≡ requested
  pub allows : (perm : String) → can p perm ≡ is_allowed specs id perm
  pub keeps_apart :
      (name other : String)
      → is_held specs id name ≡ true
      → contains other (spec_incompatible (role specs name)) ≡ true
      → is_held specs id other ≡ false

-- What each outcome says of the caller.
abbrev pub Explains : List RoleSpec → Identity → String → Result ResolveError Principal → Type 0
Explains specs id requested (ok p) = IsGranted specs id requested p
Explains specs id requested (err no_register_role) = (name : String) → is_held specs id name ≡ false
Explains specs id requested (err (separation_of_duties name other)) =
    (is_held specs id name ≡ true)
    × (is_held specs id other ≡ true)
    × (contains other (spec_incompatible (role specs name)) ≡ true)
Explains specs id requested (err (acting_not_held name)) =
    (name ≡ requested) × (str_eq name "" ≡ false) × (is_held specs id name ≡ false)

contains-head :
    (d : String) (ns : List String) → is_nil ns ≡ false → contains (head_or d ns) ns ≡ true
contains-head d [] h = cc
contains-head d (n ∷ ns) h = ground (arith, eq_iff n n)

is_nil-none : (ns : List String) → is_nil ns ≡ true → (name : String) → contains name ns ≡ false
is_nil-none [] h name = refl
is_nil-none (n ∷ ns) h name = cc

acting_role-held :
    (ns : List String) (requested : String) {on : String}
    → is_nil ns ≡ false
    → ok on ≡ acting_role ns requested
    → (contains on ns ≡ true) × (str_eq requested "" ≡ false → on ≡ requested)
unfolding acting_role
acting_role-held ns requested {on} h e = elim (Bool-cases (str_eq requested "")) [
  | inl default ↦
      let same : on ≡ head_or requested ns = ground arith in
      (rw same (contains-head requested ns h), (λ off. absurd (ground arith)))
  | inr asked ↦ ground arith
]

acting_role-not_held :
    (ns : List String) (requested : String) {w : String}
    → err (acting_not_held w) ≡ acting_role ns requested
    → (w ≡ requested) × (str_eq w "" ≡ false) × (contains w ns ≡ false)
unfolding acting_role
acting_role-not_held ns requested {w} e = ground arith

module _ (specs : List RoleSpec) (m : Model) (built : new_model specs ≡ ok m) (id : Identity)
    (tenant requested : String) where
  abbrev held : List String
  held = names specs m built id

  abbrev principal : String → Principal
  principal acting = record {
    sub = id.sub;
    display = if str_eq id.display "" then id.sub else id.display;
    email = id.email;
    tenant = tenant;
    roles = held;
    acting = acting;
    pii = clears_pii m.roles held;
    perms = union_permissions m.roles held [];
  }

  roles_same : m.roles ≡ specs
  roles_same = (new_model-Filled specs built).0

  holds : (name : String) → contains name held ≡ is_held specs id name
  holds = contains-names specs m built id

  allows_all : (acting perm : String) → can (principal acting) perm ≡ is_allowed specs id perm
  unfolding can names_of
  allows_all acting perm =
      ground (arith, contains-union_permissions perm m.roles held [])
      ∙ ap (λ rs. any (λ n. contains perm (spec_permissions (role rs n))) held) roles_same
      ∙ any-role perm [] specs held (new_model-Filled specs built).2
      ∙ any-congr _ _ specs (λ s. ground (arith, holds s.name))

  separated :
      Separates m.roles held held (ok tt)
      → (name other : String) → is_held specs id name ≡ true
      → contains other (spec_incompatible (role specs name)) ≡ true
      → is_held specs id other ≡ false
  separated apart name other h bad =
      sym (holds other) ∙ apart name other (holds name ∙ h) (rw roles_same bad)

  granted :
      (on : String)
      → contains on held ≡ true
      → Separates m.roles held held (ok tt)
      → (str_eq requested "" ≡ false → on ≡ requested)
      → IsGranted specs id requested (principal on)
  granted on h apart asked = record {
    holds = holds;
    acts = sym (holds on) ∙ h;
    acts_as_asked = asked;
    allows = allows_all on;
    keeps_apart = separated apart;
  }

  with_acting :
      (on : Result ResolveError String)
      → on ≡ acting_role held requested
      → is_nil held ≡ false
      → Separates m.roles held held (ok tt)
      → Explains specs id requested (on >>= λ acting. ok (principal acting))
  unfolding acting_role
  with_acting (ok on) e some_held apart =
      let found = acting_role-held held requested some_held e in granted on found.0 apart found.1
  with_acting (err no_register_role) e some_held apart = absurd (ground arith)
  with_acting (err (separation_of_duties a b)) e some_held apart = absurd (ground arith)
  with_acting (err (acting_not_held w)) e some_held apart =
      let found = acting_role-not_held held requested e in
      (found.0, found.1, sym (holds w) ∙ found.2)

  with_separation :
      (done : Result ResolveError (Unit {0}))
      → is_nil held ≡ false
      → Separates m.roles held held done
      → Explains specs id requested
          (done >> (acting_role held requested >>= λ acting. ok (principal acting)))
  with_separation (ok u) some_held apart =
      with_acting (acting_role held requested) refl some_held apart
  with_separation (err (separation_of_duties name other)) some_held h =
      (sym (holds name) ∙ h.0, sym (holds other) ∙ h.1, rw roles_same at (h.2))
  with_separation (err no_register_role) some_held h = absurd h
  with_separation (err (acting_not_held w)) some_held h = absurd h

  -- For a role model that was accepted: a caller that is resolved holds exactly the roles that its
  -- identity-provider roles grant, acts under one of them (the requested one, if any), may do
  -- exactly what the roles it holds declare, and holds no role together with one that it declares
  -- incompatible; a caller refused for having no role holds none; one refused for separation of
  -- duties holds both roles, of which one declares the other incompatible; one refused for its
  -- acting role asked for a role that it does not hold.
  pub resolve-Explains : Explains specs id requested (resolve m id tenant requested)
  unfolding resolve
  resolve-Explains = elim (Bool-cases (is_nil held)) [
    | inl empty ↦ rw empty (λ name. sym (holds name) ∙ is_nil-none held empty name)
    | inr some_held ↦ rw some_held (
        with_separation (check_separation m.roles held held) some_held
          (check_separation-Separates m.roles held held))
  ]
