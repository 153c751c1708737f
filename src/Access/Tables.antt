-- ===== src/Access/Tables.antt =====
-- The tables of the role model (internal/auth/rbac.go, `NewModel`), as tests on the declared roles.
use container_app_service_mo.Base.{
  ◌≡◌, refl, ap, ◌∙◌, Bool, false, ◌&&◌, ◌||◌, List, [], ◌∷◌, ◌++◌, String, arith, any, any-append,
  str_ltb, Bool-cases, inl, inr,
}
use container_app_service_mo.Base.Sort.{sort, any-sort}
use container_app_service_mo.Base.Words.{contains, add_words, contains-add_words}
use container_app_service_mo.Base.Results.{ok, >>=-eq-ok}
use container_app_service_mo.Access.{
  RoleSpec, Model, names_of, grants_of, add_roles, check_roles, new_model, Identity, roles_granted,
  held_from,
}
use mathlib.Core.List.{append-nil, append_assoc}
use text.Mathlib.Text.{◌==◌ as str_eq}
use text.Mathlib.TextEquality.{eq_iff}

-- Whether a caller has an identity-provider role that grants the role of that name.
abbrev pub is_held : List RoleSpec → Identity → String → Bool
is_held specs id name =
    any (λ r. any (λ s. contains r s.oidc_roles && str_eq name s.name) specs) id.roles

-- The tables that the loop of `NewModel` fills.
pub any-grants_of :
    (g : String × String → Bool) (name : String) (rs : List String)
    → any g (grants_of name rs) ≡ any (λ r. g (r, name)) rs
unfolding grants_of
any-grants_of g name [] = refl
any-grants_of g name (r ∷ rs) = ground (arith, any-grants_of g name rs)

-- No role of the list has a name among those before it.
abbrev pub AllDistinct : List String → List RoleSpec → Type 0
AllDistinct before [] = Unit
AllDistinct before (s ∷ specs) =
    (contains s.name before ≡ false) × AllDistinct (before ++ s.name ∷ []) specs

pub names_of-append :
    (xs : List RoleSpec) (s : RoleSpec) → names_of (xs ++ s ∷ []) ≡ names_of xs ++ s.name ∷ []
unfolding names_of
names_of-append [] s = refl
names_of-append (x ∷ xs) s = ap (λ ns. x.name ∷ ns) (names_of-append xs s)

abbrev pub Filled : Model → List RoleSpec → Model → Type 0
Filled m specs r =
    (r.roles ≡ m.roles ++ specs)
    × ((g : String × String → Bool)
        → any g r.by_role
          ≡ (any g m.by_role || any (λ s. any (λ o. g (o, s.name)) s.oidc_roles) specs))
    × AllDistinct (names_of m.roles) specs

pub any-or {ℓ} :
    {A : Type ℓ} (f g : A → Bool) (xs : List A) → any (λ x. f x || g x) xs ≡ (any f xs || any g xs)
any-or f g [] = refl
any-or f g (x ∷ xs) = ground (arith, any-or f g xs)

pub any-congr {ℓ} :
    {A : Type ℓ} (f g : A → Bool) (xs : List A) → ((x : A) → f x ≡ g x) → any f xs ≡ any g xs
any-congr f g [] h = refl
any-congr f g (x ∷ xs) h = ground (arith, h x, any-congr f g xs h)

pub add_roles-Filled :
    (m : Model) (specs : List RoleSpec) {r : Model} → add_roles m specs ≡ ok r → Filled m specs r
unfolding add_roles
add_roles-Filled m [] {r} h =
    let same : m ≡ r = cc in
    (cc (append-nil m.roles), (λ g. ground (arith, ap (λ (x : Model). any g x.by_role) same)), tt)
add_roles-Filled m (s ∷ specs) {r} h = elim (Bool-cases (str_eq s.name "")) [
  | inl unnamed ↦ absurd (ground arith)
  | inr named ↦ elim (Bool-cases (contains s.name (names_of m.roles))) [
    | inl twice ↦ absurd (ground arith)
    | inr new ↦
        let next : Model = record {
          roles = m.roles ++ s ∷ [];
          by_role = m.by_role ++ grants_of s.name s.oidc_roles;
        } in
        let rest = add_roles-Filled next specs (rw (named, new) at h) in
        (
          rest.0 ∙ append_assoc m.roles (s ∷ []) specs,
          (λ g. ground (
            arith,
            rest.1 g,
            any-append g m.by_role (grants_of s.name s.oidc_roles),
            any-grants_of g s.name s.oidc_roles,
          )),
          (new, rw (names_of-append m.roles s) at (rest.2)),
        )
  ]
]

abbrev pub empty_model : Model
empty_model = record { roles = []; by_role = [] }

pub new_model-Filled :
    (specs : List RoleSpec) {m : Model} → new_model specs ≡ ok m → Filled empty_model specs m
unfolding new_model
new_model-Filled specs {m} h =
    let (built, made, rest) = >>=-eq-ok (add_roles empty_model specs) _ h in
    let (done, checked, same) = >>=-eq-ok (check_roles (names_of built.roles) built.roles) _ rest in
    let e : built ≡ m = cc in rw e at (add_roles-Filled empty_model specs made)

pub contains-roles_granted :
    (name r : String) (pairs : List (String × String))
    → contains name (roles_granted r pairs) ≡ any (λ p. str_eq p.0 r && str_eq name p.1) pairs
unfolding roles_granted
contains-roles_granted name r [] = refl
contains-roles_granted name r ((granting, granted) ∷ pairs) =
    ground (arith, contains-roles_granted name r pairs)

pub contains-held_from :
    (name : String) (pairs : List (String × String)) (rs held : List String)
    → contains name (held_from pairs rs held)
      ≡ (any (λ r. contains name (roles_granted r pairs)) rs || contains name held)
unfolding held_from
contains-held_from name pairs [] held = refl
contains-held_from name pairs (r ∷ rs) held = ground (
  arith,
  contains-held_from name pairs rs (add_words (roles_granted r pairs) held),
  contains-add_words name (roles_granted r pairs) held,
)

pub any-and_right :
    (r : String) (b : Bool) (os : List String)
    → any (λ o. str_eq o r && b) os ≡ (contains r os && b)
any-and_right r b [] = refl
any-and_right r b (o ∷ os) = ground (arith, eq_iff o r, eq_iff r o, any-and_right r b os)

module _ (specs : List RoleSpec) (m : Model) (built : new_model specs ≡ ok m) where
  abbrev pub names : Identity → List String
  names id = sort str_ltb (held_from m.by_role id.roles [])

  granted_by :
      (name r : String)
      → contains name (roles_granted r m.by_role)
        ≡ any (λ s. contains r s.oidc_roles && str_eq name s.name) specs
  granted_by name r =
      contains-roles_granted name r m.by_role
      ∙ (new_model-Filled specs built).1 (λ p. str_eq p.0 r && str_eq name p.1)
      ∙ any-congr _ _ specs (λ s. any-and_right r (str_eq name s.name) s.oidc_roles)

  pub contains-names :
      (id : Identity) (name : String) → contains name (names id) ≡ is_held specs id name
  contains-names id name =
      any-sort str_ltb (str_eq name) (held_from m.by_role id.roles [])
      ∙ ground (
        arith,
        contains-held_from name m.by_role id.roles [],
        any-congr (λ r. contains name (roles_granted r m.by_role)) _ id.roles (granted_by name),
      )
