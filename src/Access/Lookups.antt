-- ===== src/Access/Lookups.antt =====
-- What the held roles allow (internal/auth/rbac.go, the loops of `Resolve`).
use container_app_service_mo.Base.{
  ◌≡◌, refl, ap, ◌∙◌, Bool, true, false, ◌&&◌, ◌||◌, List, [], ◌∷◌, ◌++◌, String, arith, any,
  any-append, none, Bool-cases, inl, inr,
}
use container_app_service_mo.Base.Words.{contains, add_words, contains-add_words}
use container_app_service_mo.Access.{RoleSpec, role, spec_permissions, union_permissions}
use text.Mathlib.Text.{◌==◌ as str_eq}
use text.Mathlib.TextEquality.{eq_iff}
use container_app_service_mo.Access.Tables.{AllDistinct, any-congr, any-or}

pub contains-union_permissions :
    (perm : String) (specs : List RoleSpec) (ns acc : List String)
    → contains perm (union_permissions specs ns acc)
      ≡ (any (λ n. contains perm (spec_permissions (role specs n))) ns || contains perm acc)
unfolding union_permissions
contains-union_permissions perm specs [] acc = refl
contains-union_permissions perm specs (n ∷ ns) acc = ground (
  arith,
  contains-union_permissions perm specs ns (add_words (spec_permissions (role specs n)) acc),
  contains-add_words perm (spec_permissions (role specs n)) acc,
)

-- A name before a list of distinct ones is not looked up in it.
pub role-none :
    (n : String) (before : List String) (specs : List RoleSpec)
    → AllDistinct before specs
    → contains n before ≡ true
    → role specs n ≡ none
unfolding role
role-none n before [] d h = refl
role-none n before (s ∷ specs) d h = elim (Bool-cases (str_eq s.name n)) [
  | inl same ↦ absurd (ground (arith, d.0, ap (λ w. contains w before) ((eq_iff s.name n).0 same)))
  | inr apart ↦ rw apart (
      role-none n (before ++ s.name ∷ []) specs d.1
        (ground (arith, any-append (str_eq n) before (s.name ∷ []))))
]

pub any-and_left :
    (w : String) (b : Bool) (ns : List String)
    → any (λ n. str_eq w n && b) ns ≡ (contains w ns && b)
any-and_left w b [] = refl
any-and_left w b (n ∷ ns) = ground (arith, any-and_left w b ns)

pub any-false {ℓ} : {A : Type ℓ} (xs : List A) → any (λ x. false) xs ≡ false
any-false [] = refl
any-false (x ∷ xs) = any-false xs

pub any-role :
    (perm : String) (before : List String) (specs : List RoleSpec) (ns : List String)
    → AllDistinct before specs
    → any (λ n. contains perm (spec_permissions (role specs n))) ns
      ≡ any (λ s. contains s.name ns && contains perm s.permissions) specs
unfolding role
any-role perm before [] ns d = any-false ns
any-role perm before (s ∷ specs) ns d =
    any-congr _ _ ns pointwise
    ∙ any-or (λ n. str_eq s.name n && contains perm s.permissions)
        (λ n. contains perm (spec_permissions (role specs n))) ns
    ∙ ground (
      arith,
      any-and_left s.name (contains perm s.permissions) ns,
      any-role perm (before ++ s.name ∷ []) specs ns d.1,
    )
  where
    pointwise :
        (n : String)
        → contains perm (spec_permissions (role (s ∷ specs) n)) ≡ (
            (str_eq s.name n && contains perm s.permissions)
            || contains perm (spec_permissions (role specs n)))
    pointwise n = elim (Bool-cases (str_eq s.name n)) [
      | inl same ↦ rw (same, later n same) (ground arith)
      | inr apart ↦ rw apart
    ]
      where
        later : (n : String) → str_eq s.name n ≡ true → role specs n ≡ none
        later n same = role-none n (before ++ s.name ∷ []) specs d.1 (
            ground
              (arith, any-append (str_eq n) before (s.name ∷ []), eq_iff s.name n, eq_iff n s.name))
