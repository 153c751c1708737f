-- ===== src/Access.antt =====
-- internal/auth: the role model (rbac.go) and the roles that are built in (roles.go). A principal is
-- resolved from the roles that an identity provider gave to a verified caller.
pub mod Tables
pub mod Lookups
pub mod Separation
pub mod Resolved
pub mod Roles
use container_app_service_mo.Base.{
  Bool, true, false, ◌||◌, List, [], ◌∷◌, ◌++◌, String, if◌then◌else◌, any, Option, none, some,
  str_ltb,
}
use container_app_service_mo.Base.Sort.{sort}
use container_app_service_mo.Base.Words.{contains, add_word, add_words}
use container_app_service_mo.Base.Results.{Result, ok, err, ◌>>=◌, ◌>>◌, refuse_if}
use text.Mathlib.Text.{◌==◌ as str_eq}

pub record RoleSpec : Type 0 where
  pub name : String
  pub title : String
  pub oidc_roles : List String
  pub permissions : List String
  pub pii : Bool
  pub incompatible_with : List String

-- `roles` in the order of their declaration; `by_role` has a pair for each identity-provider role of
-- each.
pub record Model : Type 0 where
  pub roles : List RoleSpec
  pub by_role : List (String × String)

pub data ModelError : Type 0 where
  unnamed_role : ModelError
  declared_twice : String → ModelError
  unknown_incompatible : String → String → ModelError

unfoldable pub names_of : List RoleSpec → List String
names_of [] = []
names_of (s ∷ specs) = s.name ∷ names_of specs

unfoldable pub grants_of : String → List String → List (String × String)
grants_of name [] = []
grants_of name (r ∷ rs) = (r, name) ∷ grants_of name rs

-- The loop that fills the two tables, from those of the roles before.
unfoldable pub add_roles : Model → List RoleSpec → Result ModelError Model
unfolding names_of grants_of
add_roles m [] = ok m
add_roles m (s ∷ specs) =
    let rest =
      add_roles
        (record { roles = m.roles ++ s ∷ []; by_role = m.by_role ++ grants_of s.name s.oidc_roles })
        specs in
    if str_eq s.name ""
    then err unnamed_role
    else if contains s.name (names_of m.roles)
    then err (declared_twice s.name)
    else rest

-- The first of a role's incompatible roles that is not declared.
unfoldable pub check_declared : String → List String → List String → Result ModelError (Unit {0})
check_declared name declared [] = ok tt
check_declared name declared (other ∷ others) =
    let rest = check_declared name declared others in
    if contains other declared then rest else err (unknown_incompatible name other)

unfoldable pub check_roles : List String → List RoleSpec → Result ModelError (Unit {0})
unfolding check_declared
check_roles declared [] = ok tt
check_roles declared (s ∷ specs) =
    check_declared s.name declared s.incompatible_with >> check_roles declared specs

unfoldable pub new_model : List RoleSpec → Result ModelError Model
unfolding add_roles check_roles
new_model specs = do
  m ← add_roles (record { roles = []; by_role = [] }) specs
  check_roles (names_of m.roles) m.roles
  ok m

-- A role by its name. `Resolve` looks up only names of `by_role`, which are declared.
unfoldable pub role : List RoleSpec → String → Option RoleSpec
role [] name = none
role (s ∷ specs) name = if str_eq s.name name then some s else role specs name

abbrev pub spec_permissions : Option RoleSpec → List String
spec_permissions none = []
spec_permissions (some s) = s.permissions

abbrev pub spec_incompatible : Option RoleSpec → List String
spec_incompatible none = []
spec_incompatible (some s) = s.incompatible_with

abbrev pub spec_pii : Option RoleSpec → Bool
spec_pii none = false
spec_pii (some s) = s.pii

pub record Identity : Type 0 where
  pub sub : String
  pub display : String
  pub email : String
  pub roles : List String

pub record Principal : Type 0 where
  pub sub : String
  pub display : String
  pub email : String
  pub tenant : String
  pub roles : List String
  pub acting : String
  pub pii : Bool
  pub perms : List String

pub data ResolveError : Type 0 where
  no_register_role : ResolveError
  separation_of_duties : String → String → ResolveError
  acting_not_held : String → ResolveError

-- `m.byRole[r]`.
unfoldable pub roles_granted : String → List (String × String) → List String
roles_granted r [] = []
roles_granted r ((granting, name) ∷ pairs) =
    if str_eq granting r then name ∷ roles_granted r pairs else roles_granted r pairs

unfoldable pub held_from : List (String × String) → List String → List String → List String
unfolding roles_granted add_words
held_from by_role [] held = held
held_from by_role (r ∷ rs) held = held_from by_role rs (add_words (roles_granted r by_role) held)

-- The first role of a list that is held.
unfoldable pub first_held : List String → List String → Option String
first_held held [] = none
first_held held (other ∷ others) =
    if contains other held then some other else first_held held others

abbrev pub refuse_pair : String → Option String → Result ResolveError (Unit {0})
refuse_pair name none = ok tt
refuse_pair name (some other) = err (separation_of_duties name other)

unfoldable pub check_separation :
    List RoleSpec → List String → List String → Result ResolveError (Unit {0})
unfolding role first_held
check_separation specs held [] = ok tt
check_separation specs held (name ∷ names) =
    refuse_pair name (first_held held (spec_incompatible (role specs name)))
    >> check_separation specs held names

abbrev pub head_or : String → List String → String
head_or d [] = d
head_or d (w ∷ ws) = w

-- The role acted under: the requested one, or the first by name.
unfoldable pub acting_role : List String → String → Result ResolveError String
acting_role names requested =
    if str_eq requested ""
    then ok (head_or requested names)
    else if contains requested names
    then ok requested
    else err (acting_not_held requested)

unfoldable pub union_permissions : List RoleSpec → List String → List String → List String
unfolding role add_words
union_permissions specs [] perms = perms
union_permissions specs (name ∷ names) perms =
    union_permissions specs names (add_words (spec_permissions (role specs name)) perms)

unfoldable pub clears_pii : List RoleSpec → List String → Bool
unfolding role
clears_pii specs names = any (λ name. spec_pii (role specs name)) names

abbrev pub is_nil : List String → Bool
is_nil [] = true
is_nil (w ∷ ws) = false

unfoldable pub resolve : Model → Identity → String → String → Result ResolveError Principal
unfolding held_from check_separation acting_role union_permissions clears_pii
resolve m id tenant requested = do
  let names = sort str_ltb (held_from m.by_role id.roles [])
  refuse_if (is_nil names) no_register_role
  check_separation m.roles names names
  acting ← acting_role names requested
  ok (record {
    sub = id.sub;
    display = if str_eq id.display "" then id.sub else id.display;
    email = id.email;
    tenant = tenant;
    roles = names;
    acting = acting;
    pii = clears_pii m.roles names;
    perms = union_permissions m.roles names [];
  })

unfoldable pub can : Principal → String → Bool
can p perm = contains perm p.perms

unfoldable pub grant : Principal → List String → Principal
unfolding add_words
grant p perms = record p { perms = add_words perms p.perms }
