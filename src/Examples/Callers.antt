-- ===== src/Examples/Callers.antt =====
-- A caller with two roles, and the theorems on access at it (internal/auth).
use container_app_service_mo.Base.{◌≡◌, refl, true, false, List, [], ◌∷◌}
use container_app_service_mo.Base.Sort.{sort}
use container_app_service_mo.Base.Results.{ok, err}
use container_app_service_mo.Access.{
  RoleSpec, Model, new_model, Identity, Principal, resolve, can, separation_of_duties,
}
use container_app_service_mo.Access.Resolved.{Explains, resolve-Explains}
use container_app_service_mo.Access.Roles.{
  roles, new_default_model, perm_admin, is_owner, resolve-admin,
}

abbrev bookkeeper : RoleSpec
bookkeeper = record {
  name = "bookkeeper";
  title = "Bookkeeper";
  oidc_roles = "grp:books" ∷ [];
  permissions = "enter" ∷ [];
  pii = true;
  incompatible_with = "checker" ∷ [];
}

abbrev checker : RoleSpec
checker = record {
  name = "checker";
  title = "Checker";
  oidc_roles = "grp:check" ∷ [];
  permissions = "approve" ∷ "read" ∷ [];
  pii = false;
  incompatible_with = [];
}

abbrev two_roles : List RoleSpec
two_roles = bookkeeper ∷ checker ∷ []

abbrev two_model : Model
two_model = record {
  roles = two_roles;
  by_role = ("grp:books", "bookkeeper") ∷ ("grp:check", "checker") ∷ [];
}

two_model_built : new_model two_roles ≡ ok two_model
unfolding new_model
two_model_built = refl

abbrev ada : Identity
ada = record { sub = "ada"; display = ""; email = ""; roles = "grp:check" ∷ "grp:books" ∷ [] }

ada_refused : resolve two_model ada "t" "" ≡ err (separation_of_duties "bookkeeper" "checker")
unfolding resolve sort
ada_refused = refl

resolve-Explains_example : Explains two_roles ada "" (resolve two_model ada "t" "")
resolve-Explains_example = resolve-Explains two_roles two_model two_model_built ada "t" ""

abbrev default_model : Model
default_model = record {
  roles = roles;
  by_role =
      ("monitoring:owner", "owner")
      ∷ ("privasys-platform:monitoring:owner", "owner")
      ∷ ("monitoring:editor", "editor")
      ∷ ("privasys-platform:monitoring:editor", "editor")
      ∷ ("monitoring:responder", "responder")
      ∷ ("privasys-platform:monitoring:responder", "responder")
      ∷ ("monitoring:auditor", "auditor")
      ∷ ("privasys-platform:monitoring:auditor", "auditor")
      ∷ ("monitoring:viewer", "viewer")
      ∷ ("privasys-platform:monitoring:viewer", "viewer")
      ∷ [];
}

default_model_built : new_default_model ≡ ok default_model
unfolding new_default_model
default_model_built = refl

abbrev grace : Identity
grace = record {
  sub = "grace";
  display = "Grace";
  email = "";
  roles = "monitoring:editor" ∷ "monitoring:viewer" ∷ [];
}

abbrev grace_principal : Principal
grace_principal = record {
  sub = "grace";
  display = "Grace";
  email = "";
  tenant = "t";
  roles = "editor" ∷ "viewer" ∷ [];
  acting = "viewer";
  pii = false;
  perms =
      "reports" ∷ "checkpoints" ∷ "proofs" ∷ "explorer" ∷ "maintenance" ∷ "respond" ∷ "run"
      ∷ "secrets" ∷ "model" ∷ [];
}

grace_resolved : resolve default_model grace "t" "viewer" ≡ ok grace_principal
unfolding resolve sort roles
grace_resolved = refl

resolve-admin_example : can grace_principal perm_admin ≡ is_owner grace
resolve-admin_example = resolve-admin default_model_built grace "t" "viewer" grace_resolved
