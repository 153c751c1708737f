-- ===== src/Access/Roles.antt =====
-- internal/auth/roles.go: the roles that are built in, and the principals that the process makes for
-- itself.
use mathlib.Core.Path.{subst}
use container_app_service_mo.Base.{
  ◌≡◌, refl, ◌∙◌, Bool, true, false, ◌&&◌, ◌||◌, List, [], ◌∷◌, String, arith, any,
}
use container_app_service_mo.Base.Words.{contains}
use container_app_service_mo.Base.Results.{Result, ok}
use container_app_service_mo.Access.{
  RoleSpec, Model, ModelError, new_model, Identity, Principal, resolve, can, grant,
}
use container_app_service_mo.Access.Tables.{is_held}
use container_app_service_mo.Access.Resolved.{is_allowed, Explains, resolve-Explains}
use text.Mathlib.Text.{◌==◌ as str_eq}

abbrev pub perm_model : String
perm_model = "model"

abbrev pub perm_secrets : String
perm_secrets = "secrets"

abbrev pub perm_run : String
perm_run = "run"

abbrev pub perm_respond : String
perm_respond = "respond"

abbrev pub perm_maintenance : String
perm_maintenance = "maintenance"

abbrev pub perm_explorer : String
perm_explorer = "explorer"

abbrev pub perm_proofs : String
perm_proofs = "proofs"

abbrev pub perm_checkpoints : String
perm_checkpoints = "checkpoints"

abbrev pub perm_reports : String
perm_reports = "reports"

abbrev pub perm_retention : String
perm_retention = "retention"

abbrev pub perm_admin : String
perm_admin = "admin"

abbrev owner : RoleSpec
owner = record {
  name = "owner";
  title = "Owner";
  oidc_roles = "monitoring:owner" ∷ "privasys-platform:monitoring:owner" ∷ [];
  permissions =
      perm_model ∷ perm_secrets ∷ perm_run ∷ perm_respond ∷ perm_maintenance ∷ perm_explorer
      ∷ perm_proofs ∷ perm_checkpoints ∷ perm_reports ∷ perm_retention ∷ perm_admin ∷ [];
  pii = false;
  incompatible_with = [];
}

abbrev editor : RoleSpec
editor = record {
  name = "editor";
  title = "Editor";
  oidc_roles = "monitoring:editor" ∷ "privasys-platform:monitoring:editor" ∷ [];
  permissions =
      perm_model ∷ perm_secrets ∷ perm_run ∷ perm_respond ∷ perm_maintenance ∷ perm_explorer
      ∷ perm_proofs ∷ perm_checkpoints ∷ perm_reports ∷ [];
  pii = false;
  incompatible_with = [];
}

abbrev responder : RoleSpec
responder = record {
  name = "responder";
  title = "Responder";
  oidc_roles = "monitoring:responder" ∷ "privasys-platform:monitoring:responder" ∷ [];
  permissions =
      perm_run ∷ perm_respond ∷ perm_maintenance ∷ perm_explorer ∷ perm_proofs ∷ perm_checkpoints
      ∷ [];
  pii = false;
  incompatible_with = [];
}

abbrev auditor : RoleSpec
auditor = record {
  name = "auditor";
  title = "Auditor";
  oidc_roles = "monitoring:auditor" ∷ "privasys-platform:monitoring:auditor" ∷ [];
  permissions = perm_explorer ∷ perm_proofs ∷ perm_checkpoints ∷ perm_reports ∷ [];
  pii = false;
  incompatible_with = [];
}

abbrev viewer : RoleSpec
viewer = record {
  name = "viewer";
  title = "Viewer";
  oidc_roles = "monitoring:viewer" ∷ "privasys-platform:monitoring:viewer" ∷ [];
  permissions = perm_explorer ∷ perm_proofs ∷ perm_checkpoints ∷ [];
  pii = false;
  incompatible_with = [];
}

unfoldable pub roles : List RoleSpec
roles = owner ∷ editor ∷ responder ∷ auditor ∷ viewer ∷ []

unfoldable pub new_default_model : Result ModelError Model
unfolding roles new_model
new_default_model = new_model roles

unfoldable pub anonymous : String → Principal
anonymous tenant = record {
  sub = "anonymous";
  display = "Anonymous";
  email = "";
  tenant = tenant;
  roles = "anonymous" ∷ [];
  acting = "anonymous";
  pii = false;
  perms = [];
}

unfoldable pub system : String → Principal
unfolding grant
system tenant =
    grant
      (record {
        sub = "system";
        display = "Monitor";
        email = "";
        tenant = tenant;
        roles = "system" ∷ [];
        acting = "system";
        pii = false;
        perms = [];
      })
      (perm_model ∷ perm_run ∷ perm_respond ∷ perm_explorer ∷ perm_proofs ∷ perm_checkpoints
        ∷ perm_reports ∷ perm_retention ∷ [])

-- Whether one of the identity-provider roles of the owner is among the caller's.
abbrev pub is_owner : Identity → Bool
is_owner id =
    any (λ r. str_eq r "monitoring:owner" || str_eq r "privasys-platform:monitoring:owner") id.roles

only_first :
    (a a' b c d e : Bool)
    → (((a || (a' || false)) && true)
        || ((b && false) || ((c && false) || ((d && false) || ((e && false) || false)))))
      ≡ (a || a')
only_first a a' b c d e = ground arith

or_congr : {a b c d : Bool} → a ≡ b → c ≡ d → (a || c) ≡ (b || d)
or_congr h k = cc

owner_held :
    (rs : List String)
    → any (λ r. any (λ s. contains r s.oidc_roles && str_eq "owner" s.name) roles) rs
      ≡ any (λ r. str_eq r "monitoring:owner" || str_eq r "privasys-platform:monitoring:owner") rs
unfolding roles
owner_held [] = refl
owner_held (r ∷ rs) =
    or_congr
      (only_first (str_eq r "monitoring:owner") (str_eq r "privasys-platform:monitoring:owner")
        (contains r editor.oidc_roles) (contains r responder.oidc_roles)
        (contains r auditor.oidc_roles) (contains r viewer.oidc_roles))
      (owner_held rs)

owner_allowed : (id : Identity) → is_allowed roles id perm_admin ≡ is_held roles id "owner"
unfolding roles
owner_allowed id = ground arith

-- With the built-in roles, a caller that is resolved may administer the instance exactly when one
-- of its identity-provider roles is monitoring:owner or privasys-platform:monitoring:owner.
pub resolve-admin :
    {m : Model}
    → new_default_model ≡ ok m
    → (id : Identity) (tenant requested : String) {p : Principal}
    → resolve m id tenant requested ≡ ok p
    → can p perm_admin ≡ is_owner id
unfolding new_default_model
resolve-admin {m} built id tenant requested {p} h =
    let explained : Explains roles id requested (ok p) =
      subst (Explains roles id requested) h (resolve-Explains roles m built id tenant requested) in
    explained.allows perm_admin ∙ owner_allowed id ∙ owner_held id.roles

-- The principals of the process itself.
pub anonymous-can : (tenant perm : String) → can (anonymous tenant) perm ≡ false
unfolding can anonymous
anonymous-can tenant perm = refl
