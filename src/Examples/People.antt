-- ===== src/Examples/People.antt =====
-- A responder who declares a window and opens an incident, and the theorems at them
-- (internal/core/maintenance.go, internal/core/incidents.go).
use container_app_service_mo.Base.{◌≡◌, refl, true, false, [], ◌∷◌, arith, some}
use container_app_service_mo.Base.Int.{pos, i64}
use container_app_service_mo.Base.Results.{ok}
use container_app_service_mo.Base.Text.{Text, trim_space, before, ends_with}
use container_app_service_mo.Access.{Principal, can}
use container_app_service_mo.Record.{validate, check_summary, check_refs, summary, clip}
use container_app_service_mo.Maintenance.{
  Window, Service, declare_maintenance, check_window, find_service, decide_window, declare_envelope,
  lead_of,
}
use container_app_service_mo.Maintenance.Declared.{IsDeclared, declare_maintenance-IsDeclared}
use container_app_service_mo.Desk.{
  Incident, Desk, open_incident, opened, opened_row, put_incident, put_update, update_row,
  open_envelope, find_incident, resolved,
}
use container_app_service_mo.Desk.Dated.{
  AllDated, opens, then_done, nothing_done, History-AllDated, open_incident-undated,
}

abbrev responder : Principal
responder = record {
  sub = "lin";
  display = "Lin";
  email = "";
  tenant = "acme";
  roles = "responder" ∷ [];
  acting = "responder";
  pii = false;
  perms = "respond" ∷ "maintenance" ∷ [];
}

abbrev shop : Service
shop = record { id = "shop"; maintenance_lead_time = pos 3600 }

-- "Fix".
abbrev fix : Text
fix = 70 ∷ 105 ∷ 120 ∷ []

abbrev asked : Window
asked = record {
  id = "";
  service_id = "shop";
  components = [];
  class = "";
  title = fix;
  description = [];
  declared_at = pos 0;
  starts_at = pos 9000;
  ends_at = pos 9900;
  excluded = false;
  lead_time = pos 0;
  published = false;
  cancelled = false;
  tx_id = "";
}

abbrev declared : Window
declared = record asked {
  id = "mw_1";
  class = "planned_maintenance";
  declared_at = pos 5000;
  lead_time = pos 4000;
  excluded = true;
  published = true;
}

asked-declared :
    declare_maintenance responder "acme" (shop ∷ []) (pos 5000) "mw_1" fix asked ≡ ok declared
unfolding declare_maintenance check_window find_service decide_window declare_envelope lead_of can
    validate check_summary check_refs summary before ends_with trim_space i64
asked-declared = refl

declare_maintenance-IsDeclared_example : IsDeclared responder (shop ∷ []) 5000 9000 asked declared
declare_maintenance-IsDeclared_example =
    declare_maintenance-IsDeclared responder "acme" (shop ∷ []) 5000 9000 "mw_1" fix asked refl
      (omega arith) (omega arith) asked-declared

abbrev told : Incident
told = record {
  id = "";
  service_id = "shop";
  title = fix;
  impact = "";
  status = "";
  components = [];
  opened_at = 0;
  resolved_at = 0;
  auto = false;
}

abbrev quiet : Desk
quiet = record { incidents = []; updates = [] }

abbrev opened_told : Incident
opened_told = record told {
  id = "inc_1";
  impact = "minor";
  status = "investigating";
  opened_at = 7000;
}

abbrev busy : Desk
busy = record {
  incidents = opened_told ∷ [];
  updates =
      record {
        id = "iup_1";
        incident_id = "inc_1";
        status = "investigating";
        body = fix;
        created_at = 7000;
        author = record { sub = "lin"; display = "Lin"; role = "responder" };
      }
      ∷ [];
}

told_opened :
    open_incident responder "acme" 7000 "inc_1" "iup_1" told fix fix quiet ≡ ok (busy, opened_told)
unfolding open_incident opened opened_row put_incident put_update update_row open_envelope can
    validate check_summary check_refs summary before ends_with trim_space clip
told_opened = refl

History-AllDated_example : AllDated busy
History-AllDated_example = History-AllDated {tenant = "acme"} {start = quiet} tt (
    then_done nothing_done (
      opens responder 7000 "inc_1" "iup_1" told fix fix quiet (busy, opened_told) (omega arith) refl
        told_opened))

-- The same incident, opened as resolved.
abbrev closed_row : Incident
closed_row = record opened_told { status = "resolved" }

abbrev closed_desk : Desk
closed_desk = record {
  incidents = closed_row ∷ [];
  updates =
      record {
        id = "iup_1";
        incident_id = "inc_1";
        status = "resolved";
        body = fix;
        created_at = 7000;
        author = record { sub = "lin"; display = "Lin"; role = "responder" };
      }
      ∷ [];
}

told_closed :
    open_incident responder "acme" 7000 "inc_1" "iup_1"
      (record told { status = "resolved" })
      fix
      fix
      quiet
    ≡ ok (closed_desk, closed_row)
unfolding open_incident opened opened_row put_incident put_update update_row open_envelope can
    validate check_summary check_refs summary before ends_with trim_space clip
told_closed = refl

open_incident-undated_example :
    (row : Incident) × (find_incident "inc_1" closed_desk.incidents ≡ some row)
    × (row.status ≡ resolved)
    × (row.resolved_at ≡ 0)
open_incident-undated_example =
    open_incident-undated responder "acme" 7000 (omega arith) "inc_1" "iup_1"
      (record told { status = "resolved" }) fix fix quiet refl told_closed
