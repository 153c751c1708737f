-- ===== src/Desk.antt =====
-- Incidents that people open and update (internal/core/incidents.go).
pub mod Dated
use container_app_service_mo.Base.{
  ℕ, Bool, true, false, not, ◌&&◌, ◌||◌, List, [], ◌∷◌, ◌++◌, String, Option, none, some,
  if◌then◌else◌,
}
use container_app_service_mo.Base.Int.{ℤ, pos}
use container_app_service_mo.Base.Results.{Result, ok, err, ◌>>=◌, ◌>>◌, refuse_if}
use container_app_service_mo.Base.Text.{Text, trim_space, is_empty}
use container_app_service_mo.Base.Words.{contains}
use container_app_service_mo.Access.{Principal, can}
use container_app_service_mo.Access.Roles.{perm_respond}
use container_app_service_mo.Record.{Envelope, EnvelopeError, Author, validate, clip}
use container_app_service_mo.Maintenance.{author_of, found}
use text.Mathlib.Text.{◌==◌ as str_eq}

pub record Incident : Type 0 where
  pub id : String
  pub service_id : String
  pub title : Text
  pub impact : String
  pub status : String
  pub components : List String
  pub opened_at : ℕ
  pub resolved_at : ℕ
  pub auto : Bool

pub record IncidentUpdate : Type 0 where
  pub id : String
  pub incident_id : String
  pub status : String
  pub body : Text
  pub created_at : ℕ
  pub author : Author

-- The tables incidents and incident_updates.
pub record Desk : Type 0 where
  pub incidents : List Incident
  pub updates : List IncidentUpdate

abbrev pub resolved : String
resolved = "resolved"

abbrev pub investigating : String
investigating = "investigating"

abbrev pub incident_statuses : List String
incident_statuses = investigating ∷ "identified" ∷ "monitoring" ∷ resolved ∷ []

abbrev pub impact_minor : String
impact_minor = "minor"

pub data DeskError : Type 0 where
  not_allowed no_title no_body unknown_status no_incident : DeskError
  refused : EnvelopeError → DeskError

abbrev pub as_desk_error {ℓ} : {A : Type ℓ} → Result EnvelopeError A → Result DeskError A
as_desk_error (ok a) = ok a
as_desk_error (err e) = err (refused e)

unfoldable pub valid_status : String → Bool
valid_status status = contains status incident_statuses

abbrev pub word_or : String → String → String
word_or d s = if str_eq s "" then d else s

-- The incident with what `OpenIncident` fills in.
unfoldable pub opened : ℕ → String → Incident → Incident
opened now new_id inc = record inc {
  id = word_or new_id inc.id;
  impact = word_or impact_minor inc.impact;
  status = word_or investigating inc.status;
  opened_at = now;
  auto = false;
}

-- Its row.
unfoldable pub opened_row : Incident → Incident
opened_row inc = record inc { title = clip 255 inc.title; resolved_at = 0 }

unfoldable pub put_incident : Incident → List Incident → List Incident
put_incident inc [] = inc ∷ []
put_incident inc (other ∷ incs) =
    if str_eq other.id inc.id then inc ∷ incs else other ∷ put_incident inc incs

unfoldable pub put_update : IncidentUpdate → List IncidentUpdate → List IncidentUpdate
put_update u [] = u ∷ []
put_update u (other ∷ us) = if str_eq other.id u.id then u ∷ us else other ∷ put_update u us

unfoldable pub find_incident : String → List Incident → Option Incident
find_incident id [] = none
find_incident id (inc ∷ incs) = if str_eq inc.id id then some inc else find_incident id incs

unfoldable pub update_row : Principal → String → String → String → Text → ℕ → IncidentUpdate
update_row p update_id incident_id status body now = record {
  id = update_id;
  incident_id = incident_id;
  status = status;
  body = clip 4096 body;
  created_at = now;
  author = author_of p;
}

unfoldable pub open_envelope : Principal → String → ℕ → Text → Incident → Envelope
open_envelope p tenant now message inc = record {
  kind = "incident.open";
  tenant = tenant;
  service = inc.service_id;
  object_ids = inc.id ∷ [];
  author = author_of p;
  timestamp = pos now;
  message = message;
  refs = [];
}

-- `OpenIncident`: the tables after it, and the incident returned.
unfoldable pub open_incident :
    Principal
    → String
    → ℕ
    → String
    → String
    → Incident
    → Text
    → Text
    → Desk
    → Result DeskError (Desk × Incident)
unfolding opened opened_row put_incident put_update update_row open_envelope
open_incident p tenant now new_id update_id inc body message desk = do
  refuse_if (not (can p perm_respond)) not_allowed
  refuse_if (str_eq inc.service_id "" || is_empty (trim_space inc.title)) no_title
  refuse_if (is_empty (trim_space body)) no_body
  let new = opened now new_id inc
  as_desk_error (validate (open_envelope p tenant now message new))
  ok (
    record {
      incidents = put_incident (opened_row new) desk.incidents;
      updates = put_update (update_row p update_id new.id new.status body now) desk.updates;
    },
    new,
  )

-- The columns that an update of an incident sets.
unfoldable pub moved : String → ℕ → Incident → Incident
moved status now inc = record inc {
  status = status;
  resolved_at =
      if str_eq status resolved
      then now
      else if str_eq inc.status resolved
      then 0
      else inc.resolved_at;
}

unfoldable pub update_envelope : Principal → String → ℕ → Text → Incident → String → Envelope
update_envelope p tenant now message inc incident_id = record {
  kind = "incident.update";
  tenant = tenant;
  service = inc.service_id;
  object_ids = incident_id ∷ [];
  author = author_of p;
  timestamp = pos now;
  message = message;
  refs = record { ref_type = "relates"; target = incident_id } ∷ [];
}

-- `UpdateIncident`: the tables after it, and the update.
unfoldable pub update_incident :
    Principal
    → String
    → ℕ
    → String
    → String
    → String
    → Text
    → Text
    → Desk
    → Result DeskError (Desk × IncidentUpdate)
unfolding valid_status find_incident moved put_incident put_update update_row update_envelope
update_incident p tenant now update_id incident_id status body message desk = do
  refuse_if (not (can p perm_respond)) not_allowed
  refuse_if (is_empty (trim_space body)) no_body
  refuse_if (not (valid_status status)) unknown_status
  inc ← found no_incident (find_incident incident_id desk.incidents)
  as_desk_error (validate (update_envelope p tenant now message inc incident_id))
  ok (
    record {
      incidents = put_incident (moved status now inc) desk.incidents;
      updates = put_update (update_row p update_id incident_id status body now) desk.updates;
    },
    record (update_row p update_id incident_id status body now) { body = body },
  )
