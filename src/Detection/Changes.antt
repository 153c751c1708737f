-- ===== src/Detection/Changes.antt =====
-- internal/core/detect.go: what a change of a component's verdict writes and announces
-- (`rollUpComponent`, `openAutoIncident`, `resolveAutoIncident`, `raise`).
use text.Mathlib.Text.{◌==◌ as str_eq}
use container_app_service_mo.Base.{
  ℕ, Bool, true, false, not, ◌&&◌, ◌||◌, List, [], ◌∷◌, ◌++◌, map, if◌then◌else◌, ltb, String,
  Option, none, some, select, str_ltb,
}
use container_app_service_mo.Base.Sort.{sort}
use container_app_service_mo.Model.{Verdict, Sample}
use container_app_service_mo.Detection.{State, Component}

pub data IncidentStatus : Type 0 where
  investigating identified monitoring resolved : IncidentStatus

abbrev pub is_resolved : IncidentStatus → Bool
is_resolved resolved = true
is_resolved _ = false

-- A row of the table `incidents`; `components` is the list of identifiers, joined by commas.
pub record Incident : Type 0 where
  pub id : String
  pub service_id : String
  pub components : String
  pub status : IncidentStatus
  pub opened_at : ℕ
  pub resolved_at : ℕ
  pub auto : Bool
  pub triggers : List String

pub data AlertEvent : Type 0 where
  component_down component_up flapping : AlertEvent

-- An alert, with the parts of its payload that say what happened.
pub record Alert : Type 0 where
  pub service_id : String
  pub event : AlertEvent
  pub subject : String
  pub previous : Verdict
  pub current : Verdict
  pub incident_id : String
  pub detail : String
  pub since : ℕ
  pub changes : ℕ

-- The rows that a tick writes. `update_incident` is the row of the timeline that goes with an opening
-- or a resolution.
pub data WriteOp : Type 0 where
  put_state : State → WriteOp
  insert_incident : Incident → WriteOp
  update_incident : String → IncidentStatus → ℕ → WriteOp
  resolve_incident : String → ℕ → WriteOp
  insert_alert : Alert → WriteOp

pub record Reaction : Type 0 where
  pub alerts : List Alert
  pub ops : List WriteOp

abbrev pub nothing : Reaction
nothing = record { alerts = []; ops = [] }

-- `raise`: an alert goes out and is recorded.
abbrev pub raise : Alert → Reaction
raise a = record { alerts = a ∷ []; ops = insert_alert a ∷ [] }

abbrev pub of_component : String → Sample → Bool
of_component id s = str_eq s.component_id id

-- `detailOf`: the first detail that is not empty. (Go ranges over the map in no fixed order; the
-- samples come here in the order of their monitors.)
unfoldable pub detail_of : List Sample → String → String
detail_of [] component_id = ""
detail_of (s ∷ ss) component_id =
    if of_component component_id s && not (str_eq s.detail "")
    then s.detail
    else detail_of ss component_id

-- The incident that opens on a component with none open.
abbrev pub auto_incident : Component → List Sample → ℕ → String → Incident
auto_incident c samples now new_id = record {
  id = new_id;
  service_id = c.service_id;
  components = c.id;
  status = investigating;
  opened_at = now;
  resolved_at = 0;
  auto = true;
  triggers = sort str_ltb (map (λ s. s.id) (select (of_component c.id) samples));
}

abbrev pub open_found :
    Option Incident → Component → List Sample → ℕ → String → String × List WriteOp
open_found (some inc) c samples now new_id = (inc.id, [])
open_found none c samples now new_id = (
  new_id,
  insert_incident (auto_incident c samples now new_id)
      ∷ update_incident new_id investigating now
      ∷ [],
)

-- `like` is the LIKE of the SQL engine, given the pattern and the text.
module _ (like : String → String → Bool) where
  -- The incidents on a component that are not resolved.
  abbrev pub is_open_on : Component → Incident → Bool
  is_open_on c inc =
      str_eq inc.service_id c.service_id
      && (not (is_resolved inc.status) && like c.id inc.components)

  -- ORDER BY opened_at DESC LIMIT 1.
  unfoldable pub latest_open : Component → List Incident → Option Incident
  latest_open c [] = none
  latest_open c (inc ∷ incs) =
      let rest = latest_open c incs in
      if is_open_on c inc
      then elim rest [
        | none ↦ some inc
        | some other ↦ some (if ltb inc.opened_at other.opened_at then other else inc)
      ]
      else rest

  -- `openAutoIncident`: the identifier of the incident, and the rows of a new one. `new_id` is the
  -- identifier that `NewID` gives.
  unfoldable pub open_auto_incident :
      List Incident → Component → List Sample → ℕ → String → String × List WriteOp
  unfolding latest_open
  open_auto_incident incidents c samples now new_id =
      open_found (latest_open c incidents) c samples now new_id

unfoldable pub find_incident : String → List Incident → Option Incident
find_incident id [] = none
find_incident id (inc ∷ incs) = if str_eq inc.id id then some inc else find_incident id incs

abbrev pub resolve_found : Option Incident → String → ℕ → List WriteOp
resolve_found none id now = []
resolve_found (some inc) id now =
    if not inc.auto || is_resolved inc.status
    then []
    else resolve_incident id now ∷ update_incident id resolved now ∷ []

unfoldable pub resolve_auto_incident : List Incident → String → ℕ → List WriteOp
unfolding find_incident
resolve_auto_incident incidents id now = resolve_found (find_incident id incidents) id now

-- The alert of a change, or nothing in maintenance and while the component flaps.
abbrev pub announce : Bool → Alert → Reaction
announce quiet a = if quiet then nothing else raise a

abbrev pub alert_of : Component → AlertEvent → Verdict → State → String → ℕ → Alert
alert_of c event previous st detail now = record {
  service_id = c.service_id;
  event = event;
  subject = c.id;
  previous = previous;
  current = st.verdict;
  incident_id = st.incident_id;
  detail = detail;
  since = now;
  changes = st.flaps;
}

infixr 60 ◌then_do◌
abbrev pub ◌then_do◌ : Reaction → Reaction → Reaction
a then_do b = record { alerts = a.alerts ++ b.alerts; ops = a.ops ++ b.ops }

abbrev pub writing : List WriteOp → Reaction
writing ops = record { alerts = []; ops = ops }
