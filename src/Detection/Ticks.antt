-- ===== src/Detection/Ticks.antt =====
-- internal/core/detect.go: `detect` and `rollUpComponent`, over the rows that they read. The rows are
-- those before the tick: what a tick writes is applied when its transaction commits.
use text.Mathlib.Text.{◌==◌ as str_eq}
use container_app_service_mo.Base.{
  ℕ, ◌+◌, Bool, false, not, ◌&&◌, ◌||◌, List, [], ◌∷◌, map, if◌then◌else◌, leb, ◌==◌, String,
  Option, none, some, any, str_ltb,
}
use container_app_service_mo.Base.Sort.{sort}
use container_app_service_mo.Model.{Verdict, up, unset, is_down, is_unset, same_verdict, Sample}
use container_app_service_mo.Detection.{
  State, StateKind, monitor, component, Monitor, Component, advance_monitor, count_flap,
  is_flapping, flap_threshold, tally, roll_verdict,
}
use container_app_service_mo.Detection.Changes.{
  Incident, component_down, component_up, flapping, put_state, Reaction, nothing, of_component,
  detail_of, open_auto_incident, resolve_auto_incident, announce, alert_of, ◌then_do◌, writing,
}

pub record Db : Type 0 where
  pub monitors : List Monitor
  pub components : List Component
  pub states : List State
  pub incidents : List Incident

unfoldable pub find_state : String → List State → Option State
find_state subject [] = none
find_state subject (st ∷ sts) =
    if str_eq st.subject subject then some st else find_state subject sts

unfoldable pub find_monitor : String → List Monitor → Option Monitor
find_monitor id [] = none
find_monitor id (m ∷ ms) = if str_eq m.id id then some m else find_monitor id ms

unfoldable pub find_component : String → List Component → Option Component
find_component id [] = none
find_component id (c ∷ cs) = if str_eq c.id id then some c else find_component id cs

-- The state of a subject that has none yet.
abbrev pub new_state : StateKind → String → ℕ → State
new_state kind subject now = record {
  subject = subject;
  kind = kind;
  verdict = up;
  raw = unset;
  since = now;
  consecutive = 0;
  flaps = 0;
  flaps_since = 0;
  incident_id = "";
  updated_at = 0;
}

abbrev pub state_or_new : StateKind → String → ℕ → List State → State
state_or_new kind subject now sts = elim (find_state subject sts) [
  | none ↦ new_state kind subject now
  | some st ↦ st
]

-- The states of the enabled monitors of a component: the tick's own first, then the stored ones.
unfoldable pub monitor_states : List State → List State → String → List Monitor → List State
unfolding find_state
monitor_states updated stored component_id [] = []
monitor_states updated stored component_id (m ∷ ms) =
    let rest = monitor_states updated stored component_id ms in
    if str_eq m.component_id component_id && m.enabled
    then elim (find_state m.id updated) [
      | some st ↦ st ∷ rest
      | none ↦ elim (find_state m.id stored) [ some st ↦ st ∷ rest | none ↦ rest ]
    ]
    else rest

-- Some reading of the component was taken inside a declared window.
abbrev pub in_maintenance : String → List Sample → Bool
in_maintenance component_id = any (λ s. of_component component_id s && s.in_maintenance)

-- The state after a change of verdict, before its incident.
abbrev pub change_state : State → Verdict → ℕ → State
change_state st verdict now =
    count_flap (record st { verdict = verdict; since = now; updated_at = now; kind = component })
      now

module _ (like : String → String → Bool) where
  -- The component went down.
  unfoldable pub go_down :
      List Incident → Component → List Sample → Verdict → State → ℕ → String → State × Reaction
  unfolding detail_of open_auto_incident
  go_down incidents c samples previous st now new_id =
      let opened = open_auto_incident like incidents c samples now new_id in
      let st' = record st { incident_id = opened.0 } in
      let quiet = in_maintenance c.id samples || is_flapping st in
      (
        st',
        writing opened.1
            then_do announce quiet
                (alert_of c component_down previous st' (detail_of samples c.id) now),
      )

  -- The component came back.
  unfoldable pub come_back :
      List Incident → Component → List Sample → Verdict → State → ℕ → State × Reaction
  unfolding resolve_auto_incident
  come_back incidents c samples previous st now =
      let ops =
        if str_eq st.incident_id ""
        then []
        else resolve_auto_incident incidents st.incident_id now in
      let quiet = in_maintenance c.id samples || is_flapping st in
      (
        record st { incident_id = "" },
        writing ops then_do announce quiet (alert_of c component_up previous st "" now),
      )

  -- The `switch` on the change.
  abbrev pub turn :
      List Incident → Component → List Sample → Verdict → State → ℕ → String → State × Reaction
  turn incidents c samples previous st now new_id =
      if is_down st.verdict
      then go_down incidents c samples previous st now new_id
      else if is_down previous
      then come_back incidents c samples previous st now
      else (st, nothing)

  -- The one announcement of a flapping component.
  abbrev pub announce_flapping : Component → List Sample → Verdict → State → ℕ → Reaction
  announce_flapping c samples previous st now =
      if is_flapping st && (st.flaps == flap_threshold + 1 && not (in_maintenance c.id samples))
      then announce false (alert_of c flapping previous st "" now)
      else nothing

  -- All that a change of a component's verdict does. `turn` leaves the flap counter alone.
  unfoldable pub react :
      List Incident → Component → List Sample → Verdict → State → ℕ → String → Reaction
  unfolding go_down come_back
  react incidents c samples previous st now new_id =
      let turned = turn incidents c samples previous st now new_id in
      turned.1
      then_do (announce_flapping c samples previous turned.0 now
          then_do writing (put_state turned.0 ∷ []))

  unfoldable pub roll_up : Db → Component → List State → List Sample → ℕ → String → Reaction
  unfolding monitor_states tally roll_verdict find_state react
  roll_up db c updated samples now new_id =
      let t = tally (monitor_states updated db.states c.id db.monitors) in
      let st = state_or_new component c.id now db.states in
      let verdict = roll_verdict c.rollup t in
      if t.seen == 0 || same_verdict st.verdict verdict
      then nothing
      else react db.incidents c samples st.verdict (change_state st verdict now) now new_id

  -- `readComponent` may find no row.
  unfoldable pub roll_up_found :
      Db → Option Component → List State → List Sample → ℕ → String → Reaction
  unfolding roll_up
  roll_up_found db none updated samples now new_id = nothing
  roll_up_found db (some c) updated samples now new_id = roll_up db c updated samples now new_id

  -- The loop over the touched components. `new_ids` gives the identifier that `NewID` would give each.
  unfoldable pub roll_up_all :
      Db → List String → List State → List Sample → ℕ → (String → String) → Reaction
  unfolding find_component roll_up_found
  roll_up_all db [] updated samples now new_ids = nothing
  roll_up_all db (id ∷ ids) updated samples now new_ids =
      roll_up_found db (find_component id db.components) updated samples now (new_ids id)
      then_do roll_up_all db ids updated samples now new_ids

-- `latest`: the last reading of each monitor, manual runs left out.
unfoldable pub add_latest : Sample → List Sample → List Sample
add_latest s [] = s ∷ []
add_latest s (l ∷ ls) =
    if str_eq l.monitor_id s.monitor_id
    then (if leb l.started_at s.started_at then s ∷ ls else l ∷ ls)
    else l ∷ add_latest s ls

unfoldable pub latest_from : List Sample → List Sample → List Sample
unfolding add_latest
latest_from ls [] = ls
latest_from ls (s ∷ ss) = latest_from (if s.manual then ls else add_latest s ls) ss

abbrev pub by_monitor : Sample → Sample → Bool
by_monitor a b = str_ltb a.monitor_id b.monitor_id

unfoldable pub latest : List Sample → List Sample
unfolding latest_from sort
latest samples = sort by_monitor (latest_from [] samples)

-- A set of identifiers, in order.
unfoldable pub insert_id : String → List String → List String
insert_id id [] = id ∷ []
insert_id id (j ∷ js) =
    if str_eq id j then j ∷ js else if str_ltb id j then id ∷ j ∷ js else j ∷ insert_id id js

-- What the loop over the monitors leaves.
pub record Advanced : Type 0 where
  pub updated : List State
  pub touched : List String

abbrev pub touch : Verdict → State → Sample → List String → List String
touch before st s ids =
    if not (same_verdict st.verdict before) || is_unset before
    then insert_id s.component_id ids
    else ids

unfoldable pub advance_all : Db → List Sample → ℕ → Advanced
unfolding find_monitor find_state advance_monitor insert_id
advance_all db [] now = record { updated = []; touched = [] }
advance_all db (s ∷ ss) now =
    let rest = advance_all db ss now in
    elim (find_monitor s.monitor_id db.monitors) [
      | none ↦ rest
      | some mon ↦
          let old = state_or_new monitor s.monitor_id now db.states in
          let st = advance_monitor old mon s.verdict now in
          record { updated = st ∷ rest.updated; touched = touch old.verdict st s rest.touched }
    ]

unfoldable pub detect :
    (String → String → Bool) → Db → List Sample → ℕ → (String → String) → Reaction
unfolding latest advance_all roll_up_all
detect like db samples now new_ids =
    let ls = latest samples in
    let advanced = advance_all db ls now in
    writing (map put_state advanced.updated)
    then_do roll_up_all like db advanced.touched advanced.updated ls now new_ids
