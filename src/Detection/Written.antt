-- ===== src/Detection/Written.antt =====
-- The state that a change of a component's verdict writes (internal/core/detect.go,
-- `rollUpComponent`).
use text.Mathlib.Text.{◌==◌ as str_eq}
use container_app_service_mo.Base.{
  ℕ, ◌≡◌, refl, ◌∙◌, ◌<◌, Bool, true, false, not, ◌||◌, ◌==◌, List, [], ◌∷◌, ◌++◌, arith, String,
  Option, none, some, ap, if_both, if_false, if◌then◌else◌,
}
use container_app_service_mo.Model.{Verdict, is_down, same_verdict, Sample}
use container_app_service_mo.Detection.{State, Component, component, tally, Tally, roll_verdict}
use container_app_service_mo.Detection.Changes.{
  Incident, WriteOp, put_state, insert_incident, update_incident, resolve_incident, insert_alert,
  latest_open, open_auto_incident, open_found, writing, Reaction, nothing, announce, Alert,
  resolve_found, resolve_auto_incident, find_incident, is_resolved, ◌then_do◌,
}
use container_app_service_mo.Detection.Ticks.{
  Db, react, roll_up, monitor_states, state_or_new, change_state, go_down, come_back, turn,
  announce_flapping,
}

-- The states among the rows written.
abbrev pub states_written : List WriteOp → List State
states_written [] = []
states_written (put_state st ∷ ops) = st ∷ states_written ops
states_written (_ ∷ ops) = states_written ops

-- The state that a change from one verdict to another leaves.
pub record IsChanged (opened : String) (previous verdict : Verdict) (now : ℕ) (st : State)
    : Type 0 where
  pub verdict_new : st.verdict ≡ verdict
  pub since_now : st.since ≡ now
  pub tied : is_down verdict ≡ true → st.incident_id ≡ opened
  pub released : is_down verdict ≡ false → is_down previous ≡ true → st.incident_id ≡ ""

states_written-append :
    (xs ys : List WriteOp) → states_written (xs ++ ys) ≡ states_written xs ++ states_written ys
states_written-append [] ys = refl
states_written-append (put_state st ∷ xs) ys = ap (λ sts. st ∷ sts) (states_written-append xs ys)
states_written-append (insert_incident inc ∷ xs) ys = states_written-append xs ys
states_written-append (update_incident id status now ∷ xs) ys = states_written-append xs ys
states_written-append (resolve_incident id now ∷ xs) ys = states_written-append xs ys
states_written-append (insert_alert a ∷ xs) ys = states_written-append xs ys

-- A reaction that writes no state.
record IsSilent (r : Reaction) : Type 0 where
  silent : states_written r.ops ≡ []

then_do-IsSilent : (a b : Reaction) → IsSilent a → IsSilent b → IsSilent (a then_do b)
then_do-IsSilent a b x y = record {
  silent =
      states_written-append a.ops b.ops ∙ ap (λ s. s ++ states_written b.ops) x.silent ∙ y.silent;
}

announce-IsSilent : (quiet : Bool) (a : Alert) → IsSilent (announce quiet a)
announce-IsSilent true a = record { silent = refl }
announce-IsSilent false a = record { silent = refl }

flap-IsSilent : (flaps : Bool) (a : Alert) → IsSilent (if flaps then announce false a else nothing)
flap-IsSilent true a = record { silent = refl }
flap-IsSilent false a = record { silent = refl }

open_found-IsSilent :
    (o : Option Incident) (c : Component) (samples : List Sample) (now : ℕ) (new_id : String)
    → IsSilent (writing (open_found o c samples now new_id).1)
open_found-IsSilent none c samples now new_id = record { silent = refl }
open_found-IsSilent (some inc) c samples now new_id = record { silent = refl }

resolve_found-IsSilent :
    (o : Option Incident) (id : String) (now : ℕ) → IsSilent (writing (resolve_found o id now))
resolve_found-IsSilent none id now = record { silent = refl }
resolve_found-IsSilent (some inc) id now =
    if_both (λ ops. IsSilent (writing ops)) (not inc.auto || is_resolved inc.status) [] _
      (record { silent = refl }) (record { silent = refl })

module _ (like : String → String → Bool) (incidents : List Incident) (c : Component)
    (samples : List Sample) (previous : Verdict) (st : State) (now : ℕ) (new_id : String) where
  -- A turn writes no state itself; the state that it returns is the changed one.
  abbrev IsTurn : State × Reaction → Type 0
  IsTurn p = IsSilent p.1 × (p.0.verdict ≡ st.verdict) × (p.0.since ≡ st.since)

  turn-IsTurn : IsTurn (turn like incidents c samples previous st now new_id)
  unfolding go_down come_back open_auto_incident resolve_auto_incident
  turn-IsTurn =
      if_both (λ (p : State × Reaction). IsTurn p) (is_down st.verdict) _ _
        (
          then_do-IsSilent _ _
              (open_found-IsSilent (latest_open like c incidents) c samples now new_id)
              (announce-IsSilent _ _),
          refl,
          refl,
        )
        (if_both (λ (p : State × Reaction). IsTurn p) (is_down previous) _ (st, nothing)
          (
            then_do-IsSilent
                (writing (
                  if str_eq st.incident_id ""
                  then []
                  else resolve_found (find_incident st.incident_id incidents) st.incident_id now))
                _
                (if_both (λ ops. IsSilent (writing ops)) (str_eq st.incident_id "") [] _
                  (record { silent = refl })
                  (resolve_found-IsSilent (find_incident st.incident_id incidents) st.incident_id
                    now))
                (announce-IsSilent _ _),
            refl,
            refl,
          )
          (record { silent = refl }, refl, refl))

  turn-tied :
      let turned = turn like incidents c samples previous st now new_id in
      (is_down st.verdict ≡ true
        → turned.0.incident_id ≡ (open_auto_incident like incidents c samples now new_id).0)
      × (is_down st.verdict ≡ false → is_down previous ≡ true → turned.0.incident_id ≡ "")
  unfolding go_down come_back
  turn-tied = ((λ h. rw h refl), (λ h k. rw (h, k) refl))

  react-IsChanged :
      (verdict : Verdict)
      → st.verdict ≡ verdict
      → st.since ≡ now
      → (st' : State) × (states_written (react like incidents c samples previous st now new_id).ops
          ≡ st' ∷ [])
        × IsChanged
            (open_auto_incident like incidents c samples now new_id).0
            previous
            verdict
            now
            st'
  unfolding react
  react-IsChanged verdict e h =
      let turned = turn like incidents c samples previous st now new_id in
      let flap = announce_flapping like c samples previous turned.0 now in
      (
        turned.0,
        states_written-append turned.1.ops _
            ∙ ap (λ s. s ++ states_written (flap.ops ++ put_state turned.0 ∷ []))
                turn-IsTurn.0.silent
            ∙ states_written-append flap.ops _
            ∙ ap (λ s. s ++ turned.0 ∷ []) (flap-IsSilent _ _).silent,
        record {
          verdict_new = turn-IsTurn.1 ∙ e;
          since_now = turn-IsTurn.2 ∙ h;
          tied = λ d. turn-tied.0 (ap is_down e ∙ d);
          released = λ d. turn-tied.1 (ap is_down e ∙ d);
        },
      )

-- The verdict that the monitors of a component call for.
abbrev pub called_for : Db → Component → List State → Verdict
called_for db c updated =
    roll_verdict c.rollup (tally (monitor_states updated db.states c.id db.monitors))

change_state-fields :
    (st : State) (verdict : Verdict) (now : ℕ)
    → ((change_state st verdict now).verdict ≡ verdict)
      × ((change_state st verdict now).since ≡ now)
change_state-fields st verdict now = (ground arith, ground arith)

-- Where some monitor of a component counts and they call for another verdict than the stored one,
-- exactly one state is written: it has the new verdict since now, it names the incident opened or
-- found where the verdict is down, and no incident where the component comes back.
pub roll_up-IsChanged :
    (like : String → String → Bool) (db : Db) (c : Component) (updated : List State)
    (samples : List Sample) (now : ℕ) (new_id : String)
    → 0 < (tally (monitor_states updated db.states c.id db.monitors)).seen
    → let previous = (state_or_new component c.id now db.states).verdict in
      same_verdict previous (called_for db c updated) ≡ false
      → (st : State) × (states_written (roll_up like db c updated samples now new_id).ops ≡ st ∷ [])
        × IsChanged
            (open_auto_incident like db.incidents c samples now new_id).0
            previous
            (called_for db c updated)
            now
            st
unfolding roll_up
roll_up-IsChanged like db c updated samples now new_id seen changed =
    let t : Tally = tally (monitor_states updated db.states c.id db.monitors) in
    let old : State = state_or_new component c.id now db.states in
    let new : State = change_state old (called_for db c updated) now in
    if_false
      (λ (r : Reaction).
        (st : State) × (states_written r.ops ≡ st ∷ [])
        × IsChanged (open_auto_incident like db.incidents c samples now new_id).0 old.verdict
            (called_for db c updated) now st)
      (t.seen == 0 || same_verdict old.verdict (called_for db c updated)) nothing _
      (ground (arith, seen, changed))
      (react-IsChanged like db.incidents c samples old.verdict new now new_id
        (called_for db c updated) (change_state-fields old (called_for db c updated) now).0
        (change_state-fields old (called_for db c updated) now).1)
