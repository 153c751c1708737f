-- ===== src/Detection/Alerts.antt =====
-- What a tick announces and writes (internal/core/detect.go): the alerts of a component's change, the
-- incidents it opens and resolves.
use text.Mathlib.Text.{◌==◌ as str_eq}
use container_app_service_mo.Base.{
  ℕ, ◌≡◌, refl, ◌∙◌, ◌≤◌, Bool, true, false, not, ◌||◌, ◌==◌, List, [], ◌∷◌, ◌++◌, map, arith,
  if◌then◌else◌, String, Option, none, some, length, Bool-cases, inl, inr, if_both, All, All-append,
  ap,
}
use container_app_service_mo.Model.{Verdict, is_down, same_verdict, Sample}
use container_app_service_mo.Detection.{State, Component, component, tally, roll_verdict}
use container_app_service_mo.Detection.Changes.{
  Incident, is_resolved, Alert, WriteOp, put_state, insert_incident, update_incident,
  resolve_incident, insert_alert, Reaction, nothing, open_auto_incident, resolve_auto_incident,
  open_found, resolve_found, find_incident, latest_open, announce, ◌then_do◌, writing,
}
use container_app_service_mo.Detection.Ticks.{
  Db, find_component, in_maintenance, go_down, come_back, turn, announce_flapping, react,
  monitor_states, state_or_new, roll_up, roll_up_found, roll_up_all, detect, change_state,
  advance_all, latest,
}

-- The alerts among the rows written.
abbrev pub recorded : List WriteOp → List Alert
recorded [] = []
recorded (insert_alert a ∷ ops) = a ∷ recorded ops
recorded (_ ∷ ops) = recorded ops

recorded-append : (xs ys : List WriteOp) → recorded (xs ++ ys) ≡ recorded xs ++ recorded ys
recorded-append [] ys = refl
recorded-append (put_state st ∷ xs) ys = recorded-append xs ys
recorded-append (insert_incident inc ∷ xs) ys = recorded-append xs ys
recorded-append (update_incident id status now ∷ xs) ys = recorded-append xs ys
recorded-append (resolve_incident id now ∷ xs) ys = recorded-append xs ys
recorded-append (insert_alert a ∷ xs) ys = ap (λ as'. a ∷ as') (recorded-append xs ys)

recorded-put_state : (sts : List State) → recorded (map put_state sts) ≡ []
recorded-put_state [] = refl
recorded-put_state (st ∷ sts) = recorded-put_state sts

-- An operation that a tick may write, given the incidents before it: it resolves only incidents that
-- the monitor opened and that are not resolved, and it opens only incidents of its own.
abbrev pub Allowed : List Incident → WriteOp → Type 0
Allowed incidents (resolve_incident id now) =
    (inc : Incident) × (find_incident id incidents ≡ some inc)
    × (inc.auto ≡ true)
    × (is_resolved inc.status ≡ false)
Allowed incidents (insert_incident inc) = inc.auto ≡ true
Allowed incidents _ = Unit

Allowed-put_state :
    (incidents : List Incident) (sts : List State) → All (Allowed incidents) (map put_state sts)
Allowed-put_state incidents [] = tt
Allowed-put_state incidents (st ∷ sts) = (tt, Allowed-put_state incidents sts)

-- The alerts that go out are those recorded, and every row is allowed.
pub record IsLawful (incidents : List Incident) (r : Reaction) : Type 0 where
  pub recorded : recorded r.ops ≡ r.alerts
  pub allowed : All (Allowed incidents) r.ops

module _ (incidents : List Incident) where
  then_do-IsLawful :
      (a b : Reaction)
      → IsLawful incidents a
      → IsLawful incidents b
      → IsLawful incidents (a then_do b)
  then_do-IsLawful a b x y = record {
    recorded = recorded-append a.ops b.ops ∙ cc;
    allowed = All-append (Allowed incidents) a.ops b.ops x.allowed y.allowed;
  }

  announce-IsLawful : (quiet : Bool) (a : Alert) → IsLawful incidents (announce quiet a)
  announce-IsLawful true a = record { recorded = refl; allowed = tt }
  announce-IsLawful false a = record { recorded = refl; allowed = (tt, tt) }

  flap-IsLawful :
      (flaps : Bool) (a : Alert) → IsLawful incidents (if flaps then announce false a else nothing)
  flap-IsLawful true a = record { recorded = refl; allowed = (tt, tt) }
  flap-IsLawful false a = record { recorded = refl; allowed = tt }

  resolve_found-IsLawful :
      (o : Option Incident) (id : String) (now : ℕ)
      → find_incident id incidents ≡ o
      → IsLawful incidents (writing (resolve_found o id now))
  resolve_found-IsLawful none id now e = record { recorded = refl; allowed = tt }
  resolve_found-IsLawful (some inc) id now e =
      elim (Bool-cases (not inc.auto || is_resolved inc.status)) [
        | inl skip ↦ rw skip (record { recorded = refl; allowed = tt })
        | inr write ↦
            rw write (record {
              recorded = refl;
              allowed = ((inc, e, ground arith, ground arith), (tt, tt));
            })
      ]

  open_found-IsLawful :
      (o : Option Incident) (c : Component) (samples : List Sample) (now : ℕ) (new_id : String)
      → IsLawful incidents (writing (open_found o c samples now new_id).1)
  open_found-IsLawful none c samples now new_id = record {
    recorded = refl;
    allowed = (refl, (tt, tt));
  }
  open_found-IsLawful (some inc) c samples now new_id = record { recorded = refl; allowed = tt }

module _ (like : String → String → Bool) (incidents : List Incident) where
  module _ (c : Component) (samples : List Sample) (previous : Verdict) (st : State) (now : ℕ)
      (new_id : String) where
    -- A change of a component's verdict sends at most one alert.
    pub react-alerts_le : length (react like incidents c samples previous st now new_id).alerts ≤ 1
    unfolding react go_down come_back
    react-alerts_le = ground arith

    -- A change observed by a reading inside a maintenance window sends no alert.
    pub react-quiet :
        in_maintenance c.id samples ≡ true
        → (react like incidents c samples previous st now new_id).alerts ≡ []
    unfolding react go_down come_back
    react-quiet h = ground arith

    went_down : IsLawful incidents (go_down like incidents c samples previous st now new_id).1
    unfolding go_down open_auto_incident
    went_down =
        then_do-IsLawful incidents _ _
          (open_found-IsLawful incidents (latest_open like c incidents) c samples now new_id)
          (announce-IsLawful incidents _ _)

    came_back : IsLawful incidents (come_back like incidents c samples previous st now).1
    unfolding come_back resolve_auto_incident
    came_back =
        then_do-IsLawful incidents
          (writing (
            if str_eq st.incident_id ""
            then []
            else resolve_found (find_incident st.incident_id incidents) st.incident_id now))
          _
          (if_both (λ ops. IsLawful incidents (writing ops)) (str_eq st.incident_id "") _ _
            (record { recorded = refl; allowed = tt })
            (resolve_found-IsLawful incidents _ st.incident_id now refl))
          (announce-IsLawful incidents _ _)

    turn-IsLawful : IsLawful incidents (turn like incidents c samples previous st now new_id).1
    turn-IsLawful =
        if_both (λ (p : State × Reaction). IsLawful incidents p.1) (is_down st.verdict) _ _
          went_down
          (if_both (λ (p : State × Reaction). IsLawful incidents p.1) (is_down previous) _
            (st, nothing) came_back (record { recorded = refl; allowed = tt }))

    react-IsLawful : IsLawful incidents (react like incidents c samples previous st now new_id)
    unfolding react
    react-IsLawful =
        let turned = turn like incidents c samples previous st now new_id in
        then_do-IsLawful incidents turned.1 _ turn-IsLawful (
          then_do-IsLawful incidents (announce_flapping like c samples previous turned.0 now)
            (writing (put_state turned.0 ∷ [])) (flap-IsLawful incidents _ _)
            (record { recorded = refl; allowed = (tt, tt) }))

module _ (like : String → String → Bool) (db : Db) (updated : List State) (samples : List Sample)
    (now : ℕ) where
  roll_up-IsLawful :
      (c : Component) (new_id : String)
      → IsLawful db.incidents (roll_up like db c updated samples now new_id)
  unfolding roll_up
  roll_up-IsLawful c new_id =
      let t = tally (monitor_states updated db.states c.id db.monitors) in
      let st = state_or_new component c.id now db.states in
      let verdict = roll_verdict c.rollup t in
      if_both (IsLawful db.incidents) (t.seen == 0 || same_verdict st.verdict verdict) nothing _
        (record { recorded = refl; allowed = tt })
        (react-IsLawful like db.incidents c samples st.verdict (change_state st verdict now) now
          new_id)

  roll_up_found-IsLawful :
      (found : Option Component) (new_id : String)
      → IsLawful db.incidents (roll_up_found like db found updated samples now new_id)
  unfolding roll_up_found
  roll_up_found-IsLawful none new_id = record { recorded = refl; allowed = tt }
  roll_up_found-IsLawful (some c) new_id = roll_up-IsLawful c new_id

  roll_up_all-IsLawful :
      (ids : List String) (new_ids : String → String)
      → IsLawful db.incidents (roll_up_all like db ids updated samples now new_ids)
  unfolding roll_up_all
  roll_up_all-IsLawful [] new_ids = record { recorded = refl; allowed = tt }
  roll_up_all-IsLawful (id ∷ ids) new_ids =
      then_do-IsLawful db.incidents _ _
        (roll_up_found-IsLawful (find_component id db.components) (new_ids id))
        (roll_up_all-IsLawful ids new_ids)

-- The alerts that a tick sends are those that it records, in the same order; it resolves only
-- incidents that the monitor opened and that are not resolved, and it opens only incidents marked
-- as its own.
pub detect-IsLawful :
    (like : String → String → Bool) (db : Db) (samples : List Sample) (now : ℕ)
    (new_ids : String → String)
    → IsLawful db.incidents (detect like db samples now new_ids)
unfolding detect
detect-IsLawful like db samples now new_ids =
    let advanced = advance_all db (latest samples) now in
    then_do-IsLawful db.incidents (writing (map put_state advanced.updated)) _
      (record {
        recorded = recorded-put_state advanced.updated;
        allowed = Allowed-put_state db.incidents advanced.updated;
      })
      (roll_up_all-IsLawful like db advanced.updated (latest samples) now advanced.touched new_ids)
