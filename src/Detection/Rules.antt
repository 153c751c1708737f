-- ===== src/Detection/Rules.antt =====
-- The rollup rule of `rollUpComponent` (internal/core/detect.go) against the one that the report uses
-- (internal/availability/compute.go).
use container_app_service_mo.Base.{
  ℕ, ◌≡◌, refl, ◌∙◌, ◌+◌, Bool, true, false, ◌&&◌, List, [], ◌∷◌, arith, if◌then◌else◌, ltb,
  count_if,
}
use native.Mathlib.Nat.{zero-add}
use container_app_service_mo.Model.{up, is_down, worse_verdict, Rollup}
use container_app_service_mo.Availability.Series.{is_bad}
use container_app_service_mo.Detection.{
  State, is_known, Tally, add_state, tally, tally_from, roll_verdict,
}

-- The monitors that count, and those of them that are down.
abbrev pub count_known : List State → ℕ
count_known = count_if is_known

abbrev pub count_down : List State → ℕ
count_down = count_if (λ st. is_known st && is_down st.verdict)

-- The worst verdict is down exactly when a monitor that counts is.
abbrev no_tally : Tally
no_tally = record { seen = 0; down = 0; worst = up }

record IsTally (t u : Tally) (sts : List State) : Type 0 where
  seen : u.seen ≡ t.seen + count_known sts
  lost : u.down ≡ t.down + count_down sts

tally_from-IsTally : (t : Tally) (sts : List State) → IsTally t (tally_from t sts) sts
unfolding tally_from
tally_from-IsTally t [] = record { seen = omega arith; lost = omega arith }
tally_from-IsTally t (st ∷ sts) =
    ground (arith, tally_from-IsTally (if is_known st then add_state st t else t) sts)

abbrev Agrees : Tally → Type 0
Agrees t = is_down t.worst ≡ ltb 0 t.down

add_state-Agrees : (t : Tally) (st : State) → Agrees t → Agrees (add_state st t)
unfolding worse_verdict
add_state-Agrees t st h = ground (arith, h)

step-Agrees :
    (counts : Bool) (t : Tally) (st : State)
    → Agrees t
    → Agrees (if counts then add_state st t else t)
step-Agrees true t st h = add_state-Agrees t st h
step-Agrees false t st h = h

tally_from-Agrees : (t : Tally) (sts : List State) → Agrees t → Agrees (tally_from t sts)
unfolding tally_from
tally_from-Agrees t [] h = h
tally_from-Agrees t (st ∷ sts) h =
    tally_from-Agrees (if is_known st then add_state st t else t) sts
      (step-Agrees (is_known st) t st h)

pub tally-counts :
    (sts : List State) → ((tally sts).seen ≡ count_known sts) × ((tally sts).down ≡ count_down sts)
unfolding tally
tally-counts sts =
    let all = tally_from-IsTally no_tally sts in
    (all.seen ∙ zero-add (count_known sts), all.lost ∙ zero-add (count_down sts))

verdict-is_bad :
    (rollup : Rollup) (t : Tally) (n k : ℕ)
    → t.seen ≡ n
    → t.down ≡ k
    → Agrees t
    → is_down (roll_verdict rollup t) ≡ is_bad rollup k n
unfolding roll_verdict
verdict-is_bad Rollup.all t n k seen lost h = ground (arith, seen, lost)
verdict-is_bad Rollup.majority t n k seen lost h = ground (arith, seen, lost)
verdict-is_bad Rollup.any t n k seen lost h = ground (arith, lost, h)

-- Detection calls a component down exactly when the rule of the availability calculation calls an
-- outage, for the same number of down monitors out of the same number of monitors that count.
pub roll_verdict-is_bad :
    (rollup : Rollup) (sts : List State)
    → is_down (roll_verdict rollup (tally sts)) ≡ is_bad rollup (count_down sts) (count_known sts)
unfolding roll_verdict tally
roll_verdict-is_bad rollup sts =
    let counts = tally-counts sts in
    verdict-is_bad rollup (tally sts) _ _ counts.0 counts.1 (tally_from-Agrees no_tally sts refl)
