-- ===== src/Scheduler/Marks.antt =====
-- Which readings of a tick are marked as taken in maintenance (internal/probe/scheduler.go, `tick`).
use mathlib.Core.List.{Memᴰ}
use container_app_service_mo.Base.{
  ℕ, ◌≡◌, refl, ap, ◌∙◌, Bool, true, false, ◌&&◌, ◌||◌, List, [], ◌∷◌, String, arith, any, All,
  select,
}
use container_app_service_mo.Base.Int.{pos}
use container_app_service_mo.Base.Words.{contains}
use container_app_service_mo.Model.{Sample}
use container_app_service_mo.Maintenance.{Window, is_active, active_maintenance}
use container_app_service_mo.Scheduler.{
  Watched, LastRun, JourneyResult, is_empty_list, blanket, under_maintenance, run, run_all, due,
  tick,
}

-- Some window is active at the instant, and names the component or names none.
abbrev pub is_marked : List Window → ℕ → String → Bool
is_marked windows now component =
    any
      (λ w.
        is_active (pos now) w && (contains component w.components || is_empty_list w.components))
      windows

any-select :
    (p q : Window → Bool) (ws : List Window) → any q (select p ws) ≡ any (λ w. p w && q w) ws
any-select p q [] = refl
any-select p q (w ∷ ws) = ground (arith, any-select p q ws)

any-either :
    (p q r : Window → Bool) (ws : List Window)
    → (any (λ w. p w && q w) ws || any (λ w. p w && r w) ws) ≡ any (λ w. p w && (q w || r w)) ws
any-either p q r [] = refl
any-either p q r (w ∷ ws) = ground (arith, any-either p q r ws)

marked-eq :
    (windows : List Window) (now : ℕ) (component : String)
    → (under_maintenance (active_maintenance (pos now) windows) component
        || blanket (active_maintenance (pos now) windows))
      ≡ is_marked windows now component
unfolding under_maintenance blanket active_maintenance
marked-eq windows now component =
    ap (λ b. b || any (λ w. is_empty_list w.components) (select (is_active (pos now)) windows))
      (any-select (is_active (pos now)) (λ w. contains component w.components) windows)
    ∙ ap (λ b. any (λ w. is_active (pos now) w && contains component w.components) windows || b)
        (any-select (is_active (pos now)) (λ w. is_empty_list w.components) windows)
    ∙ any-either (is_active (pos now)) (λ w. contains component w.components)
        (λ w. is_empty_list w.components) windows

-- A reading of a tick.
pub record IsTaken (windows : List Window) (now : ℕ) (s : Sample) : Type 0 where
  pub at_tick : s.started_at ≡ now
  pub scheduled : s.manual ≡ false
  pub marked : s.in_maintenance ≡ is_marked windows now s.component_id

run_all-IsTaken :
    (run_journey : Watched → ℕ → JourneyResult) (hash : String → ℕ) (windows : List Window)
    (now : ℕ) (mons : List Watched)
    → All
        (IsTaken windows now)
        (run_all hash run_journey (active_maintenance (pos now) windows) now mons)
unfolding run_all run
run_all-IsTaken run_journey hash windows now [] = tt
run_all-IsTaken run_journey hash windows now (mon ∷ mons) = (
  record { at_tick = refl; scheduled = refl; marked = marked-eq windows now mon.component_id },
  run_all-IsTaken run_journey hash windows now mons,
)

-- Every reading of a tick has the instant of the tick, is not a manual one, and is marked as taken
-- in maintenance exactly when some window that is active then names its component or names none.
pub tick-IsTaken :
    (hash : String → ℕ) (run_journey : Watched → ℕ → JourneyResult) (windows : List Window)
    (now : ℕ) (mons : List Watched) (last : LastRun)
    → All (IsTaken windows now) (tick hash run_journey windows now mons last).0
unfolding tick
tick-IsTaken hash run_journey windows now mons last =
    run_all-IsTaken run_journey hash windows now (due hash now mons last).0

is_marked-blanket :
    (w : Window) (windows : List Window) (now : ℕ) (component : String)
    → Memᴰ w windows
    → is_active (pos now) w ≡ true
    → is_empty_list w.components ≡ true
    → is_marked windows now component ≡ true
is_marked-blanket w [] now component m active whole = elim m [ ]
is_marked-blanket w (v ∷ windows) now component (Memᴰ.head e) active whole =
    ground (arith, ap (λ x. is_active (pos now) x && is_empty_list x.components) e, active, whole)
is_marked-blanket w (v ∷ windows) now component (Memᴰ.tail m) active whole =
    ground (arith, is_marked-blanket w windows now component m active whole)

All-marked :
    (windows : List Window) (now : ℕ)
    → ((component : String) → is_marked windows now component ≡ true)
    → (samples : List Sample) → All (IsTaken windows now) samples
    → All (λ s. s.in_maintenance ≡ true) samples
All-marked windows now marks [] h = tt
All-marked windows now marks (s ∷ samples) h =
    (h.0.marked ∙ marks s.component_id, All-marked windows now marks samples h.1)

-- Where a window that names no component is active, every reading of a tick is marked as taken in
-- maintenance, whichever service the window and the monitor belong to.
pub tick-blankets :
    (hash : String → ℕ) (run_journey : Watched → ℕ → JourneyResult) (windows : List Window)
    (now : ℕ) (mons : List Watched) (last : LastRun) (w : Window)
    → Memᴰ w windows
    → is_active (pos now) w ≡ true
    → w.components ≡ []
    → All (λ s. s.in_maintenance ≡ true) (tick hash run_journey windows now mons last).0
tick-blankets hash run_journey windows now mons last w m active whole =
    All-marked windows now
      (λ component. is_marked-blanket w windows now component m active (ap is_empty_list whole))
      (tick hash run_journey windows now mons last).0
      (tick-IsTaken hash run_journey windows now mons last)
