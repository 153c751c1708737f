-- ===== src/Examples/Slots.antt =====
-- Two monitors and their ticks, and the theorems on the scheduler at them
-- (internal/probe/scheduler.go).
use container_app_service_mo.Base.{
  ℕ, ◌≡◌, refl, true, false, List, [], ◌∷◌, String, arith, none, count_if, All,
}
use container_app_service_mo.Base.Int.{pos}
use container_app_service_mo.Model.{up, Sample}
use container_app_service_mo.Maintenance.{Window, is_active}
use container_app_service_mo.Scheduler.{Watched, LastRun, JourneyResult, in_slot, tick}
use container_app_service_mo.Scheduler.Slots.{runs_of, runs_of-slots, runs_of-once, seconds_from}
use container_app_service_mo.Scheduler.Marks.{IsTaken, tick-IsTaken, tick-blankets}
use mathlib.Core.List.{Memᴰ}

abbrev hash : String → ℕ
hash id = 7

abbrev front : Watched
front = record {
  id = "mon_1";
  component_id = "web";
  service_id = "shop";
  enabled = true;
  interval_seconds = 30;
}

abbrev back : Watched
back = record front { id = "mon_2"; component_id = "db"; service_id = "bank" }

abbrev watched : List Watched
watched = front ∷ back ∷ []

abbrev never : LastRun
never id = none

-- The tick at 23, the slot, is missed.
runs_of-slots_example :
    runs_of hash "mon_1" (21 ∷ 22 ∷ 24 ∷ 25 ∷ []) watched never
    ≡ count_if (in_slot hash front) (21 ∷ 22 ∷ 24 ∷ 25 ∷ [])
runs_of-slots_example =
    runs_of-slots hash front watched (21 ∷ 22 ∷ 24 ∷ 25 ∷ []) 21 never (refl, (refl, tt))
      (Memᴰ.head refl) refl (omega arith) (omega arith) tt

missed : count_if (in_slot hash front) (21 ∷ 22 ∷ 24 ∷ 25 ∷ []) ≡ 0
unfolding in_slot
missed = refl

runs_of-once_example : runs_of hash "mon_2" (seconds_from 1000 30) watched never ≡ 1
runs_of-once_example =
    runs_of-once hash back watched 1000 never (refl, (refl, tt)) (Memᴰ.tail (Memᴰ.head refl)) refl
      (omega arith) tt

-- A window of the whole service "shop".
abbrev window : Window
window = record {
  id = "mw_1";
  service_id = "shop";
  components = [];
  class = "planned_maintenance";
  title = 85 ∷ [];
  description = [];
  declared_at = pos 0;
  starts_at = pos 0;
  ends_at = pos 100;
  excluded = true;
  lead_time = pos 0;
  published = true;
  cancelled = false;
  tx_id = "";
}

abbrev all_well : Watched → ℕ → JourneyResult
all_well mon now = record { duration_ms = 12; verdict = up; detail = "" }

tick-IsTaken_example :
    All (IsTaken (window ∷ []) 23) (tick hash all_well (window ∷ []) 23 watched never).0
tick-IsTaken_example = tick-IsTaken hash all_well (window ∷ []) 23 watched never

window_active : is_active (pos 23) window ≡ true
unfolding is_active
window_active = refl

-- The monitor of another service is marked too.
tick-blankets_example :
    All
      (λ (s : Sample). s.in_maintenance ≡ true)
      (tick hash all_well (window ∷ []) 23 (back ∷ []) never).0
tick-blankets_example =
    tick-blankets hash all_well (window ∷ []) 23 (back ∷ []) never window (Memᴰ.head refl)
      window_active refl
