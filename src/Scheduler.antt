-- ===== src/Scheduler.antt =====
-- internal/probe/scheduler.go: which monitors run at a tick, and the readings that a tick records. The
-- hash of an identifier and the run of a journey are parameters.
pub mod Due
pub mod Slots
pub mod Marks
use container_app_service_mo.Base.{
  ℕ, suc, zero, ◌+◌, ◌-◌, ◌%◌, Bool, true, false, not, ◌&&◌, ◌||◌, List, [], ◌∷◌, ◌++◌, String,
  Option, none, some, if◌then◌else◌, ltb, leb, ◌==◌, any,
}
use container_app_service_mo.Base.Int.{ℤ, pos}
use container_app_service_mo.Base.Words.{contains}
use container_app_service_mo.Model.{Verdict, Sample}
use container_app_service_mo.Maintenance.{Window, active_maintenance}
use text.Mathlib.Text.{◌==◌ as str_eq}

pub record Watched : Type 0 where
  pub id : String
  pub component_id : String
  pub service_id : String
  pub enabled : Bool
  pub interval_seconds : ℕ

-- `lastRun`.
abbrev pub LastRun : Type 0
LastRun = String → Option ℕ

-- What a run of a journey gives of a reading.
pub record JourneyResult : Type 0 where
  pub duration_ms : ℕ
  pub verdict : Verdict
  pub detail : String

abbrev pub is_empty_list : List String → Bool
is_empty_list [] = true
is_empty_list (c ∷ cs) = false

-- `blanket` of a tick.
unfoldable pub blanket : List Window → Bool
blanket windows = any (λ w. is_empty_list w.components) windows

-- `underMaintenance` of a tick.
unfoldable pub under_maintenance : List Window → String → Bool
under_maintenance windows component = any (λ w. contains component w.components) windows

-- The last run was less than an interval ago.
abbrev pub ran_within : ℕ → ℕ → Option ℕ → Bool
ran_within interval now none = false
ran_within interval now (some last) = ltb now (last + interval)

abbrev pub set_last : String → ℕ → LastRun → LastRun
set_last id now last x = if str_eq x id then some now else last x

module _ (hash : String → ℕ) where
  -- `offsetOf`.
  unfoldable pub offset_of : String → ℕ → ℕ
  offset_of id interval = (hash id % interval) % interval

  -- The instant is one of the monitor's slots.
  unfoldable pub in_slot : Watched → ℕ → Bool
  unfolding offset_of
  in_slot mon now = (now + offset_of mon.id mon.interval_seconds) % mon.interval_seconds == 0

  -- The guards of the loop of `due`.
  unfoldable pub is_due : Watched → ℕ → Option ℕ → Bool
  unfolding in_slot
  is_due mon now last =
      (mon.enabled && ltb 0 mon.interval_seconds)
      && (in_slot mon now && not (ran_within mon.interval_seconds now last))

  -- The table of last runs after a monitor was looked at.
  unfoldable pub after_look : ℕ → Watched → LastRun → LastRun
  after_look now mon last = if is_due mon now (last mon.id) then set_last mon.id now last else last

  -- The monitors that are due, and the table of last runs after it.
  unfoldable pub due : ℕ → List Watched → LastRun → List Watched × LastRun
  due now [] last = ([], last)
  due now (mon ∷ mons) last =
      let (rest, last') = due now mons (after_look now mon last) in
      (if is_due mon now (last mon.id) then mon ∷ rest else rest, last')

  module _ (run_journey : Watched → ℕ → JourneyResult) where
    -- `run`, up to the identifier that `RecordSamples` draws.
    unfoldable pub run : Watched → ℕ → Bool → Bool → Sample
    run mon now in_maintenance manual =
        let res = run_journey mon now in
        record {
          id = "";
          monitor_id = mon.id;
          component_id = mon.component_id;
          service_id = mon.service_id;
          started_at = now;
          duration_ms = res.duration_ms;
          verdict = res.verdict;
          detail = res.detail;
          manual = manual;
          in_maintenance = in_maintenance;
        }

    unfoldable pub run_all : List Window → ℕ → List Watched → List Sample
    unfolding run blanket under_maintenance
    run_all windows now [] = []
    run_all windows now (mon ∷ mons) =
        run mon now (under_maintenance windows mon.component_id || blanket windows) false
        ∷ run_all windows now mons

    -- The readings that a tick records, and the last runs after it.
    unfoldable pub tick : List Window → ℕ → List Watched → LastRun → List Sample × LastRun
    tick windows now mons last =
        let (ready, last') = due now mons last in
        (run_all (active_maintenance (pos now) windows) now ready, last')

    -- The reading of `RunOnce`.
    unfoldable pub run_once : Watched → ℕ → Sample
    unfolding run
    run_once mon now = run mon now false true
