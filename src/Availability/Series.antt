-- ===== src/Availability/Series.antt =====
-- internal/availability/compute.go: `monitorSegments` and `ComponentSeries`, which turn the folded
-- readings of a component into the intervals in which it was down, and those in which it was observed.
pub mod Instants
pub mod Sweep
pub mod Finest
use text.Mathlib.Text.{◌==◌ as str_eq}
use container_app_service_mo.Base.{
  ℕ, zero, ◌+◌, ◌*◌, Bool, true, false, ◌&&◌, ◌||◌, List, [], ◌∷◌, ◌++◌, map, if◌then◌else◌, ltb,
  leb, ◌==◌, not, select, count_if, String, any,
}
use container_app_service_mo.Base.Sort.{sort}
use container_app_service_mo.Model.{Bucket, Verdict, is_down, Rollup}
use container_app_service_mo.Availability.Interval.{Interval, merge, subtract}

-- One monitor's verdict over one stretch of time.
pub record Segment : Type 0 where
  pub from : ℕ
  pub to : ℕ
  pub observed : Bool
  pub down : Bool

-- The comparison that `monitorSegments` sorts by.
abbrev pub finer : Bucket → Bucket → Bool
finer a b = if a.width == b.width then ltb a.start b.start else ltb a.width b.width

abbrev pub whole : Bucket → Interval
whole b = record { from = b.start; to = b.start + b.width }

-- A bucket made only of errors is not a reading of the service.
abbrev pub is_observed : Bucket → Bool
is_observed b = ltb 0 (b.up_count + b.degraded_count + b.down_count)

abbrev pub segment_of : Bucket → Interval → Segment
segment_of b iv = record {
  from = iv.from;
  to = iv.to;
  observed = is_observed b;
  down = is_down b.verdict;
}

-- The loop of `monitorSegments`; widths are not negative, so `width <= 0` is `width == 0`.
unfoldable pub segments_loop : List Bucket → List Interval → List Segment
segments_loop [] covered = []
segments_loop (b ∷ bs) covered = elim (b.width == 0) [
  | true ↦ segments_loop bs covered
  | false ↦
      map (segment_of b) (subtract (whole b ∷ []) covered)
      ++ segments_loop bs (merge (covered ++ whole b ∷ []))
]

unfoldable pub monitor_segments : List Bucket → List Segment
unfolding segments_loop
monitor_segments buckets = segments_loop (sort finer buckets) []

-- The keys of `byMonitor`, each once, in the order of their last readings. (Go ranges over the map in
-- no fixed order; the result depends on the set of segments alone.)
abbrev pub has_monitor : String → Bucket → Bool
has_monitor id b = str_eq b.monitor_id id

unfoldable pub monitor_ids : List Bucket → List String
monitor_ids [] = []
monitor_ids (b ∷ bs) =
    if any (has_monitor b.monitor_id) bs then monitor_ids bs else b.monitor_id ∷ monitor_ids bs

unfoldable pub segments_by : List Bucket → List String → List Segment
unfolding monitor_segments
segments_by buckets [] = []
segments_by buckets (id ∷ ids) =
    monitor_segments (select (has_monitor id) buckets) ++ segments_by buckets ids

unfoldable pub all_segments : List Bucket → List Segment
unfolding segments_by monitor_ids
all_segments buckets = segments_by buckets (monitor_ids buckets)

-- `points` with `bounds`: a set of instants, kept in order.
unfoldable pub insert_bound : ℕ → List ℕ → List ℕ
insert_bound p [] = p ∷ []
insert_bound p (q ∷ qs) =
    if p == q then q ∷ qs else if ltb p q then p ∷ q ∷ qs else q ∷ insert_bound p qs

unfoldable pub bounds_of : List Segment → List ℕ
unfolding insert_bound
bounds_of [] = []
bounds_of (s ∷ ss) = insert_bound s.from (insert_bound s.to (bounds_of ss))

-- The segments that count for [from, to): `s.from > from || s.to < to || !s.observed` is skipped.
abbrev pub counts_for : ℕ → ℕ → Segment → Bool
counts_for from to s = not (ltb from s.from || ltb s.to to || not s.observed)

abbrev pub is_bad : Rollup → ℕ → ℕ → Bool
is_bad Rollup.all is_down seen = is_down == seen
is_bad Rollup.majority is_down seen = ltb seen (is_down * 2)
is_bad Rollup.any is_down seen = ltb 0 is_down

-- The two series that the sweep appends to.
pub record Swept : Type 0 where
  pub down : List Interval
  pub observed : List Interval

-- One round of the sweep, in front of what the later rounds append.
abbrev pub sweep_cell : Rollup → List Segment → ℕ → ℕ → Swept → Swept
sweep_cell rollup segs from to rest =
    let seen = count_if (counts_for from to) segs in
    let is_down = count_if (λ s. counts_for from to s && s.down) segs in
    let iv : Interval = record { from = from; to = to } in
    if leb to from || seen == 0 then rest else record {
      down = if is_bad rollup is_down seen then iv ∷ rest.down else rest.down;
      observed = iv ∷ rest.observed;
    }

unfoldable pub sweep_from : Rollup → List Segment → ℕ → List ℕ → Swept
sweep_from rollup segs from [] = record { down = []; observed = [] }
sweep_from rollup segs from (to ∷ bounds) =
    sweep_cell rollup segs from to (sweep_from rollup segs to bounds)

unfoldable pub sweep : Rollup → List Segment → List ℕ → Swept
unfolding sweep_from
sweep rollup segs [] = record { down = []; observed = [] }
sweep rollup segs (from ∷ bounds) = sweep_from rollup segs from bounds

unfoldable pub component_series : Rollup → List Bucket → Swept
unfolding all_segments bounds_of sweep
component_series rollup buckets =
    let segs = all_segments buckets in
    let swept = sweep rollup segs (bounds_of segs) in
    record { down = merge swept.down; observed = merge swept.observed }
