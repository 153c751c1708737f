-- ===== src/Readings.antt =====
-- internal/core/samples.go: readings folded into intervals (`fold`), and what a fold says.
pub mod Tables
pub mod Verdicts
pub mod Counts
pub mod Keys
pub mod Passes
pub mod Once
pub mod Late
use container_app_service_mo.Base.{
  ℕ, zero, suc, ◌+◌, ◌-◌, ◌*◌, ◌/◌, Bool, true, false, ◌&&◌, ◌||◌, List, [], ◌∷◌, ◌++◌,
  if◌then◌else◌, ltb, leb, ◌==◌, String, length, get_or,
}
use container_app_service_mo.Base.Sort.{sort}
use container_app_service_mo.Model.{
  Verdict, up, degraded, down, error, unset, is_down, Sample, Bucket,
}

abbrev pub width_minute : ℕ
width_minute = 60

abbrev pub width_hour : ℕ
width_hour = 3600

pub record Fold : Type 0 where
  pub monitor_id : String
  pub component_id : String
  pub service_id : String
  pub start : ℕ
  pub width : ℕ
  pub up_count : ℕ
  pub degraded_count : ℕ
  pub down_count : ℕ
  pub error_count : ℕ
  pub maint_count : ℕ
  pub latencies : List ℕ
  pub down_intervals : ℕ
  pub seen_intervals : ℕ

abbrev pub counted : Verdict → Fold → Fold
counted up f = record f { up_count = f.up_count + 1 }
counted degraded f = record f { degraded_count = f.degraded_count + 1 }
counted down f = record f { down_count = f.down_count + 1 }
counted error f = record f { error_count = f.error_count + 1 }
counted unset f = record f { error_count = f.error_count + 1 }

-- `verdict != model.VerdictError`.
abbrev pub is_timed : Verdict → Bool
is_timed error = false
is_timed _ = true

unfoldable pub add_sample : Fold → Verdict → ℕ → Bool → Fold
add_sample f verdict duration_ms in_maintenance =
    let g = counted verdict f in
    record g {
      maint_count = if in_maintenance then g.maint_count + 1 else g.maint_count;
      latencies = if is_timed verdict then g.latencies ++ duration_ms ∷ [] else g.latencies;
    }

-- The loop of `latencyMax`, from the largest so far.
unfoldable pub latency_max_from : ℕ → List ℕ → ℕ
latency_max_from best [] = best
latency_max_from best (l ∷ ls) = latency_max_from (if ltb best l then l else best) ls

unfoldable pub add_bucket : Fold → Bucket → Fold
unfolding latency_max_from
add_bucket f b =
    let timed = if ltb 0 b.latency_p95 then f.latencies ++ b.latency_p95 ∷ [] else f.latencies in
    record f {
      up_count = f.up_count + b.up_count;
      degraded_count = f.degraded_count + b.degraded_count;
      down_count = f.down_count + b.down_count;
      error_count = f.error_count + b.error_count;
      maint_count = f.maint_count + b.maint_count;
      seen_intervals = f.seen_intervals + 1;
      down_intervals = if is_down b.verdict then f.down_intervals + 1 else f.down_intervals;
      latencies =
          if ltb (latency_max_from 0 timed) b.latency_max
          then timed ++ b.latency_max ∷ []
          else timed;
    }

unfoldable pub verdict : Fold → Verdict
verdict f =
    let readings = f.up_count + f.degraded_count + f.down_count in
    if leb width_hour f.width && ltb 0 f.seen_intervals
    then (if ltb 0 f.down_intervals
        then down
        else if ltb 0 f.degraded_count
        then degraded
        else if ltb 0 f.up_count
        then up
        else error)
    else if readings == 0
    then error
    else if leb readings (f.down_count * 2)
    then down
    else if ltb 0 f.down_count || ltb 0 f.degraded_count
    then degraded
    else up

-- `pick`, whose index is a fraction of the last place, rounded down: 0.5 and 0.95 are 50 and 95 out
-- of 100.
abbrev pub pick : ℕ → List ℕ → ℕ
pick percent sorted = get_or 0 sorted (percent * (length sorted - 1) / 100)

pub record Percentiles : Type 0 where
  pub p50 : ℕ
  pub p95 : ℕ
  pub max : ℕ

unfoldable pub percentiles : List ℕ → Percentiles
unfolding sort
percentiles [] = record { p50 = 0; p95 = 0; max = 0 }
percentiles (v ∷ vs) =
    let sorted = sort ltb (v ∷ vs) in
    record { p50 = pick 50 sorted; p95 = pick 95 sorted; max = get_or 0 sorted (length sorted - 1) }

-- The row that `op` writes.
unfoldable pub bucket_of : Fold → Bucket
unfolding verdict percentiles
bucket_of f =
    let p = percentiles f.latencies in
    record {
      monitor_id = f.monitor_id;
      component_id = f.component_id;
      service_id = f.service_id;
      start = f.start;
      width = f.width;
      up_count = f.up_count;
      degraded_count = f.degraded_count;
      down_count = f.down_count;
      error_count = f.error_count;
      maint_count = f.maint_count;
      latency_p50 = p.p50;
      latency_p95 = p.p95;
      latency_max = p.max;
      verdict = verdict f;
    }

-- The fold that the first reading of an interval opens.
abbrev pub open_fold : String → String → String → ℕ → ℕ → Fold
open_fold monitor_id component_id service_id start width = record {
  monitor_id = monitor_id;
  component_id = component_id;
  service_id = service_id;
  start = start;
  width = width;
  up_count = 0;
  degraded_count = 0;
  down_count = 0;
  error_count = 0;
  maint_count = 0;
  latencies = [];
  down_intervals = 0;
  seen_intervals = 0;
}
