-- ===== src/Examples/Figures.antt =====
-- The theorems on the availability figures, at the example service.
use container_app_service_mo.Base.{ℕ, ◌≡◌, ◌+◌, ◌<◌, ◌≤◌, ◌*◌, ◌-◌, [], ◌∷◌, arith, All}
use container_app_service_mo.Base.Int.{pos, ◌≤ℤ◌}
use container_app_service_mo.Base.Measure.{count_below}
use container_app_service_mo.Model.{Rollup}
use container_app_service_mo.Availability.Interval.{intersect, subtract, total}
use container_app_service_mo.Availability.Ratio.{ratio, ratio_nearest, ppm}
use container_app_service_mo.Availability.Points.Length.{total-split}
use container_app_service_mo.Availability.Series.{component_series, monitor_ids}
use container_app_service_mo.Availability.Series.Instants.{finest_at}
use container_app_service_mo.Availability.Series.Sweep.{SaysAt, component_series-SaysAt}
use container_app_service_mo.Availability.Compute.{compute}
use container_app_service_mo.Availability.Compute.Objectives.{objectives_of}
use container_app_service_mo.Availability.Compute.Figures.{
  net-count, downtime-count, observed-count, gaps-partition, gap_seconds,
}
use container_app_service_mo.Availability.Compute.Scores.{IsSound, objectives_of-IsSound}
use container_app_service_mo.Availability.Compute.Shares.{results_bounds, availability-nearest}
use container_app_service_mo.Examples.Service.{buckets, two_intervals, input, three_nines}

-- At second 25 the finer bucket of monitor a speaks: both monitors are seen, one is down.
component_series-SaysAt_example : SaysAt Rollup.any 25 2 1 (component_series Rollup.any buckets)
unfolding monitor_ids finest_at
component_series-SaysAt_example = component_series-SaysAt Rollup.any buckets 25

net-count_example : (compute input).ast.net ≡ 90
unfolding count_below
net-count_example = net-count input

downtime-count_example : (compute input).downtime.seconds ≡ 10
unfolding count_below monitor_ids finest_at
downtime-count_example = downtime-count input

observed-count_example : (compute input).results.observed_seconds ≡ 60
unfolding count_below monitor_ids finest_at
observed-count_example = observed-count input

gaps-partition_example :
    gap_seconds (compute input).gaps + (compute input).results.observed_seconds
    ≡ (compute input).ast.net
gaps-partition_example = gaps-partition input

objectives_of-IsSound_example :
    All
      (IsSound (compute input).ast.net (pos 500000) (compute input).results.coverage_ppm)
      (objectives_of input (pos 500000) (three_nines ∷ []))
objectives_of-IsSound_example = objectives_of-IsSound input (pos 500000) (three_nines ∷ [])

results_bounds_example :
    (pos 0 ≤ℤ (compute input).results.availability_ppm)
    × ((compute input).results.availability_ppm ≤ℤ ppm)
    × (pos 0 ≤ℤ (compute input).results.coverage_ppm)
    × ((compute input).results.coverage_ppm ≤ℤ ppm)
results_bounds_example = results_bounds input (omega arith)

net_here : (compute input).ast.net ≡ 90
unfolding count_below
net_here = net-count input

down_here : (compute input).downtime.seconds ≡ 10
unfolding count_below monitor_ids finest_at
down_here = downtime-count input

-- Eighty of ninety seconds, to the nearest part per million.
availability-nearest_example :
    (r : ℕ) × ((compute input).results.availability_ppm ≡ pos r)
    × (r * ((compute input).ast.net * 2)
        ≤ ((compute input).ast.net - (compute input).downtime.seconds) * 1000000 * 2
          + (compute input).ast.net)
    × (((compute input).ast.net - (compute input).downtime.seconds) * 1000000 * 2
          + (compute input).ast.net
        < r * ((compute input).ast.net * 2) + (compute input).ast.net * 2)
availability-nearest_example =
    availability-nearest input (omega arith) (omega (arith, down_here))
      (omega (arith, down_here, net_here))

total-split_example :
    total (intersect two_intervals input.scheduled) + total (subtract two_intervals input.scheduled)
    ≡ total two_intervals
total-split_example = total-split two_intervals input.scheduled

ratio_nearest_example :
    (r : ℕ) × (ratio (pos 2) (pos 3) ≡ pos r) × (r * 6 ≤ 4000003) × (4000003 < r * 6 + 6)
ratio_nearest_example = ratio_nearest 2 3 (omega arith) (omega arith) (omega arith)
