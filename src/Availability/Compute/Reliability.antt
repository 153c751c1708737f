-- ===== src/Availability/Compute/Reliability.antt =====
-- The reliability figures of `Compute` (internal/availability/compute.go): the number of outages,
-- the longest, and the mean times.
use container_app_service_mo.Base.{
  ℕ, suc, ◌≤◌, ◌<◌, ◌≡◌, ◌+◌, ◌-◌, ◌*◌, ◌/◌, List, [], ◌∷◌, ltb, arith, length, if◌then◌else◌,
}
use container_app_service_mo.Availability.Interval.{Interval, seconds, total, merge, sum_seconds}
use container_app_service_mo.Availability.Points.{NormalFrom}
use container_app_service_mo.Availability.Points.Merged.{merge-IsNormal}
use container_app_service_mo.Availability.Points.Length.{sum_seconds-total}
use container_app_service_mo.Availability.Compute.{
  Input, DowntimeSummary, longest_from, downtime_summary, totals_of, ast_summary, compute,
}

longest_from-le : (best : ℕ) (ivs : List Interval) → best ≤ longest_from best ivs
unfolding longest_from
longest_from-le best [] = omega arith
longest_from-le best (iv ∷ ivs) =
    ground (arith, longest_from-le (if ltb best (seconds iv) then seconds iv else best) ivs)

longest_from-sum : (best : ℕ) (ivs : List Interval) → longest_from best ivs ≤ best + sum_seconds ivs
unfolding longest_from sum_seconds
longest_from-sum best [] = omega arith
longest_from-sum best (iv ∷ ivs) =
    ground (arith, longest_from-sum (if ltb best (seconds iv) then seconds iv else best) ivs)

sum_seconds-longest :
    (best : ℕ) (ivs : List Interval) → sum_seconds ivs ≤ length ivs * longest_from best ivs
unfolding longest_from sum_seconds
sum_seconds-longest best [] = omega arith
sum_seconds-longest best (iv ∷ ivs) =
    let next : ℕ = if ltb best (seconds iv) then seconds iv else best in
    let fits : seconds iv ≤ next = ground arith in
    grind (arith, sum_seconds-longest next ivs, longest_from-le next ivs)

length-le-sum_seconds :
    (lo : ℕ) (ivs : List Interval) → NormalFrom lo ivs → length ivs ≤ sum_seconds ivs
unfolding sum_seconds
length-le-sum_seconds lo [] n = omega arith
length-le-sum_seconds lo (iv ∷ ivs) n = omega (arith, length-le-sum_seconds (suc iv.to) ivs n.2)

-- The figures fit together: no outage is longer than the downtime, the downtime is at most the
-- longest outage once for each outage, each outage lasts a second or more, and the mean time to
-- restore service and the mean time between failures are the quotients, rounded down.
pub record IsReliability (net : ℕ) (d : DowntimeSummary) : Type 0 where
  pub longest_within : d.longest_seconds ≤ d.seconds
  pub seconds_within : d.seconds ≤ d.outages * d.longest_seconds
  pub outages_within : d.outages ≤ d.seconds
  pub mtrs_low : d.mtrs * d.outages ≤ d.seconds
  pub mtrs_high : 0 < d.outages → d.seconds < (d.mtrs + 1) * d.outages
  pub mtbf_low : d.mtbf * d.outages ≤ net - d.seconds
  pub mtbf_high : 0 < d.outages → net - d.seconds < (d.mtbf + 1) * d.outages

mean_low : (a n : ℕ) → (if ltb 0 n then a / n else 0) * n ≤ a
mean_low a n = grind arith

mean_high : (a n : ℕ) → 0 < n → a < ((if ltb 0 n then a / n else 0) + 1) * n
mean_high a n h = grind arith

downtime_summary-IsReliability :
    (net : ℕ) (ivs : List Interval) → IsReliability net (downtime_summary net (merge ivs))
unfolding downtime_summary
downtime_summary-IsReliability net ivs =
    let n = length (merge ivs) in
    let same : sum_seconds (merge ivs) ≡ total (merge ivs) =
      sum_seconds-total (merge ivs) (merge-IsNormal ivs) in
    record {
      longest_within = omega (arith, same, longest_from-sum 0 (merge ivs));
      seconds_within = rw (← same) (sum_seconds-longest 0 (merge ivs));
      outages_within =
          omega (arith, same, length-le-sum_seconds 0 (merge ivs) (merge-IsNormal ivs));
      mtrs_low = mean_low (total (merge ivs)) n;
      mtrs_high = mean_high (total (merge ivs)) n;
      mtbf_low = mean_low (net - total (merge ivs)) n;
      mtbf_high = mean_high (net - total (merge ivs)) n;
    }

-- The longest outage is at most the downtime, the downtime at most the number of outages times the
-- longest, the number of outages at most the downtime, and the mean times are the quotients by the
-- number of outages, rounded down.
pub compute-IsReliability :
    (inp : Input) → IsReliability (compute inp).ast.net (compute inp).downtime
unfolding compute
compute-IsReliability inp =
    downtime_summary-IsReliability (ast_summary inp).net (totals_of inp).service_outages
