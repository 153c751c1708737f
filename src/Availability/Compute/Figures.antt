-- ===== src/Availability/Compute/Figures.antt =====
-- The figures that `Compute` reports (internal/availability/compute.go), as counts of instants.
use container_app_service_mo.Base.{
  ℕ, ◌≤◌, ◌≡◌, refl, ◌∙◌, ◌+◌, true, ◌&&◌, List, [], ◌∷◌, map, any, arith,
}
use container_app_service_mo.Base.Measure.{count_below, count_below_mono}
use container_app_service_mo.Availability.Interval.{
  Interval, intersect, subtract, merge, sum_seconds,
}
use container_app_service_mo.Availability.Points.Merged.{covers-merge}
use container_app_service_mo.Availability.Points.Combined.{subtract-IsNormal, covers-intersect}
use container_app_service_mo.Availability.Points.Length.{
  total-split, total-congr, sum_seconds-total,
}
use container_app_service_mo.Availability.Compute.{
  ComponentInput, Input, Gap, gap_of, applied_windows, scheduled_series, net_series, ast_summary,
  totals_of, downtime_summary, results_of, compute,
}
use container_app_service_mo.Availability.Compute.Sets.{
  agreed_at, observed_at, down_at, total-count_set, covers-applied, covers-net, covers-service_down,
  covers-service_observed,
}

-- The net and the excluded seconds add up to the scheduled seconds, whatever the windows and
-- however they overlap.
pub ast-partition :
    (inp : Input) → (compute inp).ast.net + (compute inp).ast.excluded ≡ (compute inp).ast.scheduled
unfolding compute ast_summary net_series
ast-partition inp =
    let sch = scheduled_series inp in
    let cut = applied_windows sch inp.exclusions in
    omega (
      arith,
      total-split sch cut,
      total-congr (intersect sch cut) cut
          (λ t. ground (arith, covers-intersect t sch cut, covers-applied t sch inp.exclusions)),
    )

-- The net agreed seconds are the number of instants of the period that are scheduled and that no
-- applied window removes.
pub net-count : (inp : Input) → (compute inp).ast.net ≡ count_below inp.period.to (agreed_at inp)
unfolding compute ast_summary
net-count inp =
    total-count_set inp.period.to (net_series inp) (agreed_at inp) (covers-net inp)
      (λ t h. ground arith)

-- The downtime seconds that the calculation reports are the number of agreed instants of the
-- period at which some component is down by its monitors' finest buckets and its rollup rule.
pub downtime-count :
    (inp : Input)
    → (compute inp).downtime.seconds
      ≡ count_below inp.period.to (λ t. agreed_at inp t && any (down_at t) inp.components)
unfolding compute ast_summary downtime_summary
downtime-count inp =
    let totals = totals_of inp in
    total-count_set inp.period.to (merge totals.service_outages)
      (λ t. agreed_at inp t && any (down_at t) inp.components)
      (λ t. covers-merge t totals.service_outages ∙ covers-service_down inp t) (λ t h. ground arith)

-- The observed seconds are the number of agreed instants of the period at which some component has
-- a reading of the service.
pub observed-count :
    (inp : Input)
    → (compute inp).results.observed_seconds
      ≡ count_below inp.period.to (λ t. agreed_at inp t && any (observed_at t) inp.components)
unfolding compute ast_summary results_of
observed-count inp =
    let totals = totals_of inp in
    total-count_set inp.period.to (merge totals.observed_all)
      (λ t. agreed_at inp t && any (observed_at t) inp.components)
      (λ t. covers-merge t totals.observed_all ∙ covers-service_observed inp t)
      (λ t h. ground arith)

any-down-observed :
    (t : ℕ) (cs : List ComponentInput) → any (down_at t) cs ≡ true → any (observed_at t) cs ≡ true
any-down-observed t [] h = h
any-down-observed t (c ∷ cs) h = ground (arith, any-down-observed t cs)

-- The downtime is at most the observed seconds, and the observed seconds are at most the net
-- agreed seconds.
pub downtime-le-observed-le-net :
    (inp : Input)
    → ((compute inp).downtime.seconds ≤ (compute inp).results.observed_seconds)
      × ((compute inp).results.observed_seconds ≤ (compute inp).ast.net)
downtime-le-observed-le-net inp = (
  omega (
    arith,
    downtime-count inp,
    observed-count inp,
    count_below_mono inp.period.to (λ t. agreed_at inp t && any (down_at t) inp.components)
        (λ t. agreed_at inp t && any (observed_at t) inp.components)
        (λ t h. ground (arith, any-down-observed t inp.components)),
  ),
  omega (
    arith,
    net-count inp,
    observed-count inp,
    count_below_mono inp.period.to (λ t. agreed_at inp t && any (observed_at t) inp.components)
        (agreed_at inp) (λ t h. ground arith),
  ),
)

-- The seconds of the gaps.
unfoldable pub gap_seconds : List Gap → ℕ
gap_seconds [] = 0
gap_seconds (g ∷ gs) = g.seconds + gap_seconds gs

gap_seconds-sum : (ivs : List Interval) → gap_seconds (map gap_of ivs) ≡ sum_seconds ivs
unfolding gap_seconds sum_seconds
gap_seconds-sum [] = refl
gap_seconds-sum (iv ∷ ivs) = omega (arith, gap_seconds-sum ivs)

-- The seconds of the reported gaps and the observed seconds add up to the net agreed seconds.
pub gaps-partition :
    (inp : Input)
    → gap_seconds (compute inp).gaps + (compute inp).results.observed_seconds
      ≡ (compute inp).ast.net
unfolding compute ast_summary results_of
gaps-partition inp =
    let net = net_series inp in
    let totals = totals_of inp in
    let seen = merge totals.observed_all in
    omega (
      arith,
      gap_seconds-sum (subtract net seen),
      sum_seconds-total (subtract net seen) (subtract-IsNormal net seen),
      total-split net seen,
      total-congr (intersect net seen) seen (λ t. ground (
        arith,
        covers-intersect t net seen,
        covers-net inp t,
        covers-merge t totals.observed_all,
        covers-service_observed inp t,
      )),
    )
