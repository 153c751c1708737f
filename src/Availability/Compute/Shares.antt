-- ===== src/Availability/Compute/Shares.antt =====
-- The parts of `Compute`'s result per component, and its ratios
-- (internal/availability/compute.go).
use container_app_service_mo.Base.{
  ℕ, ◌≤◌, ◌<◌, ◌≡◌, refl, ◌∙◌, ◌+◌, ◌-◌, ◌*◌, List, [], ◌∷◌, ◌++◌, arith, All, All-append,
  any-append,
}
use container_app_service_mo.Base.Int.{pos, ◌≤ℤ◌}
use container_app_service_mo.Base.Measure.{count_below-le}
use container_app_service_mo.Availability.Interval.{Interval, intersect, total, merge}
use container_app_service_mo.Availability.Ratio.{
  availability, ppm, exact_limit, ratio_bounds, availability_bounds, availability-ratio,
  ratio_nearest,
}
use container_app_service_mo.Availability.Points.{holds}
use container_app_service_mo.Availability.Points.Length.{total_mono}
use container_app_service_mo.Availability.Points.Merged.{covers-merge}
use container_app_service_mo.Availability.Series.{component_series}
use container_app_service_mo.Availability.Compute.{
  ComponentInput, ComponentResult, Input, Totals, no_totals, add_component, add_components,
  totals_of, net_series, ast_summary, compute, results_of, downtime_summary,
}
use container_app_service_mo.Availability.Compute.Sets.{agreed_at}
use container_app_service_mo.Availability.Compute.Figures.{net-count}

abbrev Within : List Interval → List ComponentResult → Type 0
Within outages = All (λ r. r.downtime_seconds ≤ total outages)

Within-mono :
    (a b : List Interval) (rs : List ComponentResult)
    → total a ≤ total b
    → Within a rs
    → Within b rs
Within-mono a b [] h w = tt
Within-mono a b (r ∷ rs) h w = (omega arith, Within-mono a b rs h w.1)

add_component-Within :
    (net : List Interval) (n : ℕ) (c : ComponentInput) (acc : Totals)
    → Within acc.service_outages acc.components
    → let acc' = add_component net n c acc in Within acc'.service_outages acc'.components
unfolding add_component
add_component-Within net n c acc w =
    let new = intersect (component_series c.rollup c.buckets).down net in
    let all = acc.service_outages ++ new in
    All-append (λ r. r.downtime_seconds ≤ total all) acc.components _
      (Within-mono acc.service_outages all acc.components
        (total_mono acc.service_outages all
          (λ t h. ground (arith, any-append (holds t) acc.service_outages new)))
        w)
      (total_mono new all (λ t h. ground (arith, any-append (holds t) acc.service_outages new)), tt)

add_components-Within :
    (net : List Interval) (n : ℕ) (cs : List ComponentInput) (acc : Totals)
    → Within acc.service_outages acc.components
    → let acc' = add_components net n cs acc in Within acc'.service_outages acc'.components
unfolding add_components
add_components-Within net n [] acc w = w
add_components-Within net n (c ∷ cs) acc w =
    add_components-Within net n cs (add_component net n c acc) (add_component-Within net n c acc w)

-- No component is reported down for longer than the service.
pub component-le-service :
    (inp : Input)
    → All (λ r. r.downtime_seconds ≤ (compute inp).downtime.seconds) (compute inp).components
unfolding compute downtime_summary totals_of
component-le-service inp =
    let acc = totals_of inp in
    Within-mono acc.service_outages (merge acc.service_outages) acc.components
      (total_mono acc.service_outages (merge acc.service_outages)
        (λ t h. covers-merge t acc.service_outages ∙ h))
      (add_components-Within (net_series inp) (ast_summary inp).net inp.components no_totals tt)

net-bounded : (inp : Input) → (compute inp).ast.net ≤ inp.period.to
net-bounded inp = omega (arith, net-count inp, count_below-le inp.period.to (agreed_at inp))

net_small : (inp : Input) → inp.period.to < exact_limit → (ast_summary inp).net < exact_limit
unfolding compute
net_small inp h = let le : (ast_summary inp).net ≤ inp.period.to = net-bounded inp in omega arith

compute-availability :
    (inp : Input)
    → (compute inp).results.availability_ppm
      ≡ availability (pos (compute inp).ast.net) (pos (compute inp).downtime.seconds)
unfolding compute results_of downtime_summary
compute-availability inp = refl

-- For a period that ends before 2 ^ 42 seconds the reported availability and coverage lie between
-- 0 and one million parts per million.
pub results_bounds :
    (inp : Input)
    → inp.period.to < exact_limit
    → let r = (compute inp).results in
      (pos 0 ≤ℤ r.availability_ppm)
      × (r.availability_ppm ≤ℤ ppm)
      × (pos 0 ≤ℤ r.coverage_ppm)
      × (r.coverage_ppm ≤ℤ ppm)
unfolding compute results_of
results_bounds inp h =
    let ast = ast_summary inp in
    let small : ast.net < exact_limit = net_small inp h in
    let down = total (merge (totals_of inp).service_outages) in
    let seen = total (merge (totals_of inp).observed_all) in
    let av = availability_bounds ast.net (pos down) small in
    let cov = ratio_bounds (pos seen) ast.net small in (av.0, av.1, cov.0, cov.1)

-- For a period that ends before 2 ^ 42 seconds, with some downtime but not all of the agreed time,
-- the reported availability is the number of parts per million nearest to the share of the agreed
-- time that was not downtime.
pub availability-nearest :
    (inp : Input)
    → inp.period.to < exact_limit
    → 0 < (compute inp).downtime.seconds
    → (compute inp).downtime.seconds < (compute inp).ast.net
    → let net = (compute inp).ast.net in
      let up = net - (compute inp).downtime.seconds in
      (r : ℕ) × ((compute inp).results.availability_ppm ≡ pos r)
      × (r * (net * 2) ≤ up * 1000000 * 2 + net)
      × (up * 1000000 * 2 + net < r * (net * 2) + net * 2)
availability-nearest inp h some_down not_all =
    let net : ℕ = (compute inp).ast.net in
    let down : ℕ = (compute inp).downtime.seconds in
    let small : net < exact_limit = omega (arith, net-bounded inp) in
    let near = ratio_nearest (net - down) net (omega arith) (omega arith) small in
    (
      near.0,
      compute-availability inp
          ∙ availability-ratio net down (omega arith) small (omega arith)
          ∙ near.1,
      near.2,
      near.3,
    )
