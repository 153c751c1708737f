-- ===== src/Availability/Compute/Sets.antt =====
-- The interval lists of `Compute` as sets of instants: which instants are agreed service time, and
-- at which of them a component was observed or down.
use container_app_service_mo.Base.{
  ℕ, suc, ◌<◌, ◌≡◌, refl, ◌∙◌, ◌+◌, Bool, true, false, ◌&&◌, ◌||◌, not, List, [], ◌∷◌, ltb, leb,
  any, any-append, arith, Bool-cases, inl, inr,
}
use container_app_service_mo.Base.Measure.{
  count_below, count_below-congr, count_below-pos, count_below-beyond,
}
use container_app_service_mo.Availability.Interval.{Interval, intersect, total}
use container_app_service_mo.Availability.Points.{covers, holds}
use container_app_service_mo.Availability.Points.Combined.{
  covers-intersect, covers-clip, covers-subtract,
}
use container_app_service_mo.Availability.Points.Length.{latest, total-count_latest}
use container_app_service_mo.Availability.Series.{is_bad, component_series}
use container_app_service_mo.Availability.Series.Instants.{monitors_at}
use container_app_service_mo.Availability.Series.Sweep.{is_seen, is_lost, component_series-SaysAt}
use container_app_service_mo.Availability.Compute.{
  Exclusion, ComponentInput, Input, clipped_window, applied_windows, scheduled_series, net_series,
  Totals, no_totals, add_component, add_components, totals_of,
}

-- The instant lies in a window that was judged to leave the agreed time.
abbrev pub removes : ℕ → Exclusion → Bool
removes t ex = ex.applied && (leb ex.from t && ltb t ex.to)

abbrev pub scheduled_at : Input → ℕ → Bool
scheduled_at inp t = covers t inp.scheduled && (leb inp.period.from t && ltb t inp.period.to)

-- Agreed service time: scheduled, inside the period, and in no applied window.
abbrev pub agreed_at : Input → ℕ → Bool
agreed_at inp t = scheduled_at inp t && not (any (removes t) inp.exclusions)

-- Some monitor of the component has a reading of the service.
abbrev pub observed_at : ℕ → ComponentInput → Bool
observed_at t c = ltb 0 (monitors_at is_seen t c.buckets)

-- And the rollup rule calls the down monitors an outage.
abbrev pub down_at : ℕ → ComponentInput → Bool
down_at t c =
    observed_at t c
    && is_bad c.rollup (monitors_at is_lost t c.buckets) (monitors_at is_seen t c.buckets)

-- A set of no length has no instant.
covers-total_zero : (t : ℕ) (ivs : List Interval) → total ivs ≡ 0 → covers t ivs ≡ false
covers-total_zero t ivs h = elim (Bool-cases (covers t ivs)) [
  | inl on ↦
      let n : ℕ = suc t + latest ivs in
      absurd (
        omega (
          arith,
          total-count_latest n ivs (omega arith),
          count_below-pos n t (λ u. covers u ivs) on (omega arith),
        ))
  | inr off ↦ off
]

-- The total of a set is the number of its instants below any bound of the set.
pub total-count_set :
    (n : ℕ) (ivs : List Interval) (p : ℕ → Bool)
    → ((t : ℕ) → covers t ivs ≡ p t)
    → ((t : ℕ) → p t ≡ true → t < n)
    → total ivs ≡ count_below n p
total-count_set n ivs p same bound =
    total-count_latest (latest ivs + n) ivs (omega arith)
    ∙ count_below-congr (latest ivs + n) (λ t. covers t ivs) p same
    ∙ count_below-beyond (latest ivs) n p bound

covers-clipped :
    (t : ℕ) (scheduled : List Interval) (ex : Exclusion)
    → covers t (clipped_window scheduled ex)
      ≡ ((leb ex.from t && ltb t ex.to) && covers t scheduled)
covers-clipped t scheduled ex =
    ground (arith, covers-intersect t (record { from = ex.from; to = ex.to } ∷ []) scheduled)

pub covers-applied :
    (t : ℕ) (scheduled : List Interval) (exs : List Exclusion)
    → covers t (applied_windows scheduled exs) ≡ (any (removes t) exs && covers t scheduled)
unfolding applied_windows
covers-applied t scheduled [] = refl
covers-applied t scheduled (ex ∷ exs) = ground (
  arith,
  covers-applied t scheduled exs,
  covers-clipped t scheduled ex,
  covers-total_zero t (clipped_window scheduled ex),
  any-append (holds t) (clipped_window scheduled ex) (applied_windows scheduled exs),
)

pub covers-scheduled : (inp : Input) (t : ℕ) → covers t (scheduled_series inp) ≡ scheduled_at inp t
unfolding scheduled_series
covers-scheduled inp t = covers-clip t inp.period.from inp.period.to inp.scheduled

pub covers-net : (inp : Input) (t : ℕ) → covers t (net_series inp) ≡ agreed_at inp t
unfolding net_series
covers-net inp t = ground (
  arith,
  covers-subtract t (scheduled_series inp) (applied_windows (scheduled_series inp) inp.exclusions),
  covers-applied t (scheduled_series inp) inp.exclusions,
  covers-scheduled inp t,
)

covers-down :
    (t : ℕ) (net : List Interval) (c : ComponentInput)
    → covers t (intersect (component_series c.rollup c.buckets).down net)
      ≡ (down_at t c && covers t net)
covers-down t net c = ground (
  arith,
  covers-intersect t (component_series c.rollup c.buckets).down net,
  component_series-SaysAt c.rollup c.buckets t,
)

covers-observed :
    (t : ℕ) (net : List Interval) (c : ComponentInput)
    → covers t (intersect (component_series c.rollup c.buckets).observed net)
      ≡ (observed_at t c && covers t net)
covers-observed t net c = ground (
  arith,
  covers-intersect t (component_series c.rollup c.buckets).observed net,
  component_series-SaysAt c.rollup c.buckets t,
)

covers-add_components-down :
    (t : ℕ) (net : List Interval) (n : ℕ) (cs : List ComponentInput) (acc : Totals)
    → covers t (add_components net n cs acc).service_outages
      ≡ (covers t acc.service_outages || any (down_at t) cs && covers t net)
unfolding add_components
covers-add_components-down t net n [] acc = ground arith
covers-add_components-down t net n (c ∷ cs) acc = ground (
  arith,
  covers-add_components-down t net n cs (add_component net n c acc),
  any-append (holds t) acc.service_outages
      (intersect (component_series c.rollup c.buckets).down net),
  covers-down t net c,
)

covers-add_components-observed :
    (t : ℕ) (net : List Interval) (n : ℕ) (cs : List ComponentInput) (acc : Totals)
    → covers t (add_components net n cs acc).observed_all
      ≡ (covers t acc.observed_all || any (observed_at t) cs && covers t net)
unfolding add_components
covers-add_components-observed t net n [] acc = ground arith
covers-add_components-observed t net n (c ∷ cs) acc = ground (
  arith,
  covers-add_components-observed t net n cs (add_component net n c acc),
  any-append (holds t) acc.observed_all
      (intersect (component_series c.rollup c.buckets).observed net),
  covers-observed t net c,
)

pub covers-service_down :
    (inp : Input) (t : ℕ)
    → covers t (totals_of inp).service_outages ≡ (agreed_at inp t && any (down_at t) inp.components)
unfolding totals_of
covers-service_down inp t = ground (
  arith,
  covers-add_components-down t (net_series inp) (total (net_series inp)) inp.components no_totals,
  covers-net inp t,
)

pub covers-service_observed :
    (inp : Input) (t : ℕ)
    → covers t (totals_of inp).observed_all
      ≡ (agreed_at inp t && any (observed_at t) inp.components)
unfolding totals_of
covers-service_observed inp t = ground (
  arith,
  covers-add_components-observed t (net_series inp) (total (net_series inp)) inp.components
      no_totals,
  covers-net inp t,
)
