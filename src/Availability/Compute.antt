-- ===== src/Availability/Compute.antt =====
-- internal/availability/compute.go: `Compute`, from the agreed time to the downtime and the
-- coverage. The records are those of internal/model/report.go.
pub mod Objectives
pub mod Sets
pub mod Figures
pub mod Reliability
pub mod Scores
pub mod Shares
use container_app_service_mo.Base.{
  ℕ, zero, ◌+◌, ◌-◌, ◌/◌, Bool, true, false, List, [], ◌∷◌, ◌++◌, map, if◌then◌else◌, ltb, ◌==◌,
  String, length, str_ltb,
}
use container_app_service_mo.Base.Int.{ℤ, pos, ◌+ℤ◌, ◌-ℤ◌, ◌*ℤ◌, ltb_ℤ, i64}
use container_app_service_mo.Base.Sort.{sort}
use container_app_service_mo.Model.{Bucket, Rollup}
use container_app_service_mo.Availability.Interval.{
  Interval, seconds, merge, intersect, subtract, total, clip,
}
use container_app_service_mo.Availability.Ratio.{ratio, availability}
use container_app_service_mo.Availability.Series.{Swept, component_series}

pub record Exclusion : Type 0 where
  pub window_id : String
  pub class : String
  pub title : String
  pub declared_at : ℕ
  pub lead_time : ℤ
  pub from : ℕ
  pub to : ℕ
  pub seconds : ℕ
  pub applied : Bool
  pub reason : String
  pub tx_id : String

pub record ComponentInput : Type 0 where
  pub id : String
  pub name : String
  pub user_weight : ℤ
  pub rollup : Rollup
  pub buckets : List Bucket

-- What `Compute` reads before it scores the objectives.
pub record Input : Type 0 where
  pub period : Interval
  pub scheduled : List Interval
  pub exclusions : List Exclusion
  pub components : List ComponentInput

pub record AstSummary : Type 0 where
  pub intervals : List Interval
  pub scheduled : ℕ
  pub excluded : ℕ
  pub net : ℕ

pub record ComponentResult : Type 0 where
  pub component_id : String
  pub name : String
  pub user_weight : ℤ
  pub downtime_seconds : ℕ
  pub availability_ppm : ℤ
  pub coverage_ppm : ℤ
  pub outages : ℕ

pub record Outage : Type 0 where
  pub component_id : String
  pub from : ℕ
  pub to : ℕ
  pub seconds : ℕ

pub record Gap : Type 0 where
  pub from : ℕ
  pub to : ℕ
  pub seconds : ℕ

pub record DowntimeSummary : Type 0 where
  pub seconds : ℕ
  pub outages : ℕ
  pub mtbf : ℕ
  pub mtrs : ℕ
  pub longest_seconds : ℕ

pub record Results : Type 0 where
  pub availability_ppm : ℤ
  pub user_availability_ppm : ℤ
  pub coverage_ppm : ℤ
  pub potential_user_seconds : ℤ
  pub user_outage_seconds : ℤ
  pub observed_seconds : ℕ

pub record Output : Type 0 where
  pub ast : AstSummary
  pub downtime : DowntimeSummary
  pub results : Results
  pub components : List ComponentResult
  pub outages : List Outage
  pub exclusions : List Exclusion
  pub gaps : List Gap

-- The part of a window inside the agreed time.
abbrev pub clipped_window : List Interval → Exclusion → List Interval
clipped_window scheduled ex = intersect (record { from = ex.from; to = ex.to } ∷ []) scheduled

-- `applied`: the agreed time that the applied windows remove.
unfoldable pub applied_windows : List Interval → List Exclusion → List Interval
applied_windows scheduled [] = []
applied_windows scheduled (ex ∷ exs) =
    let clipped = clipped_window scheduled ex in
    let rest = applied_windows scheduled exs in
    if total clipped == 0 then rest else if ex.applied then clipped ++ rest else rest

-- `out.Exclusions`: the windows that meet the agreed time, with the seconds that they share.
unfoldable pub recorded_windows : List Interval → List Exclusion → List Exclusion
recorded_windows scheduled [] = []
recorded_windows scheduled (ex ∷ exs) =
    let shared = total (clipped_window scheduled ex) in
    let rest = recorded_windows scheduled exs in
    if shared == 0 then rest else record ex { seconds = shared } ∷ rest

unfoldable pub scheduled_series : Input → List Interval
scheduled_series inp = clip inp.scheduled inp.period.from inp.period.to

unfoldable pub net_series : Input → List Interval
unfolding scheduled_series applied_windows
net_series inp =
    let scheduled = scheduled_series inp in
    subtract scheduled (applied_windows scheduled inp.exclusions)

unfoldable pub ast_summary : Input → AstSummary
unfolding scheduled_series applied_windows net_series
ast_summary inp =
    let scheduled = scheduled_series inp in
    record {
      intervals = scheduled;
      scheduled = total scheduled;
      excluded = total (applied_windows scheduled inp.exclusions);
      net = total (net_series inp);
    }

-- The variables of the loop over the components.
pub record Totals : Type 0 where
  pub components : List ComponentResult
  pub outages : List Outage
  pub service_outages : List Interval
  pub observed_all : List Interval
  pub potential_user : ℤ
  pub user_outage : ℤ

abbrev pub no_totals : Totals
no_totals = record {
  components = [];
  outages = [];
  service_outages = [];
  observed_all = [];
  potential_user = pos 0;
  user_outage = pos 0;
}

abbrev pub outage_of : String → Interval → Outage
outage_of id iv = record { component_id = id; from = iv.from; to = iv.to; seconds = seconds iv }

-- One round of the loop over the components.
unfoldable pub add_component : List Interval → ℕ → ComponentInput → Totals → Totals
unfolding i64
add_component net net_seconds c acc =
    let series = component_series c.rollup c.buckets in
    let down_in_ast = intersect series.down net in
    let observed_in_ast = intersect series.observed net in
    let downtime = total down_in_ast in
    record {
      components =
          acc.components
          ++ record {
            component_id = c.id;
            name = c.name;
            user_weight = c.user_weight;
            downtime_seconds = downtime;
            availability_ppm = availability (pos net_seconds) (pos downtime);
            coverage_ppm = ratio (pos (total observed_in_ast)) (pos net_seconds);
            outages = length (merge down_in_ast);
          }
            ∷ [];
      outages = acc.outages ++ map (outage_of c.id) (merge down_in_ast);
      service_outages = acc.service_outages ++ down_in_ast;
      observed_all = acc.observed_all ++ observed_in_ast;
      potential_user = i64 (acc.potential_user +ℤ i64 (c.user_weight *ℤ pos net_seconds));
      user_outage = i64 (acc.user_outage +ℤ i64 (c.user_weight *ℤ pos downtime));
    }

unfoldable pub add_components : List Interval → ℕ → List ComponentInput → Totals → Totals
unfolding add_component
add_components net net_seconds [] acc = acc
add_components net net_seconds (c ∷ cs) acc =
    add_components net net_seconds cs (add_component net net_seconds c acc)

-- The variables after the loop.
unfoldable pub totals_of : Input → Totals
unfolding add_components ast_summary
totals_of inp = add_components (net_series inp) (ast_summary inp).net inp.components no_totals

-- The comparison that the outages are sorted by.
abbrev pub outage_before : Outage → Outage → Bool
outage_before a b =
    if a.from == b.from then str_ltb a.component_id b.component_id else ltb a.from b.from

-- The longest of the intervals, from the longest so far.
unfoldable pub longest_from : ℕ → List Interval → ℕ
longest_from best [] = best
longest_from best (iv ∷ ivs) = longest_from (if ltb best (seconds iv) then seconds iv else best) ivs

unfoldable pub downtime_summary : ℕ → List Interval → DowntimeSummary
unfolding longest_from
downtime_summary net down_merged =
    let secs = total down_merged in
    let n = length down_merged in
    record {
      seconds = secs;
      outages = n;
      mtbf = if ltb 0 n then (net - secs) / n else 0;
      mtrs = if ltb 0 n then secs / n else 0;
      longest_seconds = longest_from 0 down_merged;
    }

abbrev pub gap_of : Interval → Gap
gap_of iv = record { from = iv.from; to = iv.to; seconds = seconds iv }

unfoldable pub results_of : ℕ → ℕ → ℕ → Totals → Results
unfolding i64
results_of net downtime observed totals =
    let headline = availability (pos net) (pos downtime) in
    record {
      availability_ppm = headline;
      user_availability_ppm =
          if ltb_ℤ (pos 0) totals.potential_user
          then ratio (i64 (totals.potential_user -ℤ totals.user_outage)) totals.potential_user
          else headline;
      coverage_ppm = ratio (pos observed) (pos net);
      potential_user_seconds = totals.potential_user;
      user_outage_seconds = totals.user_outage;
      observed_seconds = observed;
    }

-- `Compute`, up to the objectives. `ComponentSeries` returns no error, so neither does this.
unfoldable pub compute : Input → Output
unfolding ast_summary scheduled_series net_series recorded_windows totals_of downtime_summary
    results_of
compute inp =
    let ast = ast_summary inp in
    let net = net_series inp in
    let totals = totals_of inp in
    let down_merged = merge totals.service_outages in
    let observed_merged = merge totals.observed_all in
    record {
      ast = ast;
      downtime = downtime_summary ast.net down_merged;
      results = results_of ast.net (total down_merged) (total observed_merged) totals;
      components = totals.components;
      outages = sort outage_before totals.outages;
      exclusions = recorded_windows (scheduled_series inp) inp.exclusions;
      gaps = map gap_of (subtract net observed_merged);
    }
