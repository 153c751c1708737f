-- ===== src/Availability/Compute/Objectives.antt =====
-- internal/availability/compute.go: `evaluate`, `latencyWithinBudget` and `credit`.
use container_app_service_mo.Base.{
  ℕ, suc, ◌+◌, ◌&&◌, List, [], ◌∷◌, ◌++◌, if◌then◌else◌, ◌==◌, String,
}
use container_app_service_mo.Base.Int.{ℤ, pos, ltb_ℤ, leb_ℤ}
use container_app_service_mo.Model.{Bucket}
use container_app_service_mo.Availability.Ratio.{ratio, ppm}
use container_app_service_mo.Availability.Compute.{ComponentInput, Results, Input, compute}

-- The word of an objective, with its spelling where it is none of the three.
pub data Metric : Type 0 where
  availability user_availability latency_p95 : Metric
  other : String → Metric

pub record CreditBand : Type 0 where
  pub below_ppm : ℤ
  pub credit_percent : ℤ

pub record Objective : Type 0 where
  pub id : String
  pub name : String
  pub metric : Metric
  pub window : String
  pub target_ppm : ℤ
  pub latency_budget_ms : ℤ
  pub credits : List CreditBand

pub data Outcome : Type 0 where
  met breached indeterminate : Outcome

-- The text of `Reason`, as the numbers that it is printed from.
pub data Reason : Type 0 where
  no_reason no_agreed_time : Reason
  unknown_metric : String → Reason
  low_coverage : ℤ → ℤ → Reason

pub record ObjectiveResult : Type 0 where
  pub id : String
  pub name : String
  pub metric : Metric
  pub window : String
  pub target_ppm : ℤ
  pub achieved_ppm : ℤ
  pub result : Outcome
  pub reason : Reason
  pub credit_percent : ℤ

-- The buckets that hold a reading of a latency, and those of them within the budget.
unfoldable pub latency_total : List Bucket → ℕ
latency_total [] = 0
latency_total (b ∷ bs) =
    let rest = latency_total bs in if b.up_count + b.degraded_count == 0 then rest else suc rest

unfoldable pub latency_within : ℤ → List Bucket → ℕ
latency_within budget [] = 0
latency_within budget (b ∷ bs) =
    let rest = latency_within budget bs in
    if b.up_count + b.degraded_count == 0
    then rest
    else if leb_ℤ (pos b.latency_p95) budget
    then suc rest
    else rest

unfoldable pub all_buckets : List ComponentInput → List Bucket
all_buckets [] = []
all_buckets (c ∷ cs) = c.buckets ++ all_buckets cs

unfoldable pub latency_within_budget : List ComponentInput → ℤ → ℤ
unfolding latency_total latency_within all_buckets
latency_within_budget components budget =
    if leb_ℤ budget (pos 0)
    then ppm
    else ratio (pos (latency_within budget (all_buckets components)))
        (pos (latency_total (all_buckets components)))

-- One round of the loop of `credit`.
unfoldable pub better_credit : ℤ → CreditBand → ℤ → ℤ
better_credit best b achieved =
    if ltb_ℤ achieved b.below_ppm && ltb_ℤ best b.credit_percent then b.credit_percent else best

-- The loop of `credit`, from the best band so far.
unfoldable pub credit_from : ℤ → List CreditBand → ℤ → ℤ
unfolding better_credit
credit_from best [] achieved = best
credit_from best (b ∷ bands) achieved = credit_from (better_credit best b achieved) bands achieved

unfoldable pub credit : List CreditBand → ℤ → ℤ
unfolding credit_from
credit bands achieved = credit_from (pos 0) bands achieved

-- The result before it is judged.
abbrev pub blank : Objective → ObjectiveResult
blank o = record {
  id = o.id;
  name = o.name;
  metric = o.metric;
  window = o.window;
  target_ppm = o.target_ppm;
  achieved_ppm = pos 0;
  result = indeterminate;
  reason = no_reason;
  credit_percent = pos 0;
}

-- The second `switch` of `evaluate`.
unfoldable pub judge : ℕ → ℤ → ℤ → Objective → ℤ → ObjectiveResult
unfolding credit
judge net floor coverage o achieved =
    let r = record (blank o) { achieved_ppm = achieved } in
    if net == 0
    then record r { result = indeterminate; reason = no_agreed_time }
    else if ltb_ℤ (pos 0) floor && ltb_ℤ coverage floor
    then record r { result = indeterminate; reason = low_coverage coverage floor }
    else if leb_ℤ o.target_ppm achieved
    then record r { result = met }
    else record r { result = breached; credit_percent = credit o.credits achieved }

-- One round of the loop of `evaluate`; the first `switch` is on the metric.
unfoldable pub score : List ComponentInput → ℕ → ℤ → Results → Metric → Objective → ObjectiveResult
unfolding judge latency_within_budget
score components net floor res availability o =
    judge net floor res.coverage_ppm o res.availability_ppm
score components net floor res user_availability o =
    judge net floor res.coverage_ppm o res.user_availability_ppm
score components net floor res latency_p95 o =
    judge net floor res.coverage_ppm o (latency_within_budget components o.latency_budget_ms)
score components net floor res (other word) o = record (blank o) { reason = unknown_metric word }

unfoldable pub evaluate :
    List ComponentInput → ℕ → ℤ → Results → List Objective → List ObjectiveResult
unfolding score
evaluate components net floor res [] = []
evaluate components net floor res (o ∷ os) =
    score components net floor res o.metric o ∷ evaluate components net floor res os

-- `out.Objectives`, the last step of `Compute`: the coverage floor and the objectives are those of the
-- service.
unfoldable pub objectives_of : Input → ℤ → List Objective → List ObjectiveResult
unfolding compute evaluate
objectives_of inp floor os =
    let out = compute inp in evaluate inp.components out.ast.net floor out.results os
