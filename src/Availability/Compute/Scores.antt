-- ===== src/Availability/Compute/Scores.antt =====
-- What the objectives and the headline figures of `Compute` promise
-- (internal/availability/compute.go, `evaluate` and `credit`).
use container_app_service_mo.Base.{
  ℕ, ◌<◌, ◌≡◌, refl, ◌⊎◌, inl, inr, Bool, true, List, [], ◌∷◌, arith, All, ◌∙◌, sym,
}
use container_app_service_mo.Base.Int.{ℤ, pos, ltb_ℤ, ◌≤ℤ◌}
use container_app_service_mo.Availability.Compute.{ComponentInput, Results, Input, compute}
use container_app_service_mo.Availability.Compute.Objectives.{
  Metric, CreditBand, Objective, met, breached, ObjectiveResult, better_credit, credit_from, credit,
  judge, score, evaluate, objectives_of, latency_within_budget,
}

-- A band applies when the achieved figure is below it.
abbrev pub applies : ℤ → CreditBand → Bool
applies achieved b = ltb_ℤ achieved b.below_ppm

-- `best` is at least what every applicable band grants.
abbrev pub CoversBands : ℤ → ℤ → List CreditBand → Type 0
CoversBands achieved best = All (λ b. applies achieved b ≡ true → b.credit_percent ≤ℤ best)

-- Some applicable band grants exactly `best`.
abbrev pub Granted : ℤ → ℤ → List CreditBand → Type 0
Granted achieved best [] = ⊥
Granted achieved best (b ∷ bands) =
    ((applies achieved b ≡ true) × (b.credit_percent ≡ best)) ⊎ Granted achieved best bands

module _ (best : ℤ) (b : CreditBand) (achieved : ℤ) where
  better_credit-grows : best ≤ℤ better_credit best b achieved
  unfolding better_credit
  better_credit-grows = ground arith

  better_credit-covers :
      applies achieved b ≡ true → b.credit_percent ≤ℤ better_credit best b achieved
  unfolding better_credit
  better_credit-covers on = ground arith

  better_credit-cases :
      (better_credit best b achieved ≡ best)
      ⊎ ((applies achieved b ≡ true) × (b.credit_percent ≡ better_credit best b achieved))
  unfolding better_credit
  better_credit-cases = ground arith

≤ℤ_trans : (a b c : ℤ) → a ≤ℤ b → b ≤ℤ c → a ≤ℤ c
≤ℤ_trans a b c h k = omega arith

credit_from-grows :
    (best : ℤ) (bands : List CreditBand) (achieved : ℤ) → best ≤ℤ credit_from best bands achieved
unfolding credit_from
credit_from-grows best [] achieved = omega arith
credit_from-grows best (b ∷ bands) achieved =
    let next = better_credit best b achieved in
    ≤ℤ_trans best next (credit_from next bands achieved) (better_credit-grows best b achieved)
      (credit_from-grows next bands achieved)

credit_from-CoversBands :
    (best : ℤ) (bands : List CreditBand) (achieved : ℤ)
    → CoversBands achieved (credit_from best bands achieved) bands
unfolding credit_from
credit_from-CoversBands best [] achieved = tt
credit_from-CoversBands best (b ∷ bands) achieved =
    let next = better_credit best b achieved in
    (
      λ on.
          ≤ℤ_trans b.credit_percent next (credit_from next bands achieved)
            (better_credit-covers best b achieved on) (credit_from-grows next bands achieved),
      credit_from-CoversBands next bands achieved,
    )

credit_from-Granted :
    (best : ℤ) (bands : List CreditBand) (achieved : ℤ)
    → (credit_from best bands achieved ≡ best)
      ⊎ Granted achieved (credit_from best bands achieved) bands
unfolding credit_from
credit_from-Granted best [] achieved = inl refl
credit_from-Granted best (b ∷ bands) achieved =
    let next = better_credit best b achieved in
    elim (credit_from-Granted next bands achieved) [
      | inr later ↦ inr (inr later)
      | inl last ↦ elim (better_credit-cases best b achieved) [
        | inl old ↦ inl (last ∙ old)
        | inr (on, new) ↦ inr (inl (on, new ∙ sym last))
      ]
    ]

-- The credit is at least what every band grants whose bound the achieved figure misses, and it is
-- granted by one of those bands or it is 0.
pub credit-highest :
    (bands : List CreditBand) (achieved : ℤ)
    → CoversBands achieved (credit bands achieved) bands
      × ((credit bands achieved ≡ pos 0) ⊎ Granted achieved (credit bands achieved) bands)
unfolding credit
credit-highest bands achieved =
    (credit_from-CoversBands (pos 0) bands achieved, credit_from-Granted (pos 0) bands achieved)

-- A judged objective stands on enough evidence.
abbrev pub IsWellCovered : ℕ → ℤ → ℤ → Type 0
IsWellCovered net floor coverage = (0 < net) × ((floor ≤ℤ pos 0) ⊎ (floor ≤ℤ coverage))

-- The coverage rule: an objective is called met or breached only with some agreed service time and
-- a coverage that is not below a positive floor; met means that the target is reached, and breached
-- that it is missed. Credit goes to breached objectives only.
abbrev pub IsSound : ℕ → ℤ → ℤ → ObjectiveResult → Type 0
IsSound net floor coverage r =
    (r.result ≡ met → IsWellCovered net floor coverage × (r.target_ppm ≤ℤ r.achieved_ppm))
    × (r.result ≡ breached
        → IsWellCovered net floor coverage × (ltb_ℤ r.achieved_ppm r.target_ppm ≡ true))
    × ((r.credit_percent ≡ pos 0) ⊎ (r.result ≡ breached))

judge-IsSound :
    (net : ℕ) (floor coverage : ℤ) (o : Objective) (achieved : ℤ)
    → IsSound net floor coverage (judge net floor coverage o achieved)
unfolding judge
judge-IsSound net floor coverage o achieved = (λ h. ground arith, λ h. ground arith, ground arith)

score-IsSound :
    (components : List ComponentInput) (net : ℕ) (floor : ℤ) (res : Results) (m : Metric)
    (o : Objective)
    → IsSound net floor res.coverage_ppm (score components net floor res m o)
unfolding score
score-IsSound components net floor res Metric.availability o =
    judge-IsSound net floor res.coverage_ppm o res.availability_ppm
score-IsSound components net floor res Metric.user_availability o =
    judge-IsSound net floor res.coverage_ppm o res.user_availability_ppm
score-IsSound components net floor res Metric.latency_p95 o =
    judge-IsSound net floor res.coverage_ppm o
      (latency_within_budget components o.latency_budget_ms)
score-IsSound components net floor res (Metric.other word) o = (λ h. cc, λ h. cc, inl refl)

pub evaluate-IsSound :
    (components : List ComponentInput) (net : ℕ) (floor : ℤ) (res : Results) (os : List Objective)
    → All (IsSound net floor res.coverage_ppm) (evaluate components net floor res os)
unfolding evaluate
evaluate-IsSound components net floor res [] = tt
evaluate-IsSound components net floor res (o ∷ os) = (
  score-IsSound components net floor res o.metric o,
  evaluate-IsSound components net floor res os,
)

-- Of the scored objectives, one is met or breached only with some agreed service time and a
-- reported coverage that is not below a positive floor; met means that the achieved figure reaches
-- the target, breached that it misses it, and only a breached objective has credit.
pub objectives_of-IsSound :
    (inp : Input) (floor : ℤ) (os : List Objective)
    → All
        (IsSound (compute inp).ast.net floor (compute inp).results.coverage_ppm)
        (objectives_of inp floor os)
unfolding objectives_of
objectives_of-IsSound inp floor os =
    evaluate-IsSound inp.components (compute inp).ast.net floor (compute inp).results os
