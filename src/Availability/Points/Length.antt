-- ===== src/Availability/Points/Length.antt =====
-- `Total` (internal/availability/interval.go) counts instants.
use container_app_service_mo.Base.{
  ℕ, suc, ◌≤◌, ◌≡◌, ◌+◌, true, false, ◌&&◌, List, [], ◌∷◌, ◌++◌, arith, if◌then◌else◌, ltb,
  any-append, select, All, ◌∙◌, sym,
}
use container_app_service_mo.Base.Sort.{All-sort}
use container_app_service_mo.Base.Measure.{
  count_below, count_below-congr, count_below_mono, count_below-split, count_below-disjoint,
  count_below-interval, count_below-le, count_below-false, count_below-or-le,
}
use container_app_service_mo.Availability.Interval.{
  Interval, merge, intersect, subtract, sum_seconds, total, is_proper, starts_before, coalesce,
  coalesce_all,
}
use container_app_service_mo.Availability.Points.{holds, covers, NormalFrom, IsNormal}
use container_app_service_mo.Availability.Points.Merged.{merge-IsNormal, covers-merge}
use container_app_service_mo.Availability.Points.Combined.{
  covers-NormalFrom, covers-intersect, covers-subtract,
}

-- Every interval ends by n.
abbrev pub EndsBy : ℕ → List Interval → Type 0
EndsBy n = All (λ iv. iv.to ≤ n)

disjoint_rest :
    (iv : Interval) (ivs : List Interval)
    → NormalFrom (suc iv.to) ivs
    → (t : ℕ) → (holds t iv && covers t ivs) ≡ false
disjoint_rest iv ivs n t = ground (arith, covers-NormalFrom t (suc iv.to) ivs n)

sum_seconds-count :
    (n lo : ℕ) (ivs : List Interval)
    → NormalFrom lo ivs
    → EndsBy n ivs
    → sum_seconds ivs ≡ count_below n (λ t. covers t ivs)
unfolding sum_seconds
sum_seconds-count n lo [] h e = sym (count_below-false n)
sum_seconds-count n lo (iv ∷ ivs) h e = omega (
  arith,
  count_below-disjoint n (λ t. holds t iv) (λ t. covers t ivs) (disjoint_rest iv ivs h.2),
  count_below-interval n iv.from iv.to e.0,
  sum_seconds-count n (suc iv.to) ivs h.2 e.1,
)

-- Some bound on every end.
pub latest : List Interval → ℕ
latest [] = 0
latest (iv ∷ ivs) = iv.to + latest ivs

EndsBy-mono : (m n : ℕ) (ivs : List Interval) → m ≤ n → EndsBy m ivs → EndsBy n ivs
EndsBy-mono m n [] h e = tt
EndsBy-mono m n (iv ∷ ivs) h e = (omega arith, EndsBy-mono m n ivs h e.1)

EndsBy-latest : (n : ℕ) (ivs : List Interval) → latest ivs ≤ n → EndsBy n ivs
unfolding latest
EndsBy-latest n [] h = tt
EndsBy-latest n (iv ∷ ivs) h = (omega arith, EndsBy-latest n ivs (omega arith))

EndsBy-select : (n : ℕ) (ivs : List Interval) → EndsBy n ivs → EndsBy n (select is_proper ivs)
EndsBy-select n [] e = tt
EndsBy-select n (iv ∷ ivs) e = ground (arith, EndsBy-select n ivs e.1)

EndsBy-coalesce :
    (n : ℕ) (last : Interval) (rest : List Interval)
    → last.to ≤ n
    → EndsBy n rest
    → EndsBy n (coalesce last rest)
unfolding coalesce
EndsBy-coalesce n last [] h e = (h, tt)
EndsBy-coalesce n last (iv ∷ rest) h e = ground (
  arith,
  EndsBy-coalesce n (record last { to = if ltb last.to iv.to then iv.to else last.to }) rest,
  EndsBy-coalesce n iv rest,
)

EndsBy-coalesce_all : (n : ℕ) (ivs : List Interval) → EndsBy n ivs → EndsBy n (coalesce_all ivs)
unfolding coalesce_all
EndsBy-coalesce_all n [] e = tt
EndsBy-coalesce_all n (iv ∷ ivs) e = EndsBy-coalesce n iv ivs e.0 e.1

EndsBy-merge : (n : ℕ) (ivs : List Interval) → EndsBy n ivs → EndsBy n (merge ivs)
unfolding merge
EndsBy-merge n ivs e = EndsBy-coalesce_all n _ (All-sort starts_before _ _ (EndsBy-select n ivs e))

-- The total is the number of instants in the set, for any bound on the ends.
pub total-count :
    (n : ℕ) (ivs : List Interval) → EndsBy n ivs → total ivs ≡ count_below n (λ t. covers t ivs)
unfolding total
total-count n ivs e =
    sum_seconds-count n 0 (merge ivs) (merge-IsNormal ivs) (EndsBy-merge n ivs e)
    ∙ count_below-congr n _ _ (λ t. covers-merge t ivs)

pub total-count_latest :
    (n : ℕ) (ivs : List Interval) → latest ivs ≤ n → total ivs ≡ count_below n (λ t. covers t ivs)
total-count_latest n ivs h = total-count n ivs (EndsBy-latest n ivs h)

-- A set inside another is no longer.
pub total_mono :
    (a b : List Interval) → ((t : ℕ) → covers t a ≡ true → covers t b ≡ true) → total a ≤ total b
total_mono a b h =
    let n = latest a + latest b in
    omega (
      arith,
      total-count_latest n a (omega arith),
      total-count_latest n b (omega arith),
      count_below_mono n (λ t. covers t a) (λ t. covers t b) h,
    )

-- The total is a function of the set.
pub total-congr : (a b : List Interval) → ((t : ℕ) → covers t a ≡ covers t b) → total a ≡ total b
total-congr a b h =
    let n = latest a + latest b in
    omega (
      arith,
      total-count_latest n a (omega arith),
      total-count_latest n b (omega arith),
      count_below-congr n (λ t. covers t a) (λ t. covers t b) h,
    )

-- Cutting and intersecting share the total out.
pub total-split : (a b : List Interval) → total (intersect a b) + total (subtract a b) ≡ total a
total-split a b =
    let n = latest a + latest (intersect a b) + latest (subtract a b) in
    omega (
      arith,
      total-count_latest n a (omega arith),
      total-count_latest n (intersect a b) (omega arith),
      total-count_latest n (subtract a b) (omega arith),
      count_below-split n (λ t. covers t a) (λ t. covers t b),
      count_below-congr n _ _ (λ t. covers-intersect t a b),
      count_below-congr n _ _ (λ t. covers-subtract t a b),
    )

pub total-append-le : (a b : List Interval) → total (a ++ b) ≤ total a + total b
total-append-le a b =
    let n = latest a + latest b + latest (a ++ b) in
    omega (
      arith,
      total-count_latest n a (omega arith),
      total-count_latest n b (omega arith),
      total-count_latest n (a ++ b) (omega arith),
      count_below-or-le n (λ t. covers t a) (λ t. covers t b),
      count_below-congr n _ _ (λ t. any-append (holds t) a b),
    )

-- The total never passes the last end, so it fits wherever the instants do.
pub total-le : (n : ℕ) (ivs : List Interval) → EndsBy n ivs → total ivs ≤ n
total-le n ivs e = omega (arith, total-count n ivs e, count_below-le n (λ t. covers t ivs))

-- In normal form the total is the plain sum.
pub sum_seconds-total : (ivs : List Interval) → IsNormal ivs → sum_seconds ivs ≡ total ivs
sum_seconds-total ivs h =
    let n = latest ivs in
    sum_seconds-count n 0 ivs h (EndsBy-latest n ivs (omega arith))
    ∙ sym (total-count_latest n ivs (omega arith))
