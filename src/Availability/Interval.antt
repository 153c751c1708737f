-- ===== src/Availability/Interval.antt =====
-- internal/availability/interval.go: the interval algebra. An instant is a number of seconds.
use container_app_service_mo.Base.{
  ℕ, ◌-◌, ◌+◌, Bool, true, false, List, [], ◌∷◌, ◌++◌, if◌then◌else◌, ltb, leb, ◌==◌, select,
}
use container_app_service_mo.Base.Sort.{sort}

pub record Interval : Type 0 where
  pub from : ℕ
  pub to : ℕ

-- `to > from` in all that is kept, so the difference is the exact one.
abbrev pub seconds : Interval → ℕ
seconds iv = iv.to - iv.from

abbrev pub max64 : ℕ → ℕ → ℕ
max64 a b = if ltb b a then a else b

abbrev pub min64 : ℕ → ℕ → ℕ
min64 a b = if ltb a b then a else b

abbrev pub is_proper : Interval → Bool
is_proper iv = ltb iv.from iv.to

-- The comparison that `Merge` sorts by.
abbrev pub starts_before : Interval → Interval → Bool
starts_before a b = if a.from == b.from then ltb a.to b.to else ltb a.from b.from

-- The loop of `Merge`: `last` is the last interval of `out`.
unfoldable pub coalesce : Interval → List Interval → List Interval
coalesce last [] = last ∷ []
coalesce last (iv ∷ rest) = elim (leb iv.from last.to) [
  | true ↦ coalesce (record last { to = if ltb last.to iv.to then iv.to else last.to }) rest
  | false ↦ last ∷ coalesce iv rest
]

unfoldable pub coalesce_all : List Interval → List Interval
unfolding coalesce
coalesce_all [] = []
coalesce_all (iv ∷ rest) = coalesce iv rest

unfoldable pub merge : List Interval → List Interval
unfolding coalesce_all sort
merge ivs = coalesce_all (sort starts_before (select is_proper ivs))

-- The overlap of two intervals, as the list of at most one that is appended.
abbrev pub overlap : Interval → Interval → List Interval
overlap a b =
    let from = max64 a.from b.from in
    let to = min64 a.to b.to in if ltb from to then record { from = from; to = to } ∷ [] else []

-- The loop of `Intersect`: the two lists are what is left from `a[i]` and `b[j]` on.
unfoldable pub intersect_sorted : List Interval → List Interval → List Interval
intersect_sorted [] bs = []
intersect_sorted (a ∷ as') [] = []
intersect_sorted (a ∷ as') (b ∷ bs) = elim (ltb a.to b.to) [
  | true ↦ overlap a b ++ intersect_sorted as' (b ∷ bs)
  | false ↦ overlap a b ++ intersect_sorted (a ∷ as') bs
]

unfoldable pub intersect : List Interval → List Interval → List Interval
unfolding intersect_sorted merge
intersect a b = intersect_sorted (merge a) (merge b)

-- What is appended when the inner loop of `Subtract` is left: the rest of `cur`, if any.
abbrev pub leftover : Interval → List Interval
leftover cur = if ltb cur.from cur.to then cur ∷ [] else []

-- The part of `cur` before a cut that starts inside it.
abbrev pub before_cut : Interval → Interval → List Interval
before_cut cur c =
    if ltb cur.from c.from then record { from = cur.from; to = min64 c.from cur.to } ∷ [] else []

-- The inner loop of `Subtract`.
unfoldable pub subtract_cuts : Interval → List Interval → List Interval
subtract_cuts cur [] = leftover cur
subtract_cuts cur (c ∷ cs) =
    let skipped = subtract_cuts cur cs in
    let rest = subtract_cuts (record cur { from = c.to }) cs in
    if leb c.to cur.from
    then skipped
    else if leb cur.to c.from
    then leftover cur
    else if leb cur.to c.to
    then before_cut cur c ++ leftover (record cur { from = cur.to })
    else before_cut cur c ++ rest

unfoldable pub subtract_each : List Interval → List Interval → List Interval
unfolding subtract_cuts
subtract_each [] cut = []
subtract_each (b ∷ base) cut = subtract_cuts b cut ++ subtract_each base cut

unfoldable pub subtract : List Interval → List Interval → List Interval
unfolding subtract_each merge
subtract base cut = merge (subtract_each (merge base) (merge cut))

unfoldable pub sum_seconds : List Interval → ℕ
sum_seconds [] = 0
sum_seconds (iv ∷ ivs) = seconds iv + sum_seconds ivs

unfoldable pub total : List Interval → ℕ
unfolding sum_seconds merge
total ivs = sum_seconds (merge ivs)

unfoldable pub clip : List Interval → ℕ → ℕ → List Interval
unfolding intersect
clip ivs from to = intersect ivs (record { from = from; to = to } ∷ [])
