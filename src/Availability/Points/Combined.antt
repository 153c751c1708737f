-- ===== src/Availability/Points/Combined.antt =====
-- `Intersect`, `Subtract` and `Clip` (internal/availability/interval.go) as set operations.
use container_app_service_mo.Base.{
  ℕ, suc, ◌≤◌, ◌<◌, ◌≡◌, refl, false, not, ◌&&◌, List, [], ◌∷◌, arith, ltb, leb, any-append,
  Bool-cases, inl, inr, ◌⊎◌,
}
use container_app_service_mo.Availability.Interval.{
  Interval, merge, overlap, intersect_sorted, intersect, leftover, before_cut, subtract_cuts,
  subtract_each, subtract, clip,
}
use container_app_service_mo.Availability.Points.{holds, covers, NormalFrom, IsNormal}
use container_app_service_mo.Availability.Points.Merged.{merge-IsNormal, covers-merge}

NormalFrom-mono :
    (lo hi : ℕ) (ivs : List Interval) → lo ≤ hi → NormalFrom hi ivs → NormalFrom lo ivs
NormalFrom-mono lo hi [] h n = tt
NormalFrom-mono lo hi (iv ∷ ivs) h n = (omega arith, n.1, n.2)

-- Nothing is covered below the start.
pub covers-NormalFrom :
    (t lo : ℕ) (ivs : List Interval) → NormalFrom lo ivs → t < lo → covers t ivs ≡ false
covers-NormalFrom t lo [] n h = refl
covers-NormalFrom t lo (iv ∷ ivs) n h = ground (arith, covers-NormalFrom t (suc iv.to) ivs n.2)

covers-overlap : (t : ℕ) (a b : Interval) → covers t (overlap a b) ≡ (holds t a && holds t b)
covers-overlap t a b = ground arith

covers-intersect_sorted :
    (t lo hi : ℕ) (as' bs : List Interval)
    → NormalFrom lo as'
    → NormalFrom hi bs
    → covers t (intersect_sorted as' bs) ≡ (covers t as' && covers t bs)
unfolding intersect_sorted
covers-intersect_sorted t lo hi [] bs n m = refl
covers-intersect_sorted t lo hi (a ∷ as') [] n m = ground arith
covers-intersect_sorted t lo hi (a ∷ as') (b ∷ bs) n m = ground (
  arith,
  any-append (holds t) (overlap a b) (intersect_sorted as' (b ∷ bs)),
  any-append (holds t) (overlap a b) (intersect_sorted (a ∷ as') bs),
  covers-overlap t a b,
  covers-intersect_sorted t (suc a.to) hi as' (b ∷ bs) n.2 m,
  covers-intersect_sorted t lo (suc b.to) (a ∷ as') bs n m.2,
  covers-NormalFrom t (suc a.to) as' n.2,
  covers-NormalFrom t (suc b.to) bs m.2,
)

-- Intersecting covers exactly the instants that both lists cover.
pub covers-intersect :
    (t : ℕ) (a b : List Interval) → covers t (intersect a b) ≡ (covers t a && covers t b)
unfolding intersect
covers-intersect t a b = rw (
  covers-intersect_sorted t 0 0 (merge a) (merge b) (merge-IsNormal a) (merge-IsNormal b),
  covers-merge t a,
  covers-merge t b,
)

pub covers-clip :
    (t from to : ℕ) (ivs : List Interval)
    → covers t (clip ivs from to) ≡ (covers t ivs && (leb from t && ltb t to))
unfolding clip
covers-clip t from to ivs =
    ground (arith, covers-intersect t ivs (record { from = from; to = to } ∷ []))

covers-subtract_cuts :
    (t lo : ℕ) (cur : Interval) (cs : List Interval)
    → NormalFrom lo cs
    → covers t (subtract_cuts cur cs) ≡ (holds t cur && not (covers t cs))
unfolding subtract_cuts
covers-subtract_cuts t lo cur [] n = ground arith
covers-subtract_cuts t lo cur (c ∷ cs) n = elim (Bool-cases (leb c.to cur.from)) [
  | inl skip ↦ rw skip (ground (arith, covers-subtract_cuts t (suc c.to) cur cs n.2))
  | inr cuts ↦ rw cuts (elim (Bool-cases (leb cur.to c.from)) [
    | inl past ↦ rw past (ground (arith, covers-NormalFrom t (suc c.to) cs n.2))
    | inr inside ↦ rw inside (elim (Bool-cases (leb cur.to c.to)) [
      | inl whole ↦ rw whole (
          rw (any-append (holds t) (before_cut cur c) (leftover (record cur { from = cur.to })))
            (ground (arith, covers-NormalFrom t (suc c.to) cs n.2)))
      | inr part ↦ rw part (
          rw
            (
              any-append (holds t) (before_cut cur c)
                  (subtract_cuts (record cur { from = c.to }) cs),
              covers-subtract_cuts t (suc c.to) (record cur { from = c.to }) cs n.2,
            )
            (ground (arith, covers-NormalFrom t (suc c.to) cs n.2)))
    ])
  ])
]

covers-subtract_each :
    (t : ℕ) (base cut : List Interval)
    → IsNormal cut
    → covers t (subtract_each base cut) ≡ (covers t base && not (covers t cut))
unfolding subtract_each
covers-subtract_each t [] cut n = refl
covers-subtract_each t (b ∷ base) cut n = ground (
  arith,
  any-append (holds t) (subtract_cuts b cut) (subtract_each base cut),
  covers-subtract_cuts t 0 b cut n,
  covers-subtract_each t base cut n,
)

-- Subtracting covers exactly the instants of the base that the cut does not cover.
pub covers-subtract :
    (t : ℕ) (base cut : List Interval)
    → covers t (subtract base cut) ≡ (covers t base && not (covers t cut))
unfolding subtract
covers-subtract t base cut = rw (
  covers-merge t (subtract_each (merge base) (merge cut)),
  covers-subtract_each t (merge base) (merge cut) (merge-IsNormal cut),
  covers-merge t base,
  covers-merge t cut,
)

pub subtract-IsNormal : (base cut : List Interval) → IsNormal (subtract base cut)
unfolding subtract
subtract-IsNormal base cut = merge-IsNormal (subtract_each (merge base) (merge cut))

NormalFrom-intersect_sorted :
    (lo hi k : ℕ) (as' bs : List Interval)
    → NormalFrom lo as'
    → NormalFrom hi bs
    → (k ≤ lo) ⊎ (k ≤ hi)
    → NormalFrom k (intersect_sorted as' bs)
unfolding intersect_sorted
NormalFrom-intersect_sorted lo hi k [] bs n m h = tt
NormalFrom-intersect_sorted lo hi k (a ∷ as') [] n m h = tt
NormalFrom-intersect_sorted lo hi k (a ∷ as') (b ∷ bs) n m h = ground (
  arith,
  NormalFrom-intersect_sorted (suc a.to) hi (suc a.to) as' (b ∷ bs) n.2 m,
  NormalFrom-intersect_sorted lo (suc b.to) (suc b.to) (a ∷ as') bs n m.2,
  NormalFrom-intersect_sorted (suc a.to) hi k as' (b ∷ bs) n.2 m,
  NormalFrom-intersect_sorted lo (suc b.to) k (a ∷ as') bs n m.2,
)

pub intersect-IsNormal : (a b : List Interval) → IsNormal (intersect a b)
unfolding intersect
intersect-IsNormal a b =
    NormalFrom-intersect_sorted 0 0 0 (merge a) (merge b) (merge-IsNormal a) (merge-IsNormal b)
      (inl (omega arith))
