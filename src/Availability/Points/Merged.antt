-- ===== src/Availability/Points/Merged.antt =====
-- `Merge` (internal/availability/interval.go): the normal form of a set of instants.
use container_app_service_mo.Base.{
  ℕ, suc, ◌≤◌, ◌<◌, ◌≡◌, refl, ◌||◌, List, [], ◌∷◌, arith, if◌then◌else◌, ltb, select, All, ◌∙◌,
}
use container_app_service_mo.Base.Sort.{sort, insert, any-sort, All-sort}
use container_app_service_mo.Availability.Interval.{
  Interval, is_proper, starts_before, coalesce, coalesce_all, merge,
}
use container_app_service_mo.Availability.Points.{holds, covers, SortedFrom, NormalFrom, IsNormal}

abbrev AllProper : List Interval → Type 0
AllProper = All (λ iv. iv.from < iv.to)

AllProper-select : (ivs : List Interval) → AllProper (select is_proper ivs)
AllProper-select [] = tt
AllProper-select (iv ∷ ivs) = ground (arith, AllProper-select ivs)

SortedFrom-mono :
    (lo hi : ℕ) (ivs : List Interval) → lo ≤ hi → SortedFrom hi ivs → SortedFrom lo ivs
SortedFrom-mono lo hi [] h s = tt
SortedFrom-mono lo hi (iv ∷ ivs) h s = (omega arith, s.1)

covers-select : (t : ℕ) (ivs : List Interval) → covers t (select is_proper ivs) ≡ covers t ivs
covers-select t [] = refl
covers-select t (iv ∷ ivs) = ground (arith, covers-select t ivs)

SortedFrom-insert :
    (lo : ℕ) (x : Interval) (ys : List Interval)
    → lo ≤ x.from
    → SortedFrom lo ys
    → SortedFrom lo (insert starts_before x ys)
unfolding insert
SortedFrom-insert lo x [] h s = (h, tt)
SortedFrom-insert lo x (y ∷ ys) h s = ground (arith, SortedFrom-insert y.from x ys)

SortedFrom-sort : (ivs : List Interval) → SortedFrom 0 (sort starts_before ivs)
unfolding sort
SortedFrom-sort [] = tt
SortedFrom-sort (iv ∷ ivs) =
    SortedFrom-insert 0 iv (sort starts_before ivs) (omega arith) (SortedFrom-sort ivs)

-- `last` after the loop of `Merge` absorbed `iv`.
abbrev absorb : Interval → Interval → Interval
absorb last iv = record last { to = if ltb last.to iv.to then iv.to else last.to }

covers-coalesce :
    (t : ℕ) (last : Interval) (rest : List Interval)
    → SortedFrom last.from rest
    → covers t (coalesce last rest) ≡ (holds t last || covers t rest)
unfolding coalesce
covers-coalesce t last [] s = refl
covers-coalesce t last (iv ∷ rest) s = ground (
  arith,
  covers-coalesce t (absorb last iv) rest (SortedFrom-mono last.from iv.from rest s.0 s.1),
  covers-coalesce t iv rest s.1,
)

NormalFrom-coalesce :
    (lo : ℕ) (last : Interval) (rest : List Interval)
    → lo ≤ last.from
    → last.from < last.to
    → SortedFrom last.from rest
    → AllProper rest
    → NormalFrom lo (coalesce last rest)
unfolding coalesce
NormalFrom-coalesce lo last [] h p s q = (h, p, tt)
NormalFrom-coalesce lo last (iv ∷ rest) h p s q = ground (
  arith,
  NormalFrom-coalesce lo (absorb last iv) rest h,
  SortedFrom-mono last.from iv.from rest s.0 s.1,
  NormalFrom-coalesce (suc last.to) iv rest,
)

merge-cases :
    (ivs : List Interval)
    → SortedFrom 0 ivs
    → AllProper ivs
    → IsNormal (coalesce_all ivs) × ((t : ℕ) → covers t (coalesce_all ivs) ≡ covers t ivs)
unfolding coalesce_all
merge-cases [] s p = (tt, λ t. refl)
merge-cases (iv ∷ rest) s p =
    (NormalFrom-coalesce 0 iv rest (omega arith) p.0 s.1 p.1, λ t. covers-coalesce t iv rest s.1)

-- Merged intervals are proper, in order, and have a gap between any two.
pub merge-IsNormal : (ivs : List Interval) → IsNormal (merge ivs)
unfolding merge
merge-IsNormal ivs =
    (merge-cases _ (SortedFrom-sort (select is_proper ivs))
      (All-sort starts_before _ _ (AllProper-select ivs))).0

-- Merging a list of intervals changes no instant that the list covers.
pub covers-merge : (t : ℕ) (ivs : List Interval) → covers t (merge ivs) ≡ covers t ivs
unfolding merge
covers-merge t ivs =
    (merge-cases _ (SortedFrom-sort (select is_proper ivs))
        (All-sort starts_before _ _ (AllProper-select ivs))).1
      t
    ∙ any-sort starts_before (holds t) (select is_proper ivs)
    ∙ covers-select t ivs
