-- ===== src/Availability/Points.antt =====
-- What the interval algebra means: a list of intervals as the set of the instants in it.
pub mod Merged
pub mod Combined
pub mod Length
use container_app_service_mo.Base.{
  ℕ, suc, ◌≤◌, ◌<◌, ◌≡◌, refl, ◌+◌, ◌-◌, Bool, true, false, not, ◌&&◌, ◌||◌, List, [], ◌∷◌, ◌++◌,
  arith, if◌then◌else◌, ltb, leb, any, any-append, select,
}
use container_app_service_mo.Base.Sort.{sort, any-sort}
use container_app_service_mo.Availability.Interval.{
  Interval, is_proper, starts_before, coalesce, coalesce_all, merge,
}

-- The instant t lies in the interval.
abbrev pub holds : ℕ → Interval → Bool
holds t iv = leb iv.from t && ltb t iv.to

-- The instant t lies in some interval of the list.
abbrev pub covers : ℕ → List Interval → Bool
covers t = any (holds t)

-- Sorted by start.
abbrev pub SortedFrom : ℕ → List Interval → Type 0
SortedFrom lo [] = Unit
SortedFrom lo (iv ∷ ivs) = (lo ≤ iv.from) × SortedFrom iv.from ivs

-- Proper, in order, and with a gap between any two: the normal form.
abbrev pub NormalFrom : ℕ → List Interval → Type 0
NormalFrom lo [] = Unit
NormalFrom lo (iv ∷ ivs) = (lo ≤ iv.from) × (iv.from < iv.to) × NormalFrom (suc iv.to) ivs

abbrev pub IsNormal : List Interval → Type 0
IsNormal = NormalFrom 0
