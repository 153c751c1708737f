-- ===== src/Availability/Series/Sweep.antt =====
-- The sweep of `ComponentSeries` (internal/availability/compute.go) at one instant: the cell around
-- the instant counts exactly the segments that cover it.
use container_app_service_mo.Base.{
  ℕ, ◌≤◌, ◌<◌, ◌≡◌, refl, Bool, true, false, ◌&&◌, ◌||◌, List, [], ◌∷◌, ltb, leb, ◌==◌, any,
  count_if, arith, All, Bool-cases, ltb→lt, inl, inr,
}
use container_app_service_mo.Model.{Bucket, Rollup}
use container_app_service_mo.Availability.Points.{covers}
use container_app_service_mo.Availability.Points.Merged.{covers-merge}
use container_app_service_mo.Availability.Series.{
  Segment, counts_for, is_bad, Swept, sweep_from, sweep, insert_bound, bounds_of, all_segments,
  component_series,
}
use container_app_service_mo.Availability.Series.Instants.{
  Says, speaks, monitors_at, count-all_segments,
}

-- The segment has a reading of the service.
abbrev pub is_seen : Says
is_seen o d = o

-- The segment has a reading of the service, and it is down.
abbrev pub is_lost : Says
is_lost o d = o && d

abbrev has_bound : ℕ → List ℕ → Bool
has_bound p = any (λ q. q == p)

-- Strictly ascending, above `lo`.
abbrev Ascending : ℕ → List ℕ → Type 0
Ascending lo [] = Unit
Ascending lo (p ∷ ps) = (lo < p) × Ascending p ps

-- The sweep has passed the point, or meets it.
abbrev At : ℕ → List ℕ → ℕ → Type 0
At from bounds p = (leb p from || has_bound p bounds) ≡ true

abbrev Located : ℕ → List ℕ → Segment → Type 0
Located from bounds s = At from bounds s.from × At from bounds s.to

has_bound-above : (lo p : ℕ) (ps : List ℕ) → Ascending lo ps → p ≤ lo → has_bound p ps ≡ false
has_bound-above lo p [] a h = refl
has_bound-above lo p (q ∷ ps) a h = ground (arith, has_bound-above q p ps a.1)

-- No point lies strictly between two bounds.
At-cell :
    (from to p : ℕ) (bounds : List ℕ)
    → Ascending to bounds
    → from < to
    → At from (to ∷ bounds) p
    → p < to
    → p ≤ from
At-cell from to p bounds a h at l = ground (arith, has_bound-above to p bounds a)

At-next : (from to p : ℕ) (bounds : List ℕ) → from < to → At from (to ∷ bounds) p → At to bounds p
At-next from to p bounds h at = ground arith

Located-next :
    (from to : ℕ) (bounds : List ℕ) (segs : List Segment)
    → from < to
    → All (Located from (to ∷ bounds)) segs
    → All (Located to bounds) segs
Located-next from to bounds [] h l = tt
Located-next from to bounds (s ∷ segs) h l = (
  (At-next from to s.from bounds h l.0.0, At-next from to s.to bounds h l.0.1),
  Located-next from to bounds segs h l.1,
)

-- Inside a cell the sweep counts the segments that speak at the instant.
module _ (t from to : ℕ) (bounds : List ℕ) (a : Ascending to bounds) (cell : from < to) where
  module _ (here : from ≤ t) (inside : t < to) where
    count-cell :
        (segs : List Segment)
        → All (Located from (to ∷ bounds)) segs
        → (count_if (counts_for from to) segs ≡ count_if (speaks t is_seen) segs)
          × (count_if (λ s. counts_for from to s && s.down) segs ≡ count_if (speaks t is_lost) segs)
    count-cell [] l = (refl, refl)
    count-cell (s ∷ segs) l = ground (
      arith,
      count-cell segs l.1,
      At-cell from to s.from bounds a cell l.0.0,
      At-cell from to s.to bounds a cell l.0.1,
    )

-- Past the last bound nothing speaks.
count-past :
    (t from : ℕ) (says : Says) (segs : List Segment)
    → from ≤ t
    → All (Located from []) segs
    → count_if (speaks t says) segs ≡ 0
count-past t from says [] h l = refl
count-past t from says (s ∷ segs) h l = ground (arith, count-past t from says segs h l.1)

-- Nor before the first.
count-before :
    (t : ℕ) (says : Says) (segs : List Segment)
    → All (λ s. t < s.from) segs
    → count_if (speaks t says) segs ≡ 0
count-before t says [] l = refl
count-before t says (s ∷ segs) l = ground (arith, count-before t says segs l.1)

module _ (rollup : Rollup) (segs : List Segment) where
  sweep_from-later :
      (t from : ℕ) (bounds : List ℕ)
      → Ascending from bounds
      → t < from
      → (covers t (sweep_from rollup segs from bounds).observed ≡ false)
        × (covers t (sweep_from rollup segs from bounds).down ≡ false)
  unfolding sweep_from
  sweep_from-later t from [] a h = (refl, refl)
  sweep_from-later t from (to ∷ bounds) a h = ground (arith, sweep_from-later t to bounds a.1)

-- What the sweep says of an instant, from the number of segments that speak there.
abbrev pub SaysAt : Rollup → ℕ → ℕ → ℕ → Swept → Type 0
SaysAt rollup t seen lost swept =
    (covers t swept.observed ≡ ltb 0 seen)
    × (covers t swept.down ≡ (ltb 0 seen && is_bad rollup lost seen))

module _ (rollup : Rollup) (segs : List Segment) (t : ℕ) where
  abbrev seen_here : ℕ
  seen_here = count_if (speaks t is_seen) segs

  abbrev lost_here : ℕ
  lost_here = count_if (speaks t is_lost) segs

  sweep_from-SaysAt :
      (from : ℕ) (bounds : List ℕ)
      → Ascending from bounds
      → from ≤ t
      → All (Located from bounds) segs
      → SaysAt rollup t seen_here lost_here (sweep_from rollup segs from bounds)
  unfolding sweep_from
  sweep_from-SaysAt from [] a h l =
      ground (arith, count-past t from is_seen segs h l, count-past t from is_lost segs h l)
  sweep_from-SaysAt from (to ∷ bounds) a h l = elim (Bool-cases (ltb t to)) [
    | inl inside ↦ ground (
      arith,
      count-cell t from to bounds a.1 a.0 h (ltb→lt t to inside) segs l,
      sweep_from-later rollup segs t to bounds a.1,
    )
    | inr past ↦ ground (
      arith,
      sweep_from-SaysAt to bounds a.1 (ground arith) (Located-next from to bounds segs a.0 l),
    )
  ]

-- The sweep starts at the first bound: nothing speaks before it.
has_bound-insert :
    (p q : ℕ) (ps : List ℕ) → has_bound p (insert_bound q ps) ≡ (q == p || has_bound p ps)
unfolding insert_bound
has_bound-insert p q [] = refl
has_bound-insert p q (r ∷ ps) = ground (arith, has_bound-insert p q ps)

-- Ascending, above a bound that is not itself counted.
abbrev AscendingFrom : ℕ → List ℕ → Type 0
AscendingFrom lo [] = Unit
AscendingFrom lo (p ∷ ps) = (lo ≤ p) × Ascending p ps

Ascending-insert :
    (lo q : ℕ) (ps : List ℕ) → lo < q → Ascending lo ps → Ascending lo (insert_bound q ps)
unfolding insert_bound
Ascending-insert lo q [] h a = (h, tt)
Ascending-insert lo q (p ∷ ps) h a = ground (arith, Ascending-insert p q ps)

AscendingFrom-insert :
    (q : ℕ) (ps : List ℕ) → AscendingFrom 0 ps → AscendingFrom 0 (insert_bound q ps)
unfolding insert_bound
AscendingFrom-insert q [] a = (omega arith, tt)
AscendingFrom-insert q (p ∷ ps) a = ground (arith, Ascending-insert p q ps)

AscendingFrom-bounds_of : (segs : List Segment) → AscendingFrom 0 (bounds_of segs)
unfolding bounds_of
AscendingFrom-bounds_of [] = tt
AscendingFrom-bounds_of (s ∷ segs) =
    AscendingFrom-insert s.from (insert_bound s.to (bounds_of segs))
      (AscendingFrom-insert s.to (bounds_of segs) (AscendingFrom-bounds_of segs))

-- Both ends of every segment are among the bounds.
abbrev Ends : List ℕ → Segment → Type 0
Ends bounds s = (has_bound s.from bounds ≡ true) × (has_bound s.to bounds ≡ true)

Ends-insert :
    (q : ℕ) (bounds : List ℕ) (segs : List Segment)
    → All (Ends bounds) segs
    → All (Ends (insert_bound q bounds)) segs
Ends-insert q bounds [] e = tt
Ends-insert q bounds (s ∷ segs) e = (
  (
    ground (arith, has_bound-insert s.from q bounds),
    ground (arith, has_bound-insert s.to q bounds),
  ),
  Ends-insert q bounds segs e.1,
)

Ends-bounds_of : (segs : List Segment) → All (Ends (bounds_of segs)) segs
unfolding bounds_of
Ends-bounds_of [] = tt
Ends-bounds_of (s ∷ segs) = (
  (
    ground (arith, has_bound-insert s.from s.from (insert_bound s.to (bounds_of segs))),
    ground (
      arith,
      has_bound-insert s.to s.from (insert_bound s.to (bounds_of segs)),
      has_bound-insert s.to s.to (bounds_of segs),
    ),
  ),
  Ends-insert s.from (insert_bound s.to (bounds_of segs)) segs
      (Ends-insert s.to (bounds_of segs) segs (Ends-bounds_of segs)),
)

Located-start :
    (from : ℕ) (bounds : List ℕ) (segs : List Segment)
    → All (Ends (from ∷ bounds)) segs
    → All (Located from bounds) segs
Located-start from bounds [] e = tt
Located-start from bounds (s ∷ segs) e =
    ((ground arith, ground arith), Located-start from bounds segs e.1)

starts_late :
    (t from : ℕ) (bounds : List ℕ) (segs : List Segment)
    → Ascending from bounds
    → t < from
    → All (Ends (from ∷ bounds)) segs
    → All (λ s. t < s.from) segs
starts_late t from bounds [] a h e = tt
starts_late t from bounds (s ∷ segs) a h e =
    (ground (arith, has_bound-above from s.from bounds a), starts_late t from bounds segs a h e.1)

Ends-nowhere : (t : ℕ) (segs : List Segment) → All (Ends []) segs → All (λ s. t < s.from) segs
Ends-nowhere t [] e = tt
Ends-nowhere t (s ∷ segs) e = absurd (cc e.0.0)

module _ (rollup : Rollup) (segs : List Segment) (t : ℕ) where
  sweep-SaysAt :
      (bounds : List ℕ)
      → AscendingFrom 0 bounds
      → All (Ends bounds) segs
      → SaysAt rollup t
          (seen_here rollup segs t)
          (lost_here rollup segs t)
          (sweep rollup segs bounds)
  unfolding sweep
  sweep-SaysAt [] a e = ground (
    arith,
    count-before t is_seen segs (Ends-nowhere t segs e),
    count-before t is_lost segs (Ends-nowhere t segs e),
  )
  sweep-SaysAt (from ∷ bounds) a e = elim (Bool-cases (ltb t from)) [
    | inl early ↦ ground (
      arith,
      sweep_from-later rollup segs t from bounds a.1,
      count-before t is_seen segs (starts_late t from bounds segs a.1 (ltb→lt t from early) e),
      count-before t is_lost segs (starts_late t from bounds segs a.1 (ltb→lt t from early) e),
    )
    | inr late ↦
        sweep_from-SaysAt rollup segs t from bounds a.1 (ground arith)
          (Located-start from bounds segs e)
  ]

-- For every list of buckets and every instant, the observed series of a component covers the
-- instant exactly when some monitor's finest bucket there holds a reading of the service, and the
-- down series covers it exactly when, besides, the rollup rule calls that number of down monitors
-- out of those seen an outage.
pub component_series-SaysAt :
    (rollup : Rollup) (buckets : List Bucket) (t : ℕ)
    → SaysAt rollup t
        (monitors_at is_seen t buckets)
        (monitors_at is_lost t buckets)
        (component_series rollup buckets)
unfolding component_series
component_series-SaysAt rollup buckets t =
    let segs = all_segments buckets in
    ground (
      arith,
      sweep-SaysAt rollup segs t (bounds_of segs) (AscendingFrom-bounds_of segs)
          (Ends-bounds_of segs),
      count-all_segments t is_seen buckets,
      count-all_segments t is_lost buckets,
      covers-merge t (sweep rollup segs (bounds_of segs)).observed,
      covers-merge t (sweep rollup segs (bounds_of segs)).down,
    )
