-- ===== src/Availability/Series/Instants.antt =====
-- The segments of one monitor (internal/availability/compute.go, `monitorSegments`) at one instant:
-- the finest reading that covers the instant speaks for it, alone.
use container_app_service_mo.Base.{
  ℕ, suc, ◌+◌, ◌≡◌, refl, Bool, ◌&&◌, List, [], ◌∷◌, ◌++◌, map, if◌then◌else◌, ltb, leb, any-append,
  select, count_if, String, arith, Option, none, some,
}
use container_app_service_mo.Base.Sort.{sort}
use container_app_service_mo.Model.{Bucket, is_down}
use container_app_service_mo.Availability.Interval.{Interval, merge, subtract}
use container_app_service_mo.Availability.Points.{holds, covers, NormalFrom}
use container_app_service_mo.Availability.Points.Merged.{covers-merge}
use container_app_service_mo.Availability.Points.Combined.{
  covers-NormalFrom, covers-subtract, subtract-IsNormal,
}
use container_app_service_mo.Availability.Series.{
  Segment, finer, whole, is_observed, segment_of, segments_loop, monitor_segments, has_monitor,
  monitor_ids, segments_by, all_segments,
}

-- A test on what a segment says.
abbrev pub Says : Type 0
Says = Bool → Bool → Bool

-- The segment covers the instant and says so.
abbrev pub speaks : ℕ → Says → Segment → Bool
speaks t says s = leb s.from t && ltb t s.to && says s.observed s.down

-- The first reading of the list that covers the instant.
abbrev pub first_at : ℕ → List Bucket → Option Bucket
first_at t [] = none
first_at t (b ∷ bs) = if holds t (whole b) then some b else first_at t bs

abbrev pub tally : Says → Option Bucket → ℕ
tally says none = 0
tally says (some b) = if says (is_observed b) (is_down b.verdict) then 1 else 0

pub count_if-append {ℓ} :
    {A : Type ℓ} (p : A → Bool) (xs ys : List A)
    → count_if p (xs ++ ys) ≡ count_if p xs + count_if p ys
count_if-append p [] ys = omega arith
count_if-append p (x ∷ xs) ys = omega (arith, count_if-append p xs ys)

count-segment_of :
    (t lo : ℕ) (says : Says) (b : Bucket) (ivs : List Interval)
    → NormalFrom lo ivs
    → count_if (speaks t says) (map (segment_of b) ivs)
      ≡ (if covers t ivs then tally says (some b) else 0)
count-segment_of t lo says b [] n = refl
count-segment_of t lo says b (iv ∷ ivs) n =
    ground (
      arith,
      count-segment_of t (suc iv.to) says b ivs n.2,
      covers-NormalFrom t (suc iv.to) ivs n.2,
    )

-- What is already covered is not spoken for again.
count-segments_loop :
    (t : ℕ) (says : Says) (bs : List Bucket) (covered : List Interval)
    → count_if (speaks t says) (segments_loop bs covered)
      ≡ (if covers t covered then 0 else tally says (first_at t bs))
unfolding segments_loop
count-segments_loop t says [] covered = ground arith
count-segments_loop t says (b ∷ bs) covered = ground (
  arith,
  count_if-append (speaks t says) (map (segment_of b) (subtract (whole b ∷ []) covered))
      (segments_loop bs (merge (covered ++ whole b ∷ []))),
  count-segment_of t 0 says b (subtract (whole b ∷ []) covered)
      (subtract-IsNormal (whole b ∷ []) covered),
  covers-subtract t (whole b ∷ []) covered,
  covers-merge t (covered ++ whole b ∷ []),
  any-append (holds t) covered (whole b ∷ []),
  count-segments_loop t says bs covered,
  count-segments_loop t says bs (merge (covered ++ whole b ∷ [])),
)

-- The reading that speaks for a monitor at an instant.
unfoldable pub finest_at : ℕ → List Bucket → Option Bucket
unfolding sort
finest_at t buckets = first_at t (sort finer buckets)

pub count-monitor_segments :
    (t : ℕ) (says : Says) (buckets : List Bucket)
    → count_if (speaks t says) (monitor_segments buckets) ≡ tally says (finest_at t buckets)
unfolding monitor_segments finest_at
count-monitor_segments t says buckets = count-segments_loop t says (sort finer buckets) []

-- The number of monitors among `ids` whose finest reading at the instant passes the test.
abbrev pub tally_by : Says → ℕ → List Bucket → List String → ℕ
tally_by says t buckets [] = 0
tally_by says t buckets (id ∷ ids) =
    tally says (finest_at t (select (has_monitor id) buckets)) + tally_by says t buckets ids

abbrev pub monitors_at : Says → ℕ → List Bucket → ℕ
monitors_at says t buckets = tally_by says t buckets (monitor_ids buckets)

count-segments_by :
    (t : ℕ) (says : Says) (buckets : List Bucket) (ids : List String)
    → count_if (speaks t says) (segments_by buckets ids) ≡ tally_by says t buckets ids
unfolding segments_by
count-segments_by t says buckets [] = refl
count-segments_by t says buckets (id ∷ ids) = ground (
  arith,
  count_if-append (speaks t says) (monitor_segments (select (has_monitor id) buckets))
      (segments_by buckets ids),
  count-monitor_segments t says (select (has_monitor id) buckets),
  count-segments_by t says buckets ids,
)

pub count-all_segments :
    (t : ℕ) (says : Says) (buckets : List Bucket)
    → count_if (speaks t says) (all_segments buckets) ≡ monitors_at says t buckets
unfolding all_segments
count-all_segments t says buckets = count-segments_by t says buckets (monitor_ids buckets)
