-- ===== src/Readings/Late.antt =====
-- The minutes that an hour bucket misses (internal/core/samples.go, `Fold`): the hour pass reads the
-- table as it is before the round, and the minute rows of the same round are not in it yet.
use native.Mathlib.Nat.{zero-add}
use container_app_service_mo.Base.{
  ℕ, ◌+◌, ◌≤◌, ◌<◌, ◌≡◌, ◌≢◌, refl, ◌∙◌, Bool, ◌&&◌, List, [], ◌∷◌, ◌++◌, map, if◌then◌else◌, ltb,
  arith, some, select, sum_by, sum_by-append, count_if, ap,
}
use container_app_service_mo.Base.Sort.{sort, sum_by-sort}
use container_app_service_mo.Model.{Sample, Bucket}
use container_app_service_mo.Readings.{width_minute, width_hour, Fold, add_sample, bucket_of}
use container_app_service_mo.Readings.Tables.{
  Tables, floor_to, add_to, collect_samples, collect_buckets, bucket_rows, fold_before,
  pass_from-some, mark_from, in_range, started_before, sample_rows, is_minute, fold_minutes,
  fold_hours, fold_of_sample, or_stored, fold,
}
use container_app_service_mo.Readings.Keys.{KeepsKey, add_sample-KeepsKey}
use container_app_service_mo.Readings.Passes.{LiesIn}
use container_app_service_mo.Readings.Counts.{
  fold_size, bucket_size, is_due, add_sample-size, fold_hours-size,
}
use container_app_service_mo.Readings.Once.{
  IsMarked, fold-appends, minute-IsPass, hour-IsPass, hour_mark,
}

-- The size of what starts where a test says.
abbrev sized : (ℕ → Bool) → Fold → ℕ
sized p f = if p f.start then fold_size f else 0

abbrev sized_row : (ℕ → Bool) → Bucket → ℕ
sized_row p b = if p b.start then bucket_size b else 0

module _ (p : ℕ → Bool) where
  add_to-sized :
      (add : Fold → Fold) (n : ℕ) (fresh : Fold) (fs : List Fold)
      → KeepsKey add
      → ((f : Fold) → fold_size (add f) ≡ fold_size f + n)
      → fold_size fresh ≡ 0
      → sum_by (sized p) (add_to add fresh fs)
        ≡ sum_by (sized p) fs + (if p fresh.start then n else 0)
  unfolding add_to
  add_to-sized add n fresh [] keeps grows empty = ground (arith, grows fresh, keeps fresh)
  add_to-sized add n fresh (f ∷ fs) keeps grows empty =
      ground (arith, grows f, keeps f, add_to-sized add n fresh fs keeps grows empty)

  collect_samples-sized :
      (rows : List Sample) (fs : List Fold)
      → sum_by (sized p) (collect_samples rows fs)
        ≡ sum_by (sized p) fs
          + sum_by (λ s. if p (floor_to width_minute s.started_at) then 1 else 0) rows
  unfolding collect_samples
  collect_samples-sized [] fs = omega arith
  collect_samples-sized (s ∷ rows) fs =
      let add : Fold → Fold = λ f. add_sample f s.verdict s.duration_ms s.in_maintenance in
      omega (
        arith,
        collect_samples-sized rows (add_to add (fold_of_sample s) fs),
        add_to-sized add 1 (fold_of_sample s) fs
            (add_sample-KeepsKey s.verdict s.duration_ms s.in_maintenance)
            (λ f. add_sample-size f s.verdict s.duration_ms s.in_maintenance) refl,
      )

  rows-sized : (fs : List Fold) → sum_by (sized_row p) (map bucket_of fs) ≡ sum_by (sized p) fs
  unfolding bucket_of
  rows-sized [] = refl
  rows-sized (f ∷ fs) = omega (arith, rows-sized fs)

sum_by-select {ℓ} :
    {A : Type ℓ} (q : A → Bool) (g : A → ℕ) (xs : List A)
    → sum_by g (select q xs) ≡ sum_by (λ x. if q x then g x else 0) xs
sum_by-select q g [] = refl
sum_by-select q g (x ∷ xs) = ground (arith, sum_by-select q g xs)

-- Of the readings due up to a later instant, those whose minutes start before an earlier bound.
due_before :
    (from bound end : ℕ) (ss : List Sample)
    → floor_to width_minute bound ≡ bound
    → bound ≤ end
    → sum_by
        (λ s. if ltb (floor_to width_minute s.started_at) bound then 1 else 0)
        (select (is_due from end) ss)
      ≡ count_if (is_due from bound) ss
due_before from bound end [] al le = refl
due_before from bound end (s ∷ ss) al le = ground (arith, due_before from bound end ss al le)

mark_from-stored :
    (width stored : ℕ) (starts : List ℕ) → stored ≢ 0 → mark_from width stored starts ≡ some stored
unfolding mark_from
mark_from-stored width stored starts set = ground arith

-- The rows of the minute pass, by the bound that they start before.
minutes-sized :
    (t : Tables) (bound end : ℕ)
    → t.fold_minute ≢ 0
    → floor_to width_minute bound ≡ bound
    → bound ≤ end
    → t.fold_minute < end
    → sum_by (sized_row (λ n. ltb n bound)) (fold_minutes t end).rows
      ≡ count_if (is_due t.fold_minute bound) t.samples
unfolding fold_minutes
minutes-sized t bound end set al le later =
    let p = λ (n : ℕ). ltb n bound in
    let take = λ (w : ℕ). collect_samples (sample_rows t w end) [] in
    let starts = map (λ (s : Sample). s.started_at) t.samples in
    ap (λ q. sum_by (sized_row p) q.rows)
      (pass_from-some take end t.fold_minute _
        (mark_from-stored width_minute t.fold_minute starts set) later)
    ∙ rows-sized p (sort fold_before (take t.fold_minute))
    ∙ sum_by-sort fold_before (sized p) (take t.fold_minute)
    ∙ collect_samples-sized p (sample_rows t t.fold_minute end) []
    ∙ zero-add _
    ∙ sum_by-sort started_before _ (select (is_due t.fold_minute end) t.samples)
    ∙ due_before t.fold_minute bound end t.samples al le

-- A minute row that starts in the hours between the watermark and `bound`.
abbrev pub is_part : ℕ → ℕ → Bucket → Bool
is_part from bound b = is_minute b && in_range from bound b.start

parts-of_minutes :
    (from mark bound end : ℕ) (rows : List Bucket)
    → from ≤ mark
    → LiesIn width_minute mark end rows
    → sum_by bucket_size (select (is_part from bound) rows)
      ≡ sum_by (sized_row (λ n. ltb n bound)) rows
parts-of_minutes from mark bound end [] le l = refl
parts-of_minutes from mark bound end (r ∷ rows) le l =
    ground (arith, parts-of_minutes from mark bound end rows le l.1)

parts-of_hours :
    (from mark bound end : ℕ) (rows : List Bucket)
    → LiesIn width_hour mark end rows
    → sum_by bucket_size (select (is_part from bound) rows) ≡ 0
parts-of_hours from mark bound end [] l = refl
parts-of_hours from mark bound end (r ∷ rows) l =
    ground (arith, parts-of_hours from mark bound end rows l.1)

-- `parts` of three lists.
parts-append :
    (q : Bucket → Bool) (xs ys zs : List Bucket)
    → sum_by bucket_size (select q (xs ++ (ys ++ zs)))
      ≡ sum_by bucket_size (select q xs)
        + (sum_by bucket_size (select q ys) + sum_by bucket_size (select q zs))
parts-append q xs ys zs =
    let g = λ (b : Bucket). if q b then bucket_size b else 0 in
    omega (
      arith,
      sum_by-select q bucket_size (xs ++ (ys ++ zs)),
      sum_by-select q bucket_size xs,
      sum_by-select q bucket_size ys,
      sum_by-select q bucket_size zs,
      sum_by-append g xs (ys ++ zs),
      sum_by-append g ys zs,
    )

fold_hours-mark :
    (t : Tables) (end : ℕ)
    → t.fold_hour ≢ 0
    → t.fold_hour < end
    → (fold_hours t end).mark ≡ some end
unfolding fold_hours
fold_hours-mark t end set later =
    ap (λ q. q.mark)
      (pass_from-some (λ w. collect_buckets (bucket_rows t w end) []) end t.fold_hour _
        (mark_from-stored width_hour t.fold_hour
          (map (λ (b : Bucket). b.start) (select is_minute t.buckets)) set)
        later)

-- Where a round closes an hour with minutes of it still to be folded, with both watermarks set and
-- the hour's not after the minute's, the stored minute rows of the closed hours then count more
-- than the hour rows written, by the due readings from the minute watermark to the end of the
-- hour, and the hour watermark stands at that end.
pub fold_hours-misses :
    (t : Tables) (before : ℕ)
    → IsMarked t
    → t.fold_minute ≢ 0
    → t.fold_hour ≢ 0
    → t.fold_hour ≤ t.fold_minute
    → t.fold_minute < floor_to width_hour before
    → let bound = floor_to width_hour before in
      (sum_by bucket_size (select (is_part t.fold_hour bound) (fold t before).buckets)
        ≡ sum_by bucket_size (fold_hours t bound).rows
          + count_if (is_due t.fold_minute bound) t.samples)
      × ((fold t before).fold_hour ≡ bound)
fold_hours-misses t before marked set_m set_h order late =
    let bound : ℕ = floor_to width_hour before in
    let end : ℕ = floor_to width_minute before in
    let m = (fold_minutes t end).rows in
    let h = (fold_hours t bound).rows in
    let q = is_part t.fold_hour bound in
    (
      ap (λ bs. sum_by bucket_size (select q bs)) (fold-appends t before marked)
          ∙ omega (
            arith,
            parts-append q t.buckets m h,
            parts-of_minutes t.fold_hour t.fold_minute bound _ m order
                (minute-IsPass t before marked).within,
            parts-of_hours t.fold_hour t.fold_hour bound _ h (hour-IsPass t before marked).within,
            minutes-sized t bound end set_m (omega arith) (omega arith) (omega arith),
            fold_hours-size t t.fold_hour bound (mark_from-stored width_hour t.fold_hour _ set_h)
                (omega arith),
          ),
      hour_mark t before marked
          ∙ ap (or_stored t.fold_hour) (fold_hours-mark t bound set_h (omega arith)),
    )
