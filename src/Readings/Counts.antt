-- ===== src/Readings/Counts.antt =====
-- Folding loses no reading (internal/core/samples.go, `foldMinutes` and `foldHours`): the rows of a
-- pass count exactly the readings that the pass takes.
use native.Mathlib.Nat.{zero-add}
use container_app_service_mo.Base.{
  ℕ, ◌+◌, ◌<◌, ◌≡◌, refl, ◌∙◌, Bool, not, ◌&&◌, List, [], ◌∷◌, map, arith, length, some, select,
  sum_by, count_if, ap,
}
use container_app_service_mo.Base.Sort.{sort, length-sort, sum_by-sort}
use container_app_service_mo.Model.{Verdict, Sample, Bucket}
use container_app_service_mo.Readings.{
  width_minute, width_hour, Fold, add_sample, add_bucket, bucket_of,
}
use container_app_service_mo.Readings.Tables.{
  Tables, add_to, collect_samples, collect_buckets, fold_before, pass_from-some, started_before,
  begins_before, mark_from, in_range, sample_rows, bucket_rows, is_minute, fold_minutes, fold_hours,
  fold_of_sample, fold_of_bucket,
}

-- All that a fold has counted, errors included.
abbrev pub fold_size : Fold → ℕ
fold_size f = f.up_count + f.degraded_count + f.down_count + f.error_count

abbrev pub bucket_size : Bucket → ℕ
bucket_size b = b.up_count + b.degraded_count + b.down_count + b.error_count

add_to-size :
    (add : Fold → Fold) (n : ℕ) (fresh : Fold) (fs : List Fold)
    → ((f : Fold) → fold_size (add f) ≡ fold_size f + n)
    → fold_size fresh ≡ 0
    → sum_by fold_size (add_to add fresh fs) ≡ sum_by fold_size fs + n
unfolding add_to
add_to-size add n fresh [] grows empty = omega (arith, grows fresh)
add_to-size add n fresh (f ∷ fs) grows empty =
    ground (arith, grows f, add_to-size add n fresh fs grows empty)

pub add_sample-size :
    (f : Fold) (v : Verdict) (ms : ℕ) (m : Bool) → fold_size (add_sample f v ms m) ≡ fold_size f + 1
unfolding add_sample
add_sample-size f v ms m = ground arith

add_bucket-size : (b : Bucket) (f : Fold) → fold_size (add_bucket f b) ≡ fold_size f + bucket_size b
unfolding add_bucket
add_bucket-size b f = omega arith

collect_samples-size :
    (rows : List Sample) (fs : List Fold)
    → sum_by fold_size (collect_samples rows fs) ≡ sum_by fold_size fs + length rows
unfolding collect_samples
collect_samples-size [] fs = omega arith
collect_samples-size (s ∷ rows) fs =
    let add : Fold → Fold = λ f. add_sample f s.verdict s.duration_ms s.in_maintenance in
    omega (
      arith,
      collect_samples-size rows (add_to add (fold_of_sample s) fs),
      add_to-size add 1 (fold_of_sample s) fs
          (λ f. add_sample-size f s.verdict s.duration_ms s.in_maintenance) refl,
    )

collect_buckets-size :
    (rows : List Bucket) (fs : List Fold)
    → sum_by fold_size (collect_buckets rows fs) ≡ sum_by fold_size fs + sum_by bucket_size rows
unfolding collect_buckets
collect_buckets-size [] fs = omega arith
collect_buckets-size (b ∷ rows) fs =
    let add : Fold → Fold = λ f. add_bucket f b in
    omega (
      arith,
      collect_buckets-size rows (add_to add (fold_of_bucket b) fs),
      add_to-size add (bucket_size b) (fold_of_bucket b) fs (add_bucket-size b) refl,
    )

rows-size : (fs : List Fold) → sum_by bucket_size (map bucket_of fs) ≡ sum_by fold_size fs
unfolding bucket_of
rows-size [] = refl
rows-size (f ∷ fs) = omega (arith, rows-size fs)

length-select {ℓ} : {A : Type ℓ} (p : A → Bool) (xs : List A) → length (select p xs) ≡ count_if p xs
length-select p [] = refl
length-select p (x ∷ xs) = ground (arith, length-select p xs)

-- The readings that a minute pass over [from, to) is for.
abbrev pub is_due : ℕ → ℕ → Sample → Bool
is_due from to s = in_range from to s.started_at && not s.manual

-- The rows of a minute pass, from its watermark up to a later instant, count as many readings as
-- were taken in between and were not manual runs.
pub fold_minutes-size :
    (t : Tables) (from before : ℕ)
    → mark_from width_minute t.fold_minute (map (λ s. s.started_at) t.samples) ≡ some from
    → from < before
    → sum_by bucket_size (fold_minutes t before).rows ≡ count_if (is_due from before) t.samples
unfolding fold_minutes
fold_minutes-size t from before marked later =
    let take = λ (w : ℕ). collect_samples (sample_rows t w before) [] in
    ap (λ p. sum_by bucket_size p.rows) (pass_from-some take before from _ marked later)
    ∙ rows-size (sort fold_before (take from))
    ∙ sum_by-sort fold_before fold_size (take from)
    ∙ collect_samples-size (sample_rows t from before) []
    ∙ zero-add (length (sample_rows t from before))
    ∙ length-sort started_before (select (is_due from before) t.samples)
    ∙ length-select (is_due from before) t.samples

-- The rows of an hour pass, from its watermark up to a later instant, count what the stored minute
-- rows in between count.
pub fold_hours-size :
    (t : Tables) (from before : ℕ)
    → mark_from width_hour t.fold_hour (map (λ b. b.start) (select is_minute t.buckets)) ≡ some from
    → from < before
    → sum_by bucket_size (fold_hours t before).rows
      ≡ sum_by bucket_size (select (λ b. is_minute b && in_range from before b.start) t.buckets)
unfolding fold_hours
fold_hours-size t from before marked later =
    let take = λ (w : ℕ). collect_buckets (bucket_rows t w before) [] in
    ap (λ p. sum_by bucket_size p.rows) (pass_from-some take before from _ marked later)
    ∙ rows-size (sort fold_before (take from))
    ∙ sum_by-sort fold_before fold_size (take from)
    ∙ collect_buckets-size (bucket_rows t from before) []
    ∙ zero-add (sum_by bucket_size (bucket_rows t from before))
    ∙ sum_by-sort begins_before bucket_size
        (select (λ b. is_minute b && in_range from before b.start) t.buckets)
