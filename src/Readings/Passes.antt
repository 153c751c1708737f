-- ===== src/Readings/Passes.antt =====
-- What one pass writes (internal/core/samples.go, `foldMinutes` and `foldHours`): rows with
-- different keys, all between its watermark and its end.
use mathlib.Core.Path.{subst}
use mathlib.Core.Option.{some-injective}
use container_app_service_mo.Base.{
  &&_parts, ℕ, ◌≤◌, ◌<◌, ◌≡◌, refl, ◌∙◌, Bool, true, false, not, ◌&&◌, List, [], ◌∷◌, map,
  if◌then◌else◌, leb, ◌==◌, arith, All, Option, none, some, select, Bool-cases, inl, inr,
}
use container_app_service_mo.Base.Sort.{sort, All-sort}
use container_app_service_mo.Model.{Sample, Bucket}
use container_app_service_mo.Readings.{
  Fold, add_sample, add_bucket, bucket_of, width_minute, width_hour,
}
use container_app_service_mo.Readings.Tables.{
  Tables, floor_to, same_fold, collect_samples, collect_buckets, fold_before, fold_of_sample,
  fold_of_bucket, Pass, pass_from, mark_from, first_mark, min_of, in_range, started_before,
  begins_before, sample_rows, bucket_rows, is_minute, fold_minutes, fold_hours, same_key, or_stored,
}
use container_app_service_mo.Readings.Keys.{
  Distinct, collect_samples-Distinct, collect_buckets-Distinct, collect_samples-All,
  collect_buckets-All, add_sample-KeepsKey, add_bucket-KeepsKey, Distinct-sort, rows-Distinct,
}

-- The rows of a pass lie between its watermark and its end.
abbrev pub LiesIn : ℕ → ℕ → ℕ → List Bucket → Type 0
LiesIn width from before = All (λ b. (b.width ≡ width) × (from ≤ b.start) × (b.start < before))

abbrev pub IsAligned : ℕ → ℕ → Type 0
IsAligned width mark = floor_to width mark ≡ mark

-- What a pass that starts from the stored watermark has to be.
pub record IsPass (width stored : ℕ) (p : Pass) : Type 0 where
  pub within : LiesIn width stored (or_stored stored p.mark) p.rows
  pub distinct : Distinct same_key p.rows
  pub advances : stored ≤ or_stored stored p.mark
  pub aligned : IsAligned width (or_stored stored p.mark)

abbrev FoldIn : ℕ → ℕ → ℕ → Fold → Type 0
FoldIn width from before f = (f.width ≡ width) × (from ≤ f.start) × (f.start < before)

rows-LiesIn :
    (width from before : ℕ) (fs : List Fold)
    → All (FoldIn width from before) fs
    → LiesIn width from before (map bucket_of fs)
unfolding bucket_of
rows-LiesIn width from before [] h = tt
rows-LiesIn width from before (f ∷ fs) h = (h.0, rows-LiesIn width from before fs h.1)

FoldIn-mono :
    (width stored from before : ℕ) (fs : List Fold)
    → stored ≤ from
    → All (FoldIn width from before) fs
    → All (FoldIn width stored before) fs
FoldIn-mono width stored from before [] le h = tt
FoldIn-mono width stored from before (f ∷ fs) le h =
    ((h.0.0, omega arith, h.0.2), FoldIn-mono width stored from before fs le h.1)

mark_from-le :
    (width stored from : ℕ) (starts : List ℕ)
    → mark_from width stored starts ≡ some from
    → stored ≤ from
unfolding mark_from
mark_from-le width stored from starts h = ground arith

module _ (width stored from : ℕ) (floors : (n : ℕ) → IsAligned width (floor_to width n)) where
  mark-IsAligned :
      (unset : Bool) (first : Option ℕ)
      → IsAligned width stored
      → (if unset then first_mark width first else some stored) ≡ some from
      → IsAligned width from
  mark-IsAligned true none old h = cc
  mark-IsAligned true (some n) old h = subst (IsAligned width) (some-injective _ _ h) (floors n)
  mark-IsAligned false first old h = subst (IsAligned width) (some-injective _ _ h) old

  mark_from-IsAligned :
      (starts : List ℕ)
      → IsAligned width stored
      → mark_from width stored starts ≡ some from
      → IsAligned width from
  unfolding mark_from
  mark_from-IsAligned starts old h = mark-IsAligned (stored == 0) (min_of starts) old h

-- A pass over folds that lie in its interval and differ in their keys.
pass_from-IsPass :
    (width stored before : ℕ) (folds : ℕ → List Fold) (starts : List ℕ)
    → ((n : ℕ) → IsAligned width (floor_to width n))
    → IsAligned width stored
    → IsAligned width before
    → ((from : ℕ) → IsAligned width from → All (FoldIn width from before) (folds from))
    → ((from : ℕ) → Distinct same_fold (folds from))
    → IsPass width stored (pass_from folds before (mark_from width stored starts))
pass_from-IsPass width stored before folds starts floors old end inside distinct =
    from_mark (mark_from width stored starts) refl
  where
    some_pass :
        (from : ℕ) (m : Option ℕ)
        → m ≡ some from
        → stored ≤ from
        → IsAligned width from
        → IsPass width stored (pass_from folds before m)
    some_pass from none e le al = absurd (cc e)
    some_pass from (some k) e le al = elim (Bool-cases (leb before k)) [
      | inl early ↦
          rw early (record { within = tt; distinct = tt; advances = omega arith; aligned = old })
      | inr late ↦
          let same : k ≡ from = some-injective _ _ e in
          rw (late, same)
            (record {
              within = rows-LiesIn width stored before (sort fold_before (folds from)) (
                  All-sort fold_before _ (folds from)
                    (FoldIn-mono width stored from before (folds from) le (inside from al)));
              distinct =
                  rows-Distinct (sort fold_before (folds from))
                    (Distinct-sort (folds from) (distinct from));
              advances = ground arith;
              aligned = end;
            })
    ]

    from_mark :
        (m : Option ℕ)
        → mark_from width stored starts ≡ m
        → IsPass width stored (pass_from folds before m)
    from_mark none e = record { within = tt; distinct = tt; advances = omega arith; aligned = old }
    from_mark (some from) e =
        some_pass from (some from) refl (mark_from-le width stored from starts e)
          (mark_from-IsAligned width stored from floors starts old e)

add_sample-FoldIn :
    (from before : ℕ) (s : Sample) (f : Fold)
    → FoldIn width_minute from before f
    → FoldIn width_minute from before (add_sample f s.verdict s.duration_ms s.in_maintenance)
add_sample-FoldIn from before s f h =
    let keeps = add_sample-KeepsKey s.verdict s.duration_ms s.in_maintenance f in
    (keeps.2 ∙ h.0, omega arith, omega arith)

samples_inside :
    (from before : ℕ) (ss : List Sample)
    → IsAligned width_minute from
    → All
        (λ s. FoldIn width_minute from before (fold_of_sample s))
        (select (λ s. in_range from before s.started_at && not s.manual) ss)
samples_inside from before [] al = tt
samples_inside from before (s ∷ ss) al =
    elim (Bool-cases (in_range from before s.started_at && not s.manual)) [
      | inl due ↦ rw due (
        (refl, inside s.started_at (&&_parts _ _ due).0, ends s.started_at (&&_parts _ _ due).0),
        samples_inside from before ss al,
      )
      | inr other ↦ rw other (samples_inside from before ss al)
    ]
  where
    inside : (n : ℕ) → in_range from before n ≡ true → from ≤ floor_to width_minute n
    inside n h = ground arith

    ends : (n : ℕ) → in_range from before n ≡ true → floor_to width_minute n < before
    ends n h = ground arith

pub fold_minutes-IsPass :
    (t : Tables) (before : ℕ)
    → IsAligned width_minute t.fold_minute
    → IsAligned width_minute before
    → IsPass width_minute t.fold_minute (fold_minutes t before)
unfolding fold_minutes
fold_minutes-IsPass t before old end =
    pass_from-IsPass width_minute t.fold_minute before
      (λ from. collect_samples (sample_rows t from before) []) (map (λ s. s.started_at) t.samples)
      (λ n. omega arith) old end
      (λ from al.
        collect_samples-All (FoldIn width_minute from before) (add_sample-FoldIn from before)
          (sample_rows t from before) []
          (All-sort started_before _ _ (samples_inside from before t.samples al)) tt)
      (λ from. collect_samples-Distinct (sample_rows t from before) [] tt)

add_bucket-FoldIn :
    (from before : ℕ) (b : Bucket) (f : Fold)
    → FoldIn width_hour from before f
    → FoldIn width_hour from before (add_bucket f b)
add_bucket-FoldIn from before b f h =
    let keeps = add_bucket-KeepsKey b f in (keeps.2 ∙ h.0, omega arith, omega arith)

buckets_inside :
    (from before : ℕ) (bs : List Bucket)
    → IsAligned width_hour from
    → All
        (λ b. FoldIn width_hour from before (fold_of_bucket b))
        (select (λ b. is_minute b && in_range from before b.start) bs)
buckets_inside from before [] al = tt
buckets_inside from before (b ∷ bs) al =
    elim (Bool-cases (is_minute b && in_range from before b.start)) [
      | inl due ↦ rw due (
        (refl, inside b.start (&&_parts _ _ due).1, ends b.start (&&_parts _ _ due).1),
        buckets_inside from before bs al,
      )
      | inr other ↦ rw other (buckets_inside from before bs al)
    ]
  where
    inside : (n : ℕ) → in_range from before n ≡ true → from ≤ floor_to width_hour n
    inside n h = ground arith

    ends : (n : ℕ) → in_range from before n ≡ true → floor_to width_hour n < before
    ends n h = ground arith

pub fold_hours-IsPass :
    (t : Tables) (before : ℕ)
    → IsAligned width_hour t.fold_hour
    → IsAligned width_hour before
    → IsPass width_hour t.fold_hour (fold_hours t before)
unfolding fold_hours
fold_hours-IsPass t before old end =
    pass_from-IsPass width_hour t.fold_hour before
      (λ from. collect_buckets (bucket_rows t from before) [])
      (map (λ b. b.start) (select is_minute t.buckets)) (λ n. omega arith) old end
      (λ from al.
        collect_buckets-All (FoldIn width_hour from before) (add_bucket-FoldIn from before)
          (bucket_rows t from before) []
          (All-sort begins_before _ _ (buckets_inside from before t.buckets al)) tt)
      (λ from. collect_buckets-Distinct (bucket_rows t from before) [] tt)
