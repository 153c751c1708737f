-- ===== src/Readings/Tables.antt =====
-- internal/core/samples.go: `Fold`, `foldMinutes` and `foldHours` over the tables of the record.
use text.Mathlib.Text.{◌==◌ as str_eq}
use container_app_service_mo.Base.{
  ℕ, ◌*◌, ◌/◌, Bool, not, ◌&&◌, List, [], ◌∷◌, ◌++◌, map, if◌then◌else◌, ltb, leb, ◌==◌, Option,
  none, some, select, str_ltb, ◌≡◌, ◌<◌, arith, ltb-leb,
}
use container_app_service_mo.Base.Sort.{sort}
use container_app_service_mo.Model.{Sample, Bucket}
use container_app_service_mo.Readings.{
  width_minute, width_hour, Fold, add_sample, add_bucket, bucket_of, open_fold,
}

-- The tables `samples` and `buckets`, and the two watermarks of the table `registry`; a watermark
-- that was never written reads as 0.
pub record Tables : Type 0 where
  pub samples : List Sample
  pub buckets : List Bucket
  pub fold_minute : ℕ
  pub fold_hour : ℕ

-- The start of the interval that an instant lies in.
abbrev pub floor_to : ℕ → ℕ → ℕ
floor_to width t = t / width * width

-- `foldKey`.
abbrev pub same_fold : Fold → Fold → Bool
same_fold f g = str_eq f.monitor_id g.monitor_id && f.start == g.start

-- `folds[k]`: the fold of the key, or the fresh one, after a reading is added to it.
unfoldable pub add_to : (Fold → Fold) → Fold → List Fold → List Fold
add_to add fresh [] = add fresh ∷ []
add_to add fresh (f ∷ fs) = if same_fold f fresh then add f ∷ fs else f ∷ add_to add fresh fs

abbrev pub fold_of_sample : Sample → Fold
fold_of_sample s =
    open_fold s.monitor_id s.component_id s.service_id (floor_to width_minute s.started_at)
      width_minute

unfoldable pub collect_samples : List Sample → List Fold → List Fold
unfolding add_to add_sample
collect_samples [] folds = folds
collect_samples (s ∷ rows) folds =
    collect_samples rows
      (add_to (λ f. add_sample f s.verdict s.duration_ms s.in_maintenance) (fold_of_sample s) folds)

abbrev pub fold_of_bucket : Bucket → Fold
fold_of_bucket b =
    open_fold b.monitor_id b.component_id b.service_id (floor_to width_hour b.start) width_hour

unfoldable pub collect_buckets : List Bucket → List Fold → List Fold
unfolding add_to add_bucket
collect_buckets [] folds = folds
collect_buckets (b ∷ rows) folds =
    collect_buckets rows (add_to (λ f. add_bucket f b) (fold_of_bucket b) folds)

-- The comparison of `sortedFolds`.
abbrev pub fold_before : Fold → Fold → Bool
fold_before f g =
    if f.start == g.start then str_ltb f.monitor_id g.monitor_id else ltb f.start g.start

-- What a pass writes: the rows, and the new watermark. `none` is the pass that returns early.
pub record Pass : Type 0 where
  pub rows : List Bucket
  pub mark : Option ℕ

abbrev pub no_pass : Pass
no_pass = record { rows = []; mark = none }

-- SELECT MIN(…): `none` where no row is there.
unfoldable pub min_of : List ℕ → Option ℕ
min_of [] = none
min_of (n ∷ ns) = elim (min_of ns) [ none ↦ some n | some m ↦ some (if ltb n m then n else m) ]

-- The watermark of a pass: the one stored, or the first interval that has a row.
abbrev pub first_mark : ℕ → Option ℕ → Option ℕ
first_mark width none = none
first_mark width (some first) = some (floor_to width first)

unfoldable pub mark_from : ℕ → ℕ → List ℕ → Option ℕ
unfolding min_of
mark_from width stored starts =
    if stored == 0 then first_mark width (min_of starts) else some stored

abbrev pub in_range : ℕ → ℕ → ℕ → Bool
in_range from to t = leb from t && ltb t to

abbrev pub started_before : Sample → Sample → Bool
started_before a b = ltb a.started_at b.started_at

abbrev pub begins_before : Bucket → Bucket → Bool
begins_before a b = ltb a.start b.start

-- The readings that a pass over [from, to) takes.
abbrev pub sample_rows : Tables → ℕ → ℕ → List Sample
sample_rows t from to =
    sort started_before (select (λ s. in_range from to s.started_at && not s.manual) t.samples)

abbrev pub is_minute : Bucket → Bool
is_minute b = b.width == width_minute

abbrev pub bucket_rows : Tables → ℕ → ℕ → List Bucket
bucket_rows t from to =
    sort begins_before (select (λ b. is_minute b && in_range from to b.start) t.buckets)

-- A pass from its watermark up to `before`.
abbrev pub pass_from : (ℕ → List Fold) → ℕ → Option ℕ → Pass
pass_from folds before none = no_pass
pass_from folds before (some from) =
    if leb before from
    then no_pass
    else record { rows = map bucket_of (sort fold_before (folds from)); mark = some before }

-- A pass that has something between its watermark and `before`.
pub pass_from-some :
    (folds : ℕ → List Fold) (before from : ℕ) (mark : Option ℕ)
    → mark ≡ some from
    → from < before
    → pass_from folds before mark
      ≡ record { rows = map bucket_of (sort fold_before (folds from)); mark = some before }
pass_from-some folds before from none marked later = absurd (cc marked)
pass_from-some folds before from (some m) marked later =
    let same : m ≡ from = ground arith in rw (same, ltb-leb from before later)

unfoldable pub fold_minutes : Tables → ℕ → Pass
unfolding collect_samples bucket_of sort
fold_minutes t before =
    pass_from (λ from. collect_samples (sample_rows t from before) []) before
      (mark_from width_minute t.fold_minute (map (λ s. s.started_at) t.samples))

unfoldable pub fold_hours : Tables → ℕ → Pass
unfolding collect_buckets bucket_of sort
fold_hours t before =
    pass_from (λ from. collect_buckets (bucket_rows t from before) []) before
      (mark_from width_hour t.fold_hour (map (λ b. b.start) (select is_minute t.buckets)))

-- The primary key of `buckets`.
abbrev pub same_key : Bucket → Bucket → Bool
same_key a b = str_eq a.monitor_id b.monitor_id && (a.width == b.width && a.start == b.start)

-- `applyOne` on the table: the row with the key is rewritten, or a row is inserted.
unfoldable pub upsert : List Bucket → Bucket → List Bucket
upsert [] new = new ∷ []
upsert (b ∷ bs) new = if same_key b new then new ∷ bs else b ∷ upsert bs new

unfoldable pub upsert_all : List Bucket → List Bucket → List Bucket
unfolding upsert
upsert_all table [] = table
upsert_all table (new ∷ rows) = upsert_all (upsert table new) rows

abbrev pub or_stored : ℕ → Option ℕ → ℕ
or_stored stored none = stored
or_stored stored (some mark) = mark

-- `Fold`: both passes read the tables as they are before the round, and one transaction writes the
-- rows of both.
unfoldable pub fold : Tables → ℕ → Tables
unfolding fold_minutes fold_hours upsert_all
fold t before =
    let minutes = fold_minutes t (floor_to width_minute before) in
    let hours = fold_hours t (floor_to width_hour before) in
    record t {
      buckets = upsert_all t.buckets (minutes.rows ++ hours.rows);
      fold_minute = or_stored t.fold_minute minutes.mark;
      fold_hour = or_stored t.fold_hour hours.mark;
    }
