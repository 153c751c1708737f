-- ===== src/Readings/Keys.antt =====
-- The folds of a pass have different keys (internal/core/samples.go, `foldKey`), so the rows that it
-- writes have different primary keys.
use text.Mathlib.Text.{◌==◌ as str_eq}
use text.Mathlib.TextEquality.{eq_iff}
use container_app_service_mo.Base.{
  ℕ, ◌≡◌, refl, Bool, true, false, ◌||◌, List, [], ◌∷◌, map, arith, any, All, String, Bool-cases,
  inl, inr, ◌∙◌,
}
use container_app_service_mo.Base.Sort.{sort, insert, any-insert, any-sort}
use container_app_service_mo.Model.{Verdict, Sample, Bucket}
use container_app_service_mo.Readings.{Fold, add_sample, add_bucket, bucket_of}
use container_app_service_mo.Readings.Tables.{
  same_fold, add_to, collect_samples, collect_buckets, fold_before, fold_of_sample, fold_of_bucket,
  same_key,
}

-- A test that no two members of a list pass.
abbrev pub Distinct {ℓ} : {A : Type ℓ} → (A → A → Bool) → List A → Type 0
Distinct same [] = Unit
Distinct same (x ∷ xs) = (any (same x) xs ≡ false) × Distinct same xs

-- Adding a reading leaves the interval alone.
abbrev pub KeepsKey : (Fold → Fold) → Type 0
KeepsKey add =
    (f : Fold)
    → ((add f).monitor_id ≡ f.monitor_id) × ((add f).start ≡ f.start) × ((add f).width ≡ f.width)

pub add_sample-KeepsKey : (v : Verdict) (ms : ℕ) (m : Bool) → KeepsKey (λ f. add_sample f v ms m)
unfolding add_sample
add_sample-KeepsKey v ms m f = ground arith

pub add_bucket-KeepsKey : (b : Bucket) → KeepsKey (λ f. add_bucket f b)
unfolding add_bucket
add_bucket-KeepsKey b f = (refl, refl, refl)

str_eq-sym : (s t : String) → str_eq s t ≡ str_eq t s
str_eq-sym s t = ground (arith, eq_iff s t, eq_iff t s)

same_fold-sym : (f g : Fold) → same_fold f g ≡ same_fold g f
same_fold-sym f g = ground (arith, str_eq-sym f.monitor_id g.monitor_id)

module _ (add : Fold → Fold) (fresh : Fold) (keeps : KeepsKey add) where
  same_fold-add : (g f : Fold) → same_fold g (add f) ≡ same_fold g f
  same_fold-add g f = rw ((keeps f).0, (keeps f).1) refl

  add_same_fold : (f g : Fold) → same_fold (add f) g ≡ same_fold f g
  add_same_fold f g = rw ((keeps f).0, (keeps f).1) refl

  any-add_to :
      (g : Fold) (fs : List Fold)
      → any (same_fold g) (add_to add fresh fs) ≡ true
      → (any (same_fold g) fs || same_fold g fresh) ≡ true
  unfolding add_to
  any-add_to g [] h = ground (arith, same_fold-add g fresh)
  any-add_to g (f ∷ fs) h = ground (arith, same_fold-add g f, any-add_to g fs)

  any_same-add : (f : Fold) (fs : List Fold) → any (same_fold (add f)) fs ≡ any (same_fold f) fs
  any_same-add f [] = refl
  any_same-add f (g ∷ fs) = ground (arith, add_same_fold f g, any_same-add f fs)

  Distinct-add_to :
      (fs : List Fold) → Distinct same_fold fs → Distinct same_fold (add_to add fresh fs)
  unfolding add_to
  Distinct-add_to [] d = (refl, tt)
  Distinct-add_to (f ∷ fs) d = elim (Bool-cases (same_fold f fresh)) [
    | inl hit ↦ rw hit (ground (arith, any_same-add f fs))
    | inr miss ↦ rw miss (ground (arith, any-add_to f fs), Distinct-add_to fs d.1)
  ]

  All-add_to :
      (P : Fold → Type 0)
      → ((f : Fold) → P f → P (add f))
      → P fresh
      → (fs : List Fold) → All P fs
      → All P (add_to add fresh fs)
  unfolding add_to
  All-add_to P step new [] h = (step fresh new, tt)
  All-add_to P step new (f ∷ fs) h = elim (Bool-cases (same_fold f fresh)) [
    | inl hit ↦ rw hit (step f h.0, h.1)
    | inr miss ↦ rw miss (h.0, All-add_to P step new fs h.1)
  ]

pub collect_samples-Distinct :
    (rows : List Sample) (fs : List Fold)
    → Distinct same_fold fs
    → Distinct same_fold (collect_samples rows fs)
unfolding collect_samples
collect_samples-Distinct [] fs d = d
collect_samples-Distinct (s ∷ rows) fs d =
    let add : Fold → Fold = λ f. add_sample f s.verdict s.duration_ms s.in_maintenance in
    collect_samples-Distinct rows (add_to add (fold_of_sample s) fs) (
      Distinct-add_to add (fold_of_sample s)
        (add_sample-KeepsKey s.verdict s.duration_ms s.in_maintenance) fs d)

pub collect_buckets-Distinct :
    (rows : List Bucket) (fs : List Fold)
    → Distinct same_fold fs
    → Distinct same_fold (collect_buckets rows fs)
unfolding collect_buckets
collect_buckets-Distinct [] fs d = d
collect_buckets-Distinct (b ∷ rows) fs d =
    let add : Fold → Fold = λ f. add_bucket f b in
    collect_buckets-Distinct rows (add_to add (fold_of_bucket b) fs)
      (Distinct-add_to add (fold_of_bucket b) (add_bucket-KeepsKey b) fs d)

-- A property of the interval alone, of the folds that a pass opens.
module _ (P : Fold → Type 0) where
  pub collect_samples-All :
      ((s : Sample) (f : Fold) → P f → P (add_sample f s.verdict s.duration_ms s.in_maintenance))
      → (rows : List Sample) (fs : List Fold) → All (λ s. P (fold_of_sample s)) rows
      → All P fs
      → All P (collect_samples rows fs)
  unfolding collect_samples
  collect_samples-All step [] fs hs h = h
  collect_samples-All step (s ∷ rows) fs hs h =
      let add : Fold → Fold = λ f. add_sample f s.verdict s.duration_ms s.in_maintenance in
      collect_samples-All step rows (add_to add (fold_of_sample s) fs) hs.1 (
        All-add_to add (fold_of_sample s)
          (add_sample-KeepsKey s.verdict s.duration_ms s.in_maintenance) P (step s) hs.0 fs h)

  pub collect_buckets-All :
      ((b : Bucket) (f : Fold) → P f → P (add_bucket f b))
      → (rows : List Bucket) (fs : List Fold) → All (λ b. P (fold_of_bucket b)) rows
      → All P fs
      → All P (collect_buckets rows fs)
  unfolding collect_buckets
  collect_buckets-All step [] fs hs h = h
  collect_buckets-All step (b ∷ rows) fs hs h =
      let add : Fold → Fold = λ f. add_bucket f b in
      collect_buckets-All step rows (add_to add (fold_of_bucket b) fs) hs.1
        (All-add_to add (fold_of_bucket b) (add_bucket-KeepsKey b) P (step b) hs.0 fs h)

Distinct-insert :
    (f : Fold) (fs : List Fold)
    → any (same_fold f) fs ≡ false
    → Distinct same_fold fs
    → Distinct same_fold (insert fold_before f fs)
unfolding insert
Distinct-insert f [] h d = (refl, tt)
Distinct-insert f (g ∷ fs) h d = elim (Bool-cases (fold_before g f)) [
  | inl past ↦ rw past (
    ground (arith, any-insert fold_before (same_fold g) f fs, same_fold-sym f g),
    Distinct-insert f fs (ground arith) d.1,
  )
  | inr here ↦ rw here (h, d)
]

pub Distinct-sort :
    (fs : List Fold) → Distinct same_fold fs → Distinct same_fold (sort fold_before fs)
unfolding sort
Distinct-sort [] d = tt
Distinct-sort (f ∷ fs) d =
    Distinct-insert f (sort fold_before fs) (any-sort fold_before (same_fold f) fs ∙ d.0)
      (Distinct-sort fs d.1)

any-rows :
    (f : Fold) (fs : List Fold)
    → any (same_fold f) fs ≡ false
    → any (same_key (bucket_of f)) (map bucket_of fs) ≡ false
unfolding bucket_of
any-rows f [] h = refl
any-rows f (g ∷ fs) h = ground (arith, any-rows f fs)

pub rows-Distinct : (fs : List Fold) → Distinct same_fold fs → Distinct same_key (map bucket_of fs)
rows-Distinct [] d = tt
rows-Distinct (f ∷ fs) d = (any-rows f fs d.0, rows-Distinct fs d.1)
