-- ===== src/Readings/Verdicts.antt =====
-- What a fold says of its interval (internal/core/samples.go, `verdict` and `percentiles`).
use mathlib.Core.Path.{subst, sym}
use container_app_service_mo.Base.{
  ℕ, zero, suc, ◌+◌, ◌-◌, ◌*◌, ◌/◌, ◌≤◌, ◌<◌, ◌≡◌, refl, Bool, true, false, List, [], ◌∷◌,
  if◌then◌else◌, ltb, leb, ◌==◌, arith, length, get_or, count_if, All, sum_by,
}
use container_app_service_mo.Base.Sort.{sort, insert, All-unsort, length-sort}
use container_app_service_mo.Model.{
  Verdict, up, degraded, down, error, is_down, same_verdict, Sample, Bucket,
}
use container_app_service_mo.Readings.{
  width_hour, Fold, add_sample, add_bucket, verdict, percentiles, pick,
}

-- A list of readings, added one after the other.
unfoldable pub add_samples : Fold → List Sample → Fold
unfolding add_sample
add_samples f [] = f
add_samples f (s ∷ ss) = add_samples (add_sample f s.verdict s.duration_ms s.in_maintenance) ss

abbrev pub count_verdict : Verdict → List Sample → ℕ
count_verdict v = count_if (λ s. same_verdict s.verdict v)

-- The readings of the service: every reading that is not an error.
abbrev pub is_reading : Verdict → Bool
is_reading up = true
is_reading degraded = true
is_reading down = true
is_reading _ = false

abbrev pub count_readings : List Sample → ℕ
count_readings = count_if (λ s. is_reading s.verdict)

-- The counters of a fold that are added to.
record Counted (f g : Fold) (ss : List Sample) : Type 0 where
  downs : g.down_count ≡ f.down_count + count_verdict down ss
  slow : g.degraded_count ≡ f.degraded_count + count_verdict degraded ss
  all :
      g.up_count + g.degraded_count + g.down_count
      ≡ f.up_count + f.degraded_count + f.down_count + count_readings ss
  wide : g.width ≡ f.width
  unseen : g.seen_intervals ≡ f.seen_intervals

Counted-step :
    (f : Fold) (s : Sample)
    → Counted f (add_sample f s.verdict s.duration_ms s.in_maintenance) (s ∷ [])
unfolding add_sample
Counted-step f s = ground arith

add_samples-Counted : (f : Fold) (ss : List Sample) → Counted f (add_samples f ss) ss
unfolding add_samples
add_samples-Counted f [] = omega arith
add_samples-Counted f (s ∷ ss) = omega (
  arith,
  Counted-step f s,
  add_samples-Counted (add_sample f s.verdict s.duration_ms s.in_maintenance) ss,
)

-- What a minute's readings call for: nothing was read, at least half failed, some failed or were
-- slow, or all were well.
abbrev pub minute_rule : ℕ → ℕ → ℕ → Verdict
minute_rule readings downs slow =
    if readings == 0
    then error
    else if leb readings (downs * 2)
    then down
    else if downs + slow == 0
    then up
    else degraded

-- A fold narrower than an hour with no readings yet says, after any readings, error if all were
-- errors, else down if at least half of the readings of the service were down, else up if none was
-- down or degraded, else degraded.
pub verdict-add_samples :
    (f : Fold) (ss : List Sample)
    → f.width < width_hour
    → f.up_count + f.degraded_count + f.down_count ≡ 0
    → verdict (add_samples f ss)
      ≡ minute_rule (count_readings ss) (count_verdict down ss) (count_verdict degraded ss)
unfolding verdict
verdict-add_samples f ss narrow fresh = ground (arith, add_samples-Counted f ss)

-- An error moves nothing: it changes no fold's verdict and adds no latency.
pub add_sample-error :
    (f : Fold) (ms : ℕ) (in_maintenance : Bool)
    → (verdict (add_sample f error ms in_maintenance) ≡ verdict f)
      × ((add_sample f error ms in_maintenance).latencies ≡ f.latencies)
unfolding verdict add_sample
add_sample-error f ms in_maintenance = (refl, refl)

-- Minute buckets, added to an hour's fold one after the other.
unfoldable pub add_buckets : Fold → List Bucket → Fold
unfolding add_bucket
add_buckets f [] = f
add_buckets f (b ∷ bs) = add_buckets (add_bucket f b) bs

record Summed (f g : Fold) (bs : List Bucket) : Type 0 where
  ups : g.up_count ≡ f.up_count + sum_by (λ b. b.up_count) bs
  slow : g.degraded_count ≡ f.degraded_count + sum_by (λ b. b.degraded_count) bs
  lost : g.down_intervals ≡ f.down_intervals + count_if (λ b. is_down b.verdict) bs
  seen : g.seen_intervals ≡ f.seen_intervals + length bs
  wide : g.width ≡ f.width

Summed-step : (f : Fold) (b : Bucket) → Summed f (add_bucket f b) (b ∷ [])
unfolding add_bucket
Summed-step f b = ground arith

add_buckets-Summed : (f : Fold) (bs : List Bucket) → Summed f (add_buckets f bs) bs
unfolding add_buckets
add_buckets-Summed f [] = omega arith
add_buckets-Summed f (b ∷ bs) =
    omega (arith, Summed-step f b, add_buckets-Summed (add_bucket f b) bs)

-- What an hour's minutes call for: down if any minute was, whatever the others say; else degraded if
-- any reading was, else up if any was.
abbrev pub hour_rule : ℕ → ℕ → ℕ → Verdict
hour_rule lost slow ups =
    if ltb 0 lost then down else if ltb 0 slow then degraded else if ltb 0 ups then up else error

abbrev pub IsFresh : Fold → Type 0
IsFresh f =
    (f.up_count ≡ 0) × (f.degraded_count ≡ 0) × (f.down_intervals ≡ 0) × (f.seen_intervals ≡ 0)

-- A fresh fold of an hour or more says, after one or more minutes, down if any minute was down,
-- else degraded if they hold a degraded reading, else up if they hold one that was up, else error.
pub verdict-add_buckets :
    (f : Fold) (b : Bucket) (bs : List Bucket)
    → width_hour ≤ f.width
    → IsFresh f
    → verdict (add_buckets f (b ∷ bs))
      ≡ hour_rule
          (count_if (λ m. is_down m.verdict) (b ∷ bs))
          (sum_by (λ m. m.degraded_count) (b ∷ bs))
          (sum_by (λ m. m.up_count) (b ∷ bs))
unfolding verdict
verdict-add_buckets f b bs wide fresh = ground (arith, add_buckets-Summed f (b ∷ bs))

-- In ascending order, from `lo` on.
abbrev Ascends : ℕ → List ℕ → Type 0
Ascends lo [] = Unit
Ascends lo (v ∷ vs) = (lo ≤ v) × Ascends v vs

Ascends-insert : (lo v : ℕ) (vs : List ℕ) → lo ≤ v → Ascends lo vs → Ascends lo (insert ltb v vs)
unfolding insert
Ascends-insert lo v [] h a = (h, tt)
Ascends-insert lo v (w ∷ vs) h a = ground (arith, Ascends-insert w v vs)

Ascends-sort : (vs : List ℕ) → Ascends 0 (sort ltb vs)
unfolding sort
Ascends-sort [] = tt
Ascends-sort (v ∷ vs) = Ascends-insert 0 v (sort ltb vs) (omega arith) (Ascends-sort vs)

get_or-above : (lo : ℕ) (vs : List ℕ) (i : ℕ) → Ascends lo vs → i < length vs → lo ≤ get_or 0 vs i
get_or-above lo [] i a h = absurd (omega arith)
get_or-above lo (v ∷ vs) zero a h = a.0
get_or-above lo (v ∷ vs) (suc i) a h = omega (arith, get_or-above v vs i a.1 (omega arith), a.0)

get_or_mono :
    (lo : ℕ) (vs : List ℕ) (i j : ℕ)
    → Ascends lo vs
    → i ≤ j
    → j < length vs
    → get_or 0 vs i ≤ get_or 0 vs j
get_or_mono lo [] i j a h k = absurd (omega arith)
get_or_mono lo (v ∷ vs) zero zero a h k = omega arith
get_or_mono lo (v ∷ vs) zero (suc j) a h k = get_or-above v vs j a.1 (omega arith)
get_or_mono lo (v ∷ vs) (suc i) zero a h k = absurd (omega arith)
get_or_mono lo (v ∷ vs) (suc i) (suc j) a h k = get_or_mono v vs i j a.1 (omega arith) (omega arith)

below_last :
    (lo v : ℕ) (vs : List ℕ)
    → Ascends lo (v ∷ vs)
    → All (λ w. w ≤ get_or 0 (v ∷ vs) (length vs)) (v ∷ vs)
below_last lo v [] a = (omega arith, tt)
below_last lo v (w ∷ vs) a =
    (omega (arith, get_or-above v (w ∷ vs) (length vs) a.1 (omega arith)), below_last v w vs a.1)

-- The percentiles of a list with its places in order.
ordered_picks :
    (sorted : List ℕ)
    → 0 < length sorted
    → Ascends 0 sorted
    → (pick 50 sorted ≤ pick 95 sorted)
      × (pick 95 sorted ≤ get_or 0 sorted (length sorted - 1))
      × All (λ w. w ≤ get_or 0 sorted (length sorted - 1)) sorted
ordered_picks [] h a = absurd (omega arith)
ordered_picks (v ∷ vs) h a =
    let n = length (v ∷ vs) in
    let last : n - 1 ≡ length vs = omega arith in
    (
      get_or_mono 0 (v ∷ vs) (50 * (n - 1) / 100) (95 * (n - 1) / 100) a (omega arith)
          (omega arith),
      get_or_mono 0 (v ∷ vs) (95 * (n - 1) / 100) (n - 1) a (omega arith) (omega arith),
      subst (λ i. All (λ w. w ≤ get_or 0 (v ∷ vs) i) (v ∷ vs)) (sym last) (below_last 0 v vs a),
    )

-- The median is at most the 95th percentile, which is at most the maximum, and no value exceeds
-- the maximum.
pub percentiles-IsOrdered :
    (v : ℕ) (vs : List ℕ)
    → let p = percentiles (v ∷ vs) in
      (p.p50 ≤ p.p95) × (p.p95 ≤ p.max) × All (λ w. w ≤ p.max) (v ∷ vs)
unfolding percentiles
percentiles-IsOrdered v vs =
    let picks =
      ordered_picks (sort ltb (v ∷ vs)) (omega (arith, length-sort ltb (v ∷ vs)))
        (Ascends-sort (v ∷ vs)) in
    (picks.0, picks.1, All-unsort ltb _ (v ∷ vs) picks.2)
