-- ===== src/Availability/Ratio.antt =====
-- `Ratio` and `Availability` (internal/availability/interval.go), on int64.
use container_app_service_mo.Base.{
  ℕ, ◌+◌, ◌*◌, ◌/◌, ◌≤◌, ◌<◌, ◌≡◌, refl, arith, if◌then◌else◌, ◌∙◌, leb, ◌-◌, Bool-cases, inl, inr,
}
use container_app_service_mo.Base.Int.{
  ℤ, pos, negsuc, ◌+ℤ◌, ◌-ℤ◌, ◌*ℤ◌, ltb_ℤ, leb_ℤ, ◌≤ℤ◌, i64, i64-pos, i64-sub, quot,
}

-- One hundred per cent in parts per million.
abbrev pub ppm : ℤ
ppm = pos 1000000

unfoldable pub ratio : ℤ → ℤ → ℤ
unfolding i64 quot
ratio numerator denominator =
    if leb_ℤ denominator (pos 0)
    then ppm
    else if leb_ℤ numerator (pos 0)
    then pos 0
    else if leb_ℤ denominator numerator
    then ppm
    else quot (i64 (i64 (i64 (numerator *ℤ ppm) *ℤ pos 2) +ℤ denominator))
        (i64 (denominator *ℤ pos 2))

unfoldable pub availability : ℤ → ℤ → ℤ
availability ast downtime =
    let up = i64 (ast -ℤ downtime) in
    if leb_ℤ ast (pos 0) then ppm else ratio (if ltb_ℤ up (pos 0) then pos 0 else up) ast

-- 2 ^ 42 seconds, 139,000 years: below it the arithmetic of `Ratio` does not wrap.
abbrev pub exact_limit : ℕ
exact_limit = 4398046511104

-- The number of parts per million, rounded to nearest.
abbrev rounded : ℕ → ℕ → ℕ
rounded n d = (n * 1000000 * 2 + d) / (d * 2)

abbrev pub ratio_ℕ : ℕ → ℕ → ℕ
ratio_ℕ n d =
    if leb d 0 then 1000000 else if leb n 0 then 0 else if leb d n then 1000000 else rounded n d

mul_pos : (n m : ℕ) → pos n *ℤ pos m ≡ pos (n * m)
mul_pos n m = ground arith

add_pos : (n m : ℕ) → pos n +ℤ pos m ≡ pos (n + m)
add_pos n m = ground arith

ratio_tail :
    (n d : ℕ)
    → n < d
    → d < exact_limit
    → quot (i64 (i64 (i64 (pos n *ℤ ppm) *ℤ pos 2) +ℤ pos d)) (i64 (pos d *ℤ pos 2))
      ≡ pos (rounded n d)
unfolding quot
ratio_tail n d h k =
    rw (mul_pos n 1000000, i64-pos (n * 1000000) (omega arith))
      (rw (mul_pos (n * 1000000) 2, i64-pos (n * 1000000 * 2) (omega arith))
        (rw (add_pos (n * 1000000 * 2) d, i64-pos (n * 1000000 * 2 + d) (omega arith))
          (rw (mul_pos d 2, i64-pos (d * 2) (omega arith)) refl)))

-- On numbers that are not negative the ratio is computed exactly.
pub ratio-exact : (n d : ℕ) → d < exact_limit → ratio (pos n) (pos d) ≡ pos (ratio_ℕ n d)
unfolding ratio
ratio-exact n d k = ground (arith, ratio_tail n d)

rounded-nearest :
    (n d : ℕ)
    → 0 < d
    → (rounded n d * (d * 2) ≤ n * 1000000 * 2 + d)
      × (n * 1000000 * 2 + d < rounded n d * (d * 2) + d * 2)
rounded-nearest n d h = grind arith

rounded-le : (n d : ℕ) → n < d → rounded n d ≤ 1000000
rounded-le n d h = grind arith

rounded_mono : (n m d : ℕ) → n ≤ m → 0 < d → rounded n d ≤ rounded m d
rounded_mono n m d h k = grind arith

-- Strictly between nothing and everything, below 2 ^ 42 seconds, `Ratio` gives the parts per
-- million nearest to the quotient: twice the error times the denominator is at most the denominator.
pub ratio_nearest :
    (n d : ℕ)
    → 0 < n
    → n < d
    → d < exact_limit
    → (r : ℕ) × (ratio (pos n) (pos d) ≡ pos r)
      × (r * (d * 2) ≤ n * 1000000 * 2 + d)
      × (n * 1000000 * 2 + d < r * (d * 2) + d * 2)
ratio_nearest n d p h k =
    let near = rounded-nearest n d (omega arith) in
    (rounded n d, ratio-exact n d k ∙ ground arith, near.0, near.1)

-- For every numerator, negative ones included, `Ratio` lies between 0 and one million.
pub ratio_bounds :
    (n : ℤ) (d : ℕ) → d < exact_limit → (pos 0 ≤ℤ ratio n (pos d)) × (ratio n (pos d) ≤ℤ ppm)
ratio_bounds (pos n) d k = rw (ratio-exact n d k) (ground (arith, rounded-le n d))
ratio_bounds (negsuc n) d k = unfold ratio in ground arith

ratio_ℕ_mono : (n m d : ℕ) → n ≤ m → ratio_ℕ n d ≤ ratio_ℕ m d
ratio_ℕ_mono n m d h = ground (arith, rounded_mono n m d h, rounded-le n d)

-- On numbers that are not negative, with an agreed time below 2 ^ 42 seconds, `Availability` is
-- the rounded ratio of the time left to the agreed time.
pub availability-exact :
    (ast down : ℕ)
    → ast < exact_limit
    → down < 9223372036854775808
    → availability (pos ast) (pos down) ≡ pos (ratio_ℕ (ast - down) ast)
unfolding availability
availability-exact ast down k l =
    rw (i64-sub ast down (omega arith) l)
      (ground (arith, ratio-exact (ast - down) ast, ratio-exact 0 ast))

-- Where the downtime is part of a positive agreed time, the availability is the ratio of the rest.
pub availability-ratio :
    (ast down : ℕ)
    → 0 < ast
    → ast < exact_limit
    → down ≤ ast
    → availability (pos ast) (pos down) ≡ ratio (pos (ast - down)) (pos ast)
unfolding availability
availability-ratio ast down h k l = rw (i64-sub ast down (omega arith) (omega arith)) (ground arith)

pub availability_bounds :
    (ast : ℕ) (down : ℤ)
    → ast < exact_limit
    → (pos 0 ≤ℤ availability (pos ast) down) × (availability (pos ast) down ≤ℤ ppm)
unfolding availability
availability_bounds ast down k = elim (Bool-cases (leb_ℤ (pos ast) (pos 0))) [
  | inl none ↦ rw none (omega arith)
  | inr some ↦ rw some (
      let up = i64 (pos ast -ℤ down) in ratio_bounds (if ltb_ℤ up (pos 0) then pos 0 else up) ast k)
]
