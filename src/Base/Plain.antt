-- ===== src/Base/Plain.antt =====
-- Trimming texts of printable ASCII.
use container_app_service_mo.Base.{
  ℕ, zero, suc, ◌-◌, ◌≤◌, ◌<◌, ◌≡◌, refl, Bool, true, false, [], ◌∷◌, ◌++◌, arith, if◌then◌else◌,
  ◌==◌, length, All, Bool-cases, inl, inr, if_both,
}
use container_app_service_mo.Base.Text.{
  Text, space_width, drop_spaces, is_blank, drop_last_spaces, all_in, trim_right, take, last_or,
  before, trim_space,
}

-- Neither a control character nor above ASCII.
abbrev pub IsPlain : ℕ → Type 0
IsPlain b = (32 ≤ b) × (b ≤ 126)

abbrev pub is_space : ℕ → Bool
is_space b = b == 32

pub space_width-plain :
    (b : ℕ) (bs : Text) → IsPlain b → space_width (b ∷ bs) ≡ (if is_space b then 1 else 0)
unfolding space_width
space_width-plain b bs h = ground arith

is_blank-plain : (s : Text) → All IsPlain s → is_blank s ≡ all_in is_space s
unfolding is_blank drop_spaces
is_blank-plain [] h = refl
is_blank-plain (b ∷ bs) h = ground (arith, space_width-plain b bs h.0, is_blank-plain bs h.1)

all_in-last : (b : ℕ) (bs : Text) → all_in is_space (b ∷ bs) ≡ true → last_or b bs ≡ 32
all_in-last b [] h = ground arith
all_in-last b (c ∷ cs) h = all_in-last c cs (ground arith)

-- A text that ends in no space.
pub drop_last_spaces-plain :
    (b : ℕ) (bs : Text)
    → All IsPlain (b ∷ bs)
    → (last_or b bs == 32) ≡ false
    → drop_last_spaces (b ∷ bs) ≡ b ∷ bs
unfolding drop_last_spaces
drop_last_spaces-plain b [] h last = rw (is_blank-plain (b ∷ []) h) (ground (arith, last))
drop_last_spaces-plain b (c ∷ cs) h last =
    rw (is_blank-plain (b ∷ c ∷ cs) h)
      (ground (arith, drop_last_spaces-plain c cs h.1 last, all_in-last b (c ∷ cs)))

module _ {κ} (P : ℕ → Type κ) where
  All-drop_spaces : (skip : ℕ) (s : Text) → All P s → All P (drop_spaces skip s)
  unfolding drop_spaces
  All-drop_spaces skip [] h = tt
  All-drop_spaces (suc skip) (b ∷ bs) h = All-drop_spaces skip bs h.1
  All-drop_spaces zero (b ∷ bs) h =
      if_both (All P) (space_width (b ∷ bs) == 0) (b ∷ bs) _ h
        (All-drop_spaces (space_width (b ∷ bs) - 1) bs h.1)

  All-drop_last_spaces : (s : Text) → All P s → All P (drop_last_spaces s)
  unfolding drop_last_spaces
  All-drop_last_spaces [] h = tt
  All-drop_last_spaces (b ∷ bs) h =
      if_both (All P) (is_blank (b ∷ bs)) [] _ tt (h.0, All-drop_last_spaces bs h.1)

  pub All-trim_right : (p : ℕ → Bool) (s : Text) → All P s → All P (trim_right p s)
  unfolding trim_right
  All-trim_right p [] h = tt
  All-trim_right p (b ∷ bs) h =
      if_both (All P) (all_in p (b ∷ bs)) [] _ tt (h.0, All-trim_right p bs h.1)

  pub All-take : (n : ℕ) (s : Text) → All P s → All P (take n s)
  unfolding take
  All-take zero s h = tt
  All-take (suc n) [] h = tt
  All-take (suc n) (b ∷ bs) h = (h.0, All-take n bs h.1)

  pub All-trim_space : (s : Text) → All P s → All P (trim_space s)
  unfolding trim_space
  All-trim_space s h = All-drop_last_spaces (drop_spaces 0 s) (All-drop_spaces 0 s h)

pub length-take : (n : ℕ) (s : Text) → length (take n s) ≤ n
unfolding take
length-take zero s = omega arith
length-take (suc n) [] = omega arith
length-take (suc n) (b ∷ bs) = omega (arith, length-take n bs)

pub length-trim_right : (p : ℕ → Bool) (s : Text) → length (trim_right p s) ≤ length s
unfolding trim_right
length-trim_right p [] = omega arith
length-trim_right p (b ∷ bs) = ground (arith, length-trim_right p bs)

length-drop_spaces : (skip : ℕ) (s : Text) → length (drop_spaces skip s) ≤ length s
unfolding drop_spaces
length-drop_spaces skip [] = omega arith
length-drop_spaces (suc skip) (b ∷ bs) = omega (arith, length-drop_spaces skip bs)
length-drop_spaces zero (b ∷ bs) =
    if_both (λ t. length t ≤ length (b ∷ bs)) (space_width (b ∷ bs) == 0) (b ∷ bs) _ (omega arith)
      (omega (arith, length-drop_spaces (space_width (b ∷ bs) - 1) bs))

length-drop_last_spaces : (s : Text) → length (drop_last_spaces s) ≤ length s
unfolding drop_last_spaces
length-drop_last_spaces [] = omega arith
length-drop_last_spaces (b ∷ bs) =
    if_both (λ t. length t ≤ length (b ∷ bs)) (is_blank (b ∷ bs)) [] _ (omega arith)
      (omega (arith, length-drop_last_spaces bs))

pub length-trim_space : (s : Text) → length (trim_space s) ≤ length s
unfolding trim_space
length-trim_space s =
    omega (arith, length-drop_spaces 0 s, length-drop_last_spaces (drop_spaces 0 s))

trim_right-nil : (p : ℕ → Bool) (s : Text) → all_in p s ≡ true → trim_right p s ≡ []
unfolding trim_right
trim_right-nil p [] h = refl
trim_right-nil p (b ∷ bs) h = ground arith

trim_right-last :
    (p : ℕ → Bool) (d : ℕ) (s : Text) → all_in p s ≡ false → p (last_or d (trim_right p s)) ≡ false
unfolding trim_right
trim_right-last p d [] h = cc
trim_right-last p d (b ∷ bs) h = elim (Bool-cases (all_in p bs)) [
  | inl rest ↦ rw (h, trim_right-nil p bs rest) (ground arith)
  | inr some ↦ rw h (trim_right-last p b bs some)
]

-- What is left of a trimmed text ends in none of the bytes that are trimmed.
pub trim_right-ends :
    (p : ℕ → Bool) (s : Text) (d : ℕ) → p d ≡ false → p (last_or d (trim_right p s)) ≡ false
unfolding trim_right
trim_right-ends p s d h = elim (Bool-cases (all_in p s)) [
  | inl all ↦ rw (trim_right-nil p s all) h
  | inr some ↦ trim_right-last p d s some
]

pub before-plain : (b : ℕ) (s : Text) → b < 32 → All IsPlain s → before b s ≡ s
unfolding before
before-plain b [] l h = refl
before-plain b (c ∷ cs) l h = ground (arith, before-plain b cs l h.1)

pub last_or-append : (d : ℕ) (xs ys : Text) → last_or d (xs ++ ys) ≡ last_or (last_or d xs) ys
last_or-append d [] ys = refl
last_or-append d (x ∷ xs) ys = last_or-append x xs ys
