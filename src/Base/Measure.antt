-- ===== src/Base/Measure.antt =====
-- Counting the instants below a bound that a test accepts.
use Prim.Native.Nat.{min}
use container_app_service_mo.Base.{
  ℕ, zero, suc, ◌+◌, ◌-◌, ◌≤◌, ◌≡◌, refl, Bool, true, false, not, ◌&&◌, ◌||◌, arith, if◌then◌else◌,
  ltb, leb, sym, ap, ◌∙◌,
}
use native.Mathlib.Decide.{ℕ_discrete}
use native.Mathlib.Nat.{zero-add, suc-add}

-- The number of t < n with p t.
unfoldable pub count_below : ℕ → (ℕ → Bool) → ℕ
count_below zero p = 0
count_below (suc n) p = (if p n then 1 else 0) + count_below n p

pub count_below-congr :
    (n : ℕ) (p q : ℕ → Bool) → ((t : ℕ) → p t ≡ q t) → count_below n p ≡ count_below n q
unfolding count_below
count_below-congr zero p q h = refl
count_below-congr (suc n) p q h = ground (arith, h n, count_below-congr n p q h)

pub count_below_mono :
    (n : ℕ) (p q : ℕ → Bool)
    → ((t : ℕ) → p t ≡ true → q t ≡ true)
    → count_below n p ≤ count_below n q
unfolding count_below
count_below_mono zero p q h = omega arith
count_below_mono (suc n) p q h = ground (arith, h n, count_below_mono n p q h)

-- A set splits into the part inside another and the part outside it.
pub count_below-split :
    (n : ℕ) (p q : ℕ → Bool)
    → count_below n p ≡ count_below n (λ t. p t && q t) + count_below n (λ t. p t && not (q t))
unfolding count_below
count_below-split zero p q = refl
count_below-split (suc n) p q = ground (arith, count_below-split n p q)

pub count_below-or-le :
    (n : ℕ) (p q : ℕ → Bool) → count_below n (λ t. p t || q t) ≤ count_below n p + count_below n q
unfolding count_below
count_below-or-le zero p q = omega arith
count_below-or-le (suc n) p q = ground (arith, count_below-or-le n p q)

pub count_below-disjoint :
    (n : ℕ) (p q : ℕ → Bool)
    → ((t : ℕ) → (p t && q t) ≡ false)
    → count_below n (λ t. p t || q t) ≡ count_below n p + count_below n q
unfolding count_below
count_below-disjoint zero p q h = omega arith
count_below-disjoint (suc n) p q h = ground (arith, h n, count_below-disjoint n p q h)

pub count_below-le : (n : ℕ) (p : ℕ → Bool) → count_below n p ≤ n
unfolding count_below
count_below-le zero p = omega arith
count_below-le (suc n) p = ground (arith, count_below-le n p)

pub count_below-false : (n : ℕ) → count_below n (λ t. false) ≡ 0
unfolding count_below
count_below-false zero = refl
count_below-false (suc n) = omega (arith, count_below-false n)

count_below-window : (n a b : ℕ) → count_below n (λ t. leb a t && ltb t b) ≡ min n b - a
unfolding count_below
count_below-window zero a b = omega arith
count_below-window (suc n) a b = ground (arith, count_below-window n a b)

-- An interval that lies below the bound has its length.
pub count_below-interval : (n a b : ℕ) → b ≤ n → count_below n (λ t. leb a t && ltb t b) ≡ b - a
count_below-interval n a b h = omega (arith, count_below-window n a b)

-- An accepted instant is counted.
pub count_below-pos : (n t : ℕ) (p : ℕ → Bool) → p t ≡ true → suc t ≤ n → suc zero ≤ count_below n p
unfolding count_below
count_below-pos zero t p h l = absurd (omega arith)
count_below-pos (suc n) t p h l = elim (ℕ_discrete t n) [
  | yes last ↦ let h' : p n ≡ true = ap p (sym last) ∙ h in ground arith
  | no before ↦ ground (arith, count_below-pos n t p h)
]

-- Past a bound of the set the count stays the same.
pub count_below-beyond :
    (k n : ℕ) (p : ℕ → Bool)
    → ((t : ℕ) → p t ≡ true → suc t ≤ n)
    → count_below (k + n) p ≡ count_below n p
unfolding count_below
count_below-beyond zero n p h = ap (λ m. count_below m p) (zero-add n)
count_below-beyond (suc k) n p h =
    ap (λ m. count_below m p) (suc-add k n) ∙ ground (arith, h (k + n), count_below-beyond k n p h)
