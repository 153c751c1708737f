-- ===== src/Base/Results.antt =====
-- Go's pair of a value and an error: one of the two.
use mathlib.Core.Bool.{Bool, true, false, not}
use mathlib.Core.Path.{◌≡◌, refl}

pub data Result {ℓ κ} (Failure : Type ℓ) (Value : Type κ) : Type (ℓ ⊔ κ) where
  err : Failure → Result Failure Value
  ok : Value → Result Failure Value

-- The first failure ends a block.
infixl 5 ◌>>=◌ ◌>>◌
abbrev pub ◌>>=◌ {ℓ κ μ} :
    {F : Type ℓ} {V : Type κ} {W : Type μ} → Result F V → (V → Result F W) → Result F W
err why >>= rest = err why
ok v >>= rest = rest v

abbrev pub ◌>>◌ {ℓ μ} : {F : Type ℓ} {W : Type μ} → Result F (Unit {0}) → Result F W → Result F W
◌>>◌ guard rest = guard >>= (λ passed. rest)

-- An early return with an error where the test holds.
abbrev pub refuse_if {ℓ} : {E : Type ℓ} → Bool → E → Result E (Unit {0})
refuse_if true e = err e
refuse_if false e = ok tt

-- A step that succeeded: its value and that of the rest.
pub >>=-eq-ok {ℓ κ μ} :
    {F : Type ℓ} {V : Type κ} {W : Type μ} (first : Result F V) (rest : V → Result F W) {w : W}
    → (first >>= rest) ≡ ok w
    → (v : V) × (first ≡ ok v) × (rest v ≡ ok w)
>>=-eq-ok (err why) rest h = cc
>>=-eq-ok (ok v) rest h = (v, refl, h)

-- A guard that was passed.
pub refuse_if-eq-ok {ℓ μ} :
    {E : Type ℓ} {B : Type μ} (test : Bool) (e : E) (k : Result E B) {b : B}
    → (refuse_if test e >> k) ≡ ok b
    → (test ≡ false) × (k ≡ ok b)
refuse_if-eq-ok true e k h = cc
refuse_if-eq-ok false e k h = (refl, h)

-- The test of a guard on a negation.
pub not-eq-false : (b : Bool) → not b ≡ false → b ≡ true
not-eq-false true h = refl
not-eq-false false h = cc

-- The last guard.
pub refuse_if-passed {ℓ} :
    {E : Type ℓ} (test : Bool) (e : E) {done : Unit {0}} → refuse_if test e ≡ ok done → test ≡ false
refuse_if-passed true e h = cc
refuse_if-passed false e h = refl
