-- ===== src/Availability/Series/Finest.antt =====
-- The reading that speaks for a monitor at an instant (internal/availability/compute.go,
-- `monitorSegments`): one of the narrowest that cover the instant.
use mathlib.Core.List.{Memᴰ}
use mathlib.Core.Path.{subst}
use container_app_service_mo.Base.{
  ℕ, ◌≤◌, ◌≡◌, refl, true, false, List, [], ◌∷◌, arith, Option, none, some, Bool-cases, inl, inr,
  All,
}
use container_app_service_mo.Base.Sort.{sort, insert, All-sort, All-unsort}
use container_app_service_mo.Model.{Bucket}
use container_app_service_mo.Availability.Points.{holds}
use container_app_service_mo.Availability.Series.{finer, whole}
use container_app_service_mo.Availability.Series.Instants.{first_at, finest_at}

-- Sorted by width.
abbrev WidthFrom : ℕ → List Bucket → Type 0
WidthFrom lo [] = Unit
WidthFrom lo (b ∷ bs) = (lo ≤ b.width) × WidthFrom b.width bs

WidthFrom-insert :
    (lo : ℕ) (x : Bucket) (ys : List Bucket)
    → lo ≤ x.width
    → WidthFrom lo ys
    → WidthFrom lo (insert finer x ys)
unfolding insert
WidthFrom-insert lo x [] h w = (h, tt)
WidthFrom-insert lo x (y ∷ ys) h w = ground (arith, WidthFrom-insert y.width x ys)

WidthFrom-sort : (bs : List Bucket) → WidthFrom 0 (sort finer bs)
unfolding sort
WidthFrom-sort [] = tt
WidthFrom-sort (b ∷ bs) = WidthFrom-insert 0 b (sort finer bs) (omega arith) (WidthFrom-sort bs)

-- Every reading that covers the instant is at least so wide.
abbrev pub NoFiner : ℕ → ℕ → List Bucket → Type 0
NoFiner t width = All (λ b. holds t (whole b) ≡ true → width ≤ b.width)

abbrev pub NoneCovers : ℕ → List Bucket → Type 0
NoneCovers t = All (λ b. holds t (whole b) ≡ false)

NoFiner-wide :
    (t width lo : ℕ) (bs : List Bucket) → width ≤ lo → WidthFrom lo bs → NoFiner t width bs
NoFiner-wide t width lo [] h w = tt
NoFiner-wide t width lo (b ∷ bs) h w =
    (λ on. omega arith, NoFiner-wide t width b.width bs (omega arith) w.1)

-- What `first_at` finds in a list sorted by width.
abbrev pub IsFinest : ℕ → List Bucket → Option Bucket → Type 0
IsFinest t bs none = NoneCovers t bs
IsFinest t bs (some b) = (holds t (whole b) ≡ true) × NoFiner t b.width bs

IsFinest-skip :
    (t : ℕ) (b : Bucket) (bs : List Bucket) (o : Option Bucket)
    → holds t (whole b) ≡ false
    → IsFinest t bs o
    → IsFinest t (b ∷ bs) o
IsFinest-skip t b bs none off f = (off, f)
IsFinest-skip t b bs (some c) off f = (f.0, (λ on. cc, f.1))

first_at-IsFinest : (t lo : ℕ) (bs : List Bucket) → WidthFrom lo bs → IsFinest t bs (first_at t bs)
first_at-IsFinest t lo [] w = tt
first_at-IsFinest t lo (b ∷ bs) w = elim (Bool-cases (holds t (whole b))) [
  | inl on ↦ rw on (on, (λ h. omega arith, NoFiner-wide t b.width b.width bs (omega arith) w.1))
  | inr off ↦ rw off (IsFinest-skip t b bs (first_at t bs) off (first_at-IsFinest t b.width bs w.1))
]

IsFinest-unsort :
    (t : ℕ) (bs : List Bucket) (o : Option Bucket) → IsFinest t (sort finer bs) o → IsFinest t bs o
IsFinest-unsort t bs none f = All-unsort finer _ bs f
IsFinest-unsort t bs (some b) f = (f.0, All-unsort finer _ bs f.1)

-- The finest reading wins: the reading that speaks for a monitor at an instant covers the instant
-- and none of the monitor's readings that cover it is narrower; where none speaks, none covers it.
pub finest_at-IsFinest : (t : ℕ) (bs : List Bucket) → IsFinest t bs (finest_at t bs)
unfolding finest_at
finest_at-IsFinest t bs =
    IsFinest-unsort t bs (first_at t (sort finer bs))
      (first_at-IsFinest t 0 (sort finer bs) (WidthFrom-sort bs))

All-member :
    (bs cs : List Bucket) → ((b : Bucket) → Memᴰ b bs → Memᴰ b cs) → All (λ b. Memᴰ b cs) bs
All-member [] cs h = tt
All-member (b ∷ bs) cs h = (h b (Memᴰ.head refl), All-member bs cs (λ c m. h c (Memᴰ.tail m)))

first_at-member :
    (t : ℕ) (P : Bucket → Type 0) (bs : List Bucket) (b : Bucket)
    → All P bs
    → first_at t bs ≡ some b
    → P b
first_at-member t P [] b hs e = absurd (cc e)
first_at-member t P (c ∷ bs) b hs e = elim (Bool-cases (holds t (whole c))) [
  | inl on ↦ let same : c ≡ b = ground arith in subst P same hs.0
  | inr off ↦ first_at-member t P bs b hs.1 (ground arith)
]

-- And it is one of the monitor's readings.
pub finest_at-member : (t : ℕ) (bs : List Bucket) (b : Bucket) → finest_at t bs ≡ some b → Memᴰ b bs
unfolding finest_at
finest_at-member t bs b e =
    first_at-member t (λ c. Memᴰ c bs) (sort finer bs) b
      (All-sort finer _ bs (All-member bs bs (λ c m. m))) e
