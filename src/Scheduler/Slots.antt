-- ===== src/Scheduler/Slots.antt =====
-- When a monitor runs (internal/probe/scheduler.go, `due`).
use container_app_service_mo.Base.{
  ℕ, suc, zero, ◌+◌, ◌-◌, ◌%◌, ◌≤◌, ◌<◌, ◌≡◌, refl, ap, ◌∙◌, Bool, true, false, List, [], ◌∷◌,
  String, Option, none, some, arith, if◌then◌else◌, ltb, ◌==◌, count_if, Bool-cases, inl, inr,
}
use container_app_service_mo.Scheduler.{Watched, LastRun, offset_of, in_slot, is_due, due}
use mathlib.Core.List.{Memᴰ}
use native.Mathlib.Decide.{ℕ_discrete}
use native.Mathlib.Nat.{suc-mod, mod-lt, mod_self, mod-eq_of_lt}
use container_app_service_mo.Scheduler.Due.{has_id, OwnIds, due-present}

-- Ticks of increasing instants, from one on.
abbrev pub Increasing : ℕ → List ℕ → Type 0
Increasing from [] = Unit
Increasing from (t ∷ ticks) = (from ≤ t) × Increasing (suc t) ticks

module _ (hash : String → ℕ) where
  -- How often a monitor runs over a list of ticks.
  unfoldable pub runs_of : String → List ℕ → List Watched → LastRun → ℕ
  runs_of id [] mons last = 0
  runs_of id (now ∷ ticks) mons last =
      let (ready, last') = due hash now mons last in
      count_if (has_id id) ready + runs_of id ticks mons last'

  multiples-apart : (i a b : ℕ) → 0 < i → a % i ≡ 0 → b % i ≡ 0 → a < b → a + i ≤ b
  multiples-apart i a b h ha hb lt = grind arith

  -- The last run was at an earlier slot.
  abbrev pub InSlotBefore : Watched → ℕ → Option ℕ → Type 0
  InSlotBefore mon now none = Unit
  InSlotBefore mon now (some l) = (in_slot hash mon l ≡ true) × (l < now)

  is_due-in_slot :
      (mon : Watched) (now : ℕ) (o : Option ℕ)
      → mon.enabled ≡ true
      → 0 < mon.interval_seconds
      → InSlotBefore mon now o
      → is_due hash mon now o ≡ in_slot hash mon now
  unfolding is_due
  is_due-in_slot mon now none on h before = ground (arith, on)
  is_due-in_slot mon now (some l) on h (slot, before) = elim (Bool-cases (in_slot hash mon now)) [
    | inl now_slot ↦ ground (
      arith,
      on,
      now_slot,
      multiples-apart mon.interval_seconds (l + offset_of hash mon.id mon.interval_seconds)
          (now + offset_of hash mon.id mon.interval_seconds) h (in_slot-mod mon l slot)
          (in_slot-mod mon now now_slot),
    )
    | inr off ↦ ground (arith, on, off)
  ]
    where
      in_slot-mod :
          (mon : Watched) (t : ℕ)
          → in_slot hash mon t ≡ true
          → (t + offset_of hash mon.id mon.interval_seconds) % mon.interval_seconds ≡ 0
      in_slot-mod mon t h = unfold in_slot in ground (arith, h)

  -- Over ticks at increasing instants, an enabled monitor with a positive interval, among monitors
  -- with identifiers of their own and last run at an earlier slot or never, runs as often as a
  -- tick falls on one of its slots, and no missed slot is made up for.
  pub runs_of-slots :
      (mon : Watched) (mons : List Watched) (ticks : List ℕ) (from : ℕ) (last : LastRun)
      → OwnIds mons
      → Memᴰ mon mons
      → mon.enabled ≡ true
      → 0 < mon.interval_seconds
      → Increasing from ticks
      → InSlotBefore mon from (last mon.id)
      → runs_of mon.id ticks mons last ≡ count_if (in_slot hash mon) ticks
  unfolding runs_of
  runs_of-slots mon mons [] from last own m on h inc before = refl
  runs_of-slots mon mons (now ∷ ticks) from last own m on h inc before =
      let (counted, kept) = due-present hash mon now mons last own m in
      let at = is_due-in_slot mon now (last mon.id) on h (later (last mon.id) before) in
      let next = due hash now mons last in
      let rest =
        runs_of-slots mon mons ticks (suc now) next.1 own m on h inc.1
          (rw (kept, at) (moved (in_slot hash mon now) refl (last mon.id) before)) in
      ground (arith, counted, at, rest)
    where
      later : (o : Option ℕ) → InSlotBefore mon from o → InSlotBefore mon now o
      later none b = tt
      later (some l) b = (b.0, omega (arith, b.1, inc.0))

      moved :
          (b : Bool)
          → in_slot hash mon now ≡ b
          → (o : Option ℕ) → InSlotBefore mon from o
          → InSlotBefore mon (suc now) (if b then some now else o)
      moved true slot o b = (slot, omega arith)
      moved false off none b = tt
      moved false off (some l) b = (b.0, omega (arith, b.1, inc.0))

-- Consecutive seconds_from.
unfoldable pub seconds_from : ℕ → ℕ → List ℕ
seconds_from from zero = []
seconds_from from (suc n) = from ∷ seconds_from (suc from) n

mod-suc : (a i : ℕ) → 0 < i → suc a % i ≡ (if suc (a % i) == i then 0 else suc (a % i))
mod-suc a i h = suc-mod a i ∙ mod_upto (suc (a % i)) i (mod-lt a h)
  where
    mod_upto : (r i : ℕ) → r ≤ i → r % i ≡ (if r == i then 0 else r)
    mod_upto r i le = elim (ℕ_discrete r i) [
      | yes same ↦ ap (λ n. n % i) same ∙ mod_self i ∙ ground (arith, same)
      | no apart ↦ mod-eq_of_lt (ground (arith, apart)) ∙ ground (arith, apart)
    ]

-- The number of multiples among the first of the numbers after a remainder.
abbrev multiples : ℕ → ℕ → ℕ → ℕ
multiples i r n = if r == 0 then (if ltb 0 n then 1 else 0) else (if ltb (i - r) n then 1 else 0)

multiples-suc :
    (i r n : ℕ)
    → r < i
    → n < i
    → multiples i r (suc n)
      ≡ (if r == 0 then 1 else 0) + multiples i (if suc r == i then 0 else suc r) n
multiples-suc i r n h k = ground arith

-- A monitor has one slot in as many consecutive seconds_from as its interval.
module _ (hash : String → ℕ) (mon : Watched) (positive : 0 < mon.interval_seconds) where
  abbrev shifted : ℕ → ℕ
  shifted t = t + offset_of hash mon.id mon.interval_seconds

  count-slots :
      (from n : ℕ)
      → n ≤ mon.interval_seconds
      → count_if (in_slot hash mon) (seconds_from from n)
        ≡ multiples mon.interval_seconds (shifted from % mon.interval_seconds) n
  unfolding seconds_from in_slot
  count-slots from zero h = ground arith
  count-slots from (suc n) h =
      let i = mon.interval_seconds in
      let a = shifted from in
      let ih = count-slots (suc from) n (omega arith) in
      let shift : shifted (suc from) % i ≡ (if suc (a % i) == i then 0 else suc (a % i)) =
        ap (λ t. t % i) (omega arith) ∙ mod-suc a i positive in
      ground (arith, ih, shift, multiples-suc i (a % i) n (mod-lt a positive) h)

  count-interval :
      (from : ℕ) → count_if (in_slot hash mon) (seconds_from from mon.interval_seconds) ≡ 1
  count-interval from =
      let below = mod-lt (shifted from) positive in
      ground (arith, count-slots from mon.interval_seconds)

seconds_from-Increasing : (from n : ℕ) → Increasing from (seconds_from from n)
unfolding seconds_from
seconds_from-Increasing from zero = tt
seconds_from-Increasing from (suc n) = (omega arith, seconds_from-Increasing (suc from) n)

-- With a tick in every second, such a monitor runs exactly once in as many consecutive seconds as
-- its interval, from any second on.
pub runs_of-once :
    (hash : String → ℕ) (mon : Watched) (mons : List Watched) (from : ℕ) (last : LastRun)
    → OwnIds mons
    → Memᴰ mon mons
    → mon.enabled ≡ true
    → 0 < mon.interval_seconds
    → InSlotBefore hash mon from (last mon.id)
    → runs_of hash mon.id (seconds_from from mon.interval_seconds) mons last ≡ 1
runs_of-once hash mon mons from last own m on h before =
    runs_of-slots hash mon mons (seconds_from from mon.interval_seconds) from last own m on h
      (seconds_from-Increasing from mon.interval_seconds) before
    ∙ count-interval hash mon h from
