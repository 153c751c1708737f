-- ===== src/Scheduler/Due.antt =====
-- What one tick does to the last run of a monitor (internal/probe/scheduler.go, `due`).
use mathlib.Core.Path.{subst}
use container_app_service_mo.Base.{
  ℕ, ◌+◌, ◌≡◌, refl, sym, ap, ◌∙◌, Bool, false, ◌&&◌, List, [], ◌∷◌, String, some, arith,
  if◌then◌else◌, any, count_if, Bool-cases, inl, inr,
}
use container_app_service_mo.Scheduler.{Watched, LastRun, is_due, after_look, due}
use mathlib.Core.List.{Memᴰ}
use text.Mathlib.Text.{◌==◌ as str_eq}
use text.Mathlib.TextEquality.{eq_iff}
use text.Mathlib.TextPositions.{eq_refl}

abbrev pub has_id : String → Watched → Bool
has_id id mon = str_eq id mon.id

-- Each monitor of a list has its own identifier.
abbrev pub OwnIds : List Watched → Type 0
OwnIds [] = Unit
OwnIds (mon ∷ mons) = (any (has_id mon.id) mons ≡ false) × OwnIds mons

-- A monitor of the rest has another identifier than the first.
apart_of :
    (mon other : Watched) (mons : List Watched)
    → any (has_id other.id) mons ≡ false
    → Memᴰ mon mons
    → has_id mon.id other ≡ false
apart_of mon other [] h m = elim m [ ]
apart_of mon other (x ∷ mons) h (Memᴰ.head e) =
    ground (arith, h, eq_iff mon.id other.id, eq_iff other.id x.id, ap (λ (w : Watched). w.id) e)
apart_of mon other (x ∷ mons) h (Memᴰ.tail m) = apart_of mon other mons (ground (arith, h)) m

module _ (hash : String → ℕ) where
  after_look-other :
      (id : String) (now : ℕ) (mon : Watched) (last : LastRun)
      → has_id id mon ≡ false
      → after_look hash now mon last id ≡ last id
  unfolding after_look
  after_look-other id now mon last h = elim (Bool-cases (is_due hash mon now (last mon.id))) [
    | inl on ↦ rw (on, h)
    | inr off ↦ rw off
  ]

  count_due :
      (id : String) (now : ℕ) (mon : Watched) (mons : List Watched) (last : LastRun)
      → count_if (has_id id) (due hash now (mon ∷ mons) last).0
        ≡ (if is_due hash mon now (last mon.id) && has_id id mon then 1 else 0)
          + count_if (has_id id) (due hash now mons (after_look hash now mon last)).0
  unfolding due
  count_due id now mon mons last = elim (Bool-cases (is_due hash mon now (last mon.id))) [
    | inl on ↦ rw on refl
    | inr off ↦ rw off (omega arith)
  ]

  last_due :
      (now : ℕ) (mon : Watched) (mons : List Watched) (last : LastRun)
      → (due hash now (mon ∷ mons) last).1 ≡ (due hash now mons (after_look hash now mon last)).1
  unfolding due
  last_due now mon mons last = refl

  -- A monitor that is not in the list.
  due-absent :
      (id : String) (now : ℕ) (mons : List Watched) (last : LastRun)
      → any (has_id id) mons ≡ false
      → (count_if (has_id id) (due hash now mons last).0 ≡ 0)
        × ((due hash now mons last).1 id ≡ last id)
  due-absent id now [] last h = unfold due in (refl, refl)
  due-absent id now (mon ∷ mons) last h =
      let (none_due, kept) =
        due-absent id now mons (after_look hash now mon last) (ground (arith, h)) in
      let other : has_id id mon ≡ false = ground (arith, h) in
      (
        ground (arith, count_due id now mon mons last, none_due, other),
        ap (λ l. l id) (last_due now mon mons last) ∙ kept ∙ after_look-other id now mon last other,
      )

  abbrev pub Looked : Watched → ℕ → LastRun → List Watched × LastRun → Type 0
  Looked mon now last r =
      (count_if (has_id mon.id) r.0 ≡ (if is_due hash mon now (last mon.id) then 1 else 0))
      × (r.1 mon.id ≡ (if is_due hash mon now (last mon.id) then some now else last mon.id))

  -- A monitor of the list, the first or a later one.
  due-head :
      (mon : Watched) (now : ℕ) (mons : List Watched) (last : LastRun)
      → any (has_id mon.id) mons ≡ false
      → Looked mon now last (due hash now (mon ∷ mons) last)
  due-head mon now mons last own =
      let (none_due, kept) = due-absent mon.id now mons (after_look hash now mon last) own in
      (
        ground (arith, count_due mon.id now mon mons last, none_due, eq_refl mon.id),
        ap (λ l. l mon.id) (last_due now mon mons last) ∙ kept ∙ looked,
      )
    where
      looked :
          after_look hash now mon last mon.id
          ≡ (if is_due hash mon now (last mon.id) then some now else last mon.id)
      looked = elim (Bool-cases (is_due hash mon now (last mon.id))) [
        | inl on ↦ unfold after_look in rw (on, eq_refl mon.id)
        | inr off ↦ unfold after_look in rw off
      ]

  due-tail :
      (mon other : Watched) (now : ℕ) (mons : List Watched) (last : LastRun)
      → has_id mon.id other ≡ false
      → Looked mon now
          (after_look hash now other last)
          (due hash now mons (after_look hash now other last))
      → Looked mon now last (due hash now (other ∷ mons) last)
  due-tail mon other now mons last apart (counted, kept) =
      let same = after_look-other mon.id now other last apart in
      (
        ground (arith, count_due mon.id now other mons last, rw same at counted, apart),
        ap (λ l. l mon.id) (last_due now other mons last) ∙ rw same at kept,
      )

  -- A monitor of the list.
  pub due-present :
      (mon : Watched) (now : ℕ) (mons : List Watched) (last : LastRun)
      → OwnIds mons
      → Memᴰ mon mons
      → Looked mon now last (due hash now mons last)
  due-present mon now [] last own m = elim m [ ]
  due-present mon now (other ∷ mons) last own (Memᴰ.head e) =
      subst (λ x. Looked mon now last (due hash now (x ∷ mons) last)) e
        (due-head mon now mons last
          (subst (λ (x : Watched). any (has_id x.id) mons ≡ false) (sym e) own.0))
  due-present mon now (other ∷ mons) last own (Memᴰ.tail m) =
      due-tail mon other now mons last (apart_of mon other mons own.0 m)
        (due-present mon now mons (after_look hash now other last) own.1 m)
