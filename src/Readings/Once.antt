-- ===== src/Readings/Once.antt =====
-- A bucket is written once (internal/core/samples.go, `Fold`): the watermarks keep every round off
-- the intervals that an earlier round wrote.
use mathlib.Core.List.{append-nil, append_assoc}
use mathlib.Core.Path.{sym}
use container_app_service_mo.Base.{
  ℕ, ◌≤◌, ◌<◌, ◌≡◌, refl, ◌∙◌, false, List, [], ◌∷◌, ◌++◌, arith, any, any-append, All, All-append,
  ◌≢◌,
}
use container_app_service_mo.Model.{Bucket}
use container_app_service_mo.Readings.{width_minute, width_hour}
use container_app_service_mo.Readings.Tables.{
  Tables, floor_to, Pass, fold_minutes, fold_hours, same_key, upsert, upsert_all, or_stored, fold,
}
use container_app_service_mo.Readings.Passes.{
  LiesIn, IsAligned, IsPass, fold_minutes-IsPass, fold_hours-IsPass,
}
use container_app_service_mo.Readings.Keys.{Distinct}

-- No row of the table has the key of a new row.
abbrev pub Fresh : List Bucket → List Bucket → Type 0
Fresh table = All (λ new. any (λ b. same_key b new) table ≡ false)

upsert-append :
    (table : List Bucket) (new : Bucket)
    → any (λ b. same_key b new) table ≡ false
    → upsert table new ≡ table ++ new ∷ []
unfolding upsert
upsert-append [] new h = refl
upsert-append (b ∷ table) new h = ground (arith, upsert-append table new)

Fresh-append :
    (table : List Bucket) (new : Bucket) (rows : List Bucket)
    → Fresh table rows
    → any (same_key new) rows ≡ false
    → Fresh (table ++ new ∷ []) rows
Fresh-append table new [] f h = tt
Fresh-append table new (r ∷ rows) f h = (
  ground (arith, any-append (λ b. same_key b r) table (new ∷ [])),
  Fresh-append table new rows f.1 (ground arith),
)

upsert_all-append :
    (table rows : List Bucket)
    → Fresh table rows
    → Distinct same_key rows
    → upsert_all table rows ≡ table ++ rows
unfolding upsert_all
upsert_all-append table [] f d = sym (append-nil table)
upsert_all-append table (new ∷ rows) f d = rw (upsert-append table new f.0) (
    upsert_all-append (table ++ new ∷ []) rows (Fresh-append table new rows f.1 d.0) d.1
    ∙ append_assoc table (new ∷ []) rows)

-- The rows of a width that the table holds all start before a watermark.
abbrev pub Before : ℕ → ℕ → List Bucket → Type 0
Before width mark = All (λ b. b.width ≡ width → b.start < mark)

Fresh-row :
    (width mark : ℕ) (table : List Bucket) (new : Bucket)
    → Before width mark table
    → new.width ≡ width
    → mark ≤ new.start
    → any (λ b. same_key b new) table ≡ false
Fresh-row width mark [] new p w h = refl
Fresh-row width mark (b ∷ table) new p w h =
    ground (arith, p.0, Fresh-row width mark table new p.1 w h)

Fresh-rows :
    (width mark before : ℕ) (table rows : List Bucket)
    → Before width mark table
    → LiesIn width mark before rows
    → Fresh table rows
Fresh-rows width mark before table [] p l = tt
Fresh-rows width mark before table (r ∷ rows) p l =
    (Fresh-row width mark table r p l.0.0 l.0.1, Fresh-rows width mark before table rows p l.1)

-- The rows of the minute pass and of the hour pass have different widths.
any_other_width :
    (new : Bucket) (from before : ℕ) (rows : List Bucket)
    → new.width ≡ width_minute
    → LiesIn width_hour from before rows
    → any (same_key new) rows ≡ false
any_other_width new from before [] w l = refl
any_other_width new from before (r ∷ rows) w l =
    ground (arith, any_other_width new from before rows w l.1)

Distinct-widths :
    (f g m h : ℕ) (minutes hours : List Bucket)
    → LiesIn width_minute f m minutes
    → LiesIn width_hour g h hours
    → Distinct same_key minutes
    → Distinct same_key hours
    → Distinct same_key (minutes ++ hours)
Distinct-widths f g m h [] hours lm lh dm dh = dh
Distinct-widths f g m h (r ∷ minutes) hours lm lh dm dh = (
  ground (arith, any-append (same_key r) minutes hours, any_other_width r g h hours lm.0.0 lh),
  Distinct-widths f g m h minutes hours lm.1 lh dm.1 dh,
)

Before-mono :
    (width a b : ℕ) (rows : List Bucket) → a ≤ b → Before width a rows → Before width b rows
Before-mono width a b [] h p = tt
Before-mono width a b (r ∷ rows) h p =
    ((λ w. let q : r.start < a = p.0 w in omega arith), Before-mono width a b rows h p.1)

Before-own :
    (width from before : ℕ) (rows : List Bucket)
    → LiesIn width from before rows
    → Before width before rows
Before-own width from before [] l = tt
Before-own width from before (r ∷ rows) l = ((λ w. l.0.2), Before-own width from before rows l.1)

Before-other :
    (width mark other from before : ℕ) (rows : List Bucket)
    → other ≢ width
    → LiesIn other from before rows
    → Before width mark rows
Before-other width mark other from before [] ne l = tt
Before-other width mark other from before (r ∷ rows) ne l =
    ((λ w. absurd (ne (omega arith))), Before-other width mark other from before rows ne l.1)

-- What the watermarks promise of the tables between two rounds: they stand at the bounds of
-- intervals, and every minute and every hour bucket starts before its own.
pub record IsMarked (t : Tables) : Type 0 where
  pub minutes_before : Before width_minute t.fold_minute t.buckets
  pub hours_before : Before width_hour t.fold_hour t.buckets
  pub minute_aligned : IsAligned width_minute t.fold_minute
  pub hour_aligned : IsAligned width_hour t.fold_hour

module _ (t : Tables) (before : ℕ) (marked : IsMarked t) where
  abbrev minutes : Pass
  minutes = fold_minutes t (floor_to width_minute before)

  abbrev hours : Pass
  hours = fold_hours t (floor_to width_hour before)

  pub minute-IsPass : IsPass width_minute t.fold_minute minutes
  minute-IsPass =
      fold_minutes-IsPass t (floor_to width_minute before) marked.minute_aligned (omega arith)

  pub hour-IsPass : IsPass width_hour t.fold_hour hours
  hour-IsPass = fold_hours-IsPass t (floor_to width_hour before) marked.hour_aligned (omega arith)

  -- On tables whose buckets lie before aligned watermarks, a round of folding rewrites no bucket:
  -- it appends the rows of its minute pass and of its hour pass.
  pub fold-appends :
      (fold t before).buckets
      ≡ t.buckets
        ++ ((fold_minutes t (floor_to width_minute before)).rows
            ++ (fold_hours t (floor_to width_hour before)).rows)
  unfolding fold
  fold-appends =
      upsert_all-append t.buckets (minutes.rows ++ hours.rows)
        (All-append _ minutes.rows hours.rows
          (Fresh-rows width_minute t.fold_minute _ t.buckets minutes.rows marked.minutes_before
            minute-IsPass.within)
          (Fresh-rows width_hour t.fold_hour _ t.buckets hours.rows marked.hours_before
            hour-IsPass.within))
        (Distinct-widths t.fold_minute t.fold_hour _ _ minutes.rows hours.rows minute-IsPass.within
          hour-IsPass.within minute-IsPass.distinct hour-IsPass.distinct)

  pub minute_mark : (fold t before).fold_minute ≡ or_stored t.fold_minute minutes.mark
  unfolding fold
  minute_mark = refl

  pub hour_mark : (fold t before).fold_hour ≡ or_stored t.fold_hour hours.mark
  unfolding fold
  hour_mark = refl

  -- A round of folding keeps the buckets before aligned watermarks.
  pub fold-IsMarked : IsMarked (fold t before)
  fold-IsMarked = record {
    minutes_before =
        rw (fold-appends, minute_mark)
          (All-append _ t.buckets (minutes.rows ++ hours.rows)
            (Before-mono width_minute t.fold_minute _ t.buckets minute-IsPass.advances
              marked.minutes_before)
            (All-append _ minutes.rows hours.rows
              (Before-own width_minute t.fold_minute _ minutes.rows minute-IsPass.within)
              (Before-other width_minute _ width_hour t.fold_hour _ hours.rows (omega arith)
                hour-IsPass.within)));
    hours_before =
        rw (fold-appends, hour_mark)
          (All-append _ t.buckets (minutes.rows ++ hours.rows)
            (Before-mono width_hour t.fold_hour _ t.buckets hour-IsPass.advances
              marked.hours_before)
            (All-append _ minutes.rows hours.rows
              (Before-other width_hour _ width_minute t.fold_minute _ minutes.rows (omega arith)
                minute-IsPass.within)
              (Before-own width_hour t.fold_hour _ hours.rows hour-IsPass.within)));
    minute_aligned = unfold fold in minute-IsPass.aligned;
    hour_aligned = unfold fold in hour-IsPass.aligned;
  }
