-- ===== src/Record/Refused.antt =====
-- A name that the core cannot write a reading of (internal/core/core.go, `summarise`): one that has a
-- full stop before a line break.
use container_app_service_mo.Base.{
  ℕ, suc, zero, ◌≤◌, ◌<◌, ◌≡◌, ◌≢◌, refl, ap, ◌∙◌, false, List, [], ◌∷◌, ◌++◌, String, arith, leb,
  length, length-append, All, All-append, if_both,
}
use container_app_service_mo.Base.Int.{ℤ, pos, leb_ℤ}
use container_app_service_mo.Base.Results.{err}
use container_app_service_mo.Base.Text.{
  Text, trim_space, ends_with, before, take, trim_right, last_or, drop_spaces, drop_last_spaces,
  space_width, is_blank, all_in,
}
use container_app_service_mo.Base.Plain.{
  IsPlain, drop_last_spaces-plain, space_width-plain, last_or-append,
}
use container_app_service_mo.Record.{
  stopped_summary, clip, summarise, stop_or_space, reading_prefix, reading_message,
  reading_envelope, check_summary, validate, summary, newline, full_stop,
}
use container_app_service_mo.Record.Message.{reading_prefix-IsPlain}
use text.Mathlib.Text.{◌==◌ as str_eq}

-- A text that starts so.
abbrev StartsWith : Text → Text → Type 0
StartsWith xs t = (rest : Text) × (t ≡ xs ++ full_stop ∷ newline ∷ rest)

is_blank-cons : (b : ℕ) (bs : Text) → b < 128 → is_blank bs ≡ false → is_blank (b ∷ bs) ≡ false
unfolding is_blank drop_spaces space_width
is_blank-cons b bs l h = ground arith

drop_last_spaces-cons :
    (b : ℕ) (bs : Text)
    → is_blank (b ∷ bs) ≡ false
    → drop_last_spaces (b ∷ bs) ≡ b ∷ drop_last_spaces bs
unfolding drop_last_spaces
drop_last_spaces-cons b bs h = rw h

drop_last_spaces-StartsWith :
    (xs rest : Text)
    → All IsPlain xs
    → is_blank rest ≡ false
    → StartsWith xs (drop_last_spaces (xs ++ full_stop ∷ newline ∷ rest))
      × (is_blank (xs ++ full_stop ∷ newline ∷ rest) ≡ false)
drop_last_spaces-StartsWith [] rest h some =
    let line = is_blank-cons newline rest (omega arith) some in
    let stop = is_blank-cons full_stop (newline ∷ rest) (omega arith) line in
    (
      (
        drop_last_spaces rest,
        drop_last_spaces-cons full_stop (newline ∷ rest) stop
            ∙ ap (λ t. full_stop ∷ t) (drop_last_spaces-cons newline rest line),
      ),
      stop,
    )
drop_last_spaces-StartsWith (x ∷ xs) rest h some =
    let ((r, e), shown) = drop_last_spaces-StartsWith xs rest h.1 some in
    let on = is_blank-cons x (xs ++ full_stop ∷ newline ∷ rest) (omega (arith, h.0)) shown in
    ((r, drop_last_spaces-cons x (xs ++ full_stop ∷ newline ∷ rest) on ∙ ap (λ t. x ∷ t) e), on)

take-StartsWith :
    (xs rest : Text) (k : ℕ)
    → length xs ≤ k
    → StartsWith xs (take (suc (suc k)) (xs ++ full_stop ∷ newline ∷ rest))
unfolding take
take-StartsWith [] rest k h = (take k rest, refl)
take-StartsWith (x ∷ xs) rest zero h = absurd (omega arith)
take-StartsWith (x ∷ xs) rest (suc k) h =
    let (r, e) = take-StartsWith xs rest k (omega arith) in (r, ap (λ t. x ∷ t) e)

clip-StartsWith : (xs t : Text) → length xs ≤ 38 → StartsWith xs t → StartsWith xs (clip 40 t)
unfolding clip
clip-StartsWith xs t h (rest, e) =
    if_both (StartsWith xs) (leb (length t) 40) t (take 40 t) (rest, e)
      (rw e (take-StartsWith xs rest 38 h))

trim_right-StartsWith :
    (xs rest : Text)
    → StartsWith xs (trim_right stop_or_space (xs ++ full_stop ∷ newline ∷ rest))
      × (all_in stop_or_space (xs ++ full_stop ∷ newline ∷ rest) ≡ false)
unfolding trim_right
trim_right-StartsWith [] rest = ((trim_right stop_or_space rest, refl), refl)
trim_right-StartsWith (x ∷ xs) rest =
    let ((r, e), off) = trim_right-StartsWith xs rest in
    let off' : all_in stop_or_space (x ∷ xs ++ full_stop ∷ newline ∷ rest) ≡ false =
      ground (arith, off) in
    ((r, rw (off', e)), off')

before-StartsWith :
    (xs rest : Text)
    → All IsPlain xs
    → before newline (xs ++ full_stop ∷ newline ∷ rest) ≡ xs ++ full_stop ∷ []
unfolding before
before-StartsWith [] rest h = refl
before-StartsWith (x ∷ xs) rest h = ground (arith, h.0, before-StartsWith xs rest h.1)

module _ (c : ℕ) (cs rest : Text) (not_space : c ≢ 32) (plain : All IsPlain (c ∷ cs))
    (short : length (c ∷ cs) ≤ 38) (more : is_blank rest ≡ false) where
  abbrev pub stopped_name : Text
  stopped_name = c ∷ cs ++ full_stop ∷ newline ∷ rest

  drop_name : drop_spaces 0 stopped_name ≡ stopped_name
  unfolding drop_spaces
  drop_name = ground (arith, space_width-plain c (cs ++ full_stop ∷ newline ∷ rest) plain.0)

  summarise-StartsWith : StartsWith (c ∷ cs) (summarise 40 stopped_name)
  unfolding summarise trim_space
  summarise-StartsWith =
      let trimmed = (drop_last_spaces-StartsWith (c ∷ cs) rest plain more).0 in
      let (r, e) = clip-StartsWith (c ∷ cs) _ short trimmed in
      rw (drop_name, e) (trim_right-StartsWith (c ∷ cs) r).0

  abbrev stopped_line : Text
  stopped_line = reading_prefix ++ (c ∷ cs ++ full_stop ∷ [])

  line-IsPlain : All IsPlain stopped_line
  line-IsPlain =
      All-append IsPlain reading_prefix (c ∷ cs ++ full_stop ∷ []) reading_prefix-IsPlain
        (All-append IsPlain (c ∷ cs) (full_stop ∷ []) plain ((omega arith, omega arith), tt))

  ends_stopped : last_or c (cs ++ full_stop ∷ []) ≡ full_stop
  ends_stopped = last_or-append c cs (full_stop ∷ [])

  trim_line : trim_space stopped_line ≡ stopped_line
  unfolding trim_space drop_spaces
  trim_line = drop_last_spaces-plain 82 _ line-IsPlain (rw ends_stopped refl)

  first_line : before newline (reading_message stopped_name) ≡ stopped_line
  unfolding reading_message
  first_line =
      let (r, e) = summarise-StartsWith in
      rw e (
        before-StartsWith (reading_prefix ++ c ∷ cs) r
          (All-append IsPlain reading_prefix (c ∷ cs) reading_prefix-IsPlain plain))

  check_line : check_summary stopped_line ≡ err stopped_summary
  unfolding check_summary ends_with
  check_line = ground (arith, ends_stopped, length-append cs (full_stop ∷ []))

  -- The envelope for one reading is refused, as a summary that ends with a full stop, for every
  -- monitor whose name has a full stop and a line break after at most 38 printable ASCII
  -- characters, of which the first is no space, and something other than spaces after that, where
  -- there is a tenant and the clock is after 0.
  pub reading_envelope-refused :
      (tenant service : String) (ids : List String) (now : ℤ)
      → str_eq tenant "" ≡ false
      → leb_ℤ now (pos 0) ≡ false
      → validate (reading_envelope tenant service ids now stopped_name) ≡ err stopped_summary
  unfolding validate reading_envelope summary
  reading_envelope-refused tenant service ids now some_tenant later =
      rw (some_tenant, later, first_line, trim_line, check_line)
