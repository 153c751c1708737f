-- ===== src/Record/Message.antt =====
-- The messages that the core writes itself (internal/core/samples.go, `RecordSamples`), against the
-- rule for the first line of a message.
use container_app_service_mo.Base.{
  ℕ, ◌≤◌, ◌≡◌, refl, ap, ◌∙◌, false, List, [], ◌∷◌, ◌++◌, String, arith, leb, length, All,
  All-append, if_both,
}
use container_app_service_mo.Base.Int.{ℤ, pos, leb_ℤ}
use container_app_service_mo.Base.Results.{ok}
use container_app_service_mo.Base.Text.{Text, trim_space, ends_with, before, last_or, drop_spaces}
use container_app_service_mo.Base.Plain.{
  IsPlain, All-trim_space, All-take, All-trim_right, length-take, length-trim_right,
  trim_right-ends, before-plain, drop_last_spaces-plain,
}
use container_app_service_mo.Record.{
  clip, summarise, stop_or_space, reading_prefix, reading_message, reading_envelope, check_summary,
  validate, newline,
}
use text.Mathlib.Text.{◌==◌ as str_eq}

length-clip : (n : ℕ) (s : Text) → length (clip n s) ≤ n
unfolding clip
length-clip n s = ground (arith, length-take n s)

All-summarise {κ} : (P : ℕ → Type κ) (n : ℕ) (s : Text) → All P s → All P (summarise n s)
unfolding summarise clip
All-summarise P n s h = All-trim_right P stop_or_space _ (
    if_both (All P) (leb (length (trim_space s)) n) (trim_space s) _ (All-trim_space P s h)
      (All-take P n _ (All-trim_space P s h)))

length-summarise : (n : ℕ) (s : Text) → length (summarise n s) ≤ n
unfolding summarise
length-summarise n s =
    omega
      (arith, length-trim_right stop_or_space (clip n (trim_space s)), length-clip n (trim_space s))

summarise-ends :
    (n : ℕ) (s : Text) (d : ℕ)
    → stop_or_space d ≡ false
    → stop_or_space (last_or d (summarise n s)) ≡ false
unfolding summarise
summarise-ends n s d h = trim_right-ends stop_or_space (clip n (trim_space s)) d h

check_bare : check_summary (trim_space (before newline reading_prefix)) ≡ ok tt
unfolding check_summary trim_space before ends_with
check_bare = refl

pub reading_prefix-IsPlain : All IsPlain reading_prefix
reading_prefix-IsPlain = omega arith

-- The first line with its last part; `c ∷ cs` ends in no stop and no space.
module _ (c : ℕ) (cs : Text) (plain : All IsPlain (c ∷ cs))
    (ends : stop_or_space (last_or c cs) ≡ false) where
  abbrev line : Text
  line = reading_prefix ++ c ∷ cs

  line-IsPlain : All IsPlain line
  line-IsPlain = All-append IsPlain reading_prefix (c ∷ cs) reading_prefix-IsPlain plain

  trim_line : trim_space (before newline line) ≡ line
  unfolding trim_space drop_spaces
  trim_line =
      rw (before-plain newline line (omega arith) line-IsPlain)
        (drop_last_spaces-plain 82 _ line-IsPlain (ground (arith, ends)))

  check_line : length (c ∷ cs) ≤ 40 → check_summary line ≡ ok tt
  unfolding check_summary ends_with
  check_line short = ground (arith, ends)

  check_trimmed_line :
      length (c ∷ cs) ≤ 40 → check_summary (trim_space (before newline line)) ≡ ok tt
  check_trimmed_line short = ap check_summary trim_line ∙ check_line short

check_reading :
    (s : Text)
    → All IsPlain s
    → length s ≤ 40
    → stop_or_space (last_or 0 s) ≡ false
    → check_summary (trim_space (before newline (reading_prefix ++ s))) ≡ ok tt
check_reading [] h l ends = check_bare
check_reading (c ∷ cs) h l ends = check_trimmed_line c cs h ends l

-- The envelope for one reading is valid for every monitor whose name is printable ASCII, however
-- long and however it ends, where there is a tenant and the clock is after 0.
pub reading_envelope-accepted :
    (tenant service : String) (ids : List String) (now : ℤ) (name : Text)
    → str_eq tenant "" ≡ false
    → leb_ℤ now (pos 0) ≡ false
    → All IsPlain name
    → validate (reading_envelope tenant service ids now name) ≡ ok tt
unfolding validate reading_envelope
reading_envelope-accepted tenant service ids now name some_tenant later plain =
    let line : check_summary (trim_space (before newline (reading_message name))) ≡ ok tt =
      unfold reading_message in
      check_reading (summarise 40 name) (All-summarise IsPlain 40 name plain)
        (length-summarise 40 name) (summarise-ends 40 name 0 refl) in
    rw (some_tenant, later, line)
