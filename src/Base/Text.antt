-- ===== src/Base/Text.antt =====
-- Go's strings as their bytes, with the functions of the package strings that the program calls.
use Prim.Native.Nat.{ℕ, zero, suc, ◌-◌}
use mathlib.Core.Bool.{Bool, true, false, ◌&&◌, ◌||◌}
use mathlib.Core.List.{List, [], ◌∷◌}
use container_app_service_mo.Base.Tests.{if◌then◌else◌, leb, ◌==◌}

abbrev pub Text : Type 0
Text = List ℕ

-- The byte at a place; 0 past the end, where every test below fails.
abbrev pub byte_at : ℕ → Text → ℕ
byte_at i [] = 0
byte_at zero (b ∷ bs) = b
byte_at (suc i) (b ∷ bs) = byte_at i bs

-- `\t`, `\n`, `\v`, `\f`, `\r` and the space.
abbrev pub is_ascii_space : ℕ → Bool
is_ascii_space b = (leb 9 b && leb b 13) || b == 32

-- The second byte of a space of two bytes after 0xC2: U+0085, U+00A0.
abbrev space_2 : ℕ → Bool
space_2 c = c == 0x85 || c == 0xA0

-- The third byte after 0xE2 0x80: U+2000 to U+200A, U+2028, U+2029, U+202F.
abbrev general_space : ℕ → Bool
general_space d = (leb 0x80 d && leb d 0x8A) || (d == 0xA8 || (d == 0xA9 || d == 0xAF))

-- The last two bytes of a space of three: U+1680, those above, U+205F, U+3000.
abbrev space_3 : ℕ → ℕ → ℕ → Bool
space_3 b c d =
    (b == 0xE1 && (c == 0x9A && d == 0x80))
    || ((b == 0xE2 && ((c == 0x80 && general_space d) || (c == 0x81 && d == 0x9F)))
        || (b == 0xE3 && (c == 0x80 && d == 0x80)))

-- The number of bytes of the space (`unicode.IsSpace`) that a text starts with, 0 for none.
unfoldable pub space_width : Text → ℕ
space_width [] = 0
space_width (b ∷ bs) =
    if is_ascii_space b
    then 1
    else if b == 0xC2 && space_2 (byte_at 0 bs)
    then 2
    else if space_3 b (byte_at 0 bs) (byte_at 1 bs)
    then 3
    else 0

-- Drops the leading spaces, after a number of bytes that belong to the last one.
unfoldable pub drop_spaces : ℕ → Text → Text
unfolding space_width
drop_spaces skip [] = []
drop_spaces (suc skip) (b ∷ bs) = drop_spaces skip bs
drop_spaces zero (b ∷ bs) =
    let rest = drop_spaces (space_width (b ∷ bs) - 1) bs in
    if space_width (b ∷ bs) == 0 then b ∷ bs else rest

abbrev pub is_empty : Text → Bool
is_empty [] = true
is_empty (b ∷ bs) = false

-- A text of nothing but spaces.
unfoldable pub is_blank : Text → Bool
unfolding drop_spaces
is_blank s = is_empty (drop_spaces 0 s)

unfoldable pub drop_last_spaces : Text → Text
unfolding is_blank
drop_last_spaces [] = []
drop_last_spaces (b ∷ bs) = if is_blank (b ∷ bs) then [] else b ∷ drop_last_spaces bs

unfoldable pub trim_space : Text → Text
unfolding drop_spaces drop_last_spaces
trim_space s = drop_last_spaces (drop_spaces 0 s)

abbrev pub all_in : (ℕ → Bool) → Text → Bool
all_in p [] = true
all_in p (b ∷ bs) = p b && all_in p bs

-- `strings.TrimRight`, for a set of single bytes.
unfoldable pub trim_right : (ℕ → Bool) → Text → Text
trim_right p [] = []
trim_right p (b ∷ bs) = if all_in p (b ∷ bs) then [] else b ∷ trim_right p bs

-- `s[:n]`.
unfoldable pub take : ℕ → Text → Text
take zero bs = []
take (suc n) [] = []
take (suc n) (b ∷ bs) = b ∷ take n bs

abbrev pub last_or : ℕ → Text → ℕ
last_or d [] = d
last_or d (b ∷ bs) = last_or b bs

-- `strings.HasSuffix` for one byte.
unfoldable pub ends_with : ℕ → Text → Bool
ends_with b [] = false
ends_with b (c ∷ cs) = last_or c cs == b

-- The text before the first of a byte, or all of it.
unfoldable pub before : ℕ → Text → Text
before b [] = []
before b (c ∷ cs) = if c == b then [] else c ∷ before b cs
