-- ===== src/Base/Words.antt =====
-- Lists of words, as Go's maps from a word to true.
use Prim.Native.String.{String}
use mathlib.Core.Path.{◌≡◌, refl}
use mathlib.Core.Bool.{Bool, true, ◌||◌}
use mathlib.Core.List.{List, [], ◌∷◌}
use native.Mathlib.Omega.{arith}
use text.Mathlib.Text.{◌==◌ as str_eq}
use text.Mathlib.TextEquality.{eq_iff}
use container_app_service_mo.Base.Lists.{any}
use container_app_service_mo.Base.Tests.{if◌then◌else◌}

abbrev pub contains : String → List String → Bool
contains w ws = any (str_eq w) ws

-- A word that is set to true: once.
unfoldable pub add_word : String → List String → List String
add_word w ws = if contains w ws then ws else w ∷ ws

pub contains-add_word :
    (v w : String) (ws : List String) → contains v (add_word w ws) ≡ (str_eq v w || contains v ws)
unfolding add_word
contains-add_word v w ws = ground (arith, contains_eq v w ws)
  where
    contains_eq :
        (v w : String) (ws : List String)
        → contains w ws ≡ true
        → str_eq v w ≡ true
        → contains v ws ≡ true
    contains_eq v w [] h e = h
    contains_eq v w (u ∷ ws) h e =
        ground (arith, eq_iff v w, eq_iff w u, eq_iff v u, contains_eq v w ws)

unfoldable pub add_words : List String → List String → List String
unfolding add_word
add_words [] ws = ws
add_words (v ∷ vs) ws = add_words vs (add_word v ws)

pub contains-add_words :
    (v : String) (us ws : List String)
    → contains v (add_words us ws) ≡ (contains v us || contains v ws)
unfolding add_words
contains-add_words v [] ws = refl
contains-add_words v (u ∷ us) ws =
    ground (arith, contains-add_words v us (add_word u ws), contains-add_word v u ws)
