-- ===== src/Prelude/Text.antt =====
-- JavaScript strings as lists of character codes: the tests and the case folding that the code uses.
use Prim.Native.Nat.{ℕ, ◌+◌}
use Prim.Native.Char.{code}
use Prim.Native.String.{String}
use mathlib.Core.Path.{◌≡◌, refl}
use mathlib.Core.Logic.{◌⊎◌}
use mathlib.Core.Bool.{Bool, true, false, ◌&&◌, ◌||◌, not}
use mathlib.Core.List.{List, [], ◌∷◌, map}
use native.Mathlib.Omega.{arith}
use wbob_bridge.Prelude.Tests.{leb, ◌==◌, if◌then◌else◌}

abbrev pub Text : Type 0
Text = List ℕ

-- `===` on strings.
unfoldable pub text_eq : Text → Text → Bool
text_eq [] [] = true
text_eq [] (d ∷ ds) = false
text_eq (c ∷ cs) [] = false
text_eq (c ∷ cs) (d ∷ ds) = (c == d) && text_eq cs ds

pub text_eq_refl : (s : Text) → text_eq s s ≡ true
unfolding text_eq
text_eq_refl [] = refl
text_eq_refl (c ∷ cs) = ground (arith, text_eq_refl cs)

pub eq_of_text_eq : (s t : Text) → text_eq s t ≡ true → s ≡ t
unfolding text_eq
eq_of_text_eq [] [] h = refl
eq_of_text_eq [] (d ∷ ds) h = cc
eq_of_text_eq (c ∷ cs) [] h = cc
eq_of_text_eq (c ∷ cs) (d ∷ ds) h = ground (arith, eq_of_text_eq cs ds)

-- `toLowerCase` on the ASCII letters, which are all the letters of a hex string.
unfoldable pub lower_char : ℕ → ℕ
lower_char c = if leb 65 c && leb c 90 then c + 32 else c

unfoldable pub to_lower_case : Text → Text
unfolding lower_char
to_lower_case s = map lower_char s

-- `Set.has` and `Array.includes` on strings.
unfoldable pub has_text : List Text → Text → Bool
unfolding text_eq
has_text [] s = false
has_text (x ∷ xs) s = if text_eq x s then true else has_text xs s

pub has_text-cons :
    (x t : Text) (ms : List Text) → has_text ms t ≡ true → has_text (x ∷ ms) t ≡ true
unfolding has_text
has_text-cons x t ms h = ground arith

pub has_text-head : (t : Text) (ms : List Text) → has_text (t ∷ ms) t ≡ true
unfolding has_text
has_text-head t ms = ground (arith, text_eq_refl t)

pub has_text-split :
    (x t : Text) (ms : List Text) → has_text (x ∷ ms) t ≡ true → (x ≡ t) ⊎ (has_text ms t ≡ true)
unfolding has_text
has_text-split x t ms h = ground (arith, eq_of_text_eq x t)

-- A literal of the source as the codes of its characters.
abbrev pub codes : String → Text
codes String.[] = []
codes (String.◌∷◌ c s) = code c ∷ codes s

unfoldable pub starts_with : Text → Text → Bool
starts_with [] s = true
starts_with (c ∷ cs) [] = false
starts_with (c ∷ cs) (d ∷ ds) = (c == d) && starts_with cs ds

-- `includes`.
unfoldable pub contains : Text → Text → Bool
unfolding starts_with
contains needle [] = starts_with needle []
contains needle (c ∷ s) = starts_with needle (c ∷ s) || contains needle s

-- The class `\w` of regular expressions.
abbrev is_word : ℕ → Bool
is_word c =
    (leb b'0' c && leb c b'9')
    || ((leb b'a' c && leb c b'z') || ((leb b'A' c && leb c b'Z') || (c == b'_')))

abbrev starts_outside_word : Text → Bool
starts_outside_word [] = true
starts_outside_word (c ∷ s) = not (is_word c)

-- `needle` stands here, and no word goes on behind it.
unfoldable starts_with_word : Text → Text → Bool
starts_with_word [] s = starts_outside_word s
starts_with_word (c ∷ cs) [] = false
starts_with_word (c ∷ cs) (d ∷ ds) = (c == d) && starts_with_word cs ds

-- `\bneedle\b`, behind a character that is or is not part of a word.
unfoldable pub contains_word : Text → Bool → Text → Bool
unfolding starts_with_word
contains_word needle in_word [] = false
contains_word needle in_word (c ∷ s) =
    (not in_word && starts_with_word needle (c ∷ s)) || contains_word needle (is_word c) s

unfoldable pub contains_any : List Text → Text → Bool
unfolding contains
contains_any [] s = false
contains_any (n ∷ ns) s = contains n s || contains_any ns s
