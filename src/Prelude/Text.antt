-- ===== src/Prelude/Text.antt =====
-- What the program uses of Go's package `strings`, over native texts.
use Prim.Native.Char.{code}
use Prim.Native.String.{[] as empty, ◌∷◌ as push}
use shclop.Prelude.{
  is_some, ℕ, String, List, [], ◌∷◌, true, false, ◌≡◌, refl, Bool, ◌&&◌, ◌||◌, Option, none, some,
  eqb, leb, if◌then◌else◌,
}

abbrev is_one_of : ℕ → List ℕ → Bool
is_one_of n [] = false
is_one_of n (m ∷ ms) = eqb n m || is_one_of n ms

abbrev between : ℕ → ℕ → ℕ → Bool
between low high n = leb low n && leb n high

-- `unicode.IsSpace`, by the code point.
unfoldable pub is_white : ℕ → Bool
is_white n =
    between 0x2000 0x200a n
    || between 0x9 0xd n
    || is_one_of n (0x20 ∷ 0xa0 ∷ 0x85 ∷ 0x3000 ∷ 0x1680 ∷ 0x202f ∷ 0x205f ∷ 0x2028 ∷ 0x2029 ∷ [])

unfoldable pub is_blank : String → Bool
unfolding is_white
is_blank empty = true
is_blank (push ch rest) = is_white (code ch) && is_blank rest

unfoldable pub skip_white : String → String
unfolding is_white
skip_white empty = empty
skip_white (push ch rest) =
    let later = skip_white rest in if is_white (code ch) then later else push ch rest

-- The text up to its last character that is no space.
unfoldable pub cut_white : String → String
unfolding is_blank
cut_white empty = empty
cut_white (push ch rest) =
    let later = cut_white rest in if is_blank (push ch rest) then empty else push ch later

-- `strings.TrimSpace`
unfoldable pub trim_space : String → String
unfolding skip_white cut_white
trim_space text = cut_white (skip_white text)

-- `strings.HasPrefix` with `strings.TrimPrefix`: what follows the prefix, if the text has it.
unfoldable pub strip_prefix : String → String → Option String
strip_prefix empty s = some s
strip_prefix (push c p) empty = none
strip_prefix (push c p) (push d s) = if eqb (code c) (code d) then strip_prefix p s else none

abbrev with_char : Prim.Native.Char.Char → List String → List String
with_char ch [] = push ch empty ∷ []
with_char ch (word ∷ words) = push ch word ∷ words

-- `strings.Split` at a character, by its code point.
unfoldable pub split_on : ℕ → String → List String
split_on at empty = "" ∷ []
split_on at (push ch rest) =
    let later = split_on at rest in if eqb (code ch) at then "" ∷ later else with_char ch later

-- `strings.Contains`, the text sought first.
unfoldable pub contains : String → String → Bool
unfolding strip_prefix
contains needle empty = is_some (strip_prefix needle empty)
contains needle (push ch rest) =
    let later = contains needle rest in is_some (strip_prefix needle (push ch rest)) || later

trim_space_both_ends : trim_space " \t a b\n" ≡ "a b"
unfolding trim_space
trim_space_both_ends = refl

strip_bearer : strip_prefix "Bearer " "Bearer abc" ≡ some "abc"
unfolding strip_prefix
strip_bearer = refl

contains_inside : contains "bc" "abcd" ≡ true
unfolding contains
contains_inside = refl

contains_apart : contains "bd" "abcd" ≡ false
unfolding contains
contains_apart = refl
