-- ===== src/Base/Text.antt =====
-- Texts: membership of a character, and `strings.SplitN` and `strings.Split` at one character.
use Prim.Native.Nat.{ℕ, zero, suc}
use Prim.Native.Char.{Char, code}
use Prim.Native.String.{String, ◌++◌ as cat}
use mathlib.Core.Path.{◌≡◌, refl, ap, ◌∙◌}
use mathlib.Core.Bool.{Bool, true, false}
use mathlib.Core.List.{List, [], ◌∷◌}
use native.Mathlib.Omega.{arith}
use text.Mathlib.TextLemmas.{nil-append, cons-append}
use load_test_backend.Base.Tests.{nat_eq, if◌then◌else◌}

-- Is the character with this code point in the text?
unfoldable pub has_char : ℕ → String → Bool
has_char c String.[] = false
has_char c (String.◌∷◌ x s) = if nat_eq (code x) c then true else has_char c s

abbrev add_first : Char → List String → List String
add_first x [] = (String.◌∷◌ x String.[]) ∷ []
add_first x (p ∷ ps) = (String.◌∷◌ x p) ∷ ps

-- strings.SplitN(s, c, n) for n ≥ 1: at most `n` parts, the last unsplit; `more` is n - 1.
unfoldable pub split_n : ℕ → ℕ → String → List String
split_n c zero s = s ∷ []
split_n c (suc more) String.[] = String.[] ∷ []
split_n c (suc more) (String.◌∷◌ x s) = elim (nat_eq (code x) c) [
  | true ↦ String.[] ∷ split_n c more s
  | false ↦ add_first x (split_n c (suc more) s)
]

pub split_n-append :
    (x : Char) (more : ℕ) (s t : String)
    → has_char (code x) s ≡ false
    → split_n (code x) (suc more) (cat s (String.◌∷◌ x t)) ≡ s ∷ split_n (code x) more t
unfolding split_n has_char
split_n-append x more String.[] t h = rw nil-append (ground arith)
split_n-append x more (String.◌∷◌ y s) t h =
    rw cons-append (ground (arith, split_n-append x more s t))

pub split_n-whole :
    (c more : ℕ) (s : String) → has_char c s ≡ false → split_n c (suc more) s ≡ s ∷ []
unfolding split_n has_char
split_n-whole c more String.[] h = refl
split_n-whole c more (String.◌∷◌ y s) h = ground (arith, split_n-whole c more s)

-- A literal text in front of another, as its characters.
pub cons-cat : (x : Char) (t : String) → cat (String.◌∷◌ x String.[]) t ≡ String.◌∷◌ x t
cons-cat x t = cons-append x String.[] t ∙ ap (String.◌∷◌ x) (nil-append t)
