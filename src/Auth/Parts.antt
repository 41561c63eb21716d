-- ===== src/Auth/Parts.antt =====
-- ondcauth.go: what splitting, cutting and trimming do to the parts of a header.
use Prim.Native.Char.{Char}
use Prim.Native.String.{◌++◌ as cat}
use text.Mathlib.TextLemmas.{cons-append, nil-append, append_assoc, append-nil, cons≢nil}
use load_test_backend.Base.{
  ◌≡◌, refl, ap, ◌∙◌, sym, String, Bool, true, false, not, ◌&&◌, Option, none, some, [], ◌∷◌, ◌==◌,
  string_eq, eq_iff, has_char, arith, cons-cat, Bool-cases, inl, inr,
}
use load_test_backend.Session.Validation.{trim_right, is_space}
use load_test_backend.Auth.Header.{
  is_quote, is_comma, single, split_from, cut_at_equals, trim_left_quotes, trim_right_quotes,
}
use load_test_backend.Auth.Signing.{quoted}

-- The state of the quotes behind a text that has no comma outside of them.
unfoldable pub quotes_after : Bool → String → Option Bool
quotes_after q String.[] = some q
quotes_after q (String.◌∷◌ c s) = elim (is_quote c) [
  | true ↦ quotes_after (not q) s
  | false ↦ elim (is_comma c && not q) [ true ↦ none | false ↦ quotes_after q s ]
]

pub single-append :
    (current : String) (c : Char) (s : String)
    → cat current (String.◌∷◌ c s) ≡ cat (cat current (single c)) s
single-append current c s =
    ap (cat current) (sym (cons-cat c s)) ∙ sym (append_assoc current (single c) s)

pub split_from-segment :
    (q r : Bool) (current s rest : String)
    → quotes_after q s ≡ some r
    → split_from q current (cat s rest) ≡ split_from r (cat current s) rest
unfolding split_from quotes_after
split_from-segment q r current String.[] rest h =
    rw (nil-append rest, append-nil current) (ground arith)
split_from-segment q r current (String.◌∷◌ c s) rest h =
    rw (cons-append c s rest, single-append current c s)
      (ground (
        arith,
        split_from-segment (not q) r (cat current (single c)) s rest,
        split_from-segment q r (cat current (single c)) s rest,
      ))

pub quotes_after-append :
    (q r : Bool) (s t : String)
    → quotes_after q s ≡ some r
    → quotes_after q (cat s t) ≡ quotes_after r t
unfolding quotes_after
quotes_after-append q r String.[] t h = rw nil-append (ground arith)
quotes_after-append q r (String.◌∷◌ c s) t h =
    rw cons-append (ground (arith, quotes_after-append (not q) r s t, quotes_after-append q r s t))

-- A value without a quotation mark, in its quotes.
pub quotes_after-quote_free : (s : String) → has_char 34 s ≡ false → quotes_after true s ≡ some true
unfolding quotes_after has_char
quotes_after-quote_free String.[] h = refl
quotes_after-quote_free (String.◌∷◌ c s) h = ground (arith, quotes_after-quote_free s)

pub quotes_after-quoted :
    (key val : String)
    → quotes_after false key ≡ some false
    → has_char 34 val ≡ false
    → quotes_after false (quoted key val) ≡ some false
unfolding quoted quotes_after
quotes_after-quoted key val h k =
    quotes_after-append false false key _ h
    ∙ ap (quotes_after false) (cons-cat "=" _ ∙ ap (String.◌∷◌ "=") (cons-cat "\"" (cat val "\"")))
    ∙ quotes_after-append true true val "\"" (quotes_after-quote_free val k)

pub split-part :
    (part rest : String)
    → quotes_after false part ≡ some false
    → split_from false "" (cat part (cat "," rest)) ≡ part ∷ split_from false "" rest
unfolding split_from
split-part part rest h =
    split_from-segment false false "" part (cat "," rest) h
    ∙ rw (nil-append part, cons-cat "," rest) refl

pub split-last :
    (part : String)
    → quotes_after false part ≡ some false
    → (part == "") ≡ false
    → split_from false "" part ≡ part ∷ []
unfolding split_from
split-last part h k =
    ap (split_from false "") (sym (append-nil part))
    ∙ split_from-segment false false "" part "" h
    ∙ rw (nil-append part) (ground arith)

pub cons-non_empty : (c : Char) (s : String) → (String.◌∷◌ c s == "") ≡ false
cons-non_empty c s = elim (Bool-cases (String.◌∷◌ c s == "")) [
  | inl e ↦ absurd (cons≢nil ((eq_iff (String.◌∷◌ c s) "").0 e))
  | inr e ↦ e
]

pub append-non_empty : (s t : String) → (t == "") ≡ false → (cat s t == "") ≡ false
append-non_empty String.[] t h = rw (nil-append t) h
append-non_empty (String.◌∷◌ c s) t h = rw (cons-append c s t) (cons-non_empty c (cat s t))

-- White space at the ends, which a quoted value does not have.
pub trim_right-quoted : (s : String) → trim_right (cat s "\"") ≡ cat s "\""
unfolding trim_right is_space
trim_right-quoted String.[] = refl
trim_right-quoted (String.◌∷◌ c s) =
    rw (cons-append c s "\"") (ground (arith, trim_right-quoted s, append-non_empty s "\"" refl))

pub cut_at_equals-append :
    (key rest : String)
    → has_char 61 key ≡ false
    → cut_at_equals (cat key (cat "=" rest)) ≡ some (key, rest)
unfolding cut_at_equals has_char
cut_at_equals-append String.[] rest h = rw (nil-append (cat "=" rest), cons-cat "=" rest) refl
cut_at_equals-append (String.◌∷◌ c s) rest h =
    rw (cons-append c s (cat "=" rest)) (ground (arith, cut_at_equals-append s rest))

pub trim_right_quotes-append :
    (s : String) → has_char 34 s ≡ false → trim_right_quotes (cat s "\"") ≡ s
unfolding trim_right_quotes has_char
trim_right_quotes-append String.[] h = refl
trim_right_quotes-append (String.◌∷◌ c s) h =
    rw (cons-append c s "\"") (ground (arith, trim_right_quotes-append s))

pub trim_left_quotes-append :
    (s : String) → has_char 34 s ≡ false → trim_right_quotes (trim_left_quotes (cat s "\"")) ≡ s
unfolding trim_left_quotes trim_right_quotes has_char
trim_left_quotes-append String.[] h = refl
trim_left_quotes-append (String.◌∷◌ c s) h =
    rw (cons-append c s "\"")
      (ground (arith, trim_right_quotes-append (String.◌∷◌ c s) h, cons-append c s "\""))
