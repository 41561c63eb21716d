-- ===== src/Session/Validation.antt =====
-- internal/domain/session/validation.go, with `strings.TrimSpace`.
use Prim.Native.Char.{code}
use load_test_backend.Base.{
  ℕ, String, Bool, true, false, List, [], ◌∷◌, ◌≡◌, refl, ◌||◌, ◌&&◌, ◌==◌, string_eq, leb, nat_eq,
  if◌then◌else◌,
}

-- The white space of `unicode.IsSpace`.
unfoldable pub is_space : ℕ → Bool
is_space c =
    (leb 9 c && leb c 13)
    || nat_eq c 32
    || nat_eq c 0x85
    || nat_eq c 0xa0
    || nat_eq c 0x1680
    || (leb 0x2000 c && leb c 0x200a)
    || nat_eq c 0x2028
    || nat_eq c 0x2029
    || nat_eq c 0x202f
    || nat_eq c 0x205f
    || nat_eq c 0x3000

unfoldable pub trim_left : String → String
unfolding is_space
trim_left String.[] = String.[]
trim_left (String.◌∷◌ c s) = elim (is_space (code c)) [
  | true ↦ trim_left s
  | false ↦ String.◌∷◌ c s
]

unfoldable pub trim_right : String → String
unfolding is_space
trim_right String.[] = String.[]
trim_right (String.◌∷◌ c s) =
    let rest = trim_right s in
    if is_space (code c) && rest == "" then String.[] else String.◌∷◌ c rest

unfoldable pub trim_space : String → String
unfolding trim_left trim_right
trim_space s = trim_right (trim_left s)

unfoldable pub contains : String → List String → Bool
contains v [] = false
contains v (x ∷ xs) = x == v || contains v xs

abbrev pub allowed_core_versions : List String
allowed_core_versions = "1.2.0" ∷ "1.2.5" ∷ []

abbrev pub allowed_domains : List String
allowed_domains =
    "ONDC:RET10" ∷ "ONDC:RET11" ∷ "ONDC:RET12" ∷ "ONDC:RET13" ∷ "ONDC:RET14" ∷ "ONDC:RET15"
    ∷ "ONDC:RET16" ∷ "ONDC:RET18" ∷ []

unfoldable pub is_valid_core_version : String → Bool
unfolding trim_space contains
is_valid_core_version v =
    let v' = trim_space v in if v' == "" then false else contains v' allowed_core_versions

unfoldable pub is_valid_domain : String → Bool
unfolding trim_space contains
is_valid_domain v = let v' = trim_space v in if v' == "" then false else contains v' allowed_domains

-- The cases of validation_test.go.
core_versions_tested :
    (is_valid_core_version "" ≡ false)
    × (is_valid_core_version "1.2.0" ≡ true)
    × (is_valid_core_version " 1.2.5\n" ≡ true)
    × (is_valid_core_version "1.1.0" ≡ false)
unfolding is_valid_core_version
core_versions_tested = (refl, refl, refl, refl)

domains_tested :
    (is_valid_domain "ONDC:RET13" ≡ true)
    × (is_valid_domain "" ≡ false)
    × (is_valid_domain "ONDC:RET09" ≡ false)
unfolding is_valid_domain
domains_tested = (refl, refl, refl)
