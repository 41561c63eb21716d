-- ===== src/Auth/Header.antt =====
-- ondcauth.go: how a header is taken apart (splitHeaderParts, parseAuthHeader, ParseKeyID, truncate). A `range`
-- over a string goes over its characters; a part is collected as the Builder does.
use Prim.Native.Char.{Char, code}
use Prim.Native.String.{◌++◌ as cat}
use load_test_backend.Base.{
  ℕ, zero, suc, String, Bool, true, false, not, ◌&&◌, Option, none, some, List, [], ◌∷◌, ◌||◌,
  Assoc, lookup, insert, ◌==◌, string_eq, split_n, nat_eq, if◌then◌else◌,
}
use load_test_backend.Session.Validation.{trim_space}

abbrev pub is_quote : Char → Bool
is_quote c = nat_eq (code c) 34

abbrev pub is_comma : Char → Bool
is_comma c = nat_eq (code c) 44

abbrev pub single : Char → String
single c = String.◌∷◌ c String.[]

-- The loop of splitHeaderParts: `inQuotes`, `current` and the characters to come.
unfoldable pub split_from : Bool → String → String → List String
split_from in_quotes current String.[] = if current == "" then [] else current ∷ []
split_from in_quotes current (String.◌∷◌ c rest) = elim (is_quote c) [
  | true ↦ split_from (not in_quotes) (cat current (single c)) rest
  | false ↦ elim (is_comma c && not in_quotes) [
    | true ↦ current ∷ split_from in_quotes "" rest
    | false ↦ split_from in_quotes (cat current (single c)) rest
  ]
]

unfoldable pub split_header_parts : String → List String
split_header_parts header = split_from false "" header

-- The rest of a text behind a prefix, if it has the prefix.
unfoldable pub behind : String → String → Option String
behind s String.[] = some s
behind String.[] (String.◌∷◌ y p) = none
behind (String.◌∷◌ x s) (String.◌∷◌ y p) = elim (nat_eq (code x) (code y)) [
  | true ↦ behind s p
  | false ↦ none
]

abbrev pub or_whole : String → Option String → String
or_whole s none = s
or_whole s (some rest) = rest

-- strings.TrimPrefix.
abbrev pub trim_prefix : String → String → String
trim_prefix s p = or_whole s (behind s p)

abbrev pub cut_after : Char → Option (String × String) → Option (String × String)
cut_after c none = none
cut_after c (some (key, val)) = some (String.◌∷◌ c key, val)

-- The texts before and behind the first equals sign.
unfoldable pub cut_at_equals : String → Option (String × String)
cut_at_equals String.[] = none
cut_at_equals (String.◌∷◌ c s) = elim (nat_eq (code c) 61) [
  | true ↦ some ("", s)
  | false ↦ cut_after c (cut_at_equals s)
]

unfoldable pub trim_left_quotes : String → String
trim_left_quotes String.[] = String.[]
trim_left_quotes (String.◌∷◌ c s) = elim (is_quote c) [
  | true ↦ trim_left_quotes s
  | false ↦ String.◌∷◌ c s
]

unfoldable pub trim_right_quotes : String → String
trim_right_quotes String.[] = String.[]
trim_right_quotes (String.◌∷◌ c s) =
    let rest = trim_right_quotes s in
    if is_quote c && rest == "" then String.[] else String.◌∷◌ c rest

-- strings.Trim at the quotation mark.
abbrev pub trim_quotes : String → String
trim_quotes s = trim_right_quotes (trim_left_quotes s)

abbrev pub put_cut : Option (String × String) → Assoc String String → Assoc String String
put_cut none fields = fields
put_cut (some (key, val)) fields = insert key (trim_quotes val) fields

unfoldable pub fields_from : List String → Assoc String String → Assoc String String
fields_from [] fields = fields
fields_from (part ∷ parts) fields =
    fields_from parts (put_cut (cut_at_equals (trim_space part)) fields)

pub record AuthHeader : Type 0 where
  pub key_id : String
  pub created : String
  pub expires : String
  pub signature : String

abbrev pub text_or_empty : Option String → String
text_or_empty none = ""
text_or_empty (some s) = s

unfoldable pub header_of : Assoc String String → AuthHeader
header_of fields = record {
  key_id = text_or_empty (lookup "keyId" fields);
  created = text_or_empty (lookup "created" fields);
  expires = text_or_empty (lookup "expires" fields);
  signature = text_or_empty (lookup "signature" fields);
}

abbrev pub unless_incomplete : AuthHeader → Option AuthHeader
unless_incomplete h =
    if (h.created == "" || h.expires == "") || h.signature == "" then none else some h

-- `none` is the error on a missing field.
unfoldable pub parse_auth_header : String → Option AuthHeader
parse_auth_header header =
    unless_incomplete
      (header_of (fields_from (split_header_parts (trim_prefix header "Signature ")) []))

abbrev pub first_two : List String → Option (String × String)
first_two [] = none
first_two (_ ∷ []) = none
first_two (subscriber_id ∷ unique_key_id ∷ _) = some (subscriber_id, unique_key_id)

-- ParseKeyID. Two parts are enough, so the text is split twice at most.
unfoldable pub parse_key_id : String → Option (String × String)
parse_key_id key_id = first_two (split_n b'|' 2 key_id)

-- truncate, for texts of one byte per character.
unfoldable pub truncate : String → ℕ → String
truncate String.[] n = String.[]
truncate (String.◌∷◌ c s) n = elim n [ zero ↦ String.[] | suc m ↦ String.◌∷◌ c (truncate s m) ]

pub record AuthHeaderSummary : Type 0 where
  pub key_id : String
  pub created : String
  pub expires : String
  pub sig_preview : String

abbrev pub summary_of : Option AuthHeader → Option AuthHeaderSummary
summary_of none = none
summary_of (some h) = some (record {
  key_id = h.key_id;
  created = h.created;
  expires = h.expires;
  sig_preview = truncate h.signature 16;
})

unfoldable pub summarize_authorisation_header : String → Option AuthHeaderSummary
summarize_authorisation_header header = summary_of (parse_auth_header header)
