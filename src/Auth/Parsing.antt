-- ===== src/Auth/Parsing.antt =====
-- ondcauth.go: the parser reads the header that CreateAuthorisationHeader writes back.
use Prim.Native.Char.{Char, code}
use Prim.Native.String.{◌++◌ as cat}
use text.Mathlib.TextLemmas.{cons-append, nil-append, append_assoc}
use load_test_backend.Base.{
  ◌≡◌, refl, ap, ◌∙◌, sym, String, false, some, [], ◌∷◌, Assoc, lookup, insert, ◌==◌, string_eq,
  has_char, arith, cons-cat,
}
use load_test_backend.Session.Validation.{trim_space, trim_left, trim_right, is_space}
use load_test_backend.Auth.Header.{
  split_header_parts, behind, cut_at_equals, trim_left_quotes, trim_right_quotes, put_cut,
  fields_from, header_of, parse_auth_header,
}
use load_test_backend.Auth.Signing.{quoted, fields_text, header_text}
use load_test_backend.Auth.Parts.{
  quotes_after, quotes_after-quoted, split-part, split-last, trim_right-quoted,
  cut_at_equals-append, trim_left_quotes-append, cons-non_empty,
}

-- A key that the parser takes whole: it starts with no white space, and has no quote, comma or equals sign.
pub record IsKey (key : String) : Type 0 where
  pub unquoted : quotes_after false key ≡ some false
  pub no_equals : has_char 61 key ≡ false
  pub left : (rest : String) → trim_left (cat key rest) ≡ cat key rest

trim_space-quoted : (key val : String) → IsKey key → trim_space (quoted key val) ≡ quoted key val
unfolding trim_space quoted
trim_space-quoted key val is_key =
    ap trim_right (is_key.left _)
    ∙ ap trim_right (as-one key val)
    ∙ trim_right-quoted (cat key (cat "=" (cat "\"" val)))
    ∙ sym (as-one key val)
  where
    as-one :
        (key val : String)
        → cat key (cat "=" (cat "\"" (cat val "\""))) ≡ cat (cat key (cat "=" (cat "\"" val))) "\""
    as-one key val = sym (
        append_assoc key (cat "=" (cat "\"" val)) "\""
        ∙ ap (cat key)
            (append_assoc "=" (cat "\"" val) "\"" ∙ ap (cat "=") (append_assoc "\"" val "\"")))

put_cut-quoted :
    (key val : String) (fields : Assoc String String)
    → IsKey key
    → has_char 34 val ≡ false
    → put_cut (cut_at_equals (trim_space (quoted key val))) fields ≡ insert key val fields
unfolding quoted trim_left_quotes
put_cut-quoted key val fields is_key h =
    ap (λ part. put_cut (cut_at_equals part) fields) (trim_space-quoted key val is_key)
    ∙ ap (λ o. put_cut o fields)
        (cut_at_equals-append key (cat "\"" (cat val "\"")) is_key.no_equals)
    ∙ ap (λ v. insert key v fields)
        (ap (λ t. trim_right_quotes (trim_left_quotes t)) (cons-cat "\"" (cat val "\""))
          ∙ trim_left_quotes-append val h)

cat-non_empty_left : (s t : String) → (s == "") ≡ false → (cat s t == "") ≡ false
cat-non_empty_left String.[] t h = ground arith
cat-non_empty_left (String.◌∷◌ c s) t h = rw (cons-append c s t) (cons-non_empty c (cat s t))

trim_left-key :
    (c : Char) (key rest : String)
    → is_space (code c) ≡ false
    → trim_left (cat (String.◌∷◌ c key) rest) ≡ cat (String.◌∷◌ c key) rest
unfolding trim_left
trim_left-key c key rest h = rw (cons-append c key rest) (ground arith)

pub identifier-IsKey : IsKey "keyId"
unfolding quotes_after has_char is_space
identifier-IsKey = record {
  unquoted = refl;
  no_equals = refl;
  left = λ rest. trim_left-key "k" "eyId" rest refl;
}

algorithm-IsKey : IsKey "algorithm"
unfolding quotes_after has_char is_space
algorithm-IsKey = record {
  unquoted = refl;
  no_equals = refl;
  left = λ rest. trim_left-key "a" "lgorithm" rest refl;
}

created-IsKey : IsKey "created"
unfolding quotes_after has_char is_space
created-IsKey = record {
  unquoted = refl;
  no_equals = refl;
  left = λ rest. trim_left-key "c" "reated" rest refl;
}

expires-IsKey : IsKey "expires"
unfolding quotes_after has_char is_space
expires-IsKey = record {
  unquoted = refl;
  no_equals = refl;
  left = λ rest. trim_left-key "e" "xpires" rest refl;
}

headers-IsKey : IsKey "headers"
unfolding quotes_after has_char is_space
headers-IsKey = record {
  unquoted = refl;
  no_equals = refl;
  left = λ rest. trim_left-key "h" "eaders" rest refl;
}

signature-IsKey : IsKey "signature"
unfolding quotes_after has_char is_space
signature-IsKey = record {
  unquoted = refl;
  no_equals = refl;
  left = λ rest. trim_left-key "s" "ignature" rest refl;
}

-- A prefix is trimmed off.
behind-append : (p s : String) → behind (cat p s) p ≡ some s
unfolding behind
behind-append String.[] s = rw (nil-append s) (behind-nil s)
  where
    behind-nil : (s : String) → behind s String.[] ≡ some s
    behind-nil s = refl
behind-append (String.◌∷◌ c p) s = rw (cons-append c p s) (ground (arith, behind-append p s))

cat-non_empty_key : (key val : String) → (key == "") ≡ false → (quoted key val == "") ≡ false
unfolding quoted
cat-non_empty_key key val h = cat-non_empty_left key _ h

-- Values without quotation marks.
pub record AreQuoteFree (key_id created expires signature : String) : Type 0 where
  pub key_id_free : has_char 34 key_id ≡ false
  pub created_free : has_char 34 created ≡ false
  pub expires_free : has_char 34 expires ≡ false
  pub signature_free : has_char 34 signature ≡ false

module _ (key_id created expires signature : String)
    (free : AreQuoteFree key_id created expires signature) where
  split-fields_text :
      split_header_parts (fields_text key_id created expires signature)
      ≡ quoted "keyId" key_id
        ∷ quoted "algorithm" "ed25519"
        ∷ quoted "created" created
        ∷ quoted "expires" expires
        ∷ quoted "headers" "(created) (expires) digest"
        ∷ quoted "signature" signature
        ∷ []
  unfolding split_header_parts fields_text has_char
  split-fields_text =
      split-part _ _ (quotes_after-quoted "keyId" key_id identifier-IsKey.unquoted free.key_id_free)
      ∙ ap (λ l. quoted "keyId" key_id ∷ l)
          (split-part _ _ (quotes_after-quoted "algorithm" "ed25519" algorithm-IsKey.unquoted refl)
            ∙ ap (λ l. quoted "algorithm" "ed25519" ∷ l)
                (split-part _ _
                    (quotes_after-quoted "created" created created-IsKey.unquoted free.created_free)
                  ∙ ap (λ l. quoted "created" created ∷ l)
                      (split-part _ _ (
                          quotes_after-quoted "expires" expires expires-IsKey.unquoted
                            free.expires_free)
                        ∙ ap (λ l. quoted "expires" expires ∷ l)
                            (split-part _ _ (
                                quotes_after-quoted "headers" "(created) (expires) digest"
                                  headers-IsKey.unquoted refl)
                              ∙ ap (λ l. quoted "headers" "(created) (expires) digest" ∷ l)
                                  (split-last _
                                    (quotes_after-quoted "signature" signature
                                      signature-IsKey.unquoted free.signature_free)
                                    (cat-non_empty_key "signature" signature refl))))))

  fields_from-parts :
      fields_from (split_header_parts (fields_text key_id created expires signature)) []
      ≡ ("keyId", key_id)
        ∷ ("algorithm", "ed25519")
        ∷ ("created", created)
        ∷ ("expires", expires)
        ∷ ("headers", "(created) (expires) digest")
        ∷ ("signature", signature)
        ∷ []
  unfolding fields_from insert has_char
  fields_from-parts =
      rw
        (
          split-fields_text,
          put_cut-quoted "keyId" key_id [] identifier-IsKey free.key_id_free,
          put_cut-quoted "algorithm" "ed25519" _ algorithm-IsKey refl,
          put_cut-quoted "created" created _ created-IsKey free.created_free,
          put_cut-quoted "expires" expires _ expires-IsKey free.expires_free,
          put_cut-quoted "headers" "(created) (expires) digest" _ headers-IsKey refl,
          put_cut-quoted "signature" signature _ signature-IsKey free.signature_free,
        )
        refl

  -- The parser reads the values of a header that is written with them, when the times and the signature
  -- are not empty and no value has a quotation mark.
  pub parse-header_text :
      (created == "") ≡ false
      → (expires == "") ≡ false
      → (signature == "") ≡ false
      → parse_auth_header (header_text key_id created expires signature)
        ≡ some (record {
          key_id = key_id;
          created = created;
          expires = expires;
          signature = signature;
        })
  unfolding parse_auth_header header_text header_of lookup
  parse-header_text h k l =
      rw
        (
          behind-append "Signature " (fields_text key_id created expires signature),
          fields_from-parts,
          h,
          k,
          l,
        )
        refl
