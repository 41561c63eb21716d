-- ===== src/Auth/Signing.antt =====
-- ondcauth.go: CreateAuthorisationHeader, VerifyAuthorisationHeader and VerifyAuthorisationHeaderBytes. The log
-- lines are left out.
use Prim.Native.String.{◌++◌ as cat}
use load_test_backend.Base.{
  ℕ, ◌+◌, String, Bool, not, Option, none, some, nat_eq, ℤ, pos, leb_ℤ, if◌then◌else◌,
}
use load_test_backend.Auth.Header.{AuthHeader, parse_auth_header}

-- encoding/base64, crypto/ed25519, blake2b, and the decimal numbers of fmt and strconv.
pub record Crypto : Type 1 where
  pub Bytes : Type 0
  pub SigningKey : Type 0
  pub size : Bytes → ℕ
  pub first_32 : Bytes → Bytes
  pub encode : Bytes → String
  pub decode : String → Option Bytes
  pub sum_512 : String → Bytes
  pub key_from_seed : Bytes → SigningKey
  pub sign : SigningKey → String → Bytes
  pub verify : Bytes → String → Bytes → Bool
  pub print : ℕ → String
  pub parse_int : String → Option ℤ

-- `key="value"`.
unfoldable pub quoted : String → String → String
quoted key val = cat key (cat "=" (cat "\"" (cat val "\"")))

unfoldable pub key_id_text : String → String → String
key_id_text subscriber_id unique_key_id = cat subscriber_id (cat "|" (cat unique_key_id "|ed25519"))

-- The header behind its scheme.
unfoldable pub fields_text : String → String → String → String → String
fields_text key_id created expires signature = cat (quoted "keyId" key_id) (
    cat "," (
      cat (quoted "algorithm" "ed25519") (
        cat "," (
          cat (quoted "created" created) (
            cat "," (
              cat (quoted "expires" expires) (
                cat "," (
                  cat (quoted "headers" "(created) (expires) digest")
                    (cat "," (quoted "signature" signature))))))))))

unfoldable pub header_text : String → String → String → String → String
header_text key_id created expires signature =
    cat "Signature " (fields_text key_id created expires signature)

module _ (c : Crypto) where
  unfoldable pub signing_string : String → String → String → String
  signing_string created expires payload = cat "(created): " (
      cat created (
        cat "\n(expires): "
          (cat expires (cat "\ndigest: BLAKE-512=" (c.encode (c.sum_512 payload))))))

  -- The key of 64 bytes is cut to its seed; any other length but 32 is an error.
  abbrev pub signing_key : Option c.Bytes → Option c.SigningKey
  signing_key none = none
  signing_key (some bytes) =
      if nat_eq (c.size bytes) 64
      then some (c.key_from_seed (c.first_32 bytes))
      else if nat_eq (c.size bytes) 32
      then some (c.key_from_seed bytes)
      else none

  abbrev pub signed_header : ℕ → String → String → String → Option c.SigningKey → Option String
  signed_header now payload subscriber_id unique_key_id none = none
  signed_header now payload subscriber_id unique_key_id (some key) =
      let created = c.print now in
      let expires = c.print (now + 3600) in
      some (
        header_text (key_id_text subscriber_id unique_key_id) created expires
          (c.encode (c.sign key (signing_string created expires payload))))

  -- `none` is an error.
  unfoldable pub create_authorisation_header : ℕ → String → String → String → String → Option String
  create_authorisation_header now payload private_key subscriber_id unique_key_id =
      signed_header now payload subscriber_id unique_key_id (signing_key (c.decode private_key))

-- Why a header is refused, in the order of the checks.
pub data Verdict : Type 0 where
  accepted : Verdict
  bad_public_key : Verdict
  bad_key_length : Verdict
  bad_header : Verdict
  bad_created : Verdict
  bad_expires : Verdict
  not_yet_valid : Verdict
  expired : Verdict
  bad_signature_text : Verdict
  bad_signature : Verdict

module _ (c : Crypto) where
  abbrev pub check_signature : c.Bytes → String → Option c.Bytes → Verdict
  check_signature key text none = bad_signature_text
  check_signature key text (some signature) =
      if c.verify key text signature then accepted else bad_signature

  abbrev pub check_window : ℕ → ℤ → ℤ → Verdict → Verdict
  check_window now created expires rest =
      if not (leb_ℤ created (pos now))
      then not_yet_valid
      else if not (leb_ℤ (pos now) expires)
      then expired
      else rest

  abbrev pub check_expires : ℕ → ℤ → Option ℤ → Verdict → Verdict
  check_expires now created none rest = bad_expires
  check_expires now created (some expires) rest = check_window now created expires rest

  abbrev pub check_times : ℕ → Option ℤ → Option ℤ → Verdict → Verdict
  check_times now none expires rest = bad_created
  check_times now (some created) expires rest = check_expires now created expires rest

  abbrev pub check_header : ℕ → String → c.Bytes → Option AuthHeader → Verdict
  check_header now payload key none = bad_header
  check_header now payload key (some h) =
      check_times now (c.parse_int h.created) (c.parse_int h.expires)
        (check_signature key (signing_string c h.created h.expires payload) (c.decode h.signature))

  unfoldable pub verify_authorisation_header_bytes : ℕ → String → String → c.Bytes → Verdict
  verify_authorisation_header_bytes now auth_header payload key =
      if nat_eq (c.size key) 32
      then check_header now payload key (parse_auth_header auth_header)
      else bad_key_length

  abbrev pub verify_decoded : ℕ → String → String → Option c.Bytes → Verdict
  verify_decoded now auth_header payload none = bad_public_key
  verify_decoded now auth_header payload (some key) =
      verify_authorisation_header_bytes now auth_header payload key

  abbrev pub verify_parsed : ℕ → String → String → String → Option AuthHeader → Verdict
  verify_parsed now auth_header payload public_key none = bad_header
  verify_parsed now auth_header payload public_key (some h) =
      verify_decoded now auth_header payload (c.decode public_key)

  unfoldable pub verify_authorisation_header : ℕ → String → String → String → Verdict
  verify_authorisation_header now auth_header payload public_key =
      verify_parsed now auth_header payload public_key (parse_auth_header auth_header)
