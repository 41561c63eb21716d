-- ===== src/Callbacks/Signed.antt =====
-- internal/handlers/callbacks/record.go, `verifyInbound` with ondcauth and the registry client in place of the parameter: what
-- it says of a callback that its sender signed.
use load_test_backend.Base.{
  ℕ, ◌+◌, ◌≡◌, ap, ◌∙◌, String, Bool, true, false, ◌&&◌, Option, none, some, leb, has_char,
  string_eq, arith,
}
use load_test_backend.Json.{Payload}
use load_test_backend.Callbacks.{Verifier, signature_valid}
use load_test_backend.Auth.Header.{
  AuthHeaderSummary, parse_key_id, summary_of, summarize_authorisation_header,
}
use load_test_backend.Auth.Signing.{
  Crypto, signing_key, create_authorisation_header, key_id_text, Verdict, accepted, bad_public_key,
  bad_key_length, bad_header, bad_created, bad_expires, not_yet_valid, expired, bad_signature_text,
  bad_signature, verify_authorisation_header_bytes,
}
use load_test_backend.Auth.Acceptance.{
  IsDocumented, IsKeyPair, verdict_at, parse-create, verify-create_bytes,
}
use load_test_backend.Registry.{
  RegistryConfig, RegistryEnv, Cache, Found, found, failed, get_public_key_by_ukid,
}

abbrev pub is_accepted : Verdict → Bool
is_accepted accepted = true
is_accepted bad_public_key = false
is_accepted bad_key_length = false
is_accepted bad_header = false
is_accepted bad_created = false
is_accepted bad_expires = false
is_accepted not_yet_valid = false
is_accepted expired = false
is_accepted bad_signature_text = false
is_accepted bad_signature = false

abbrev pub key_id_of : Option AuthHeaderSummary → Option String
key_id_of none = none
key_id_of (some summary) = some summary.key_id

signature_valid-steps :
    (v : Verifier) (header : String) (body : Payload) (key_id subscriber_id uk_id : String)
    (key : v.PublicKey)
    → v.summarize header ≡ some key_id
    → v.parse_key_id key_id ≡ some (subscriber_id, uk_id)
    → v.get_public_key subscriber_id uk_id ≡ some key
    → signature_valid v header body ≡ v.verify header body key
unfolding signature_valid
signature_valid-steps v header body key_id subscriber_id uk_id key h k l = ground (arith, h, k, l)

module _ (c : Crypto) where
  abbrev pub found_or_none : Found c.Bytes → Option c.Bytes
  found_or_none (found pk) = some pk
  found_or_none (failed e) = none

  -- The calls of verifyInbound, with the bytes of a body as a text; the cache that the lookup leaves is not followed.
  unfoldable pub verifier_of :
      RegistryConfig → RegistryEnv c → Cache c → (Payload → String) → Verifier
  verifier_of cfg env cache text_of = record {
    PublicKey = c.Bytes;
    summarize = λ header. key_id_of (summarize_authorisation_header header);
    parse_key_id = parse_key_id;
    get_public_key = λ subscriber_id uk_id.
        found_or_none (get_public_key_by_ukid c cfg env subscriber_id uk_id cache).0;
    verify = λ header body key.
        is_accepted (verify_authorisation_header_bytes c env.unix header (text_of body) key);
  }

  accepted-verdict_at :
      (now later : ℕ)
      → is_accepted (verdict_at now later) ≡ (leb now later && leb later (now + 3600))
  accepted-verdict_at now later = ground arith

  module _ (documented : IsDocumented c) (key : c.SigningKey) (public : c.Bytes)
      (pair : IsKeyPair c key public) (cfg : RegistryConfig) (env : RegistryEnv c) (cache : Cache c)
      (text_of : Payload → String) where
    -- The signature of a callback whose sender signed its body, with identifiers that have neither quotation mark nor bar and
    -- for which the registry client has the public key of the pair, is valid exactly from the second of
    -- its creation to an hour later.
    pub signature_valid-create :
        (private_key subscriber_id unique_key_id header : String) (body : Payload) (now : ℕ)
        → has_char 34 subscriber_id ≡ false
        → has_char 34 unique_key_id ≡ false
        → has_char b'|' subscriber_id ≡ false
        → has_char b'|' unique_key_id ≡ false
        → signing_key c (c.decode private_key) ≡ some key
        → create_authorisation_header c now (text_of body) private_key subscriber_id unique_key_id
          ≡ some header
        → (get_public_key_by_ukid c cfg env subscriber_id unique_key_id cache).0 ≡ found public
        → signature_valid (verifier_of cfg env cache text_of) header body
          ≡ (leb now env.unix && leb env.unix (now + 3600))
    unfolding verifier_of summarize_authorisation_header
    signature_valid-create private_key subscriber_id unique_key_id header body now q q' b b' k h r =
        let (parsed, ids) =
          parse-create c documented key public pair subscriber_id unique_key_id (text_of body) now q
            q' private_key header k h b b' in
        signature_valid-steps (verifier_of cfg env cache text_of) header body
          (key_id_text subscriber_id unique_key_id) subscriber_id unique_key_id public
          (ap (λ o. key_id_of (summary_of o)) parsed) ids (ap found_or_none r)
        ∙ ap is_accepted (
            verify-create_bytes c documented key public pair subscriber_id unique_key_id
              (text_of body) now q q' private_key header env.unix k h)
        ∙ accepted-verdict_at now env.unix
