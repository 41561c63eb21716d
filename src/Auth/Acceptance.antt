-- ===== src/Auth/Acceptance.antt =====
-- ondcauth.go: what the verifier says of the headers that the signer writes.
use Prim.Native.String.{◌++◌ as cat}
use text.Mathlib.TextLemmas.{cons-append, nil-append}
use load_test_backend.Base.{
  ℕ, ◌+◌, ◌≡◌, refl, ap, ◌∙◌, String, true, false, not, some, ◌∷◌, cons-cat, split_n,
  split_n-append, ◌==◌, string_eq, has_char, leb, pos, arith, if◌then◌else◌,
}
use load_test_backend.Auth.Header.{AuthHeader, parse_auth_header, parse_key_id, first_two}
use load_test_backend.Auth.Signing.{
  Crypto, signing_string, signing_key, key_id_text, header_text, signed_header,
  create_authorisation_header, Verdict, accepted, expired, not_yet_valid,
  verify_authorisation_header_bytes, verify_authorisation_header,
}
use load_test_backend.Auth.Parsing.{parse-header_text}

-- What is documented of the encodings: base64 decodes what it encodes and has no quotation mark, and a printed
-- number has digits only and is read back.
pub record IsDocumented (c : Crypto) : Type 0 where
  pub decodes : (b : c.Bytes) → c.decode (c.encode b) ≡ some b
  pub encode_quote_free : (b : c.Bytes) → has_char 34 (c.encode b) ≡ false
  pub reads : (n : ℕ) → c.parse_int (c.print n) ≡ some (pos n)
  pub print_quote_free : (n : ℕ) → has_char 34 (c.print n) ≡ false
  pub print_non_empty : (n : ℕ) → (c.print n == "") ≡ false

-- A public key for a signing key: it verifies the signatures, which are not empty.
pub record IsKeyPair (c : Crypto) (key : c.SigningKey) (public : c.Bytes) : Type 0 where
  pub public_size : c.size public ≡ 32
  pub verifies : (text : String) → c.verify public text (c.sign key text) ≡ true
  pub signature_non_empty : (text : String) → (c.encode (c.sign key text) == "") ≡ false

has_char-append :
    (x : ℕ) (s t : String)
    → has_char x s ≡ false
    → has_char x t ≡ false
    → has_char x (cat s t) ≡ false
unfolding has_char
has_char-append x String.[] t h k = rw nil-append k
has_char-append x (String.◌∷◌ c s) t h k =
    rw (cons-append c s t) (ground (arith, has_char-append x s t))

has_char-key_id_text :
    (subscriber_id unique_key_id : String)
    → has_char 34 subscriber_id ≡ false
    → has_char 34 unique_key_id ≡ false
    → has_char 34 (key_id_text subscriber_id unique_key_id) ≡ false
unfolding key_id_text has_char
has_char-key_id_text subscriber_id unique_key_id h k =
    has_char-append 34 subscriber_id (cat "|" (cat unique_key_id "|ed25519")) h (
      has_char-append 34 "|" (cat unique_key_id "|ed25519") refl
        (has_char-append 34 unique_key_id "|ed25519" k refl))

parse_key_id-key_id_text :
    (subscriber_id unique_key_id : String)
    → has_char b'|' subscriber_id ≡ false
    → has_char b'|' unique_key_id ≡ false
    → parse_key_id (key_id_text subscriber_id unique_key_id) ≡ some (subscriber_id, unique_key_id)
unfolding parse_key_id key_id_text split_n
parse_key_id-key_id_text subscriber_id unique_key_id h k = ap first_two (
    ap (λ t. split_n b'|' 2 (cat subscriber_id t)) (cons-cat "|" (cat unique_key_id "|ed25519"))
    ∙ split_n-append "|" 1 subscriber_id (cat unique_key_id "|ed25519") h
    ∙ ap (λ l. subscriber_id ∷ l) (split_n-append "|" 0 unique_key_id "ed25519" k))

-- The verdict that the window of validity alone gives.
abbrev pub verdict_at : ℕ → ℕ → Verdict
verdict_at now later =
    if not (leb now later)
    then not_yet_valid
    else if not (leb later (now + 3600))
    then expired
    else accepted

module _ (c : Crypto) (documented : IsDocumented c) (key : c.SigningKey) (public : c.Bytes)
    (pair : IsKeyPair c key public) (subscriber_id unique_key_id payload : String) (now : ℕ)
    (plain_subscriber : has_char 34 subscriber_id ≡ false)
    (plain_key : has_char 34 unique_key_id ≡ false) where
  abbrev signed : c.Bytes
  signed = c.sign key (signing_string c (c.print now) (c.print (now + 3600)) payload)

  abbrev sent : AuthHeader
  sent = record {
    key_id = key_id_text subscriber_id unique_key_id;
    created = c.print now;
    expires = c.print (now + 3600);
    signature = c.encode signed;
  }

  abbrev sent_text : String
  sent_text = header_text sent.key_id sent.created sent.expires sent.signature

  parse-sent_text : parse_auth_header sent_text ≡ some sent
  parse-sent_text =
      parse-header_text sent.key_id sent.created sent.expires sent.signature
        (record {
          key_id_free = has_char-key_id_text subscriber_id unique_key_id plain_subscriber plain_key;
          created_free = documented.print_quote_free now;
          expires_free = documented.print_quote_free (now + 3600);
          signature_free = documented.encode_quote_free signed;
        })
        (documented.print_non_empty now) (documented.print_non_empty (now + 3600))
        (pair.signature_non_empty (signing_string c (c.print now) (c.print (now + 3600)) payload))

  verify-sent_text :
      (later : ℕ)
      → verify_authorisation_header_bytes c later sent_text payload public ≡ verdict_at now later
  unfolding verify_authorisation_header_bytes
  verify-sent_text later =
      rw
        (
          pair.public_size,
          parse-sent_text,
          documented.reads now,
          documented.reads (now + 3600),
          documented.decodes signed,
          pair.verifies (signing_string c (c.print now) (c.print (now + 3600)) payload),
        )
        (ground arith)

  created-sent_text :
      (private_key header : String)
      → signing_key c (c.decode private_key) ≡ some key
      → create_authorisation_header c now payload private_key subscriber_id unique_key_id
        ≡ some header
      → header ≡ sent_text
  unfolding create_authorisation_header
  created-sent_text private_key header h k =
      let made : signed_header c now payload subscriber_id unique_key_id
            (signing_key c (c.decode private_key))
          ≡ some sent_text =
        rw h refl in
      ground arith

  -- The header that the signer makes, of identifiers without quotation marks, is read back whole, and its
  -- key identifier gives the two identifiers when they have no bar.
  pub parse-create :
      (private_key header : String)
      → signing_key c (c.decode private_key) ≡ some key
      → create_authorisation_header c now payload private_key subscriber_id unique_key_id
        ≡ some header
      → has_char b'|' subscriber_id ≡ false
      → has_char b'|' unique_key_id ≡ false
      → (parse_auth_header header ≡ some sent)
        × (parse_key_id sent.key_id ≡ some (subscriber_id, unique_key_id))
  parse-create private_key header h k bar bar' =
      rw (created-sent_text private_key header h k)
        (parse-sent_text, parse_key_id-key_id_text subscriber_id unique_key_id bar bar')

  pub verify-create_bytes :
      (private_key header : String) (later : ℕ)
      → signing_key c (c.decode private_key) ≡ some key
      → create_authorisation_header c now payload private_key subscriber_id unique_key_id
        ≡ some header
      → verify_authorisation_header_bytes c later header payload public ≡ verdict_at now later
  verify-create_bytes private_key header later h k =
      rw (created-sent_text private_key header h k) (verify-sent_text later)

  -- For a subscriber and a key identifier without a quotation mark, a private key that gives the signing
  -- key of a pair, and the primitives as documented, the verifier accepts the header that the signer
  -- makes for the same body, with the public key of the pair, from the second of its creation to an hour
  -- later; before it says not yet valid, and after it says expired.
  pub verify-create :
      (private_key header public_key : String) (later : ℕ)
      → signing_key c (c.decode private_key) ≡ some key
      → create_authorisation_header c now payload private_key subscriber_id unique_key_id
        ≡ some header
      → c.decode public_key ≡ some public
      → verify_authorisation_header c later header payload public_key ≡ verdict_at now later
  unfolding verify_authorisation_header
  verify-create private_key header public_key later h k l =
      rw (created-sent_text private_key header h k, parse-sent_text, l) (verify-sent_text later)
