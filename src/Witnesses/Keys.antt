-- ===== src/Witnesses/Keys.antt =====
-- Signed headers and looked up keys, with toy encodings: a number is written in strokes, and the only signature
-- is the number 7.
use load_test_backend.Base.{
  ℕ, zero, suc, ◌≡◌, refl, ap, String, Bool, true, false, none, some, [], lookup, insert, string_eq,
  ◌==◌, has_char, nat_eq, arith, pos, if◌then◌else◌,
}
use load_test_backend.Json.{Payload, doc, arr, obj, cons, nil, field, end, str, get}
use load_test_backend.Auth.Signing.{
  Crypto, create_authorisation_header, header_text, key_id_text, verify_authorisation_header,
  accepted,
}
use load_test_backend.Registry.{
  RegistryConfig, RegistryEnv, CachedKey, found, answer, no_answer, set_cached,
  get_public_key_by_ukid, get_cached, request_header, decode_response, decode_items, decode_item,
  key_of, first_non_empty, expires_at,
}
use load_test_backend.Session.Validation.{trim_space}
use load_test_backend.Registry.Cached.{AllFit, get_public_key-again}
use load_test_backend.Callbacks.{signature_valid}
use load_test_backend.Callbacks.Signed.{verifier_of, signature_valid-create}
use load_test_backend.Auth.Parts.{cons-non_empty}
use load_test_backend.Auth.Acceptance.{IsDocumented, IsKeyPair, verify-create}

strokes : ℕ → String
strokes zero = "x"
strokes (suc n) = String.◌∷◌ "x" (strokes n)

count_strokes : String → ℕ
count_strokes String.[] = zero
count_strokes (String.◌∷◌ c s) = suc (count_strokes s)

less_one : ℕ → ℕ
less_one zero = zero
less_one (suc n) = n

abbrev toy : Crypto
toy = record {
  Bytes = ℕ;
  SigningKey = Unit {0};
  size = λ _. 32;
  first_32 = λ b. b;
  encode = strokes;
  decode = λ s. some (less_one (count_strokes s));
  sum_512 = λ _. 3;
  key_from_seed = λ _. tt;
  sign = λ _ _. 7;
  verify = λ _ _ signature. nat_eq signature 7;
  print = strokes;
  parse_int = λ s. some (pos (less_one (count_strokes s)));
}

count_strokes-strokes : (n : ℕ) → count_strokes (strokes n) ≡ suc n
unfolding strokes count_strokes
count_strokes-strokes zero = refl
count_strokes-strokes (suc n) = ap suc (count_strokes-strokes n)

read_back : (n : ℕ) → less_one (count_strokes (strokes n)) ≡ n
unfolding less_one
read_back n = rw (count_strokes-strokes n) refl

strokes-quote_free : (n : ℕ) → has_char 34 (strokes n) ≡ false
unfolding has_char strokes
strokes-quote_free zero = refl
strokes-quote_free (suc n) = strokes-quote_free n

strokes-non_empty : (n : ℕ) → (strokes n == "") ≡ false
unfolding strokes
strokes-non_empty zero = refl
strokes-non_empty (suc n) = cons-non_empty "x" (strokes n)

toy-IsDocumented : IsDocumented toy
toy-IsDocumented = record {
  decodes = λ b. ap some (read_back b);
  encode_quote_free = strokes-quote_free;
  reads = λ n. ap (λ m. some (pos m)) (read_back n);
  print_quote_free = strokes-quote_free;
  print_non_empty = strokes-non_empty;
}

toy-IsKeyPair : IsKeyPair toy tt 5
unfolding strokes
toy-IsKeyPair = record { public_size = refl; verifies = λ _. refl; signature_non_empty = λ _. refl }

abbrev sent_header : String
sent_header = header_text "seller.example|key-1|ed25519" (strokes 2) (strokes 3602) (strokes 7)

-- The signer at second 2, and the verifier an hour later and one second after that.
verify-create_example : verify_authorisation_header toy 3602 sent_header "{}" "xxxxxx" ≡ accepted
unfolding create_authorisation_header count_strokes less_one key_id_text has_char
verify-create_example =
    verify-create toy toy-IsDocumented tt 5 toy-IsKeyPair "seller.example" "key-1" "{}" 2 refl refl
      "secret" sent_header "xxxxxx" 3602 refl refl refl

abbrev config : RegistryConfig
config = record {
  base_url = "https://registry.example/";
  signing_private_key = "";
  signing_sub_id = "";
  signing_ukid = "";
  cache_ttl = 600;
}

-- A registry that answers with a key, and one that is away.
abbrev looked_up : Payload
looked_up = doc (arr (cons (obj (field "signing_public_key" (str "xxxxxx") end)) nil))

abbrev registry_at : ℕ → Bool → RegistryEnv toy
registry_at now up = record {
  now = now;
  unix = now;
  request_text = λ _ _. "{}";
  parse_time = λ _. none;
  respond = λ _ _ _. if up then answer 200 looked_up else no_answer;
}

empty-AllFit : AllFit toy []
empty-AllFit key rec h = refl

abbrev kept : CachedKey toy
kept = record { pub_key = 5; expires_at = 700 }

get_public_key-again_example :
    get_public_key_by_ukid toy config
      (registry_at 650 false)
      "seller.example"
      "key-1"
      (set_cached toy "seller.example|key-1" 5 700 [])
    ≡ (found 5, set_cached toy "seller.example|key-1" 5 700 [])
unfolding get_public_key_by_ukid set_cached count_strokes less_one get_cached lookup request_header
    decode_response decode_items decode_item get key_of first_non_empty trim_space expires_at insert
get_public_key-again_example =
    get_public_key-again toy config (registry_at 100 true) (registry_at 650 false) "seller.example"
      "key-1" [] (set_cached toy "seller.example|key-1" 5 700 []) 5 kept empty-AllFit refl refl
      (omega arith)

-- A callback that was signed at second 2 and comes at second 100.
signature_valid-create_example :
    signature_valid
      (verifier_of toy config (registry_at 100 true) [] (λ _. "{}"))
      sent_header
      looked_up
    ≡ true
unfolding create_authorisation_header key_id_text get_public_key_by_ukid set_cached count_strokes
    less_one get_cached lookup request_header decode_response decode_items decode_item get key_of
    first_non_empty trim_space expires_at insert has_char
signature_valid-create_example =
    signature_valid-create toy toy-IsDocumented tt 5 toy-IsKeyPair config (registry_at 100 true) []
      (λ _. "{}") "secret" "seller.example" "key-1" sent_header looked_up 2 refl refl refl refl refl
      refl refl
