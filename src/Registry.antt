-- ===== src/Registry.antt =====
-- internal/ports/registry/http_client.go: the client that looks up public keys, and its cache. The registry's answer,
-- the JSON text of a request, the parser of times and the signing are parameters; one call sees one time. The
-- methods lock the cache, so a call is one step.
pub mod Cached
use Prim.Native.Char.{code}
use Prim.Native.String.{◌++◌ as cat}
use load_test_backend.Base.{
  ℕ, ◌+◌, ◌*◌, ◌^◌, String, Bool, true, false, not, ◌&&◌, ◌||◌, Option, none, some, List, [], ◌∷◌,
  Assoc, lookup, insert, leb, ltb, nat_eq, ℤ, pos, negsuc, ◌==◌, string_eq, ◌>>=◌, if◌then◌else◌,
}
use load_test_backend.Json.{Json, Items, nil, cons, Fields, get, Payload, empty, malformed, doc}
use load_test_backend.Batch.Init.{struct_text, struct_fields, struct_items}
use load_test_backend.Session.Validation.{trim_space}
use load_test_backend.Auth.Signing.{Crypto, create_authorisation_header}

-- strings.HasSuffix(s, "/").
unfoldable pub ends_with_slash : String → Bool
ends_with_slash String.[] = false
ends_with_slash (String.◌∷◌ c s) =
    let rest = ends_with_slash s in if s == "" then nat_eq (code c) 47 else rest

pub record RegistryConfig : Type 0 where
  pub base_url : String
  pub signing_private_key : String
  pub signing_sub_id : String
  pub signing_ukid : String
  pub cache_ttl : ℕ

abbrev slash_url : String → String
slash_url url = if not (url == "") && not (ends_with_slash url) then cat url "/" else url

-- Ten minutes unless positive.
abbrev ttl_or_default : ℤ → ℕ
ttl_or_default (pos n) = if leb n 0 then 600 * 10 ^ 9 else n
ttl_or_default (negsuc n) = 600 * 10 ^ 9

unfoldable pub new_http_client : String → String → String → String → ℤ → RegistryConfig
new_http_client base_url private_key sub_id ukid cache_ttl = record {
  base_url = slash_url (trim_space base_url);
  signing_private_key = private_key;
  signing_sub_id = sub_id;
  signing_ukid = ukid;
  cache_ttl = ttl_or_default cache_ttl;
}

pub record LookupResponseItem : Type 0 where
  pub signing_public_key : String
  pub signing_public_key_2 : String
  pub pub_key : String
  pub valid_until : String
  pub valid_to : String

-- All seven members are decoded, the two identifiers for their type only.
unfoldable pub decode_item : Json → Option LookupResponseItem
decode_item j = do
  m ← struct_fields (some j)
  _ ← struct_text (get "subscriber_id" m)
  _ ← struct_text (get "ukId" m)
  signing_public_key ← struct_text (get "signing_public_key" m)
  signing_public_key_2 ← struct_text (get "signingPublicKey" m)
  pub_key ← struct_text (get "pub_key" m)
  valid_until ← struct_text (get "valid_until" m)
  valid_to ← struct_text (get "valid_to" m)
  some (record {
    signing_public_key = signing_public_key;
    signing_public_key_2 = signing_public_key_2;
    pub_key = pub_key;
    valid_until = valid_until;
    valid_to = valid_to;
  })

unfoldable pub decode_items : Items → Option (List LookupResponseItem)
decode_items nil = some []
decode_items (cons j js) = do item ← decode_item j; items ← decode_items js; some (item ∷ items)

unfoldable pub decode_response : Payload → Option (List LookupResponseItem)
decode_response empty = none
decode_response malformed = none
decode_response (doc j) = do js ← struct_items (some j); decode_items js

unfoldable pub first_non_empty : List String → String
first_non_empty [] = ""
first_non_empty (s ∷ rest) =
    let found = first_non_empty rest in if trim_space s == "" then found else trim_space s

pub data RegistryError : Type 0 where
  not_configured : RegistryError
  missing_names : RegistryError
  header_failed : RegistryError
  request_failed : RegistryError
  non_2xx : RegistryError
  bad_response : RegistryError
  empty_result : RegistryError
  missing_key : RegistryError
  bad_key_text : RegistryError
  bad_key_length : RegistryError

pub data Answer : Type 0 where
  no_answer : Answer
  answer : ℕ → Payload → Answer

pub data Found {ℓ} (A : Type ℓ) : Type ℓ where
  found : A → Found A
  failed : RegistryError → Found A

module _ (c : Crypto) where
  -- `Record`, by its key in the map.
  pub record CachedKey : Type 0 where
    pub pub_key : c.Bytes
    pub expires_at : ℕ

  abbrev pub Cache : Type 0
  Cache = Assoc String CachedKey

  -- What one call meets: the time, the registry's answer to a URL, a body and a header, and the texts outside.
  pub record RegistryEnv : Type 0 where
    pub now : ℕ
    pub unix : ℕ
    pub request_text : String → String → String
    pub parse_time : String → Option ℕ
    pub respond : String → String → Option String → Answer

  -- `none` is a miss: no entry, an expired one, or an empty key.
  abbrev pub cached_entry : ℕ → Option CachedKey → Option c.Bytes
  cached_entry now none = none
  cached_entry now (some rec) =
      if not (leb now rec.expires_at) || nat_eq (c.size rec.pub_key) 0
      then none
      else some rec.pub_key

  unfoldable pub get_cached : ℕ → String → Cache → Option c.Bytes
  get_cached now key cache = cached_entry now (lookup key cache)

  unfoldable pub set_cached : String → c.Bytes → ℕ → Cache → Cache
  set_cached key pk expires_at cache =
      insert key (record { pub_key = pk; expires_at = expires_at }) cache

  -- The Authorization header: none unless the three names of the signer are set.
  abbrev pub is_signing : RegistryConfig → Bool
  is_signing cfg =
      (not (cfg.signing_private_key == "") && not (cfg.signing_sub_id == ""))
      && not (cfg.signing_ukid == "")

  abbrev pub signed_header : Option String → Found (Option String)
  signed_header none = failed header_failed
  signed_header (some h) = found (some h)

  unfoldable pub request_header : RegistryConfig → RegistryEnv → String → Found (Option String)
  request_header cfg env body =
      if is_signing cfg
      then signed_header (
          create_authorisation_header c env.unix body cfg.signing_private_key cfg.signing_sub_id
            cfg.signing_ukid)
      else found none

  abbrev pub expiry_or : ℕ → ℕ → Option ℕ → ℕ
  expiry_or now fallback none = fallback
  expiry_or now fallback (some t) = if ltb now t then t else fallback

  -- parseExpiry, and the choice of the time to live.
  unfoldable pub expires_at : RegistryConfig → RegistryEnv → LookupResponseItem → ℕ
  expires_at cfg env item =
      let raw = first_non_empty (item.valid_until ∷ item.valid_to ∷ []) in
      expiry_or env.now (env.now + cfg.cache_ttl) (if raw == "" then none else env.parse_time raw)

  abbrev pub sized_key : Option c.Bytes → Found c.Bytes
  sized_key none = failed bad_key_text
  sized_key (some key) = if nat_eq (c.size key) 32 then found key else failed bad_key_length

  unfoldable pub key_of : LookupResponseItem → Found c.Bytes
  key_of item =
      let text =
        first_non_empty (item.signing_public_key ∷ item.signing_public_key_2 ∷ item.pub_key ∷ []) in
      if text == "" then failed missing_key else sized_key (c.decode text)

  abbrev pub keep : String → ℕ → Found c.Bytes → Cache → Found c.Bytes × Cache
  keep key deadline (failed e) cache = (failed e, cache)
  keep key deadline (found pk) cache = (found pk, set_cached key pk deadline cache)

  abbrev pub from_items :
      RegistryConfig
      → RegistryEnv
      → String
      → Option (List LookupResponseItem)
      → Cache
      → Found c.Bytes × Cache
  from_items cfg env key none cache = (failed bad_response, cache)
  from_items cfg env key (some []) cache = (failed empty_result, cache)
  from_items cfg env key (some (item ∷ items)) cache =
      keep key (expires_at cfg env item) (key_of item) cache

  abbrev pub from_answer :
      RegistryConfig → RegistryEnv → String → Answer → Cache → Found c.Bytes × Cache
  from_answer cfg env key no_answer cache = (failed request_failed, cache)
  from_answer cfg env key (answer status body) cache =
      if ltb status 200 || leb 300 status
      then (failed non_2xx, cache)
      else from_items cfg env key (decode_response body) cache

  abbrev pub send_request :
      RegistryConfig
      → RegistryEnv
      → String
      → String
      → Found (Option String)
      → Cache
      → Found c.Bytes × Cache
  send_request cfg env key body (failed e) cache = (failed e, cache)
  send_request cfg env key body (found header) cache =
      from_answer cfg env key (env.respond (cat cfg.base_url "lookup") body header) cache

  abbrev pub cache_key : String → String → String
  cache_key subscriber_id uk_id = cat subscriber_id (cat "|" uk_id)

  abbrev pub or_request :
      RegistryConfig
      → RegistryEnv
      → String
      → String
      → Option c.Bytes
      → Cache
      → Found c.Bytes × Cache
  or_request cfg env key body (some pk) cache = (found pk, cache)
  or_request cfg env key body none cache =
      send_request cfg env key body (request_header cfg env body) cache

  unfoldable pub get_public_key_by_ukid :
      RegistryConfig → RegistryEnv → String → String → Cache → Found c.Bytes × Cache
  get_public_key_by_ukid cfg env subscriber_id uk_id cache =
      let key = cache_key subscriber_id uk_id in
      if cfg.base_url == ""
      then (failed not_configured, cache)
      else if subscriber_id == "" || uk_id == ""
      then (failed missing_names, cache)
      else or_request cfg env key (env.request_text subscriber_id uk_id)
          (get_cached env.now key cache) cache
