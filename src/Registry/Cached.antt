-- ===== src/Registry/Cached.antt =====
-- http_client.go: what the cache keeps, and when a key is looked up again.
use Prim.Native.String.{◌++◌ as cat}
use load_test_backend.Base.{
  ℕ, ◌+◌, ◌≡◌, ◌≤◌, refl, ap, sym, subst, ◌∙◌, String, true, ◌||◌, Option, none, some, List, [],
  ◌∷◌, lookup, lookup-insert, leb, ltb, Bool-cases, inl, inr, ◌==◌, string_eq, eq_refl, arith,
  if◌then◌else◌,
}
use load_test_backend.Auth.Signing.{Crypto}
use load_test_backend.Registry.{
  RegistryConfig, RegistryEnv, CachedKey, Cache, Found, found, failed, Answer, no_answer, answer,
  LookupResponseItem, first_non_empty, cached_entry, get_cached, set_cached, expiry_or, expires_at,
  sized_key, key_of, keep, from_items, from_answer, send_request, cache_key, or_request,
  get_public_key_by_ukid, decode_response, request_header,
}

module _ (c : Crypto) where
  -- Every key in the cache has 32 bytes.
  abbrev pub AllFit : Cache c → Type 0
  AllFit cache =
      (key : String) (rec : CachedKey c) → lookup key cache ≡ some rec → c.size rec.pub_key ≡ 32

  -- A key that is returned has 32 bytes, and stays in the cache with a deadline that is not over; an error
  -- leaves the cache as it was.
  abbrev pub IsKept : ℕ → String → Cache c → Found c.Bytes × Cache c → Type 0
  IsKept now key cache (found pk, cache') =
      ((rec : CachedKey c) × (lookup key cache' ≡ some rec)
        × (rec.pub_key ≡ pk)
        × (now ≤ rec.expires_at))
      × (c.size pk ≡ 32)
      × AllFit cache'
  IsKept now key cache (failed e, cache') = cache' ≡ cache

  expires_at-after :
      (cfg : RegistryConfig) (env : RegistryEnv c) (item : LookupResponseItem)
      → env.now ≤ expires_at c cfg env item
  unfolding expires_at
  expires_at-after cfg env item =
      let raw = first_non_empty (item.valid_until ∷ item.valid_to ∷ []) in
      by-time (if raw == "" then none else env.parse_time raw)
    where
      by-time : (o : Option ℕ) → env.now ≤ expiry_or c env.now (env.now + cfg.cache_ttl) o
      by-time none = omega arith
      by-time (some t) = ground arith

  sized_key-size : (o : Option c.Bytes) (pk : c.Bytes) → sized_key c o ≡ found pk → c.size pk ≡ 32
  sized_key-size none pk h = ground arith
  sized_key-size (some key) pk h = ground arith

  key_of-size :
      (item : LookupResponseItem) (pk : c.Bytes) → key_of c item ≡ found pk → c.size pk ≡ 32
  unfolding key_of
  key_of-size item pk h =
      let text =
        first_non_empty (item.signing_public_key ∷ item.signing_public_key_2 ∷ item.pub_key ∷ []) in
      ground (arith, sized_key-size (c.decode text) pk)

  AllFit-set_cached :
      (key : String) (pk : c.Bytes) (t : ℕ) (cache : Cache c)
      → c.size pk ≡ 32
      → AllFit cache
      → AllFit (set_cached c key pk t cache)
  unfolding set_cached
  AllFit-set_cached key pk t cache h fit j rec e =
      let entry : CachedKey c = record { pub_key = pk; expires_at = t } in
      let here = lookup-insert key j entry cache in
      elim (Bool-cases (key == j)) [
        | inl same ↦ let is : some entry ≡ some rec = sym (here ∙ rw same refl) ∙ e in ground arith
        | inr other ↦ fit j rec (sym (here ∙ rw other refl) ∙ e)
      ]

  keep-IsKept :
      (now : ℕ) (key : String) (t : ℕ) (cache : Cache c) (r : Found c.Bytes)
      → now ≤ t
      → ((pk : c.Bytes) → r ≡ found pk → c.size pk ≡ 32)
      → AllFit cache
      → IsKept now key cache (keep c key t r cache)
  unfolding set_cached
  keep-IsKept now key t cache (failed e) h size fit = refl
  keep-IsKept now key t cache (found pk) h size fit =
      let entry : CachedKey c = record { pub_key = pk; expires_at = t } in
      (
        (entry, lookup-insert key key entry cache ∙ rw (eq_refl key) refl, refl, h),
        size pk refl,
        AllFit-set_cached key pk t cache (size pk refl) fit,
      )

  from_items-IsKept :
      (cfg : RegistryConfig) (env : RegistryEnv c) (key : String)
      (o : Option (List LookupResponseItem)) (cache : Cache c)
      → AllFit cache
      → IsKept env.now key cache (from_items c cfg env key o cache)
  from_items-IsKept cfg env key none cache fit = refl
  from_items-IsKept cfg env key (some []) cache fit = refl
  from_items-IsKept cfg env key (some (item ∷ items)) cache fit =
      keep-IsKept env.now key (expires_at c cfg env item) cache (key_of c item)
        (expires_at-after cfg env item) (key_of-size item) fit

  from_answer-IsKept :
      (cfg : RegistryConfig) (env : RegistryEnv c) (key : String) (a : Answer) (cache : Cache c)
      → AllFit cache
      → IsKept env.now key cache (from_answer c cfg env key a cache)
  from_answer-IsKept cfg env key no_answer cache fit = refl
  from_answer-IsKept cfg env key (answer status body) cache fit =
      elim (Bool-cases (ltb status 200 || leb 300 status)) [
        | inl e ↦ rw e refl
        | inr e ↦ rw e (from_items-IsKept cfg env key (decode_response body) cache fit)
      ]

  send_request-IsKept :
      (cfg : RegistryConfig) (env : RegistryEnv c) (key body : String) (h : Found (Option String))
      (cache : Cache c)
      → AllFit cache
      → IsKept env.now key cache (send_request c cfg env key body h cache)
  send_request-IsKept cfg env key body (failed e) cache fit = refl
  send_request-IsKept cfg env key body (found header) cache fit =
      from_answer-IsKept cfg env key (env.respond (cat cfg.base_url "lookup") body header) cache fit

  -- A hit is an entry of the cache.
  cached_entry-hit :
      (now : ℕ) (o : Option (CachedKey c)) (pk : c.Bytes)
      → cached_entry c now o ≡ some pk
      → (rec : CachedKey c) × (o ≡ some rec) × (rec.pub_key ≡ pk) × (now ≤ rec.expires_at)
  cached_entry-hit now none pk h = ground arith
  cached_entry-hit now (some rec) pk h = (rec, refl, ground arith, ground arith)

  or_request-IsKept :
      (cfg : RegistryConfig) (env : RegistryEnv c) (key body : String) (cache : Cache c)
      (o : Option c.Bytes)
      → get_cached c env.now key cache ≡ o
      → AllFit cache
      → IsKept env.now key cache (or_request c cfg env key body o cache)
  unfolding get_cached
  or_request-IsKept cfg env key body cache none h fit =
      send_request-IsKept cfg env key body (request_header c cfg env body) cache fit
  or_request-IsKept cfg env key body cache (some pk) h fit =
      let (rec, at, same, last) = cached_entry-hit env.now (lookup key cache) pk h in
      ((rec, at, same, last), sym (ap c.size same) ∙ fit key rec at, fit)

  -- When every key in the cache has 32 bytes, GetPublicKeyByUKID returns a key of 32 bytes, which it leaves in the cache
  -- with a deadline that is not over, and keeps the property of the cache; when it returns an error, the
  -- cache is unchanged.
  pub get_public_key-IsKept :
      (cfg : RegistryConfig) (env : RegistryEnv c) (subscriber_id uk_id : String) (cache : Cache c)
      → AllFit cache
      → IsKept env.now
          (cache_key c subscriber_id uk_id)
          cache
          (get_public_key_by_ukid c cfg env subscriber_id uk_id cache)
  unfolding get_public_key_by_ukid
  get_public_key-IsKept cfg env subscriber_id uk_id cache fit =
      elim (Bool-cases (cfg.base_url == "")) [
        | inl e ↦ rw e refl
        | inr e ↦ rw e (elim (Bool-cases (subscriber_id == "" || uk_id == "")) [
          | inl f ↦ rw f refl
          | inr f ↦
              rw f (or_request-IsKept cfg env (cache_key c subscriber_id uk_id) _ cache _ refl fit)
        ])
      ]

  abbrev or_kept : CachedKey c → Option (CachedKey c) → CachedKey c
  or_kept kept none = kept
  or_kept kept (some rec) = rec

  hit-again :
      (cfg : RegistryConfig) (env' : RegistryEnv c) (key body : String) (cache' : Cache c)
      (pk : c.Bytes) (rec : CachedKey c)
      → rec.pub_key ≡ pk
      → c.size pk ≡ 32
      → env'.now ≤ rec.expires_at
      → or_request c cfg env' key body (cached_entry c env'.now (some rec)) cache'
        ≡ (found pk, cache')
  hit-again cfg env' key body cache' pk rec same size l =
      let live : leb env'.now rec.expires_at ≡ true = ground arith in
      let sized : c.size rec.pub_key ≡ 32 = ap c.size same ∙ size in
      rw (live, sized) (ap (λ k. (found k, cache')) same)

  -- A key that was returned is returned again up to its deadline, whatever the registry answers then, and the
  -- cache stays as it is.
  pub get_public_key-again :
      (cfg : RegistryConfig) (env env' : RegistryEnv c) (subscriber_id uk_id : String)
      (cache cache' : Cache c) (pk : c.Bytes) (rec : CachedKey c)
      → AllFit cache
      → get_public_key_by_ukid c cfg env subscriber_id uk_id cache ≡ (found pk, cache')
      → lookup (cache_key c subscriber_id uk_id) cache' ≡ some rec
      → env'.now ≤ rec.expires_at
      → get_public_key_by_ukid c cfg env' subscriber_id uk_id cache' ≡ (found pk, cache')
  unfolding get_public_key_by_ukid get_cached
  get_public_key-again cfg env env' subscriber_id uk_id cache cache' pk rec fit h k l =
      let key = cache_key c subscriber_id uk_id in
      let ((kept, at, same, last), size, fit') =
        subst (IsKept env.now key cache) h
          (get_public_key-IsKept cfg env subscriber_id uk_id cache fit) in
      let is : kept ≡ rec = ap (or_kept kept) (sym at ∙ k) in
      let same' : rec.pub_key ≡ pk = sym (ap (λ r. r.pub_key) is) ∙ same in
      elim (Bool-cases (cfg.base_url == "")) [
        | inl e ↦ ground arith
        | inr e ↦ rw e (elim (Bool-cases (subscriber_id == "" || uk_id == "")) [
          | inl f ↦ ground arith
          | inr f ↦
              rw (f, k)
                (hit-again cfg env' key (env'.request_text subscriber_id uk_id) cache' pk rec same'
                  size l)
        ])
      ]
