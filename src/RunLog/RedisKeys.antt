-- ===== src/RunLog/RedisKeys.antt =====
-- redis_store.go and memory_store.go: the keys of two buckets are equal only when the buckets are, if no
-- name of a bucket has a colon.
use Prim.Native.String.{◌++◌ as cat}
use load_test_backend.Base.{
  ℕ, suc, ◌≡◌, refl, ap, String, Bool, false, List, [], ◌∷◌, ◌&&◌, ◌==◌, string_eq, eq_iff, arith,
  has_char, split_n, split_n-append, cons-cat, split_n-whole, ◌∙◌,
}
use load_test_backend.RunLog.{bucket_key}
use load_test_backend.RunLog.Redis.{hash_key, timestamp_hash_key, counter_key}

-- The names of a bucket, which have no colon.
pub record Bucket : Type 0 where
  pub run_id : String
  pub pipeline : String
  pub action : String

abbrev pub has_colon : String → Bool
has_colon s = has_char b':' s

pub record HasPlainNames (b : Bucket) : Type 0 where
  pub run_id : has_colon b.run_id ≡ false
  pub pipeline : has_colon b.pipeline ≡ false
  pub action : has_colon b.action ≡ false

abbrev pub same_bucket : Bucket → Bucket → Bool
same_bucket b c = (b.run_id == c.run_id && b.pipeline == c.pipeline) && b.action == c.action

abbrev parts : String → List String
parts s = split_n b':' 5 s

split-colon :
    (more : ℕ) (s t : String)
    → has_colon s ≡ false
    → split_n b':' (suc more) (cat s (cat ":" t)) ≡ s ∷ split_n b':' more t
split-colon more s t h = rw (cons-cat ":" t) (split_n-append ":" more s t h)

split-bucket_key :
    (more : ℕ) (b : Bucket)
    → HasPlainNames b
    → split_n b':' (suc (suc (suc more))) (bucket_key b.run_id b.pipeline b.action)
      ≡ b.run_id ∷ b.pipeline ∷ b.action ∷ []
unfolding bucket_key
split-bucket_key more b h = simp (
  split-colon _ _ _ h.run_id,
  split-colon _ _ _ h.pipeline,
  split_n-whole b':' more b.action h.action,
)

split-hash_key :
    (b : Bucket)
    → HasPlainNames b
    → parts (hash_key b.run_id b.pipeline b.action)
      ≡ "runlog" ∷ b.run_id ∷ b.pipeline ∷ b.action ∷ []
unfolding hash_key has_char
split-hash_key b h =
    split-colon 4 "runlog" (bucket_key b.run_id b.pipeline b.action) refl
    ∙ ap (λ l. "runlog" ∷ l) (split-bucket_key 1 b h)

split-marked :
    (mark : String) (b : Bucket)
    → has_colon mark ≡ false
    → HasPlainNames b
    → parts (
        cat "runlog" (
          cat ":"
            (cat b.run_id (cat ":" (cat mark (cat ":" (cat b.pipeline (cat ":" b.action))))))))
      ≡ "runlog" ∷ b.run_id ∷ mark ∷ b.pipeline ∷ b.action ∷ []
unfolding has_char
split-marked mark b k h =
    let t2 = cat b.pipeline (cat ":" b.action) in
    let t1 = cat mark (cat ":" t2) in
    split-colon 4 "runlog" (cat b.run_id (cat ":" t1)) refl
    ∙ ap (λ l. "runlog" ∷ l)
        (split-colon 3 b.run_id t1 h.run_id
          ∙ ap (λ l. b.run_id ∷ l)
              (split-colon 2 mark t2 k
                ∙ ap (λ l. mark ∷ l)
                    (split-colon 1 b.pipeline b.action h.pipeline
                      ∙ ap (λ l. b.pipeline ∷ l) (split_n-whole b':' 0 b.action h.action))))

split-timestamp_hash_key :
    (b : Bucket)
    → HasPlainNames b
    → parts (timestamp_hash_key b.run_id b.pipeline b.action)
      ≡ "runlog" ∷ b.run_id ∷ "ts" ∷ b.pipeline ∷ b.action ∷ []
unfolding timestamp_hash_key has_char
split-timestamp_hash_key b h = split-marked "ts" b refl h

split-counter_key :
    (b : Bucket)
    → HasPlainNames b
    → parts (counter_key b.run_id b.pipeline b.action)
      ≡ "runlog" ∷ b.run_id ∷ "count" ∷ b.pipeline ∷ b.action ∷ []
unfolding counter_key has_char
split-counter_key b h = split-marked "count" b refl h

apart-sym : (x y : String) → (x == y) ≡ false → (y == x) ≡ false
apart-sym x y h = ground (arith, eq_iff x y, eq_iff y x)

module _ (b c : Bucket) (h : HasPlainNames b) (k : HasPlainNames c) where
  pub bucket_key-same :
      (bucket_key b.run_id b.pipeline b.action == bucket_key c.run_id c.pipeline c.action)
      ≡ same_bucket b c
  bucket_key-same = ground (
    arith,
    eq_iff (bucket_key b.run_id b.pipeline b.action) (bucket_key c.run_id c.pipeline c.action),
    eq_iff b.run_id c.run_id,
    eq_iff b.pipeline c.pipeline,
    eq_iff b.action c.action,
    split-bucket_key 1 b h,
    split-bucket_key 1 c k,
  )

  pub hash_key-same :
      (hash_key b.run_id b.pipeline b.action == hash_key c.run_id c.pipeline c.action)
      ≡ same_bucket b c
  hash_key-same = ground (
    arith,
    eq_iff (hash_key b.run_id b.pipeline b.action) (hash_key c.run_id c.pipeline c.action),
    eq_iff b.run_id c.run_id,
    eq_iff b.pipeline c.pipeline,
    eq_iff b.action c.action,
    split-hash_key b h,
    split-hash_key c k,
  )

  pub timestamp_hash_key-same :
      (timestamp_hash_key b.run_id b.pipeline b.action
        == timestamp_hash_key c.run_id c.pipeline c.action)
      ≡ same_bucket b c
  timestamp_hash_key-same = ground (
    arith,
    eq_iff (timestamp_hash_key b.run_id b.pipeline b.action)
        (timestamp_hash_key c.run_id c.pipeline c.action),
    eq_iff b.run_id c.run_id,
    eq_iff b.pipeline c.pipeline,
    eq_iff b.action c.action,
    split-timestamp_hash_key b h,
    split-timestamp_hash_key c k,
  )

  pub counter_key-same :
      (counter_key b.run_id b.pipeline b.action == counter_key c.run_id c.pipeline c.action)
      ≡ same_bucket b c
  counter_key-same = ground (
    arith,
    eq_iff (counter_key b.run_id b.pipeline b.action) (counter_key c.run_id c.pipeline c.action),
    eq_iff b.run_id c.run_id,
    eq_iff b.pipeline c.pipeline,
    eq_iff b.action c.action,
    split-counter_key b h,
    split-counter_key c k,
  )

  -- The keys of the three kinds never meet.
  pub hash-timestamp_apart :
      (hash_key b.run_id b.pipeline b.action == timestamp_hash_key c.run_id c.pipeline c.action)
      ≡ false
  hash-timestamp_apart = ground (
    arith,
    eq_iff (hash_key b.run_id b.pipeline b.action)
        (timestamp_hash_key c.run_id c.pipeline c.action),
    split-hash_key b h,
    split-timestamp_hash_key c k,
  )

  pub hash-counter_apart :
      (hash_key b.run_id b.pipeline b.action == counter_key c.run_id c.pipeline c.action) ≡ false
  hash-counter_apart = ground (
    arith,
    eq_iff (hash_key b.run_id b.pipeline b.action) (counter_key c.run_id c.pipeline c.action),
    split-hash_key b h,
    split-counter_key c k,
  )

  pub timestamp-counter_apart :
      (timestamp_hash_key b.run_id b.pipeline b.action == counter_key c.run_id c.pipeline c.action)
      ≡ false
  timestamp-counter_apart = ground (
    arith,
    eq_iff (timestamp_hash_key b.run_id b.pipeline b.action)
        (counter_key c.run_id c.pipeline c.action),
    eq_iff "ts" "count",
    split-timestamp_hash_key b h,
    split-counter_key c k,
  )

  pub timestamp-hash_apart :
      (timestamp_hash_key c.run_id c.pipeline c.action == hash_key b.run_id b.pipeline b.action)
      ≡ false
  timestamp-hash_apart =
      apart-sym (hash_key b.run_id b.pipeline b.action)
        (timestamp_hash_key c.run_id c.pipeline c.action) hash-timestamp_apart

  pub counter-hash_apart :
      (counter_key c.run_id c.pipeline c.action == hash_key b.run_id b.pipeline b.action) ≡ false
  counter-hash_apart =
      apart-sym (hash_key b.run_id b.pipeline b.action) (counter_key c.run_id c.pipeline c.action)
        hash-counter_apart

  pub counter-timestamp_apart :
      (counter_key c.run_id c.pipeline c.action == timestamp_hash_key b.run_id b.pipeline b.action)
      ≡ false
  counter-timestamp_apart =
      apart-sym (timestamp_hash_key b.run_id b.pipeline b.action)
        (counter_key c.run_id c.pipeline c.action) timestamp-counter_apart
