-- ===== src/RunLog/Agreement.antt =====
-- redis_store.go and memory_store.go: when the two stores agree, and `RecordTimestamp`, which keeps it.
use load_test_backend.Base.{
  ℕ, ◌+◌, ◌≡◌, refl, ap, ◌∙◌, Bool-cases, inl, inr, String, Option, none, some, [], ◌∷◌, map, ◌==◌,
  string_eq, arith, Assoc, lookup, insert, lookup-insert, if◌then◌else◌,
}
use load_test_backend.Store.{Result, ok, err}
use load_test_backend.RunLog.{
  MemoryStore, bucket_key, incomplete, bucket_or_new, put_in, counter_or_zero, record_timestamp,
}
use load_test_backend.RunLog.Redis.{
  Bytes, raw, nanos, Value, hash, counter, RedisLog, LogEnv, entry, hash_key, timestamp_hash_key,
  counter_key, client_hset, client_expire, then_expire, redis_record_timestamp,
}
use load_test_backend.RunLog.RedisKeys.{
  Bucket, HasPlainNames, bucket_key-same, timestamp_hash_key-same, timestamp-counter_apart,
  timestamp-hash_apart,
}
use load_test_backend.RunLog.RedisSteps.{
  value_of, AllLast, IsSmooth, hash_after, counter_after, client_hset-HasWritten, AllLast-wrote,
}

module _ {V : Type 0} (f : V → Bytes) where
  -- The fields of a bucket as the hash has them.
  abbrev pub field_values : Assoc String V → Assoc String Bytes
  field_values b = map (λ e. (e.0, f e.1)) b

  abbrev pub hash_of : Option (Assoc String V) → Option Value
  hash_of none = none
  hash_of (some b) = some (hash (field_values b))

  pub lookup-field_values :
      (txn_id : String) (b : Assoc String V)
      → lookup txn_id (field_values b)
        ≡ elim (lookup txn_id b) [ none ↦ none | some v ↦ some (f v) ]
  unfolding lookup
  lookup-field_values txn_id [] = refl
  lookup-field_values txn_id ((k, v) ∷ b) = ground (arith, lookup-field_values txn_id b)

  pub insert-field_values :
      (txn_id : String) (v : V) (b : Assoc String V)
      → insert txn_id (f v) (field_values b) ≡ field_values (insert txn_id v b)
  unfolding insert
  insert-field_values txn_id v [] = refl
  insert-field_values txn_id v ((k, w) ∷ b) = ground (arith, insert-field_values txn_id v b)

  pub hash_after-hash_of :
      (txn_id : String) (v : V) (o : Option (Assoc String V))
      → hash_after txn_id (f v) (hash_of o)
        ≡ some (hash (field_values (insert txn_id v (bucket_or_new o))))
  unfolding insert
  hash_after-hash_of txn_id v none = refl
  hash_after-hash_of txn_id v (some b) = ap (λ h. some (hash h)) (insert-field_values txn_id v b)

abbrev pub counter_of : Option ℕ → Option Value
counter_of none = none
counter_of (some n) = some (counter n)

pub counter_after-counter_of :
    (o : Option ℕ) → counter_after (counter_of o) ≡ some (counter (counter_or_zero o + 1))
counter_after-counter_of none = refl
counter_after-counter_of (some n) = refl

-- The two stores hold the same up to the horizon.
pub record Agrees (horizon : ℕ) (m : MemoryStore) (s : RedisLog) : Type 0 where
  pub last : AllLast horizon s
  pub payloads :
      (b : Bucket)
      → HasPlainNames b
      → value_of (lookup (hash_key b.run_id b.pipeline b.action) s)
        ≡ hash_of raw (lookup (bucket_key b.run_id b.pipeline b.action) m.data_of)
  pub times :
      (b : Bucket)
      → HasPlainNames b
      → value_of (lookup (timestamp_hash_key b.run_id b.pipeline b.action) s)
        ≡ hash_of nanos (lookup (bucket_key b.run_id b.pipeline b.action) m.timestamps)
  pub counts :
      (b : Bucket)
      → HasPlainNames b
      → value_of (lookup (counter_key b.run_id b.pipeline b.action) s)
        ≡ counter_of (lookup (bucket_key b.run_id b.pipeline b.action) m.counters)

-- What a write leaves for the key and for the others.
abbrev pub Wrote : LogEnv → String → Value → RedisLog → RedisLog → Type 0
Wrote env key w s s' =
    (j : String)
    → lookup j s' ≡ (if key == j then some (entry w (some (env.now + env.ttl))) else lookup j s)

pub value_of-Wrote :
    (env : LogEnv) (key : String) (w : Value) (s s' : RedisLog) (j : String)
    → Wrote env key w s s'
    → value_of (lookup j s') ≡ (if key == j then some w else value_of (lookup j s))
value_of-Wrote env key w s s' j wrote = rw (wrote j) (ground arith)

pub then_expire-ok :
    (env : LogEnv) (key : String) (r : Result (Unit {0})) (s : RedisLog)
    (next : RedisLog → Result (Unit {0}) × RedisLog)
    → r ≡ ok tt
    → then_expire env key (r, s) next ≡ next (client_expire env key s)
then_expire-ok env key (ok u) s next h = refl
then_expire-ok env key (err e) s next h = ground arith

abbrev pub DoneAgreeing : ℕ → MemoryStore → Result (Unit {0}) × RedisLog → Type 0
DoneAgreeing horizon m p = (p.0 ≡ ok tt) × Agrees horizon m p.1

module _ (horizon : ℕ) (env : LogEnv) (smooth : IsSmooth horizon env) (b : Bucket)
    (h : HasPlainNames b) (txn_id : String) (m : MemoryStore) (s : RedisLog)
    (agrees : Agrees horizon m s) where
  abbrev key : String
  key = bucket_key b.run_id b.pipeline b.action

  Agrees-time :
      (t : ℕ) (s' : RedisLog)
      → Wrote env
          (timestamp_hash_key b.run_id b.pipeline b.action)
          (hash (field_values nanos (insert txn_id t (bucket_or_new (lookup key m.timestamps)))))
          s
          s'
      → Agrees horizon (record m { timestamps = put_in key txn_id t m.timestamps }) s'
  unfolding put_in
  Agrees-time t s' wrote = record {
    last = AllLast-wrote horizon env smooth _ _ s s' wrote agrees.last;
    payloads = λ c k. ground (
      arith,
      value_of-Wrote env _ _ s s' (hash_key c.run_id c.pipeline c.action) wrote,
      timestamp-hash_apart c b k h,
      agrees.payloads c k,
    );
    times = λ c k. ground (
      arith,
      value_of-Wrote env _ _ s s' (timestamp_hash_key c.run_id c.pipeline c.action) wrote,
      timestamp_hash_key-same b c h k,
      bucket_key-same b c h k,
      lookup-insert key (bucket_key c.run_id c.pipeline c.action)
          (insert txn_id t (bucket_or_new (lookup key m.timestamps))) m.timestamps,
      agrees.times c k,
    );
    counts = λ c k. ground (
      arith,
      value_of-Wrote env _ _ s s' (counter_key c.run_id c.pipeline c.action) wrote,
      timestamp-counter_apart b c h k,
      agrees.counts c k,
    );
  }

  -- A call of `RecordTimestamp`.
  pub timestamp-DoneAgreeing :
      (t : ℕ)
      → DoneAgreeing horizon
          (record_timestamp b.run_id b.pipeline b.action txn_id t m)
          (redis_record_timestamp env b.run_id b.pipeline b.action txn_id t s)
  unfolding record_timestamp redis_record_timestamp
  timestamp-DoneAgreeing t = elim (Bool-cases (incomplete b.run_id b.pipeline b.action txn_id)) [
    | inl e ↦ rw e (refl, agrees)
    | inr e ↦
        let tk = timestamp_hash_key b.run_id b.pipeline b.action in
        let p = client_hset env tk txn_id (nanos t) s in
        let step = client_hset-HasWritten horizon env smooth tk _ s agrees.last txn_id (nanos t) (
          ap (hash_after txn_id (nanos t)) (agrees.times b h)
          ∙ hash_after-hash_of nanos txn_id t _) in
        rw (e, then_expire-ok env tk p.0 p.1 (λ s'. (ok tt, s')) step.done)
          (refl, Agrees-time t _ step.wrote)
  ]
