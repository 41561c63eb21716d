-- ===== src/RunLog/Refinement.antt =====
-- redis_store.go and memory_store.go implement one interface: after the same calls, the readers of the two
-- stores answer alike.
use load_test_backend.Base.{
  ℕ, ◌≡◌, refl, ap, String, Option, none, some, List, [], ◌∷◌, map, All, string_eq, arith, Assoc,
  lookup, Entry,
}
use load_test_backend.Json.{Payload}
use load_test_backend.Store.{Result, ok, err}
use load_test_backend.RunLog.{
  MemoryStore, new_memory_store, bucket_key, bucket_or_new, found_in, counter_or_zero,
  record_payload, record_timestamp, get_payload, get_timestamp, list_txn_ids, count,
}
use load_test_backend.RunLog.Redis.{
  Bytes, raw, nanos, Value, RedisLog, LogEnv, hget, hgetall, get, hash_key, timestamp_hash_key,
  counter_key, live, fields_of, field_or_missing, parse_nanos, names, count_of, redis_record,
  redis_record_timestamp, redis_get, redis_get_timestamp, redis_list_txn_ids, redis_count,
}
use load_test_backend.RunLog.RedisKeys.{Bucket, HasPlainNames}
use load_test_backend.RunLog.RedisSteps.{value_of, IsSmooth, live-lasting}
use load_test_backend.RunLog.RecordAgreement.{payload-DoneAgreeing}
use load_test_backend.RunLog.Agreement.{
  field_values, hash_of, counter_of, Agrees, DoneAgreeing, timestamp-DoneAgreeing,
  lookup-field_values,
}

-- A call that writes to the run log.
pub data Write : Type 0 where
  write_payload : Bucket → String → Payload → Write
  write_time : Bucket → String → ℕ → Write

abbrev pub bucket_of : Write → Bucket
bucket_of (write_payload b txn_id payload) = b
bucket_of (write_time b txn_id t) = b

abbrev pub memory_write : Write → MemoryStore → MemoryStore
memory_write (write_payload b txn_id payload) m =
    record_payload b.run_id b.pipeline b.action txn_id payload m
memory_write (write_time b txn_id t) m = record_timestamp b.run_id b.pipeline b.action txn_id t m

abbrev pub redis_write : LogEnv → Write → RedisLog → Result (Unit {0}) × RedisLog
redis_write env (write_payload b txn_id payload) s =
    redis_record env b.run_id b.pipeline b.action txn_id payload s
redis_write env (write_time b txn_id t) s =
    redis_record_timestamp env b.run_id b.pipeline b.action txn_id t s

-- A call with the time and the server that it meets.
abbrev pub Call : Type 0
Call = LogEnv × Write

unfoldable pub memory_run : List Call → MemoryStore → MemoryStore
memory_run [] m = m
memory_run ((env, w) ∷ calls) m = memory_run calls (memory_write w m)

unfoldable pub redis_run : List Call → RedisLog → RedisLog
redis_run [] s = s
redis_run ((env, w) ∷ calls) s = redis_run calls (redis_write env w s).1

-- What the calls return.
unfoldable pub redis_results : List Call → RedisLog → List (Result (Unit {0}))
redis_results [] s = []
redis_results ((env, w) ∷ calls) s = let p = redis_write env w s in p.0 ∷ redis_results calls p.1

abbrev pub IsSmoothCall : ℕ → Call → Type 0
IsSmoothCall horizon c = IsSmooth horizon c.0 × HasPlainNames (bucket_of c.1)

write-DoneAgreeing :
    (horizon : ℕ) (env : LogEnv) (w : Write) (m : MemoryStore) (s : RedisLog)
    → IsSmooth horizon env
    → HasPlainNames (bucket_of w)
    → Agrees horizon m s
    → DoneAgreeing horizon (memory_write w m) (redis_write env w s)
write-DoneAgreeing horizon env (write_payload b txn_id payload) m s smooth h agrees =
    payload-DoneAgreeing horizon env smooth b h txn_id m s agrees payload
write-DoneAgreeing horizon env (write_time b txn_id t) m s smooth h agrees =
    timestamp-DoneAgreeing horizon env smooth b h txn_id m s agrees t

run-Agrees :
    (horizon : ℕ) (calls : List Call) (m : MemoryStore) (s : RedisLog)
    → All (IsSmoothCall horizon) calls
    → Agrees horizon m s
    → All (λ r. r ≡ ok tt) (redis_results calls s)
      × Agrees horizon (memory_run calls m) (redis_run calls s)
unfolding redis_results memory_run redis_run
run-Agrees horizon [] m s h agrees = (tt, agrees)
run-Agrees horizon ((env, w) ∷ calls) m s ((smooth, plain), h) agrees =
    let (done, agrees') = write-DoneAgreeing horizon env w m s smooth plain agrees in
    let (dones, agrees'') =
      run-Agrees horizon calls (memory_write w m) (redis_write env w s).1 h agrees' in
    ((done, dones), agrees'')

empty-Agrees : (horizon : ℕ) → Agrees horizon new_memory_store []
unfolding lookup
empty-Agrees horizon = record {
  last = λ _. tt;
  payloads = λ _ _. refl;
  times = λ _ _. refl;
  counts = λ _ _. refl;
}

fields_of-hash_of :
    {V : Type 0} (f : V → Bytes) (o : Option (Entry Value)) (x : Option (Assoc String V))
    → value_of o ≡ hash_of f x
    → fields_of o ≡ ok (field_values f (bucket_or_new x))
fields_of-hash_of f none none h = refl
fields_of-hash_of f none (some b) h = ground arith
fields_of-hash_of f (some e) none h = ground arith
fields_of-hash_of f (some e) (some b) h = ground arith

count_of-counter_of :
    (o : Option (Entry Value)) (x : Option ℕ)
    → value_of o ≡ counter_of x
    → count_of o ≡ ok (counter_or_zero x)
count_of-counter_of none none h = refl
count_of-counter_of none (some n) h = ground arith
count_of-counter_of (some e) none h = ground arith
count_of-counter_of (some e) (some n) h = ground arith

-- A payload as the bytes that HGET returns.
abbrev pub raw_result : Result Payload → Result Bytes
raw_result (err e) = err e
raw_result (ok p) = ok (raw p)

module _ {V : Type 0} (f : V → Bytes) where
  field-found :
      (txn_id : String) (x : Option (Assoc String V))
      → field_or_missing txn_id (ok (field_values f (bucket_or_new x)))
        ≡ elim (found_in x txn_id) [ err e ↦ err e | ok v ↦ ok (f v) ]
  unfolding lookup
  field-found txn_id none = refl
  field-found txn_id (some b) = ground (arith, lookup-field_values f txn_id b)

  names-field_values : (b : Assoc String V) → map (λ e. e.0) (field_values f b) ≡ map (λ e. e.0) b
  names-field_values [] = refl
  names-field_values (e ∷ b) = ap (λ l. e.0 ∷ l) (names-field_values b)

-- The readers of the two stores answer alike for one transaction of a bucket.
pub record ReadersAgree (env : LogEnv) (b : Bucket) (txn_id : String) (m : MemoryStore)
    (s : RedisLog) : Type 0 where
  pub payload :
      redis_get env b.run_id b.pipeline b.action txn_id s
      ≡ raw_result (get_payload b.run_id b.pipeline b.action txn_id m)
  pub time :
      redis_get_timestamp env b.run_id b.pipeline b.action txn_id s
      ≡ get_timestamp b.run_id b.pipeline b.action txn_id m
  pub counted :
      redis_count env b.run_id b.pipeline b.action s ≡ ok (count b.run_id b.pipeline b.action m)
  pub listed :
      redis_list_txn_ids env b.run_id b.pipeline b.action s
      ≡ ok (list_txn_ids b.run_id b.pipeline b.action m)

module _ (horizon : ℕ) (env : LogEnv) (b : Bucket) (txn_id : String) (smooth : IsSmooth horizon env)
    (plain : HasPlainNames b) (m : MemoryStore) (s : RedisLog) (agrees : Agrees horizon m s) where
  abbrev key : String
  key = bucket_key b.run_id b.pipeline b.action

  live_fields :
      fields_of (live env.now (hash_key b.run_id b.pipeline b.action) s)
      ≡ ok (field_values raw (bucket_or_new (lookup key m.data_of)))
  live_fields =
      rw
        (live-lasting horizon env.now (hash_key b.run_id b.pipeline b.action) s smooth.before
          agrees.last)
        (fields_of-hash_of raw _ (lookup key m.data_of) (agrees.payloads b plain))

  live_times :
      fields_of (live env.now (timestamp_hash_key b.run_id b.pipeline b.action) s)
      ≡ ok (field_values nanos (bucket_or_new (lookup key m.timestamps)))
  live_times =
      rw
        (live-lasting horizon env.now (timestamp_hash_key b.run_id b.pipeline b.action) s
          smooth.before agrees.last)
        (fields_of-hash_of nanos _ (lookup key m.timestamps) (agrees.times b plain))

  live_count :
      count_of (live env.now (counter_key b.run_id b.pipeline b.action) s)
      ≡ ok (counter_or_zero (lookup key m.counters))
  live_count =
      rw
        (live-lasting horizon env.now (counter_key b.run_id b.pipeline b.action) s smooth.before
          agrees.last)
        (count_of-counter_of _ (lookup key m.counters) (agrees.counts b plain))

  Agrees-ReadersAgree : ReadersAgree env b txn_id m s
  unfolding redis_get get_payload redis_get_timestamp get_timestamp redis_count count
      redis_list_txn_ids list_txn_ids
  Agrees-ReadersAgree = record {
    payload =
        rw (smooth.no_failure hget (hash_key b.run_id b.pipeline b.action), live_fields)
          (rw (field-found raw txn_id (lookup key m.data_of))
            (by-result (found_in (lookup key m.data_of) txn_id)));
    time =
        rw (smooth.no_failure hget (timestamp_hash_key b.run_id b.pipeline b.action), live_times)
          (rw (field-found nanos txn_id (lookup key m.timestamps))
            (by-time (found_in (lookup key m.timestamps) txn_id)));
    counted = rw (smooth.no_failure get (counter_key b.run_id b.pipeline b.action)) live_count;
    listed =
        rw (smooth.no_failure hgetall (timestamp_hash_key b.run_id b.pipeline b.action), live_times)
          (by-list (lookup key m.timestamps));
  }
    where
      by-result : (r : Result Payload) → elim r [ err e ↦ err e | ok v ↦ ok (raw v) ] ≡ raw_result r
      by-result (err e) = refl
      by-result (ok p) = refl

      by-time : (r : Result ℕ) → parse_nanos (elim r [ err e ↦ err e | ok v ↦ ok (nanos v) ]) ≡ r
      by-time (err e) = refl
      by-time (ok p) = refl

      by-list :
          (x : Option (Assoc String ℕ))
          → names (ok (field_values nanos (bucket_or_new x)))
            ≡ ok (elim x [ none ↦ [] | some c ↦ map (λ e. e.0) c ])
      by-list none = refl
      by-list (some c) = ap ok (names-field_values nanos c)

-- After any calls of `Record` and `RecordTimestamp`, in a window of one time to live in which no command fails,
-- and for names without a colon, the store in Redis has returned no error, and its readers `Get`,
-- `GetTimestamp`, `Count` and `ListTxnIDs` answer in this window what those of the store in memory answer.
pub redis_run-refines :
    (horizon : ℕ) (calls : List Call) (env : LogEnv) (b : Bucket) (txn_id : String)
    → All (IsSmoothCall horizon) calls
    → IsSmooth horizon env
    → HasPlainNames b
    → All (λ r. r ≡ ok tt) (redis_results calls [])
      × ReadersAgree env b txn_id (memory_run calls new_memory_store) (redis_run calls [])
redis_run-refines horizon calls env b txn_id h smooth plain =
    let (done, agrees) = run-Agrees horizon calls new_memory_store [] h (empty-Agrees horizon) in
    (done, Agrees-ReadersAgree horizon env b txn_id smooth plain _ _ agrees)
