-- ===== src/RunLog/RecordAgreement.antt =====
-- redis_store.go and memory_store.go: `Record` keeps the two stores in agreement.
use load_test_backend.Base.{
  ℕ, ◌+◌, ◌≡◌, refl, ap, ◌∙◌, Bool-cases, inl, inr, String, some, string_eq, arith, lookup, insert,
  lookup-insert,
}
use load_test_backend.Json.{Payload}
use load_test_backend.Store.{ok}
use load_test_backend.RunLog.{
  MemoryStore, bucket_key, incomplete, bucket_or_new, put_in, counter_or_zero, record_payload,
}
use load_test_backend.RunLog.Redis.{
  raw, Value, hash, counter, RedisLog, LogEnv, hash_key, timestamp_hash_key, counter_key,
  client_hset, client_incr, client_expire, then_expire, redis_record,
}
use load_test_backend.RunLog.RedisKeys.{
  Bucket, HasPlainNames, bucket_key-same, hash_key-same, counter_key-same, hash-timestamp_apart,
  hash-counter_apart, counter-hash_apart, counter-timestamp_apart,
}
use load_test_backend.RunLog.RedisSteps.{
  value_of, IsSmooth, hash_after, counter_after, client_hset-HasWritten, client_incr-HasWritten,
  AllLast-wrote,
}
use load_test_backend.RunLog.Agreement.{
  field_values, hash_after-hash_of, counter_after-counter_of, Agrees, Wrote, value_of-Wrote,
  then_expire-ok, DoneAgreeing,
}

module _ (horizon : ℕ) (env : LogEnv) (smooth : IsSmooth horizon env) (b : Bucket)
    (h : HasPlainNames b) (txn_id : String) (m : MemoryStore) (s : RedisLog)
    (agrees : Agrees horizon m s) where
  abbrev key : String
  key = bucket_key b.run_id b.pipeline b.action

  -- The two writes of `Record`.
  Agrees-payload :
      (payload : Payload) (s' s'' : RedisLog)
      → Wrote env
          (hash_key b.run_id b.pipeline b.action)
          (hash (field_values raw (insert txn_id payload (bucket_or_new (lookup key m.data_of)))))
          s
          s'
      → Wrote env
          (counter_key b.run_id b.pipeline b.action)
          (counter (counter_or_zero (lookup key m.counters) + 1))
          s'
          s''
      → Agrees horizon
          (record m {
            data_of = put_in key txn_id payload m.data_of;
            counters = insert key (counter_or_zero (lookup key m.counters) + 1) m.counters;
          })
          s''
  unfolding put_in
  Agrees-payload payload s' s'' wrote counted = record {
    last =
        AllLast-wrote horizon env smooth _ _ s' s'' counted
          (AllLast-wrote horizon env smooth _ _ s s' wrote agrees.last);
    payloads = λ c k. ground (
      arith,
      value_of-Wrote env _ _ s' s'' (hash_key c.run_id c.pipeline c.action) counted,
      value_of-Wrote env _ _ s s' (hash_key c.run_id c.pipeline c.action) wrote,
      counter-hash_apart c b k h,
      hash_key-same b c h k,
      bucket_key-same b c h k,
      lookup-insert key (bucket_key c.run_id c.pipeline c.action)
          (insert txn_id payload (bucket_or_new (lookup key m.data_of))) m.data_of,
      agrees.payloads c k,
    );
    times = λ c k. ground (
      arith,
      value_of-Wrote env _ _ s' s'' (timestamp_hash_key c.run_id c.pipeline c.action) counted,
      value_of-Wrote env _ _ s s' (timestamp_hash_key c.run_id c.pipeline c.action) wrote,
      counter-timestamp_apart c b k h,
      hash-timestamp_apart b c h k,
      agrees.times c k,
    );
    counts = λ c k. ground (
      arith,
      value_of-Wrote env _ _ s' s'' (counter_key c.run_id c.pipeline c.action) counted,
      value_of-Wrote env _ _ s s' (counter_key c.run_id c.pipeline c.action) wrote,
      hash-counter_apart b c h k,
      counter_key-same b c h k,
      bucket_key-same b c h k,
      lookup-insert key (bucket_key c.run_id c.pipeline c.action)
          (counter_or_zero (lookup key m.counters) + 1) m.counters,
      agrees.counts c k,
    );
  }

  counter-untouched :
      (w : Value) (s' : RedisLog)
      → Wrote env (hash_key b.run_id b.pipeline b.action) w s s'
      → counter_after (value_of (lookup (counter_key b.run_id b.pipeline b.action) s'))
        ≡ some (counter (counter_or_zero (lookup key m.counters) + 1))
  counter-untouched w s' wrote =
      rw
        (
          value_of-Wrote env _ w s s' (counter_key b.run_id b.pipeline b.action) wrote,
          hash-counter_apart b b h h,
          agrees.counts b h,
        )
        (counter_after-counter_of (lookup key m.counters))

  pub payload-DoneAgreeing :
      (payload : Payload)
      → DoneAgreeing horizon
          (record_payload b.run_id b.pipeline b.action txn_id payload m)
          (redis_record env b.run_id b.pipeline b.action txn_id payload s)
  unfolding record_payload redis_record
  payload-DoneAgreeing payload =
      elim (Bool-cases (incomplete b.run_id b.pipeline b.action txn_id)) [
        | inl e ↦ rw e (refl, agrees)
        | inr e ↦
            let hk = hash_key b.run_id b.pipeline b.action in
            let ck = counter_key b.run_id b.pipeline b.action in
            let p = client_hset env hk txn_id (raw payload) s in
            let step =
              client_hset-HasWritten horizon env smooth hk _ s agrees.last txn_id (raw payload) (
                ap (hash_after txn_id (raw payload)) (agrees.payloads b h)
                ∙ hash_after-hash_of raw txn_id payload _) in
            let s' = client_expire env hk p.1 in
            let q = client_incr env ck s' in
            let counted =
              client_incr-HasWritten horizon env smooth ck _ s'
                (AllLast-wrote horizon env smooth hk _ s s' step.wrote agrees.last)
                (counter-untouched _ s' step.wrote) in
            rw
              (
                e,
                then_expire-ok env hk p.0 p.1
                    (λ s'. then_expire env ck (client_incr env ck s') (λ s''. (ok tt, s'')))
                    step.done,
                then_expire-ok env ck q.0 q.1 (λ s''. (ok tt, s'')) counted.done,
              )
              (refl, Agrees-payload payload s' _ step.wrote counted.wrote)
      ]
