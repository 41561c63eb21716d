-- ===== src/Coordinator/Records.antt =====
-- internal/domain/pipeline/coordinator.go: what is read of a transaction after a call of the run log.
use load_test_backend.Base.{
  ℕ, ◌≡◌, eq_refl, String, false, Option, none, some, Assoc, ◌==◌, string_eq, arith, lookup,
  lookup-insert, insert, if◌then◌else◌,
}
use load_test_backend.Json.{Payload}
use load_test_backend.Store.{ok}
use load_test_backend.RunLog.{
  MemoryStore, record_payload, record_timestamp, get_payload, get_timestamp, bucket_key,
  bucket_or_new, put_in, found_in,
}

found_in-insert :
    {V : Type 0} (o : Option (Assoc String V)) (txn_id other : String) (v : V)
    → found_in (some (insert txn_id v (bucket_or_new o))) other
      ≡ (if txn_id == other then ok v else found_in o other)
unfolding lookup insert
found_in-insert none txn_id other v = ground arith
found_in-insert (some b) txn_id other v = ground (arith, lookup-insert txn_id other v b)

module _ (run_id action : String) (named : (run_id == "") ≡ false)
    (acted : (action == "") ≡ false) where
  -- What is read for a transaction after a call for another one, and after one for itself.
  pub payload-record :
      (txn_id other : String) (p : Payload) (s : MemoryStore)
      → (txn_id == "") ≡ false
      → get_payload run_id "pipeline_b" action other
          (record_payload run_id "pipeline_b" action txn_id p s)
        ≡ (if txn_id == other then ok p else get_payload run_id "pipeline_b" action other s)
  unfolding get_payload record_payload put_in
  payload-record txn_id other p s h =
      let key = bucket_key run_id "pipeline_b" action in
      ground (
        arith,
        eq_refl key,
        lookup-insert key key (insert txn_id p (bucket_or_new (lookup key s.data_of))) s.data_of,
        found_in-insert (lookup key s.data_of) txn_id other p,
      )

  pub time-record :
      (txn_id other : String) (t : ℕ) (s : MemoryStore)
      → (txn_id == "") ≡ false
      → get_timestamp run_id "pipeline_b" action other
          (record_timestamp run_id "pipeline_b" action txn_id t s)
        ≡ (if txn_id == other then ok t else get_timestamp run_id "pipeline_b" action other s)
  unfolding get_timestamp record_timestamp put_in
  time-record txn_id other t s h =
      let key = bucket_key run_id "pipeline_b" action in
      ground (
        arith,
        eq_refl key,
        lookup-insert key key (insert txn_id t (bucket_or_new (lookup key s.timestamps)))
            s.timestamps,
        found_in-insert (lookup key s.timestamps) txn_id other t,
      )

  pub payload-record_timestamp :
      (txn_id other : String) (t : ℕ) (s : MemoryStore)
      → get_payload run_id "pipeline_b" action other
          (record_timestamp run_id "pipeline_b" action txn_id t s)
        ≡ get_payload run_id "pipeline_b" action other s
  unfolding get_payload record_timestamp
  payload-record_timestamp txn_id other t s = ground arith

  pub time-record_payload :
      (txn_id other : String) (p : Payload) (s : MemoryStore)
      → get_timestamp run_id "pipeline_b" action other
          (record_payload run_id "pipeline_b" action txn_id p s)
        ≡ get_timestamp run_id "pipeline_b" action other s
  unfolding get_timestamp record_payload
  time-record_payload txn_id other p s = ground arith
