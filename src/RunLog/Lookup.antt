-- ===== src/RunLog/Lookup.antt =====
-- memory_store.go: what a recorded payload changes for the readers.
use load_test_backend.Base.{
  ℕ, ◌+◌, ◌≡◌, String, false, Option, none, some, List, [], ◌∷◌, ◌==◌, string_eq, eq_refl, arith,
  Assoc, lookup, insert, lookup-insert, if◌then◌else◌,
}
use load_test_backend.Json.{Payload}
use load_test_backend.Store.{ok}
use load_test_backend.RunLog.{
  MemoryStore, bucket_key, incomplete, bucket_or_new, put_in, found_in, record_payload, get_payload,
}

found_in-insert :
    (o : Option (Assoc String Payload)) (txn_id j : String) (v : Payload)
    → found_in (some (insert txn_id v (bucket_or_new o))) j
      ≡ (if txn_id == j then ok v else found_in o j)
unfolding lookup insert
found_in-insert none txn_id j v = ground arith
found_in-insert (some b) txn_id j v = ground (arith, lookup-insert txn_id j v b)

module _ (run_id pipeline action txn_id : String) (payload : Payload) (s : MemoryStore) where
  -- After `Record` with four identifiers that are not empty, `Get` under the same run, pipeline and
  -- action finds the payload for this transaction, and for any other what it found before.
  pub get-record :
      (txn_id' : String)
      → incomplete run_id pipeline action txn_id ≡ false
      → get_payload run_id pipeline action txn_id'
          (record_payload run_id pipeline action txn_id payload s)
        ≡ (if txn_id == txn_id' then ok payload else get_payload run_id pipeline action txn_id' s)
  unfolding get_payload record_payload put_in
  get-record txn_id' h =
      let key = bucket_key run_id pipeline action in
      ground (
        arith,
        lookup-insert key key (insert txn_id payload (bucket_or_new (lookup key s.data_of)))
            s.data_of,
        eq_refl key,
        found_in-insert (lookup key s.data_of) txn_id txn_id' payload,
      )

-- A call of `Record`.
pub record Call : Type 0 where
  pub run_id : String
  pub pipeline : String
  pub action : String
  pub txn_id : String
  pub payload : Payload

unfoldable pub record_all : List Call → MemoryStore → MemoryStore
record_all [] s = s
record_all (c ∷ cs) s =
    record_all cs (record_payload c.run_id c.pipeline c.action c.txn_id c.payload s)

-- The calls that count for a bucket: those with no empty identifier and with its key.
unfoldable pub counting : String → List Call → ℕ
counting key [] = 0
counting key (c ∷ cs) =
    (if incomplete c.run_id c.pipeline c.action c.txn_id
      then 0
      else if bucket_key c.run_id c.pipeline c.action == key
      then 1
      else 0)
    + counting key cs
