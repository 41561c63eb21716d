-- ===== src/RunLog/Cleanup.antt =====
-- memory_store.go, `Cleanup`: what is left of a run, and of the others.
use Prim.Native.String.{◌++◌ as cat}
use text.Mathlib.TextLemmas.{cons-append, append_assoc}
use load_test_backend.Base.{
  ◌≡◌, refl, sym, String, true, false, none, [], ◌∷◌, string_eq, eq_iff, arith, lookup, Assoc,
  if◌then◌else◌,
}
use load_test_backend.Store.{err, missing}
use load_test_backend.RunLog.{
  MemoryStore, bucket_key, get_payload, count, get_timestamp, list_txn_ids, has_prefix, run_prefix,
  drop_run, cleanup,
}

has_prefix-nil : (s : String) → has_prefix s String.[] ≡ true
unfolding has_prefix
has_prefix-nil String.[] = refl
has_prefix-nil (String.◌∷◌ x s) = refl

has_prefix-cat : (p s : String) → has_prefix (cat p s) p ≡ true
unfolding has_prefix
has_prefix-cat String.[] s = has_prefix-nil (cat String.[] s)
has_prefix-cat (String.◌∷◌ x p) s = rw cons-append (ground (arith, has_prefix-cat p s))

module _ {V : Type 0} where
  lookup-drop_run :
      (prefix key : String) (t : Assoc String V)
      → lookup key (drop_run prefix t) ≡ (if has_prefix key prefix then none else lookup key t)
  unfolding lookup drop_run
  lookup-drop_run prefix key [] = ground arith
  lookup-drop_run prefix key ((k, v) ∷ t) =
      ground (arith, eq_iff k key, lookup-drop_run prefix key t)

-- The key of a bucket starts with its run and a colon.
has_prefix-bucket_key :
    (run_id pipeline action : String)
    → has_prefix (bucket_key run_id pipeline action) (run_prefix run_id) ≡ true
unfolding bucket_key
has_prefix-bucket_key run_id pipeline action =
    rw (sym (append_assoc run_id ":" (cat pipeline (cat ":" action))))
      (has_prefix-cat (run_prefix run_id) (cat pipeline (cat ":" action)))

module _ (run_id pipeline action : String) (s : MemoryStore) where
  -- After `Cleanup` of a run, no payload, count, send time or transaction of the run is left, under any
  -- pipeline and action.
  pub cleanup-run :
      ((txn_id : String)
        → get_payload run_id pipeline action txn_id (cleanup run_id s) ≡ err missing)
      × ((txn_id : String)
          → get_timestamp run_id pipeline action txn_id (cleanup run_id s) ≡ err missing)
      × (count run_id pipeline action (cleanup run_id s) ≡ 0)
      × (list_txn_ids run_id pipeline action (cleanup run_id s) ≡ [])
  unfolding get_payload get_timestamp count list_txn_ids cleanup
  cleanup-run =
      let key = bucket_key run_id pipeline action in
      let h = has_prefix-bucket_key run_id pipeline action in
      let d = lookup-drop_run (run_prefix run_id) key s.data_of in
      let c = lookup-drop_run (run_prefix run_id) key s.counters in
      let t = lookup-drop_run (run_prefix run_id) key s.timestamps in
      ((λ _. ground (arith, d)), (λ _. ground (arith, t)), ground (arith, c), ground (arith, t))

  -- `Cleanup` of another run leaves every payload, send time and count alone whose key does not start
  -- with that run and a colon.
  pub cleanup-other :
      (other : String)
      → has_prefix (bucket_key run_id pipeline action) (run_prefix other) ≡ false
      → ((txn_id : String)
          → get_payload run_id pipeline action txn_id (cleanup other s)
            ≡ get_payload run_id pipeline action txn_id s)
        × ((txn_id : String)
            → get_timestamp run_id pipeline action txn_id (cleanup other s)
              ≡ get_timestamp run_id pipeline action txn_id s)
        × (count run_id pipeline action (cleanup other s) ≡ count run_id pipeline action s)
  unfolding get_payload get_timestamp count cleanup
  cleanup-other other h =
      let key = bucket_key run_id pipeline action in
      let d = lookup-drop_run (run_prefix other) key s.data_of in
      let c = lookup-drop_run (run_prefix other) key s.counters in
      let t = lookup-drop_run (run_prefix other) key s.timestamps in
      ((λ _. ground (arith, d)), (λ _. ground (arith, t)), ground (arith, c))
