-- ===== src/Coordinator/Payloads.antt =====
-- coordinator.go, `preparePayload`: the transaction of the payload that goes out.
use load_test_backend.Base.{
  ℕ, ◌≡◌, refl, ◌∙◌, subst, sym, String, false, Option, none, some, arith, ◌==◌, string_eq,
  if◌then◌else◌,
}
use load_test_backend.Json.{str, obj, Fields, get, put, get_in, as_map, Payload, doc, get-put}
use load_test_backend.Callbacks.{text_or_none, extract_txn_id}
use load_test_backend.Coordinator.{
  Settings, corrupt_order, corrupt_for_stage, corrupted, put_back, corrupt_in_order,
  corrupt_in_message, stamp_context, put_text, Prepared, refused, prepared, sent_or_refused,
  prepare_context, prepare_payload,
}

get-put_text : (k j v : String) (m : Fields) → (k == j) ≡ false → get j (put_text k v m) ≡ get j m
get-put_text k j v m h = ground (arith, get-put k j (str v) m)

-- Stamping leaves the transaction of a context alone.
stamp-txn_id :
    (c : Settings) (m : Fields) → get "transaction_id" (stamp_context c m) ≡ get "transaction_id" m
unfolding stamp_context
stamp-txn_id c m =
    let uri = put_text "bap_uri" c.bap_uri m in
    let id = put_text "bap_id" c.bap_id uri in
    get-put_text "core_version" "transaction_id"
      (if c.core_version == "" then c.config_core_version else c.core_version) id refl
    ∙ get-put_text "bap_id" "transaction_id" c.bap_id uri refl
    ∙ get-put_text "bap_uri" "transaction_id" c.bap_uri m refl

-- A corrupted payload differs only in its message.
put_back-other :
    (env msg : Fields) (order : Option Fields) (env' : Fields) (k : String)
    → put_back env msg order ≡ some env'
    → ("message" == k) ≡ false
    → get k env' ≡ get k env
put_back-other env msg none env' k h q = ground arith
put_back-other env msg (some order) env' k h q =
    ground (arith, get-put "message" k (obj (put "order" (obj order) msg)) env)

in_order-other :
    (print : ℕ → String) (action : String) (idx : ℕ) (env msg : Fields) (order : Option Fields)
    (env' : Fields) (k : String)
    → corrupt_in_order print action idx env msg order ≡ some env'
    → ("message" == k) ≡ false
    → get k env' ≡ get k env
in_order-other print action idx env msg none env' k h q = ground arith
in_order-other print action idx env msg (some order) env' k h q =
    put_back-other env msg (corrupt_order print action idx order) env' k h q

in_message-other :
    (print : ℕ → String) (action : String) (idx : ℕ) (env : Fields) (msg : Option Fields)
    (env' : Fields) (k : String)
    → corrupt_in_message print action idx env msg ≡ some env'
    → ("message" == k) ≡ false
    → get k env' ≡ get k env
in_message-other print action idx env none env' k h q = ground arith
in_message-other print action idx env (some msg) env' k h q =
    in_order-other print action idx env msg (as_map (get "order" msg)) env' k h q

corrupted-other :
    (print : ℕ → String) (c : Settings) (action : String) (idx : ℕ) (env env' : Fields) (k : String)
    → corrupted print c action idx env ≡ some env'
    → ("message" == k) ≡ false
    → get k env' ≡ get k env
unfolding corrupt_for_stage
corrupted-other print c action idx env env' k h q =
    ground (arith, in_message-other print action idx env (as_map (get "message" env)) env' k)

-- What is known of a payload that goes out for a transaction.
abbrev pub Carries : Prepared → String → Type 0
Carries (refused txn) id = txn ≡ id
Carries (prepared body txn) id = (txn ≡ id) × (extract_txn_id body ≡ id)

sent-Carries :
    (o : Option Fields) (id : String)
    → ((env' : Fields) → o ≡ some env' → extract_txn_id (doc (obj env')) ≡ id)
    → Carries (sent_or_refused id o) id
sent-Carries none id h = refl
sent-Carries (some env') id h = (refl, h env' refl)

context-Carries :
    (print : ℕ → String) (c : Settings) (action : String) (idx : ℕ) (raw : Payload) (env m : Fields)
    → Carries
        (prepare_context print c action idx raw env (some m))
        (text_or_none (get "transaction_id" m))
unfolding extract_txn_id
context-Carries print c action idx raw env m =
    let stamped = put "context" (obj (stamp_context c m)) env in
    sent-Carries (corrupted print c action idx stamped) (text_or_none (get "transaction_id" m))
      λ env' h. ground (
        arith,
        corrupted-other print c action idx stamped env' "context" h refl,
        get-put "context" "context" (obj (stamp_context c m)) env,
        stamp-txn_id c m,
      )

module _ (print : ℕ → String) (c : Settings) (action : String) (idx : ℕ) where
  -- Whatever is stamped on a payload and however it is corrupted, a payload whose context is a map goes
  -- out, or is refused, under the transaction identifier that it came with, and a handler that gets the
  -- payload that goes out reads that same identifier from it.
  pub prepare_payload-txn_id :
      (env m : Fields)
      → as_map (get "context" env) ≡ some m
      → Carries
          (prepare_payload print c action idx (doc (obj env)))
          (extract_txn_id (doc (obj env)))
  unfolding prepare_payload extract_txn_id
  prepare_payload-txn_id env m h =
      subst
        (λ o.
          Carries (prepare_context print c action idx (doc (obj env)) env o)
            (text_or_none (get_in "transaction_id" o)))
        (sym h) (context-Carries print c action idx (doc (obj env)) env m)
