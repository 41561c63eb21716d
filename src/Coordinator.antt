-- ===== src/Coordinator.antt =====
-- internal/domain/pipeline/coordinator.go: the payload that a stage sends, and the deliberate errors.
-- A map of the source is changed in place; here the changed map is put back under its key. `print` is
-- `fmt.Sprintf` of an index.
pub mod Windows
pub mod Stages
pub mod Records
pub mod Logged
pub mod Payloads
use Prim.Native.String.{◌++◌ as cat}
use load_test_backend.Base.{
  ℕ, ◌+◌, ◌/◌, ◌%◌, String, Bool, true, false, not, ◌||◌, ◌&&◌, Option, none, some, leb, ltb, ◌==◌,
  string_eq, if◌then◌else◌,
}
use load_test_backend.Json.{
  Json, str, arr, obj, Items, nil, cons, Fields, get, put, as_map, as_items, Payload, doc,
  decode_map, get_in,
}
use load_test_backend.Callbacks.{text_or_none}

-- What the coordinator reads of its own fields and of the configuration.
pub record Settings : Type 0 where
  pub bap_uri : String
  pub bap_id : String
  pub core_version : String
  pub config_core_version : String
  pub error_inject_enabled : Bool
  pub error_inject_rps : ℕ

unfoldable pub wrong_count : ℕ → ℕ
wrong_count rps = if leb 10 rps then rps / 10 else 1

unfoldable pub should_corrupt : Settings → ℕ → Bool
unfolding wrong_count
should_corrupt c idx =
    if not c.error_inject_enabled || leb c.error_inject_rps 1
    then false
    else ltb (idx % c.error_inject_rps) (wrong_count c.error_inject_rps)

-- A list whose first element is a map, with `id` of that map set.
abbrev pub wrong_first : String → Option Items → Option Items
wrong_first id none = none
wrong_first id (some nil) = none
wrong_first id (some (cons x xs)) = elim (as_map (some x)) [
  | none ↦ none
  | some fs ↦ some (cons (obj (put "id" (str id) fs)) xs)
]

abbrev pub then_put : String → Option Items → Fields → Option Fields
then_put k none order = none
then_put k (some xs) order = some (put k (arr xs) order)

abbrev pub then_wrong : String → String → Option Fields → Option Fields
then_wrong k id none = none
then_wrong k id (some order) = then_put k (wrong_first id (as_items (get k order))) order

abbrev pub wrong_provider : Option Fields → Option Fields
wrong_provider none = none
wrong_provider (some order) = elim (as_map (get "provider" order)) [
  | none ↦ none
  | some p ↦ some (put "provider" (obj (put "id" (str "wrong-provider-id") p)) order)
]

abbrev pub wrong_state : (ℕ → String) → ℕ → Option Fields → Option Fields
wrong_state print idx none = none
wrong_state print idx (some order) = some (put "state" (str (cat "xyz-" (print idx))) order)

-- The order of a stage with its errors; `none` is an error of the function.
unfoldable pub corrupt_order : (ℕ → String) → String → ℕ → Fields → Option Fields
corrupt_order print action idx order =
    if action == "select"
    then wrong_provider (then_wrong "items" "wrong-item-id" (some order))
    else if action == "init"
    then then_wrong "fulfillments" "wrong-fulfillment-id"
        (then_wrong "items" "wrong-item-id" (some order))
    else if action == "confirm"
    then wrong_state print idx (then_wrong "fulfillments" "wrong-fulfillment-id" (some order))
    else some order

-- `msg["order"] = order; env["message"] = msg`, unless there was an error.
abbrev pub put_back : Fields → Fields → Option Fields → Option Fields
put_back env msg none = none
put_back env msg (some order) = some (put "message" (obj (put "order" (obj order) msg)) env)

module _ (print : ℕ → String) (action : String) (idx : ℕ) (env : Fields) where
  abbrev pub corrupt_in_order : Fields → Option Fields → Option Fields
  corrupt_in_order msg none = none
  corrupt_in_order msg (some order) = put_back env msg (corrupt_order print action idx order)

  abbrev pub corrupt_in_message : Option Fields → Option Fields
  corrupt_in_message none = none
  corrupt_in_message (some msg) = corrupt_in_order msg (as_map (get "order" msg))

-- corruptForStage.
unfoldable pub corrupt_for_stage : (ℕ → String) → String → ℕ → Fields → Option Fields
unfolding corrupt_order
corrupt_for_stage print action idx env =
    corrupt_in_message print action idx env (as_map (get "message" env))

abbrev pub put_text : String → String → Fields → Fields
put_text k v m = if v == "" then m else put k (str v) m

-- The context that goes out.
unfoldable pub stamp_context : Settings → Fields → Fields
stamp_context c m =
    put_text "core_version" (if c.core_version == "" then c.config_core_version else c.core_version)
      (put_text "bap_id" c.bap_id (put_text "bap_uri" c.bap_uri m))

-- What preparePayload returns: an error with the transaction, or the bytes and the transaction.
pub data Prepared : Type 0 where
  refused : String → Prepared
  prepared : Payload → String → Prepared

abbrev pub sent_or_refused : String → Option Fields → Prepared
sent_or_refused txn_id none = refused txn_id
sent_or_refused txn_id (some env) = prepared (doc (obj env)) txn_id

abbrev pub corrupted : (ℕ → String) → Settings → String → ℕ → Fields → Option Fields
corrupted print c action idx env =
    if should_corrupt c idx then corrupt_for_stage print action idx env else some env

abbrev pub prepare_context :
    (ℕ → String) → Settings → String → ℕ → Payload → Fields → Option Fields → Prepared
prepare_context print c action idx raw env none = prepared raw ""
prepare_context print c action idx raw env (some m) =
    sent_or_refused (text_or_none (get "transaction_id" m))
      (corrupted print c action idx (put "context" (obj (stamp_context c m)) env))

abbrev pub prepare_decoded :
    (ℕ → String) → Settings → String → ℕ → Payload → Option (Option Fields) → Prepared
prepare_decoded print c action idx raw none = refused ""
prepare_decoded print c action idx raw (some none) = prepared raw ""
prepare_decoded print c action idx raw (some (some env)) =
    prepare_context print c action idx raw env (as_map (get "context" env))

unfoldable pub prepare_payload : (ℕ → String) → Settings → String → ℕ → Payload → Prepared
unfolding corrupt_for_stage stamp_context should_corrupt
prepare_payload print c action idx raw = prepare_decoded print c action idx raw (decode_map raw)
