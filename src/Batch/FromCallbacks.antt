-- ===== src/Batch/FromCallbacks.antt =====
-- internal/domain/pipeline/init_confirm_from_callbacks.go: buildBatchFromCallbacks and its two callers. The
-- run log is its `Get` method, so any store serves; the clock and the fresh identifiers are
-- read once for each transaction, by its position.
use load_test_backend.Base.{
  ℕ, ◌+◌, String, Bool, Option, none, some, List, [], ◌∷◌, not, ◌&&◌, ◌==◌, string_eq,
  if◌then◌else◌,
}
use load_test_backend.Json.{str, obj, Fields, get, put, as_map, as_string, Payload, decode_map}
use load_test_backend.Json.Edit.{map_or_new, default_value}
use load_test_backend.Store.{Result, ok, err}
use load_test_backend.Batch.Init.{enrich_init}
use load_test_backend.Batch.Confirm.{Drawn, enrich_confirm}

-- Method `Get` of the run log: run, pipeline, action and transaction.
abbrev pub Reader : Type 0
Reader = String → String → String → String → Result Payload

-- What is drawn or called outside: the numbers of encoding/json and fmt, time.Now and uuid.NewString.
pub record Outside : Type 0 where
  pub print : ℕ → String
  pub int_of : String → Option ℕ
  pub message_id : ℕ → String
  pub timestamp : ℕ → String
  pub drawn : ℕ → Drawn

pub data Target : Type 0 where
  init : Target
  confirm : Target

abbrev pub action_of : Target → String
action_of init = "init"
action_of confirm = "confirm"

-- `status != "" && status != "ACK"` of `message.ack`; a map that is absent has the empty status.
unfoldable pub rejected : Fields → Bool
rejected full =
    let status =
      as_string (get "status" (map_or_new (get "ack" (map_or_new (get "message" full))))) in
    not (status == "") && not (status == "ACK")

unfoldable pub new_context : String → String → String → Fields → Fields
new_context action message_id timestamp context = default_value "ttl" (str "PT30S") (
    put "timestamp" (str timestamp)
      (put "message_id" (str message_id) (put "action" (str action) context)))

abbrev pub enrich : Target → Outside → ℕ → Result Payload → Fields → Fields → Fields
enrich init o i selected context full = enrich_init o.print o.int_of (o.drawn i).now selected full
enrich confirm o i selected context full = enrich_confirm (o.drawn i) context full

-- `full` with its context, written back where the source changes the map in place.
unfoldable pub payload_from :
    Target → Outside → ℕ → Result Payload → Fields → Option Fields → Option Fields
payload_from target o i selected full none = none
payload_from target o i selected full (some context) =
    let changed = new_context (action_of target) (o.message_id i) (o.timestamp i) context in
    some (enrich target o i selected changed (put "context" (obj changed) full))

unfoldable pub from_fields :
    Target → Outside → ℕ → Result Payload → Option (Option Fields) → Option Fields
from_fields target o i selected none = none
from_fields target o i selected (some none) = none
from_fields target o i selected (some (some full)) =
    if rejected full
    then none
    else payload_from target o i selected full (as_map (get "context" full))

-- The body of a recorded callback, decoded.
abbrev pub decoded : Result Payload → Option (Option Fields)
decoded (err e) = none
decoded (ok body) = decode_map body

-- One turn of the loop: `none` is a `continue`.
unfoldable pub build_one : Target → String → Reader → Outside → String → ℕ → String → Option Fields
build_one target source read o run_id i txn_id =
    if txn_id == ""
    then none
    else from_fields target o i (read run_id "pipeline_b" "select" txn_id)
        (decoded (read run_id "pipeline_b" source txn_id))

abbrev pub append_built : Option Fields → List Fields → List Fields
append_built none out = out
append_built (some payload) out = payload ∷ out

unfoldable pub build_all :
    Target → String → Reader → Outside → String → ℕ → List String → List Fields
build_all target source read o run_id i [] = []
build_all target source read o run_id i (txn_id ∷ ids) =
    append_built (build_one target source read o run_id i txn_id)
      (build_all target source read o run_id (i + 1) ids)

-- `none` is the error "runID required".
unfoldable pub build_batch_from_callbacks :
    Target → String → Reader → Outside → String → List String → Option (List Fields)
build_batch_from_callbacks target source read o run_id txn_ids =
    if run_id == "" then none else some (build_all target source read o run_id 0 txn_ids)

unfoldable pub build_init_batch : Reader → Outside → String → List String → Option (List Fields)
build_init_batch = build_batch_from_callbacks init "on_select"

unfoldable pub build_confirm_batch : Reader → Outside → String → List String → Option (List Fields)
build_confirm_batch = build_batch_from_callbacks confirm "on_init"
