-- ===== src/Batch/FromExample.antt =====
-- internal/domain/pipeline/init_confirm_batch.go: the payloads that a run builds from an example file when
-- it has no callbacks. Reading the file is outside, and its content is an argument.
use load_test_backend.Base.{ℕ, ◌+◌, String, Option, none, some, List, [], ◌∷◌, string_eq}
use load_test_backend.Json.{str, obj, Fields, get, put, as_map, Payload, decode_map}
use load_test_backend.Json.Edit.{default_value}
use load_test_backend.Batch.FromCallbacks.{Outside}

-- The errors of buildBatchFromExample; those of `json.Marshal` and of decoding once more what decoded before
-- do not arise.
pub data ExampleError : Type 0 where
  read_failed : ExampleError
  not_json : ExampleError
  missing_context : ExampleError

pub data Batch : Type 0 where
  built : List Fields → Batch
  failed : ExampleError → Batch

unfoldable pub example_context : String → String → String → String → Fields → Fields
example_context action txn_id message_id timestamp context = default_value "ttl" (str "PT30S") (
    put "action" (str action) (
      put "timestamp" (str timestamp)
        (put "message_id" (str message_id) (put "transaction_id" (str txn_id) context))))

unfoldable pub clones : String → Outside → Fields → Fields → ℕ → List String → List Fields
clones action o full context i [] = []
clones action o full context i (txn_id ∷ ids) =
    put "context" (obj (example_context action txn_id (o.message_id i) (o.timestamp i) context))
      full
    ∷ clones action o full context (i + 1) ids

abbrev pub clones_of : String → Outside → List String → Fields → Option Fields → Batch
clones_of action o txn_ids full none = failed missing_context
clones_of action o txn_ids full (some context) = built (clones action o full context 0 txn_ids)

abbrev pub clones_from : String → Outside → List String → Option (Option Fields) → Batch
clones_from action o txn_ids none = failed not_json
clones_from action o txn_ids (some none) = failed missing_context
clones_from action o txn_ids (some (some full)) =
    clones_of action o txn_ids full (as_map (get "context" full))

abbrev pub read_example : String → Outside → List String → Option Payload → Batch
read_example action o txn_ids none = failed read_failed
read_example action o txn_ids (some raw) = clones_from action o txn_ids (decode_map raw)

-- The file is `none` when it cannot be read.
unfoldable pub build_batch_from_example : String → Outside → Option Payload → List String → Batch
build_batch_from_example action o file [] = built []
build_batch_from_example action o file (txn_id ∷ ids) = read_example action o (txn_id ∷ ids) file
