-- ===== src/Select/Payloads.antt =====
-- select_batch.go: the generators of select payloads, from the example file and from an on_search catalog. The file
-- is an argument, and what uuid.NewString and the clock give is drawn by position.
use load_test_backend.Base.{
  ℕ, zero, suc, ◌+◌, ◌%◌, String, Bool, true, false, Option, none, some, List, [], ◌∷◌, Assoc,
  lookup, insert, length, nat_eq, ◌||◌, ◌==◌, string_eq, ◌>>=◌, if◌then◌else◌,
}
use load_test_backend.Json.{
  Json, null, str, obj, Fields, end, field, get, Payload, empty, malformed, doc,
}
use load_test_backend.Batch.Init.{struct_text, struct_fields}
use load_test_backend.Select.Normalize.{
  Checked, fine, refused, SelectError, normalize_select_payload,
}

-- The members of ondcContext, in the order of the struct.
abbrev pub context_keys : List String
context_keys =
    "domain" ∷ "country" ∷ "city" ∷ "action" ∷ "core_version" ∷ "bap_id" ∷ "bap_uri" ∷ "bpp_uri"
    ∷ "transaction_id" ∷ "message_id" ∷ "timestamp" ∷ "bpp_id" ∷ "ttl" ∷ []

-- A value of ondcContext, by its members.
abbrev pub SelectContext : Type 0
SelectContext = Assoc String String

unfoldable pub decode_members : List String → Fields → Option SelectContext
decode_members [] m = some []
decode_members (k ∷ ks) m = do
  text ← struct_text (get k m)
  rest ← decode_members ks m
  some ((k, text) ∷ rest)

pub record Envelope : Type 0 where
  pub context : SelectContext
  pub message : Option Json

-- `none` is the error of json.Unmarshal.
unfoldable pub decode_envelope : Payload → Option Envelope
decode_envelope empty = none
decode_envelope malformed = none
decode_envelope (doc j) = do
  fields ← struct_fields (some j)
  inner ← struct_fields (get "context" fields)
  context ← decode_members context_keys inner
  some (record { context = context; message = get "message" fields })

abbrev pub member : Option String → String
member none = ""
member (some s) = s

abbrev pub raw_or_null : Option Json → Json
raw_or_null none = null
raw_or_null (some j) = j

unfoldable pub encode_members : SelectContext → Fields
encode_members [] = end
encode_members ((k, v) ∷ context) = field k (str v) (encode_members context)

-- json.Marshal of an envelope.
abbrev pub encode_envelope : Envelope → Payload
encode_envelope e = doc (
    obj (
      field "context" (obj (encode_members e.context))
        (field "message" (raw_or_null e.message) end)))

-- What one payload draws.
pub record SelectDraws : Type 0 where
  pub transaction_id : ℕ → String
  pub message_id : ℕ → String
  pub timestamp : ℕ → String

unfoldable pub default_member : String → String → SelectContext → SelectContext
default_member k v context = if member (lookup k context) == "" then insert k v context else context

unfoldable pub select_context : SelectDraws → ℕ → String → SelectContext → SelectContext
select_context d i fixed_txn_id context = default_member "ttl" "PT30S" (
    insert "timestamp" (d.timestamp i) (
      insert "message_id" (d.message_id i) (
        insert "transaction_id" (if fixed_txn_id == "" then d.transaction_id i else fixed_txn_id)
          (insert "action" "select" context))))

abbrev pub cons_checked :
    Checked (Option Fields) → Checked (List (Option Fields)) → Checked (List (Option Fields))
cons_checked (refused e) rest = refused e
cons_checked (fine p) (refused e) = refused e
cons_checked (fine p) (fine ps) = fine (p ∷ ps)

-- The loop of GenerateBatchFromExample from position `i`, for `n` payloads.
unfoldable pub example_payloads : SelectDraws → Envelope → ℕ → ℕ → Checked (List (Option Fields))
example_payloads d e i zero = fine []
example_payloads d e i (suc n) =
    cons_checked
      (normalize_select_payload
        (encode_envelope (record e { context = select_context d i "" e.context })))
      (example_payloads d e (i + 1) n)

pub data GenerateError : Type 0 where
  bad_on_search : GenerateError
  bad_file : GenerateError
  bad_example : GenerateError
  bad_order : GenerateError
  bad_payload : SelectError → GenerateError

pub data Generated : Type 0 where
  generated : List (Option Fields) → Generated
  not_generated : GenerateError → Generated

abbrev pub from_checked : Checked (List (Option Fields)) → Generated
from_checked (fine ps) = generated ps
from_checked (refused e) = not_generated (bad_payload e)

abbrev pub from_envelope : SelectDraws → ℕ → Option Envelope → Generated
from_envelope d n none = not_generated bad_example
from_envelope d n (some e) = from_checked (example_payloads d e 0 n)

abbrev pub from_file : SelectDraws → ℕ → Option Payload → Generated
from_file d n none = not_generated bad_file
from_file d n (some raw) = from_envelope d n (decode_envelope raw)

-- The file is `none` when it cannot be read; the batch size is positive or the result is empty.
unfoldable pub generate_batch_from_example : SelectDraws → Option Payload → ℕ → Generated
generate_batch_from_example d file zero = generated []
generate_batch_from_example d file (suc n) = from_file d (suc n) file

-- `orders[i % len(orders)]`; the callers pass at least one order.
abbrev pub order_at : ℕ → List Json → Json
order_at i [] = null
order_at zero (o ∷ os) = o
order_at (suc i) (o ∷ os) = order_at i os

abbrev pub order_message : Json → Json
order_message order = obj (field "order" order end)

-- The loop of buildSelectPayloads.
unfoldable pub build_from :
    SelectDraws → SelectContext → List Json → String → ℕ → ℕ → Checked (List (Option Fields))
build_from d base orders fixed_txn_id i zero = fine []
build_from d base orders fixed_txn_id i (suc n) =
    let context = select_context d i fixed_txn_id base in
    let message = order_message (order_at (i % length orders) orders) in
    cons_checked
      (normalize_select_payload
        (encode_envelope (record { context = context; message = some message })))
      (build_from d base orders fixed_txn_id (i + 1) n)

unfoldable pub build_select_payloads :
    SelectDraws → SelectContext → List Json → ℕ → String → Checked (List (Option Fields))
build_select_payloads d base orders n fixed_txn_id = build_from d base orders fixed_txn_id 0 n

-- The order of the example: a map, or the nil map, which is written as null.
abbrev pub order_in : Option Fields → Option Json
order_in none = none
order_in (some m) = elim (get "order" m) [
  | none ↦ some null
  | some j ↦ elim j [ null ↦ some null | obj fs ↦ some (obj fs) | _ ↦ none ]
]

-- A message that is absent is an error of json.Unmarshal, since it has no bytes.
abbrev pub decode_order : Option Json → Option Json
decode_order none = none
decode_order (some j) = order_in (struct_fields (some j))

abbrev pub orders_or : Json → List Json → List Json
orders_or example [] = example ∷ []
orders_or example (o ∷ os) = o ∷ os

-- generateFromOnSearch behind its two decoders; `distinct` is buildDistinctOrdersFromOnSearch.
abbrev pub with_order :
    SelectDraws → (Json → List Json) → ℕ → String → SelectContext → Option Json → Generated
with_order d distinct n fixed_txn_id base none = not_generated bad_order
with_order d distinct n fixed_txn_id base (some example) =
    from_checked
      (build_select_payloads d base (orders_or example (distinct example)) n fixed_txn_id)

abbrev pub with_template :
    SelectDraws → (Json → List Json) → ℕ → String → SelectContext → Option Envelope → Generated
with_template d distinct n fixed_txn_id base none = not_generated bad_example
with_template d distinct n fixed_txn_id base (some e) =
    with_order d distinct n fixed_txn_id base (decode_order e.message)

abbrev pub with_example :
    SelectDraws → (Json → List Json) → ℕ → String → SelectContext → Option Payload → Generated
with_example d distinct n fixed_txn_id base none = not_generated bad_file
with_example d distinct n fixed_txn_id base (some raw) =
    with_template d distinct n fixed_txn_id base (decode_envelope raw)

abbrev pub with_on_search :
    SelectDraws → (Json → List Json) → ℕ → String → Option Payload → Option Envelope → Generated
with_on_search d distinct n fixed_txn_id file none = not_generated bad_on_search
with_on_search d distinct n fixed_txn_id file (some e) =
    with_example d distinct n fixed_txn_id e.context file

abbrev pub is_empty_payload : Payload → Bool
is_empty_payload empty = true
is_empty_payload malformed = false
is_empty_payload (doc j) = false

unfoldable pub generate_from_on_search :
    SelectDraws → (Json → List Json) → Payload → Option Payload → ℕ → String → Generated
generate_from_on_search d distinct on_search file n fixed_txn_id =
    if nat_eq n 0 || is_empty_payload on_search
    then generated []
    else with_on_search d distinct n fixed_txn_id file (decode_envelope on_search)
