-- ===== src/Batch/Confirm.antt =====
-- internal/domain/pipeline/init_confirm_from_callbacks.go: enrichConfirm, which completes the order of an
-- on_init callback.
use load_test_backend.Base.{String, Bool, ◌==◌, string_eq, ◌||◌, if◌then◌else◌}
use load_test_backend.Json.{str, Fields, get, put, as_string}
use load_test_backend.Json.Edit.{map_or_new, default_text, edit_map, edit_list}

-- The texts that one call draws: time.Now and the two identifiers of uuid.NewString.
pub record Drawn : Type 0 where
  pub now : String
  pub order_id : String
  pub payment_id : String

unfoldable pub default_order_id : String → String → Fields → Fields
default_order_id txn fresh_id order =
    if as_string (get "id" order) == ""
    then put "id" (str (if txn == "" then fresh_id else txn)) order
    else order

abbrev pub known_state : String → Bool
known_state s = (s == "Created" || s == "Accepted") || s == "Cancelled"

unfoldable pub default_state : Fields → Fields
default_state order =
    if known_state (as_string (get "state" order)) then order else put "state" (str "Created") order

abbrev pub non_empty_or : String → String → String
non_empty_or fallback s = if s == "" then fallback else s

-- `personName`; a billing that is absent gives the empty name.
abbrev pub person_name : Fields → String
person_name order =
    non_empty_or "Test Buyer" (as_string (get "name" (map_or_new (get "billing" order))))

-- The body of the loop over the fulfillments.
unfoldable pub confirm_fulfillment : String → Fields → Fields
confirm_fulfillment name m =
    default_text "@ondc/org/TAT" "P2D"
      (edit_map "end" (edit_map "person" (default_text "name" name)) m)

-- `quote.price` with the comma-ok assertions on the way.
abbrev pub quote_price : Fields → Fields
quote_price order = map_or_new (get "price" (map_or_new (get "quote" order)))

unfoldable pub fill_params : String → String → String → Fields → Fields
fill_params amount currency payment_id m =
    default_text "transaction_id" payment_id
      (default_text "currency" currency (default_text "amount" amount m))

unfoldable pub fill_payment : String → String → String → Fields → Fields
fill_payment amount currency payment_id m = default_text "collected_by" "BAP" (
    default_text "type" "ON-ORDER" (
      default_text "status" "PAID" (
        edit_map "params" (fill_params amount currency payment_id) (
          default_text "tl_method" "http/get"
            (default_text "uri" "https://example.com/payment" m)))))

unfoldable pub confirm_order : String → Drawn → Fields → Fields
confirm_order txn drawn order =
    let started = default_text "updated_at" drawn.now (
      default_text "created_at" drawn.now
        (default_state (default_order_id txn drawn.order_id order))) in
    let fulfilled = edit_list "fulfillments" (confirm_fulfillment (person_name started)) started in
    let amount = non_empty_or "0" (as_string (get "value" (quote_price fulfilled))) in
    let currency = non_empty_or "INR" (as_string (get "currency" (quote_price fulfilled))) in
    edit_map "payment" (fill_payment amount currency drawn.payment_id) fulfilled

unfoldable pub enrich_confirm : Drawn → Fields → Fields → Fields
enrich_confirm drawn context full =
    let txn = as_string (get "transaction_id" context) in
    edit_map "message" (edit_map "order" (confirm_order txn drawn)) full
