-- ===== src/Witnesses/Payloads.antt =====
-- The payloads that a run builds, and its report.
use load_test_backend.Base.{
  ℕ, zero, suc, ◌≤◌, ◌≡◌, refl, String, true, false, some, [], ◌∷◌, All, map, length, ◌==◌,
  string_eq, pos,
}
use load_test_backend.Json.{Json, Payload, doc, obj, arr, str, cons, nil, field, end, Fields}
use load_test_backend.Store.{ok}
use load_test_backend.RunLog.{MemoryStore, new_memory_store, record_payload, get_payload}
use load_test_backend.Batch.Confirm.{enrich_confirm, Drawn}
use load_test_backend.Batch.Init.{enrich_init}
use load_test_backend.Batch.FromCallbacks.{Reader, Outside, init, build_batch_from_callbacks}
use load_test_backend.Batch.Recorded.{BatchFrom, build_batch-callbacks}
use load_test_backend.Batch.Orders.{AllFulfillments, order_of}
use load_test_backend.Batch.InitComplete.{has_delivery_end, enrich_init_complete}
use load_test_backend.Batch.ConfirmComplete.{
  has_head, has_payment, has_person, enrich_confirm_complete,
}
use load_test_backend.Select.Normalize.{normalize_order, extract_transaction_ids}
use load_test_backend.Select.Payloads.{SelectDraws, build_select_payloads}
use load_test_backend.Select.Fulfillments.{OnFine}
use load_test_backend.Select.Ready.{order_names, IsNormalized, normalize_order-IsNormalized}
use load_test_backend.Select.Transactions.{encoded, drawn_from, extract-build}
use load_test_backend.Select.Distinct.{Draws, build_distinct_orders}
use load_test_backend.Select.Orders.{IsLinked, build_distinct_orders-IsLinked}
use load_test_backend.Report.{ReportFile, build_stage_report}
use load_test_backend.Report.Accounting.{IsCounted, build_stage_report-IsCounted}
use load_test_backend.Witnesses.{payload_of, exact_ops}

-- A callback with an order that has one fulfillment.
abbrev location : Fields
location =
    field "gps" (str "12.9,77.5") (field "address" (obj (field "area_code" (str "560001") end)) end)

abbrev order : Fields
order = field "items" (arr (cons (obj (field "id" (str "item-1") end)) nil)) (
    field "fulfillments"
      (arr (
        cons
          (obj
            (field "id" (str "f-1") (field "end" (obj (field "location" (obj location) end)) end)))
          nil))
      end)

abbrev callback : Fields
callback =
    field "context" (obj (field "transaction_id" (str "txn-1") end))
      (field "message" (obj (field "order" (obj order) end)) end)

abbrev log : MemoryStore
log = record_payload "run-1" "pipeline_b" "on_select" "txn-1" (doc (obj callback)) new_memory_store

abbrev reader : Reader
reader run_id pipeline action txn_id = get_payload run_id pipeline action txn_id log

abbrev drawn : Drawn
drawn = record { now = "2026-01-01T00:00:00.000Z"; order_id = "order-1"; payment_id = "payment-1" }

abbrev drawn_message : ℕ → String
drawn_message zero = "message-1"
drawn_message (suc i) = "message-2"

abbrev outside : Outside
outside = record {
  print = λ _. "1";
  int_of = λ _. some 2;
  message_id = drawn_message;
  timestamp = λ _. "2026-01-01T00:00:00.000Z";
  drawn = λ _. drawn;
}

-- One transaction with a callback, and one without.
build_batch-callbacks_example :
    BatchFrom init "on_select" reader outside "run-1"
      ("txn-1" ∷ "txn-2" ∷ [])
      (build_batch_from_callbacks init "on_select" reader outside "run-1" ("txn-1" ∷ "txn-2" ∷ []))
build_batch-callbacks_example =
    build_batch-callbacks init "on_select" reader outside "run-1" ("txn-1" ∷ "txn-2" ∷ [])

enrich_init_complete_example :
    AllFulfillments has_delivery_end
      (order_of (enrich_init outside.print outside.int_of "now" (ok (payload_of "txn-1")) callback))
enrich_init_complete_example =
    enrich_init_complete outside.print outside.int_of "now" (ok (payload_of "txn-1")) callback

abbrev txn_context : Fields
txn_context = field "transaction_id" (str "txn-1") end

enrich_confirm_complete_example :
    (has_head (order_of (enrich_confirm drawn txn_context callback)) ≡ true)
    × (has_payment (order_of (enrich_confirm drawn txn_context callback)) ≡ true)
    × AllFulfillments has_person (order_of (enrich_confirm drawn txn_context callback))
enrich_confirm_complete_example = enrich_confirm_complete drawn txn_context callback

normalize_order-IsNormalized_example :
    OnFine (IsNormalized (order_names order)) (normalize_order order)
normalize_order-IsNormalized_example = normalize_order-IsNormalized order

abbrev drawn_id : ℕ → String
drawn_id zero = "txn-1"
drawn_id (suc i) = "txn-2"

drawn_id-non_empty : (i : ℕ) → (drawn_id i == "") ≡ false
drawn_id-non_empty zero = refl
drawn_id-non_empty (suc i) = refl

abbrev draws : SelectDraws
draws = record {
  transaction_id = drawn_id;
  message_id = λ _. "message-1";
  timestamp = λ _. "2026-01-01T00:00:00.000Z";
}

extract-build_example :
    OnFine
      (λ ns. extract_transaction_ids (map encoded ns) ≡ drawn_from draws "" 0 2)
      (build_select_payloads draws [] (obj order ∷ []) 2 "")
extract-build_example = extract-build draws [] (obj order ∷ []) 2 "" drawn_id-non_empty

-- A catalog of one provider with two items.
abbrev catalog_item : String → Json
catalog_item id = obj (field "id" (str id) (field "fulfillment_id" (str "f-1") end))

abbrev catalog : Payload
catalog = doc (
    obj (
      field "message"
        (obj (
          field "catalog"
            (obj (
              field "bpp/providers"
                (arr (
                  cons
                    (obj (
                      field "id" (str "p-1") (
                        field "items"
                          (arr (cons (catalog_item "item-1") (cons (catalog_item "item-2") nil)))
                          end)))
                    nil))
                end))
            end))
        end))

abbrev order_draws : Draws
order_draws = record { intn = λ _ _. 1; perm = λ _. 1 ∷ 0 ∷ [] }

build_distinct_orders-IsLinked_example :
    All IsLinked (build_distinct_orders order_draws catalog order 12)
    × (length (build_distinct_orders order_draws catalog order 12) ≤ 12)
build_distinct_orders-IsLinked_example = build_distinct_orders-IsLinked order_draws catalog order 12

abbrev file : String → ℕ → ReportFile
file name time = record { name = name; mod_time = pos time; content = some (payload_of name) }

build_stage_report-IsCounted_example :
    IsCounted exact_ops
      (file "txn-1.json" 0 ∷ file "txn-2.json" 5 ∷ [])
      (file "txn-1.json" 9 ∷ [])
      (build_stage_report exact_ops "select"
        (file "txn-1.json" 0 ∷ file "txn-2.json" 5 ∷ [])
        (file "txn-1.json" 9 ∷ []))
build_stage_report-IsCounted_example =
    build_stage_report-IsCounted exact_ops "select" (file "txn-1.json" 0 ∷ file "txn-2.json" 5 ∷ [])
      (file "txn-1.json" 9 ∷ [])
