-- ===== src/Batch/InitComplete.antt =====
-- What enrichInit puts into an order, whatever the callback left out.
use load_test_backend.Base.{
  ℕ, ◌≡◌, String, Bool, true, Option, none, some, [], ◌∷◌, arith, ◌&&◌, string_eq,
}
use load_test_backend.Json.{Fields, get, as_string, Payload, get-del}
use load_test_backend.Json.Edit.{
  edit_map, get-edit_map, is_text-default_text, get-default_text, is_text-or_text,
}
use load_test_backend.Store.{Result}
use load_test_backend.Batch.Init.{
  Place, copy_text, copy_address, default_address, fill_address, fill_location, fill_end,
  fill_fulfillment, enrich_order, enrich_init,
}
use load_test_backend.Batch.Orders.{
  inner, has_text, all_texts, AllFulfillments, order_of, AllFulfillments-edit_list,
}

-- A fulfillment that has the place, the address and the telephone number of its end.
abbrev pub has_delivery_end : Fields → Bool
has_delivery_end m =
    let location = inner "location" (inner "end" m) in
    (has_text "gps" location && has_text "phone" (inner "contact" (inner "end" m)))
    && all_texts
        ("area_code" ∷ "name" ∷ "building" ∷ "locality" ∷ "city" ∷ "state" ∷ "country" ∷ [])
        (inner "address" location)

is_text-copy_text :
    (k j : String) (from m : Fields) → has_text j m ≡ true → has_text j (copy_text k from m) ≡ true
unfolding copy_text
is_text-copy_text k j from m h = ground (arith, is_text-default_text k j (as_string (get k from)) m)

is_text-copy_address :
    (j : String) (from : Option Fields) (m : Fields)
    → has_text j m ≡ true
    → has_text j (copy_address from m) ≡ true
unfolding copy_address
is_text-copy_address j none m h = h
is_text-copy_address j (some from) m h = is_text-copy_text "country" j from _ (
    is_text-copy_text "state" j from _ (
      is_text-copy_text "city" j from _ (
        is_text-copy_text "locality" j from _
          (is_text-copy_text "building" j from _ (is_text-copy_text "name" j from m h)))))

all_texts-fill_address :
    (place : Place) (from : Option Fields) (m : Fields)
    → all_texts
        ("area_code" ∷ "name" ∷ "building" ∷ "locality" ∷ "city" ∷ "state" ∷ "country" ∷ [])
        (fill_address place from m)
      ≡ true
unfolding fill_address default_address
all_texts-fill_address place from m =
    simp (is_text-default_text, is_text-copy_address "area_code" from)

has_delivery_end-fill_end :
    (place : Place) (from : Option Fields) (m : Fields)
    → has_delivery_end (edit_map "end" (fill_end place from) m) ≡ true
unfolding fill_end fill_location
has_delivery_end-fill_end place from m =
    simp (get-edit_map, is_text-or_text, get-default_text, all_texts-fill_address)

has_delivery_end-fill_fulfillment :
    (domain : String) (place : Place) (from : Option Fields) (m : Fields)
    → has_delivery_end (fill_fulfillment domain place from m) ≡ true
unfolding fill_fulfillment
has_delivery_end-fill_fulfillment domain place from m = ground (
  arith,
  has_delivery_end-fill_end place from m,
  get-del "@ondc/org/category" "end" (edit_map "end" (fill_end place from) m),
)

enrich_order_complete :
    (print : ℕ → String) (int_of : String → Option ℕ) (now domain : String) (place : Place)
    (order : Fields)
    → AllFulfillments has_delivery_end (enrich_order print int_of now domain place order)
unfolding enrich_order
enrich_order_complete print int_of now domain place order =
    AllFulfillments-edit_list has_delivery_end (fill_fulfillment domain place _) _
      (has_delivery_end-fill_fulfillment domain place _)

-- Every fulfillment of the order of an init payload that is a map has a GPS position, an area code, a full
-- address and a telephone number, each a text, whatever the callback had there.
pub enrich_init_complete :
    (print : ℕ → String) (int_of : String → Option ℕ) (now : String) (selected : Result Payload)
    (full : Fields)
    → AllFulfillments has_delivery_end (order_of (enrich_init print int_of now selected full))
unfolding enrich_init
enrich_init_complete print int_of now selected full =
    simp (get-edit_map) (enrich_order_complete print int_of now _ _ _)
