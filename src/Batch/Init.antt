-- ===== src/Batch/Init.antt =====
-- internal/domain/pipeline/init_confirm_from_callbacks.go: enrichInit, which completes the order of an
-- on_select callback. What it prints for a count and the integer part of a positive number are parameters.
use load_test_backend.Base.{
  ℕ, String, Option, none, some, ltb, ◌==◌, string_eq, Assoc, lookup, insert, [], ◌>>=◌,
  if◌then◌else◌,
}
use load_test_backend.Json.{
  Json, null, bool, num, str, arr, obj, Items, nil, cons, Fields, end, field, get, put, del, as_map,
  as_items, as_string, Payload, empty, malformed, doc,
}
use load_test_backend.Json.Edit.{map_or_new, default_text, default_value, edit_map, edit_list}
use load_test_backend.Store.{Result, ok, err}

-- The number that a decoded value is, `int(v)` where it is positive.
abbrev pub positive_count : (String → Option ℕ) → Option Json → Option ℕ
positive_count int_of (some (num n)) = int_of n
positive_count int_of (some null) = none
positive_count int_of (some (bool b)) = none
positive_count int_of (some (str s)) = none
positive_count int_of (some (arr xs)) = none
positive_count int_of (some (obj fs)) = none
positive_count int_of none = none

abbrev pub put_count : String → Option ℕ → Assoc String ℕ → Assoc String ℕ
put_count id none counts = counts
put_count id (some n) counts = insert id n counts

abbrev pub count_in : (String → Option ℕ) → String → Option Fields → Assoc String ℕ → Assoc String ℕ
count_in int_of id none counts = counts
count_in int_of id (some quantity) counts =
    put_count id (positive_count int_of (get "count" quantity)) counts

-- One entry of the breakup of the quote.
unfoldable pub count_entry : (String → Option ℕ) → Option Fields → Assoc String ℕ → Assoc String ℕ
count_entry int_of none counts = counts
count_entry int_of (some entry) counts =
    let id = as_string (get "@ondc/org/item_id" entry) in
    if id == ""
    then counts
    else count_in int_of id (as_map (get "@ondc/org/item_quantity" entry)) counts

unfoldable pub count_entries : (String → Option ℕ) → Items → Assoc String ℕ → Assoc String ℕ
count_entries int_of nil counts = counts
count_entries int_of (cons entry entries) counts =
    count_entries int_of entries (count_entry int_of (as_map (some entry)) counts)

abbrev pub counts_of : (String → Option ℕ) → Option Items → Assoc String ℕ
counts_of int_of none = []
counts_of int_of (some entries) = count_entries int_of entries []

abbrev pub counts_in : (String → Option ℕ) → Option Fields → Assoc String ℕ
counts_in int_of none = []
counts_in int_of (some quote) = counts_of int_of (as_items (get "breakup" quote))

-- `itemCounts`.
unfoldable pub item_counts : (String → Option ℕ) → Fields → Assoc String ℕ
item_counts int_of order = counts_in int_of (as_map (get "quote" order))

-- `if c, ok := itemCounts[id]; ok && c > 0 { c } else { 1 }`.
abbrev pub count_or_one : Option ℕ → ℕ
count_or_one none = 1
count_or_one (some c) = if ltb 0 c then c else 1

-- The body of the loop over the items.
unfoldable pub default_quantity : (ℕ → String) → Assoc String ℕ → Fields → Fields
default_quantity print counts item =
    let id = as_string (get "id" item) in
    if id == ""
    then item
    else edit_map "quantity"
        (λ q. default_value "count" (num (print (count_or_one (lookup id counts)))) q) item

abbrev pub test_buyer : String → Fields
test_buyer now = field "name" (str "Test Buyer") (
    field "phone" (str "9999999999") (
      field "email" (str "test@example.com") (
        field "address"
          (obj (
            field "name" (str "Test Buyer") (
              field "building" (str "Test Building") (
                field "locality" (str "MG Road") (
                  field "city" (str "Bengaluru") (
                    field "state" (str "KA")
                      (field "country" (str "IND") (field "area_code" (str "560001") end))))))))
          (field "created_at" (str now) (field "updated_at" (str now) end)))))

abbrev pub billing_or_test : String → Option Fields → Fields → Fields
billing_or_test now none order = put "billing" (obj (test_buyer now)) order
billing_or_test now (some billing) order = order

unfoldable pub default_billing : String → Fields → Fields
default_billing now order = billing_or_test now (as_map (get "billing" order)) order

-- The GPS position and the area code of the select payload.
pub record Place : Type 0 where
  pub gps : String
  pub area_code : String

abbrev pub no_place : Place
no_place = record { gps = ""; area_code = "" }

-- A member of a struct that `json.Unmarshal` fills: absent and null leave the zero value, `none` is the
-- error of another type.
abbrev pub struct_text : Option Json → Option String
struct_text none = some ""
struct_text (some null) = some ""
struct_text (some (str s)) = some s
struct_text (some (bool b)) = none
struct_text (some (num n)) = none
struct_text (some (arr xs)) = none
struct_text (some (obj fs)) = none

abbrev pub struct_fields : Option Json → Option Fields
struct_fields none = some end
struct_fields (some null) = some end
struct_fields (some (obj fs)) = some fs
struct_fields (some (bool b)) = none
struct_fields (some (num n)) = none
struct_fields (some (str s)) = none
struct_fields (some (arr xs)) = none

abbrev pub struct_items : Option Json → Option Items
struct_items none = some nil
struct_items (some null) = some nil
struct_items (some (arr xs)) = some xs
struct_items (some (bool b)) = none
struct_items (some (num n)) = none
struct_items (some (str s)) = none
struct_items (some (obj fs)) = none

unfoldable pub fulfillment_place : Json → Option Place
fulfillment_place fulfillment = do
  fields ← struct_fields (some fulfillment)
  stop ← struct_fields (get "end" fields)
  location ← struct_fields (get "location" stop)
  gps ← struct_text (get "gps" location)
  address ← struct_fields (get "address" location)
  area_code ← struct_text (get "area_code" address)
  some (record { gps = gps; area_code = area_code })

-- Every fulfillment is decoded, and the first one gives the place.
unfoldable pub first_place : Items → Option Place
first_place nil = some no_place
first_place (cons f fs) = do place ← fulfillment_place f; rest ← first_place fs; some place

unfoldable pub decode_place : Json → Option Place
decode_place j = do
  fields ← struct_fields (some j)
  message ← struct_fields (get "message" fields)
  order ← struct_fields (get "order" message)
  fulfillments ← struct_items (get "fulfillments" order)
  first_place fulfillments

abbrev pub place_or_none : Option Place → Place
place_or_none none = no_place
place_or_none (some p) = p

unfoldable pub select_place : Result Payload → Place
select_place (err e) = no_place
select_place (ok empty) = no_place
select_place (ok malformed) = no_place
select_place (ok (doc j)) = place_or_none (decode_place j)

abbrev pub text_or : String → String → String
text_or fallback s = if s == "" then fallback else s

-- `if v, _ := from[k].(string); v != "" { if _, ok := addr[k].(string); !ok { addr[k] = v } }`.
unfoldable pub copy_text : String → Fields → Fields → Fields
copy_text k from m = let v = as_string (get k from) in if v == "" then m else default_text k v m

unfoldable pub copy_address : Option Fields → Fields → Fields
copy_address none m = m
copy_address (some from) m = copy_text "country" from (
    copy_text "state" from (
      copy_text "city" from
        (copy_text "locality" from (copy_text "building" from (copy_text "name" from m)))))

unfoldable pub default_address : Fields → Fields
default_address m = default_text "country" "IND" (
    default_text "state" "KA" (
      default_text "city" "Bengaluru" (
        default_text "locality" "MG Road"
          (default_text "building" "Test Building" (default_text "name" "Test Buyer" m)))))

unfoldable pub fill_address : Place → Option Fields → Fields → Fields
fill_address place from m =
    default_address
      (copy_address from (default_text "area_code" (text_or "560001" place.area_code) m))

unfoldable pub fill_location : Place → Option Fields → Fields → Fields
fill_location place from m =
    edit_map "address" (fill_address place from)
      (default_text "gps" (text_or "12.9716,77.5946" place.gps) m)

unfoldable pub fill_end : Place → Option Fields → Fields → Fields
fill_end place from m =
    edit_map "contact" (default_text "phone" "9999999999")
      (edit_map "location" (fill_location place from) m)

-- The body of the loop over the fulfillments.
unfoldable pub fill_fulfillment : String → Place → Option Fields → Fields → Fields
fill_fulfillment domain place from m =
    let filled = edit_map "end" (fill_end place from) m in
    if domain == "ONDC:RET13" then del "@ondc/org/category" filled else filled

-- `billing["address"]`, after the default billing is in place.
abbrev pub billing_address : Fields → Option Fields
billing_address order = as_map (get "address" (map_or_new (get "billing" order)))

unfoldable pub enrich_order :
    (ℕ → String) → (String → Option ℕ) → String → String → Place → Fields → Fields
enrich_order print int_of now domain place order =
    let counts = item_counts int_of order in
    let billed = default_billing now (edit_list "items" (default_quantity print counts) order) in
    edit_list "fulfillments" (fill_fulfillment domain place (billing_address billed)) billed

unfoldable pub enrich_init :
    (ℕ → String) → (String → Option ℕ) → String → Result Payload → Fields → Fields
enrich_init print int_of now selected full =
    let domain = as_string (get "domain" (map_or_new (get "context" full))) in
    edit_map "message"
      (edit_map "order" (enrich_order print int_of now domain (select_place selected))) full
