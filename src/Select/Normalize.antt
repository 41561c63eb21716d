-- ===== src/Select/Normalize.antt =====
-- select_batch.go: normalizeSelectPayload and ExtractTransactionIDs. The edits go to the decoded maps in place,
-- and an error gives no payload.
use load_test_backend.Base.{
  String, Option, none, some, List, [], ◌∷◌, ◌++◌, ◌||◌, ◌==◌, string_eq, if◌then◌else◌,
}
use load_test_backend.Json.{
  Json, null, bool, num, str, arr, obj, Items, nil, cons, Fields, end, field, get, put, as_map,
  as_items, as_string, sprint, get_in, Payload, decode_map,
}
use load_test_backend.Json.Edit.{edit_map, edit_list, edit_if_map, default_nil, is_nil}

abbrev pub txn_text : Option Json → List String
txn_text none = []
txn_text (some v) = if is_nil (some v) then [] else if sprint v == "" then [] else sprint v ∷ []

abbrev pub txn_in : Option Fields → List String
txn_in none = []
txn_in (some context) = txn_text (get "transaction_id" context)

abbrev pub txn_of : Option (Option Fields) → List String
txn_of none = []
txn_of (some fields) = txn_in (as_map (get_in "context" fields))

unfoldable pub extract_transaction_ids : List Payload → List String
extract_transaction_ids [] = []
extract_transaction_ids (p ∷ ps) = txn_of (decode_map p) ++ extract_transaction_ids ps

pub data SelectError : Type 0 where
  not_json : SelectError
  end_missing : SelectError
  location_missing : SelectError
  gps_missing : SelectError
  address_missing : SelectError
  area_code_missing : SelectError

pub data Checked {ℓ} (A : Type ℓ) : Type ℓ where
  fine : A → Checked A
  refused : SelectError → Checked A

unfoldable pub default_ttl : Fields → Fields
default_ttl context =
    if as_string (get "ttl" context) == "" then put "ttl" (str "PT30S") context else context

abbrev pub serviceable : Fields
serviceable = field "descriptor" (obj (field "code" (str "Serviceable") end)) end

abbrev pub default_map : String → Fields → Option Fields → Fields → Fields
default_map k new none m = put k (obj new) m
default_map k new (some fs) m = m

-- The first loop over the fulfillments.
unfoldable pub start_fulfillment : Fields → Fields
start_fulfillment m =
    let typed = default_nil "type" (str "Delivery") m in
    default_map "state" serviceable (as_map (get "state" typed)) typed

abbrev pub id_text : Option Fields → List String
id_text none = []
id_text (some m) = let id = as_string (get "id" m) in if id == "" then [] else id ∷ []

-- `fulfillmentIDs`.
unfoldable pub fulfillment_ids : Items → List String
fulfillment_ids nil = []
fulfillment_ids (cons f fs) = id_text (as_map (some f)) ++ fulfillment_ids fs

abbrev pub ids_in : Option Items → List String
ids_in none = []
ids_in (some fs) = fulfillment_ids fs

abbrev pub item_tags : Json
item_tags =
    let entry = obj (field "code" (str "type") (field "value" (str "item") end)) in
    arr (cons (obj (field "code" (str "type") (field "list" (arr (cons entry nil)) end))) nil)

abbrev pub default_fulfillment : List String → Fields → Fields
default_fulfillment [] item = item
default_fulfillment (id ∷ ids) item = default_nil "fulfillment_id" (str id) item

-- The loop over the items.
unfoldable pub normalize_item : List String → Fields → Fields
normalize_item ids item = put "tags" item_tags (default_fulfillment ids item)

-- `fmt.Sprint(m[k])`, where a missing key is the nil value.
abbrev pub sprint_or_nil : Option Json → String
sprint_or_nil none = "<nil>"
sprint_or_nil (some v) = sprint v

unfoldable pub default_code : Fields → Fields
default_code descriptor =
    if is_nil (get "code" descriptor) || sprint_or_nil (get "code" descriptor) == ""
    then put "code" (str "Serviceable") descriptor
    else descriptor

unfoldable pub finish_fulfillment : Fields → Fields
finish_fulfillment m =
    edit_map "state" (edit_map "descriptor" default_code) (default_nil "type" (str "Delivery") m)

abbrev pub check_address : Option Fields → Option SelectError
check_address none = some address_missing
check_address (some address) =
    if sprint_or_nil (get "area_code" address) == "" then some area_code_missing else none

abbrev pub check_location : Option Fields → Option SelectError
check_location none = some location_missing
check_location (some location) =
    if sprint_or_nil (get "gps" location) == ""
    then some gps_missing
    else check_address (as_map (get "address" location))

abbrev pub check_end : Option Fields → Option SelectError
check_end none = some end_missing
check_end (some stop) = check_location (as_map (get "location" stop))

abbrev pub cons_fine : Json → Checked Items → Checked Items
cons_fine f (fine fs) = fine (cons f fs)
cons_fine f (refused e) = refused e

abbrev pub finish_map : Fields → Option SelectError → Checked Items → Checked Items
finish_map m none rest = cons_fine (obj (finish_fulfillment m)) rest
finish_map m (some e) rest = refused e

abbrev pub finish_one : Json → Checked Items → Checked Items
finish_one (obj m) rest = finish_map m (check_end (as_map (get "end" m))) rest
finish_one null rest = cons_fine null rest
finish_one (bool b) rest = cons_fine (bool b) rest
finish_one (num n) rest = cons_fine (num n) rest
finish_one (str s) rest = cons_fine (str s) rest
finish_one (arr xs) rest = cons_fine (arr xs) rest

-- The second loop over the fulfillments, which stops at the first error.
unfoldable pub finish_fulfillments : Items → Checked Items
finish_fulfillments nil = fine nil
finish_fulfillments (cons f fs) = finish_one f (finish_fulfillments fs)

abbrev pub put_finished : Fields → Checked Items → Checked Fields
put_finished order (refused e) = refused e
put_finished order (fine fs) = fine (put "fulfillments" (arr fs) order)

abbrev pub finish_list : Fields → Option Items → Checked Fields
finish_list order none = fine order
finish_list order (some fs) = put_finished order (finish_fulfillments fs)

unfoldable pub normalize_order : Fields → Checked Fields
normalize_order order =
    let started = edit_list "fulfillments" start_fulfillment order in
    let ids = ids_in (as_items (get "fulfillments" started)) in
    let itemized = edit_list "items" (normalize_item ids) started in
    finish_list itemized (as_items (get "fulfillments" itemized))

abbrev pub put_order : Fields → Fields → Checked Fields → Checked Fields
put_order m message (refused e) = refused e
put_order m message (fine order) = fine (put "message" (obj (put "order" (obj order) message)) m)

abbrev pub normalize_in : Fields → Fields → Option Fields → Checked Fields
normalize_in m message none = fine m
normalize_in m message (some order) = put_order m message (normalize_order order)

abbrev pub normalize_message : Fields → Option Fields → Checked Fields
normalize_message m none = fine m
normalize_message m (some message) = normalize_in m message (as_map (get "order" message))

-- The null document stays a nil map.
abbrev pub normalize_decoded : Option (Option Fields) → Checked (Option Fields)
normalize_decoded none = refused not_json
normalize_decoded (some none) = fine none
normalize_decoded (some (some fields)) =
    let m = edit_if_map "context" default_ttl fields in
    elim (normalize_message m (as_map (get "message" m))) [
      | fine n ↦ fine (some n)
      | refused e ↦ refused e
    ]

unfoldable pub normalize_select_payload : Payload → Checked (Option Fields)
normalize_select_payload payload = normalize_decoded (decode_map payload)
