-- ===== src/Select/Ready.antt =====
-- select_batch.go: what normalizeSelectPayload guarantees of an order that it does not refuse.
use load_test_backend.Base.{
  ◌≡◌, refl, String, Bool, true, false, not, ◌||◌, Option, none, some, List, [], ◌∷◌, ◌==◌,
  string_eq, arith, if◌then◌else◌,
}
use load_test_backend.Json.{
  Json, null, bool, num, str, arr, obj, Items, nil, cons, Fields, field, end, get, as_map, as_items,
  as_string, get-put,
}
use load_test_backend.Json.Edit.{
  edit_list, edit_elements, default_nil, is_nil, AllMaps, AllMaps-edit_elements, get-edit_list,
  get-default_nil,
}
use load_test_backend.Batch.Orders.{AllIn}
use load_test_backend.Select.Fulfillments.{IsReady, OnFine, finish_fulfillments-AllReady}
use load_test_backend.Select.Normalize.{
  Checked, fine, refused, finish_fulfillments, put_finished, finish_list, normalize_item,
  start_fulfillment, ids_in, fulfillment_ids, default_map, serviceable, normalize_order,
}

-- The items: their tags, and a fulfillment when the order names one.
abbrev pub carries : Bool → Fields → Bool
carries false m = true
carries true m = not (is_nil (get "fulfillment_id" m))

-- The tag list that marks an item.
abbrev pub item_tag : Json
item_tag = arr (
    cons
      (obj (
        field "code" (str "type") (
          field "list"
            (arr (cons (obj (field "code" (str "type") (field "value" (str "item") end))) nil))
            end)))
      nil)

abbrev pub IsItem : Bool → Fields → Type 0
IsItem named m = (get "tags" m ≡ some item_tag) × (carries named m ≡ true)

abbrev some_in : List String → Bool
some_in [] = false
some_in (id ∷ ids) = true

-- Some fulfillment that is a map has an identifier that is a text and not empty.
abbrev pub has_id : Option Json → Bool
has_id (some (obj m)) = not (as_string (get "id" m) == "")
has_id (some null) = false
has_id (some (bool b)) = false
has_id (some (num n)) = false
has_id (some (str s)) = false
has_id (some (arr xs)) = false
has_id none = false

unfoldable pub some_named : Items → Bool
some_named nil = false
some_named (cons f fs) = has_id (some f) || some_named fs

abbrev pub order_names : Fields → Bool
order_names order = elim (as_items (get "fulfillments" order)) [
  | none ↦ false
  | some fs ↦ some_named fs
]

some_in-fulfillment_ids : (fs : Items) → some_in (fulfillment_ids fs) ≡ some_named fs
unfolding fulfillment_ids some_named
some_in-fulfillment_ids nil = refl
some_in-fulfillment_ids (cons (obj m) fs) = ground (arith, some_in-fulfillment_ids fs)
some_in-fulfillment_ids (cons null fs) = some_in-fulfillment_ids fs
some_in-fulfillment_ids (cons (bool b) fs) = some_in-fulfillment_ids fs
some_in-fulfillment_ids (cons (num n) fs) = some_in-fulfillment_ids fs
some_in-fulfillment_ids (cons (str s) fs) = some_in-fulfillment_ids fs
some_in-fulfillment_ids (cons (arr xs) fs) = some_in-fulfillment_ids fs

some_in-ids_in :
    (order : Fields) → some_in (ids_in (as_items (get "fulfillments" order))) ≡ order_names order
some_in-ids_in order = of (as_items (get "fulfillments" order))
  where
    of : (o : Option Items) → some_in (ids_in o) ≡ elim o [ none ↦ false | some fs ↦ some_named fs ]
    of none = refl
    of (some fs) = some_in-fulfillment_ids fs

is_nil-or_text :
    (o : Option Json) (id : String) → is_nil (if is_nil o then some (str id) else o) ≡ false
is_nil-or_text o id = ground arith

normalize_item-IsItem :
    (ids : List String) (m : Fields) → IsItem (some_in ids) (normalize_item ids m)
unfolding normalize_item
normalize_item-IsItem [] m = (simp (get-put), refl)
normalize_item-IsItem (id ∷ ids) m =
    (simp (get-put), simp (get-put, get-default_nil, is_nil-or_text))

get-id-start_fulfillment : (m : Fields) → get "id" (start_fulfillment m) ≡ get "id" m
unfolding start_fulfillment
get-id-start_fulfillment m = by-state (as_map (get "state" (default_nil "type" (str "Delivery") m)))
  where
    by-state :
        (o : Option Fields)
        → get "id" (default_map "state" serviceable o (default_nil "type" (str "Delivery") m))
          ≡ get "id" m
    by-state none = simp (get-put, get-default_nil)
    by-state (some fs) = simp (get-default_nil)

fulfillment_ids-start :
    (fs : Items) → fulfillment_ids (edit_elements start_fulfillment fs) ≡ fulfillment_ids fs
unfolding fulfillment_ids edit_elements
fulfillment_ids-start nil = refl
fulfillment_ids-start (cons (obj m) fs) =
    rw (get-id-start_fulfillment m, fulfillment_ids-start fs) refl
fulfillment_ids-start (cons null fs) = fulfillment_ids-start fs
fulfillment_ids-start (cons (bool b) fs) = fulfillment_ids-start fs
fulfillment_ids-start (cons (num n) fs) = fulfillment_ids-start fs
fulfillment_ids-start (cons (str s) fs) = fulfillment_ids-start fs
fulfillment_ids-start (cons (arr xs) fs) = fulfillment_ids-start fs

ids_in-start :
    (order : Fields)
    → ids_in (as_items (get "fulfillments" (edit_list "fulfillments" start_fulfillment order)))
      ≡ ids_in (as_items (get "fulfillments" order))
unfolding edit_list
ids_in-start order = by-items (as_items (get "fulfillments" order)) refl
  where
    by-items :
        (o : Option Items)
        → as_items (get "fulfillments" order) ≡ o
        → ids_in (as_items (get "fulfillments" (edit_list "fulfillments" start_fulfillment order)))
          ≡ ids_in (as_items (get "fulfillments" order))
    by-items none e = rw e (rw e refl)
    by-items (some fs) e =
        rw (get-edit_list "fulfillments" start_fulfillment order fs e, e) (fulfillment_ids-start fs)

-- The order after the loop over the items.
abbrev itemized : Fields → Fields
itemized order =
    edit_list "items" (normalize_item (ids_in (as_items (get "fulfillments" order))))
      (edit_list "fulfillments" start_fulfillment order)

AllIn-items :
    (ids : List String) (order : Fields)
    → AllIn
        (IsItem (some_in ids))
        (as_items (get "items" (edit_list "items" (normalize_item ids) order)))
unfolding edit_list
AllIn-items ids order = by-items (as_items (get "items" order)) refl
  where
    by-items :
        (o : Option Items)
        → as_items (get "items" order) ≡ o
        → AllIn
            (IsItem (some_in ids))
            (as_items (get "items" (edit_list "items" (normalize_item ids) order)))
    by-items none e = rw e (rw e tt)
    by-items (some xs) e = rw (get-edit_list "items" (normalize_item ids) order xs e) (
        AllMaps-edit_elements (IsItem (some_in ids)) (normalize_item ids)
          (normalize_item-IsItem ids) xs)

-- The fulfillments are ready, and the items are tagged and carry a fulfillment.
abbrev pub IsNormalized : Bool → Fields → Type 0
IsNormalized named order =
    AllIn IsReady (as_items (get "fulfillments" order))
    × AllIn (IsItem named) (as_items (get "items" order))

put_finished-IsNormalized :
    (named : Bool) (order : Fields) (fs : Checked Items)
    → AllIn (IsItem named) (as_items (get "items" order))
    → OnFine (AllMaps IsReady) fs
    → OnFine (IsNormalized named) (put_finished order fs)
put_finished-IsNormalized named order (refused e) h k = tt
put_finished-IsNormalized named order (fine fs) h k = (simp (get-put) k, simp (get-put) h)

finish_list-IsNormalized :
    (named : Bool) (order : Fields) (o : Option Items)
    → as_items (get "fulfillments" order) ≡ o
    → AllIn (IsItem named) (as_items (get "items" order))
    → OnFine (IsNormalized named) (finish_list order o)
finish_list-IsNormalized named order none e h = (rw e tt, h)
finish_list-IsNormalized named order (some fs) e h =
    put_finished-IsNormalized named order (finish_fulfillments fs) h
      (finish_fulfillments-AllReady fs)

-- An order that normalizeSelectPayload does not refuse has, on every fulfillment that is a map, a type, a
-- state code that is neither missing nor null nor the empty text, and an end with location and address,
-- whose GPS value and area code are not the empty text; every item that is a map has the type tag, and
-- a fulfillment identifier when some fulfillment of the order has one.
pub normalize_order-IsNormalized :
    (order : Fields) → OnFine (IsNormalized (order_names order)) (normalize_order order)
unfolding normalize_order
normalize_order-IsNormalized order =
    rw (← some_in-ids_in order, ids_in-start order)
      (finish_list-IsNormalized (some_in (ids_in (as_items (get "fulfillments" order))))
        (itemized order) _ refl
        (AllIn-items (ids_in (as_items (get "fulfillments" order)))
          (edit_list "fulfillments" start_fulfillment order)))
