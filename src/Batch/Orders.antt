-- ===== src/Batch/Orders.antt =====
-- What is read of the order of a payload: the texts under its keys, and all its fulfillments.
use load_test_backend.Base.{
  ◌≡◌, refl, String, Bool, true, Option, none, some, List, [], ◌∷◌, ◌&&◌, string_eq,
}
use load_test_backend.Json.{Items, Fields, get, as_items}
use load_test_backend.Json.Edit.{
  map_or_new, is_text, edit_list, AllMaps, AllMaps-edit_elements, get-edit_list,
}

-- The map under a key, the empty one where there is none.
abbrev pub inner : String → Fields → Fields
inner k m = map_or_new (get k m)

abbrev pub has_text : String → Fields → Bool
has_text k m = is_text (get k m)

abbrev pub all_texts : List String → Fields → Bool
all_texts [] m = true
all_texts (k ∷ ks) m = has_text k m && all_texts ks m

-- The property of the maps of a list under a key; nothing where there is no list.
abbrev pub AllIn : (Fields → Type 0) → Option Items → Type 0
AllIn P none = Unit
AllIn P (some xs) = AllMaps P xs

abbrev pub AllFulfillments : (Fields → Bool) → Fields → Type 0
AllFulfillments test order = AllIn (λ m. test m ≡ true) (as_items (get "fulfillments" order))

abbrev pub order_of : Fields → Fields
order_of payload = inner "order" (inner "message" payload)

pub AllFulfillments-edit_list :
    (test : Fields → Bool) (f : Fields → Fields) (order : Fields)
    → ((m : Fields) → test (f m) ≡ true)
    → AllFulfillments test (edit_list "fulfillments" f order)
unfolding edit_list
AllFulfillments-edit_list test f order h = by-items (as_items (get "fulfillments" order)) refl
  where
    by-items :
        (o : Option Items)
        → as_items (get "fulfillments" order) ≡ o
        → AllFulfillments test (edit_list "fulfillments" f order)
    by-items none e = rw e (rw e tt)
    by-items (some xs) e =
        rw (get-edit_list "fulfillments" f order xs e)
          (AllMaps-edit_elements (λ m. test m ≡ true) f h xs)
