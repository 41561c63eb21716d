-- ===== src/Select/Distinct.antt =====
-- select_batch.go: buildDistinctOrdersFromOnSearch, the orders made from the first provider of a catalog. What
-- math/rand gives is drawn by position: the number of items, and the permutation of their indices. A
-- base order that is nil makes the program panic, and is left out here.
use load_test_backend.Base.{
  ℕ, zero, suc, ◌+◌, String, ◌||◌, Option, none, some, List, [], ◌∷◌, Assoc, lookup, insert, length,
  get_elem?, map, min, ◌==◌, string_eq, if◌then◌else◌,
}
use load_test_backend.Json.{
  Json, null, bool, num, str, arr, obj, Items, nil, cons, Fields, end, field, get, put, as_items,
  Payload, empty, malformed, doc,
}
use load_test_backend.Json.Edit.{edit_if_map, map_or_new}
use load_test_backend.Session.Validation.{contains}
use load_test_backend.Select.Normalize.{item_tags}
use load_test_backend.Select.Catalog.{CatalogItem, CatalogFulfillment, Provider, decode_catalog}

-- `defaultFulfillmentID`: the first identifier that is not empty.
unfoldable pub default_fulfillment_id : List CatalogFulfillment → String
default_fulfillment_id [] = ""
default_fulfillment_id (f ∷ fs) =
    let rest = default_fulfillment_id fs in if f.id == "" then rest else f.id

-- `fulfillmentTypeByID`.
unfoldable pub types_by_id : List CatalogFulfillment → Assoc String String → Assoc String String
types_by_id [] types = types
types_by_id (f ∷ fs) types =
    types_by_id fs (if f.id == "" || f.kind == "" then types else insert f.id f.kind types)

abbrev pub first_location : List String → String
first_location [] = ""
first_location (l ∷ ls) = l

-- The location and the fulfillment of an item, with those of the provider.
abbrev pub item_location : Provider → CatalogItem → String
item_location p it =
    let own = first_location p.locations in if own == "" then it.location_id else own

abbrev pub item_fulfillment : Provider → CatalogItem → String
item_fulfillment p it =
    if it.fulfillment_id == "" then default_fulfillment_id p.fulfillments else it.fulfillment_id

abbrev pub with_parent : String → Fields → Fields
with_parent parent m = if parent == "" then m else put "parent_item_id" (str parent) m

unfoldable pub item_map : Provider → CatalogItem → Fields
item_map p it = with_parent it.parent_item_id (
    field "id" (str it.id) (
      field "location_id" (str (item_location p it)) (
        field "fulfillment_id" (str (item_fulfillment p it))
          (field "tags" item_tags (field "quantity" (obj (field "count" (num "2") end)) end)))))

unfoldable pub item_maps : Provider → List CatalogItem → Items
item_maps p [] = nil
item_maps p (it ∷ its) = cons (obj (item_map p it)) (item_maps p its)

-- `chosenLocationID`: the first location that is not empty.
unfoldable pub chosen_location : Provider → List CatalogItem → String
chosen_location p [] = ""
chosen_location p (it ∷ its) =
    let rest = chosen_location p its in
    if item_location p it == "" then rest else item_location p it

abbrev pub add_id : String → List String → List String
add_id id ids = if id == "" || contains id ids then ids else id ∷ ids

-- The keys of the set `fulfillmentIDs`; the order in which `range` gives them is open.
unfoldable pub used_ids : Provider → List CatalogItem → List String
used_ids p [] = []
used_ids p (it ∷ its) = add_id (item_fulfillment p it) (used_ids p its)

abbrev pub kind_or_delivery : Option String → String
kind_or_delivery none = "Delivery"
kind_or_delivery (some k) = if k == "" then "Delivery" else k

unfoldable pub fulfillment_map : Assoc String String → Fields → String → Fields
fulfillment_map types template id =
    put "type" (str (kind_or_delivery (lookup id types))) (put "id" (str id) template)

unfoldable pub fulfillment_maps : Assoc String String → Fields → List String → Items
fulfillment_maps types template [] = nil
fulfillment_maps types template (id ∷ ids) =
    cons (obj (fulfillment_map types template id)) (fulfillment_maps types template ids)

-- The first fulfillment of the base order, when it is a map.
abbrev pub first_map : Option Items → Fields
first_map none = end
first_map (some nil) = end
first_map (some (cons f fs)) = map_or_new (some f)

abbrev pub put_locations : String → Fields → Fields
put_locations location m =
    if location == ""
    then m
    else put "locations" (arr (cons (obj (field "id" (str location) end)) nil)) m

abbrev pub put_fulfillments : Assoc String String → Fields → List String → Fields → Fields
put_fulfillments types template [] order = order
put_fulfillments types template (id ∷ ids) order =
    put "fulfillments" (arr (fulfillment_maps types template (id ∷ ids))) order

-- One order with the chosen items.
unfoldable pub distinct_order : Provider → Fields → List CatalogItem → Fields
distinct_order p base chosen =
    let itemized = put "items" (arr (item_maps p chosen)) base in
    let provided =
      edit_if_map "provider" (λ m. put_locations (chosen_location p chosen) (put "id" (str p.id) m))
        itemized in
    put_fulfillments (types_by_id p.fulfillments [])
      (first_map (as_items (get "fulfillments" base))) (used_ids p chosen) provided

-- `r.Intn(max)` and `r.Perm(len(items))` for the order at a position.
pub record Draws : Type 0 where
  pub intn : ℕ → ℕ → ℕ
  pub perm : ℕ → List ℕ

-- The items at the first `n` indices of the permutation.
unfoldable pub chosen_items : List CatalogItem → ℕ → List ℕ → List CatalogItem
chosen_items items zero perm = []
chosen_items items (suc n) [] = []
chosen_items items (suc n) (idx ∷ perm) =
    let rest = chosen_items items n perm in
    elim (get_elem? items idx) [ none ↦ rest | some it ↦ it ∷ rest ]

unfoldable pub orders_from : Draws → Provider → Fields → ℕ → ℕ → List Fields
orders_from d p base i zero = []
orders_from d p base i (suc n) =
    let wanted = 1 + d.intn i (min (length p.items) 5) in
    distinct_order p base (chosen_items p.items (min wanted (length p.items)) (d.perm i))
    ∷ orders_from d p base (i + 1) n

-- As many orders as wanted, and at most one for each item.
abbrev pub orders_of : Draws → Fields → ℕ → Option (List Provider) → List Fields
orders_of d base count none = []
orders_of d base count (some []) = []
orders_of d base count (some (p ∷ ps)) = orders_from d p base 0 (min count (length p.items))

unfoldable pub build_distinct_orders : Draws → Payload → Fields → ℕ → List Fields
build_distinct_orders d empty base count = []
build_distinct_orders d malformed base count = []
build_distinct_orders d (doc j) base count = orders_of d base count (decode_catalog j)

-- As generateFromOnSearch asks for them.
abbrev pub distinct_orders : Draws → Payload → Json → List Json
distinct_orders d on_search (obj base) = map obj (build_distinct_orders d on_search base 12)
distinct_orders d on_search null = []
distinct_orders d on_search (bool b) = []
distinct_orders d on_search (num n) = []
distinct_orders d on_search (str s) = []
distinct_orders d on_search (arr xs) = []
