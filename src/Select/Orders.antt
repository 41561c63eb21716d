-- ===== src/Select/Orders.antt =====
-- select_batch.go: the orders made from a catalog name every fulfillment that their items use.
use load_test_backend.Base.{
  ℕ, zero, suc, ◌+◌, ◌≤◌, ◌≡◌, refl, ap, subst, ◌∙◌, String, Bool, true, false, ◌||◌, Option, none,
  some, List, [], ◌∷◌, All, Assoc, length, min, ◌==◌, string_eq, eq_refl, Bool-cases, inl, inr,
  arith,
}
use load_test_backend.Json.{
  str, arr, Fields, get, as_items, as_string, Payload, empty, malformed, doc, get-put, get-put_self,
}
use load_test_backend.Json.Edit.{get-edit_if_map_other, AllMaps}
use load_test_backend.Session.Validation.{contains}
use load_test_backend.Batch.Orders.{AllIn}
use load_test_backend.Select.Normalize.{fulfillment_ids, ids_in}
use load_test_backend.Select.Catalog.{CatalogItem, Provider, decode_catalog}
use load_test_backend.Select.Distinct.{
  item_fulfillment, item_map, item_maps, add_id, used_ids, fulfillment_map, fulfillment_maps,
  put_fulfillments, distinct_order, Draws, orders_from, orders_of, build_distinct_orders,
}

-- The item names no fulfillment, or one of these.
abbrev pub names_one_of : List String → Fields → Bool
names_one_of ids m = let id = as_string (get "fulfillment_id" m) in id == "" || contains id ids

-- Every item of the order that is a map names a fulfillment of the order, or none.
abbrev pub IsLinked : Fields → Type 0
IsLinked order =
    AllIn (λ m. names_one_of (ids_in (as_items (get "fulfillments" order))) m ≡ true)
      (as_items (get "items" order))

get-item_map :
    (p : Provider) (it : CatalogItem)
    → get "fulfillment_id" (item_map p it) ≡ some (str (item_fulfillment p it))
unfolding item_map get
get-item_map p it = elim (Bool-cases (it.parent_item_id == "")) [
  | inl e ↦ rw e refl
  | inr e ↦ rw e (simp (get-put))
]

contains-cons :
    (id x : String) (ids : List String) → contains id ids ≡ true → contains id (x ∷ ids) ≡ true
unfolding contains
contains-cons id x ids h = ground arith

contains-add_id :
    (id : String) (ids : List String) → (id == "" || contains id (add_id id ids)) ≡ true
unfolding contains
contains-add_id id ids = ground (arith, eq_refl id)

contains-add_id_other :
    (id x : String) (ids : List String) → contains id ids ≡ true → contains id (add_id x ids) ≡ true
unfolding contains
contains-add_id_other id x ids h = ground arith

-- The items of a list name identifiers that stay when the list of identifiers grows.
AllMaps-item_maps :
    (p : Provider) (its : List CatalogItem) (ids : List String)
    → ((id : String) → contains id (used_ids p its) ≡ true → contains id ids ≡ true)
    → AllMaps (λ m. names_one_of ids m ≡ true) (item_maps p its)
unfolding item_maps used_ids
AllMaps-item_maps p [] ids within = tt
AllMaps-item_maps p (it ∷ its) ids within = (
  rw (get-item_map p it) (
      ground (
        arith,
        contains-add_id (item_fulfillment p it) (used_ids p its),
        within (item_fulfillment p it),
      )),
  AllMaps-item_maps p its ids
      (λ id h. within id (contains-add_id_other id (item_fulfillment p it) (used_ids p its) h)),
)

used_ids-AreNamed :
    (p : Provider) (its : List CatalogItem) → All (λ id. (id == "") ≡ false) (used_ids p its)
unfolding used_ids
used_ids-AreNamed p [] = tt
used_ids-AreNamed p (it ∷ its) =
    elim (Bool-cases
      (item_fulfillment p it == "" || contains (item_fulfillment p it) (used_ids p its))) [
        | inl e ↦ rw e (used_ids-AreNamed p its)
        | inr e ↦ rw e (ground arith, used_ids-AreNamed p its)
      ]

fulfillment_ids-maps :
    (types : Assoc String String) (template : Fields) (ids : List String)
    → All (λ id. (id == "") ≡ false) ids
    → fulfillment_ids (fulfillment_maps types template ids) ≡ ids
unfolding fulfillment_ids fulfillment_maps fulfillment_map
fulfillment_ids-maps types template [] h = refl
fulfillment_ids-maps types template (id ∷ ids) (h, k) =
    let here : get "id" (fulfillment_map types template id) ≡ some (str id) = simp (get-put) in
    rw (here, h, fulfillment_ids-maps types template ids k) refl

contains-nothing :
    (id : String) (ids : List String) → contains id [] ≡ true → contains id ids ≡ true
unfolding contains
contains-nothing id ids h = ground arith

put_fulfillments-IsLinked :
    (p : Provider) (chosen : List CatalogItem) (types : Assoc String String)
    (template order : Fields) (ids : List String)
    → used_ids p chosen ≡ ids
    → as_items (get "items" order) ≡ some (item_maps p chosen)
    → IsLinked (put_fulfillments types template ids order)
put_fulfillments-IsLinked p chosen types template order [] e h = rw h (
    AllMaps-item_maps p chosen _
      (λ id k. contains-nothing id _ (subst (λ ids. contains id ids ≡ true) e k)))
put_fulfillments-IsLinked p chosen types template order (id ∷ ids) e h =
    let named = subst (All (λ id. (id == "") ≡ false)) e (used_ids-AreNamed p chosen) in
    rw (get-put_self "fulfillments" (arr (fulfillment_maps types template (id ∷ ids))) order) (
      rw (get-put "fulfillments" "items" (arr (fulfillment_maps types template (id ∷ ids))) order) (
        rw (h, fulfillment_ids-maps types template (id ∷ ids) named)
          (AllMaps-item_maps p chosen (id ∷ ids)
            (λ x k. subst (λ ids. contains x ids ≡ true) e k))))

distinct_order-IsLinked :
    (p : Provider) (base : Fields) (chosen : List CatalogItem)
    → IsLinked (distinct_order p base chosen)
unfolding distinct_order
distinct_order-IsLinked p base chosen =
    put_fulfillments-IsLinked p chosen _ _ _ (used_ids p chosen) refl (
      ap as_items (
        get-edit_if_map_other "provider" "items" _ _ refl
        ∙ get-put_self "items" (arr (item_maps p chosen)) base))

orders_from-IsLinked :
    (d : Draws) (p : Provider) (base : Fields) (i n : ℕ) → All IsLinked (orders_from d p base i n)
unfolding orders_from
orders_from-IsLinked d p base i zero = tt
orders_from-IsLinked d p base i (suc n) =
    (distinct_order-IsLinked p base _, orders_from-IsLinked d p base (i + 1) n)

length-orders_from :
    (d : Draws) (p : Provider) (base : Fields) (i n : ℕ) → length (orders_from d p base i n) ≡ n
unfolding orders_from
length-orders_from d p base i zero = refl
length-orders_from d p base i (suc n) = omega (arith, length-orders_from d p base (i + 1) n)

orders_of-IsLinked :
    (d : Draws) (base : Fields) (count : ℕ) (o : Option (List Provider))
    → All IsLinked (orders_of d base count o) × (length (orders_of d base count o) ≤ count)
orders_of-IsLinked d base count none = (tt, omega arith)
orders_of-IsLinked d base count (some []) = (tt, omega arith)
orders_of-IsLinked d base count (some (p ∷ ps)) = (
  orders_from-IsLinked d p base 0 (min count (length p.items)),
  omega (arith, length-orders_from d p base 0 (min count (length p.items))),
)

-- The orders made from a catalog are at most as many as asked for, and in each of them every item either names
-- no fulfillment or names one of the fulfillments of its order, whatever items are drawn.
pub build_distinct_orders-IsLinked :
    (d : Draws) (on_search : Payload) (base : Fields) (count : ℕ)
    → All IsLinked (build_distinct_orders d on_search base count)
      × (length (build_distinct_orders d on_search base count) ≤ count)
unfolding build_distinct_orders
build_distinct_orders-IsLinked d empty base count = (tt, omega arith)
build_distinct_orders-IsLinked d malformed base count = (tt, omega arith)
build_distinct_orders-IsLinked d (doc j) base count =
    orders_of-IsLinked d base count (decode_catalog j)
