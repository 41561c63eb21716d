-- ===== src/Select/Catalog.antt =====
-- select_batch.go: normalizeProviderID, and the structs of onSearchCatalog with their decoders.
use Prim.Native.Char.{code}
use load_test_backend.Base.{
  ℕ, zero, suc, String, Bool, ◌&&◌, ◌||◌, Option, some, List, [], ◌∷◌, nat_eq, leb, string_eq,
  ◌>>=◌, if◌then◌else◌,
}
use load_test_backend.Json.{Json, Items, nil, cons, get}
use load_test_backend.Batch.Init.{struct_text, struct_fields, struct_items}

-- The characters that normalizeProviderID keeps: digits, letters, and / - _.
abbrev pub is_provider_char : ℕ → Bool
is_provider_char r =
    (leb 48 r && leb r 57)
    || (leb 97 r && leb r 122)
    || (leb 65 r && leb r 90)
    || nat_eq r 47
    || nat_eq r 45
    || nat_eq r 95

unfoldable pub provider_chars : String → String
provider_chars String.[] = String.[]
provider_chars (String.◌∷◌ c s) =
    let rest = provider_chars s in if is_provider_char (code c) then String.◌∷◌ c rest else rest

unfoldable pub first_chars : ℕ → String → String
first_chars zero s = String.[]
first_chars (suc n) String.[] = String.[]
first_chars (suc n) (String.◌∷◌ c s) = String.◌∷◌ c (first_chars n s)

unfoldable pub normalize_provider_id : String → String
normalize_provider_id s = first_chars 36 (provider_chars s)

pub record CatalogItem : Type 0 where
  pub id : String
  pub location_id : String
  pub fulfillment_id : String
  pub parent_item_id : String

pub record CatalogFulfillment : Type 0 where
  pub id : String
  pub kind : String

pub record Provider : Type 0 where
  pub id : String
  pub fulfillments : List CatalogFulfillment
  pub locations : List String
  pub items : List CatalogItem

module _ {A : Type 0} where
  unfoldable pub decode_each : (Json → Option A) → Items → Option (List A)
  decode_each f nil = some []
  decode_each f (cons j js) = do x ← f j; xs ← decode_each f js; some (x ∷ xs)

-- The structs of onSearchCatalog; `none` is the error on another type. The tags are decoded only for it.
unfoldable pub decode_tag_entry : Json → Option String
decode_tag_entry j = do
  m ← struct_fields (some j)
  _ ← struct_text (get "code" m)
  struct_text (get "value" m)

unfoldable pub decode_tag : Json → Option String
decode_tag j = do
  m ← struct_fields (some j)
  list ← struct_items (get "list" m)
  _ ← decode_each decode_tag_entry list
  struct_text (get "code" m)

unfoldable pub decode_catalog_item : Json → Option CatalogItem
decode_catalog_item j = do
  m ← struct_fields (some j)
  id ← struct_text (get "id" m)
  location_id ← struct_text (get "location_id" m)
  fulfillment_id ← struct_text (get "fulfillment_id" m)
  parent_item_id ← struct_text (get "parent_item_id" m)
  tags ← struct_items (get "tags" m)
  _ ← decode_each decode_tag tags
  some (record {
    id = id;
    location_id = location_id;
    fulfillment_id = fulfillment_id;
    parent_item_id = parent_item_id;
  })

unfoldable pub decode_fulfillment : Json → Option CatalogFulfillment
decode_fulfillment j = do
  m ← struct_fields (some j)
  id ← struct_text (get "id" m)
  kind ← struct_text (get "type" m)
  some (record { id = id; kind = kind })

unfoldable pub decode_location : Json → Option String
decode_location j = do m ← struct_fields (some j); struct_text (get "id" m)

unfoldable pub decode_provider : Json → Option Provider
decode_provider j = do
  m ← struct_fields (some j)
  id ← struct_text (get "id" m)
  fulfillment_list ← struct_items (get "fulfillments" m)
  fulfillments ← decode_each decode_fulfillment fulfillment_list
  location_list ← struct_items (get "locations" m)
  locations ← decode_each decode_location location_list
  item_list ← struct_items (get "items" m)
  items ← decode_each decode_catalog_item item_list
  some (record { id = id; fulfillments = fulfillments; locations = locations; items = items })

unfoldable pub decode_catalog : Json → Option (List Provider)
decode_catalog j = do
  m ← struct_fields (some j)
  message ← struct_fields (get "message" m)
  catalog ← struct_fields (get "catalog" message)
  providers ← struct_items (get "bpp/providers" catalog)
  decode_each decode_provider providers
