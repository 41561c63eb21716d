-- ===== src/Json.antt =====
-- JSON values as `encoding/json` decodes them into `any` and `map[string]any`, and the Go
-- idioms of the program over them: comma-ok assertions, map reads and writes, `fmt.Sprint`.
pub mod Edit
use Prim.Native.String.{◌++◌ as cat}
use load_test_backend.Base.{
  String, ◌≡◌, refl, Bool, Option, none, some, arith, eq_iff, eq_refl, ◌==◌, string_eq,
  if◌then◌else◌,
}

-- A number is kept as the text that `fmt.Sprint` prints for it.
mutual
  pub data Json : Type 0 where
    null : Json
    bool : Bool → Json
    num : String → Json
    str : String → Json
    arr : Items → Json
    obj : Fields → Json

  pub data Items : Type 0 where
    nil : Items
    cons : Json → Items → Items

  pub data Fields : Type 0 where
    end : Fields
    field : String → Json → Fields → Fields

-- `m[k]`, with the comma-ok result.
unfoldable pub get : String → Fields → Option Json
get k end = none
get k (field j v fs) = if j == k then some v else get k fs

-- `m[k] = v`.
unfoldable pub put : String → Json → Fields → Fields
put k v end = field k v end
put k v (field j w fs) = if j == k then field k v fs else field j w (put k v fs)

-- `delete(m, k)`.
unfoldable pub del : String → Fields → Fields
del k end = end
del k (field j w fs) = let rest = del k fs in if j == k then rest else field j w rest

-- `v, _ := x.(map[string]any)`: `none` stands for the nil map.
abbrev pub as_map : Option Json → Option Fields
as_map (some (obj fs)) = some fs
as_map (some null) = none
as_map (some (bool b)) = none
as_map (some (num n)) = none
as_map (some (str s)) = none
as_map (some (arr xs)) = none
as_map none = none

-- `v, _ := x.([]any)`: `none` stands for the nil slice.
abbrev pub as_items : Option Json → Option Items
as_items (some (arr xs)) = some xs
as_items (some null) = none
as_items (some (bool b)) = none
as_items (some (num n)) = none
as_items (some (str s)) = none
as_items (some (obj fs)) = none
as_items none = none

-- `v, ok := x.(string)`.
abbrev pub as_string? : Option Json → Option String
as_string? (some (str s)) = some s
as_string? (some null) = none
as_string? (some (bool b)) = none
as_string? (some (num n)) = none
as_string? (some (arr xs)) = none
as_string? (some (obj fs)) = none
as_string? none = none

-- `v, _ := x.(string)`.
abbrev pub as_string : Option Json → String
as_string j = elim (as_string? j) [ none ↦ "" | some s ↦ s ]

-- `fmt.Sprint(v)`, the fields of a map in the order that the value has them.
mutual
  sprint_value : Json → String
  sprint_value null = "<nil>"
  sprint_value (bool b) = if b then "true" else "false"
  sprint_value (num n) = n
  sprint_value (str s) = s
  sprint_value (arr nil) = "[]"
  sprint_value (arr (cons x xs)) = cat "[" (cat (sprint_value x) (sprint_items xs))
  sprint_value (obj end) = "map[]"
  sprint_value (obj (field k v fs)) =
      cat "map[" (cat k (cat ":" (cat (sprint_value v) (sprint_fields fs))))

  sprint_items : Items → String
  sprint_items nil = "]"
  sprint_items (cons x xs) = cat " " (cat (sprint_value x) (sprint_items xs))

  sprint_fields : Fields → String
  sprint_fields end = "]"
  sprint_fields (field k v fs) = cat " " (cat k (cat ":" (cat (sprint_value v) (sprint_fields fs))))

unfoldable pub sprint : Json → String
unfolding sprint_value
sprint j = sprint_value j

-- The bytes of a request or of a stored payload, up to what `json.Unmarshal` makes of them.
pub data Payload : Type 0 where
  empty : Payload
  malformed : Payload
  doc : Json → Payload

-- `json.Unmarshal(data, &m)` for `var m map[string]any`: `none` is an error, and `some none` leaves
-- the map nil, which the text `null` does.
abbrev pub decode_map : Payload → Option (Option Fields)
decode_map empty = none
decode_map malformed = none
decode_map (doc (obj fs)) = some (some fs)
decode_map (doc null) = some none
decode_map (doc (bool b)) = none
decode_map (doc (num n)) = none
decode_map (doc (str s)) = none
decode_map (doc (arr xs)) = none

-- A read of a map that may be nil.
abbrev pub get_in : String → Option Fields → Option Json
get_in k none = none
get_in k (some fs) = get k fs

pub get-put :
    (k j : String) (v : Json) (fs : Fields)
    → get j (put k v fs) ≡ (if k == j then some v else get j fs)
unfolding get put
get-put k j v end = refl
get-put k j v (field i w fs) = ground (arith, eq_iff k j, eq_iff i k, eq_iff i j, get-put k j v fs)

pub get-put_self : (k : String) (v : Json) (fs : Fields) → get k (put k v fs) ≡ some v
get-put_self k v fs = simp (get-put, eq_refl)

pub get-del : (k j : String) (fs : Fields) → get j (del k fs) ≡ (if k == j then none else get j fs)
unfolding get del
get-del k j end = ground arith
get-del k j (field i w fs) = ground (arith, eq_iff k j, eq_iff i k, eq_iff i j, get-del k j fs)
