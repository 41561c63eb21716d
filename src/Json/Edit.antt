-- ===== src/Json/Edit.antt =====
-- The edits that the payload builders make on decoded JSON, each with its Go idiom.
use load_test_backend.Base.{
  ◌≡◌, refl, String, Bool, true, false, Option, none, some, arith, ◌==◌, string_eq, eq_iff, eq_refl,
  if◌then◌else◌,
}
use load_test_backend.Json.{
  Json, null, bool, num, str, arr, obj, Items, nil, cons, Fields, end, get, put, as_map, as_items,
  as_string?, get-put,
}

-- `x, _ := v.(map[string]any); if x == nil { x = map[string]any{} }`.
abbrev pub map_or_new : Option Json → Fields
map_or_new v = elim (as_map v) [ none ↦ end | some fs ↦ fs ]

abbrev pub is_text : Option Json → Bool
is_text v = elim (as_string? v) [ none ↦ false | some s ↦ true ]

-- `if _, ok := m[k].(string); !ok { m[k] = v }`.
unfoldable pub default_text : String → String → Fields → Fields
default_text k v m = if is_text (get k m) then m else put k (str v) m

-- `if _, ok := m[k]; !ok { m[k] = v }`.
unfoldable pub default_value : String → Json → Fields → Fields
default_value k v m = elim (get k m) [ none ↦ put k v m | some j ↦ m ]

-- The map under a key, a new one where there is none, changed and written back.
unfoldable pub edit_map : String → (Fields → Fields) → Fields → Fields
edit_map k f m = put k (obj (f (map_or_new (get k m)))) m

-- The loop body `fm, _ := f.(map[string]any); if fm == nil { continue }; ...; fs[i] = fm`.
abbrev pub edit_element : (Fields → Fields) → Json → Json
edit_element f (obj fs) = obj (f fs)
edit_element f null = null
edit_element f (bool b) = bool b
edit_element f (num n) = num n
edit_element f (str s) = str s
edit_element f (arr xs) = arr xs

unfoldable pub edit_elements : (Fields → Fields) → Items → Items
edit_elements f nil = nil
edit_elements f (cons x xs) = cons (edit_element f x) (edit_elements f xs)

-- `if xs, _ := m[k].([]any); xs != nil { for ... ; m[k] = xs }`.
abbrev pub put_edited : String → (Fields → Fields) → Option Items → Fields → Fields
put_edited k f none m = m
put_edited k f (some xs) m = put k (arr (edit_elements f xs)) m

unfoldable pub edit_list : String → (Fields → Fields) → Fields → Fields
edit_list k f m = put_edited k f (as_items (get k m)) m

-- The maps among the elements have the property.
abbrev pub AllMaps : (Fields → Type 0) → Items → Type 0
AllMaps P nil = Unit
AllMaps P (cons (obj fs) xs) = P fs × AllMaps P xs
AllMaps P (cons null xs) = AllMaps P xs
AllMaps P (cons (bool b) xs) = AllMaps P xs
AllMaps P (cons (num n) xs) = AllMaps P xs
AllMaps P (cons (str s) xs) = AllMaps P xs
AllMaps P (cons (arr ys) xs) = AllMaps P xs

pub AllMaps-edit_elements :
    (P : Fields → Type 0) (f : Fields → Fields)
    → ((fs : Fields) → P (f fs))
    → (xs : Items) → AllMaps P (edit_elements f xs)
unfolding edit_elements
AllMaps-edit_elements P f h nil = tt
AllMaps-edit_elements P f h (cons (obj fs) xs) = (h fs, AllMaps-edit_elements P f h xs)
AllMaps-edit_elements P f h (cons null xs) = AllMaps-edit_elements P f h xs
AllMaps-edit_elements P f h (cons (bool b) xs) = AllMaps-edit_elements P f h xs
AllMaps-edit_elements P f h (cons (num n) xs) = AllMaps-edit_elements P f h xs
AllMaps-edit_elements P f h (cons (str s) xs) = AllMaps-edit_elements P f h xs
AllMaps-edit_elements P f h (cons (arr ys) xs) = AllMaps-edit_elements P f h xs

-- What the edits leave under the other keys.
pub get-default_text :
    (k j v : String) (m : Fields)
    → get j (default_text k v m)
      ≡ (if k == j then (if is_text (get k m) then get k m else some (str v)) else get j m)
unfolding default_text
get-default_text k j v m = ground (arith, get-put k j (str v) m, eq_iff k j)

pub get-default_value :
    (k j : String) (v : Json) (m : Fields)
    → get j (default_value k v m)
      ≡ (if k == j then elim (get k m) [ none ↦ some v | some w ↦ get k m ] else get j m)
unfolding default_value
get-default_value k j v m = ground (arith, get-put k j v m, eq_iff k j)

pub get-edit_map :
    (k j : String) (f : Fields → Fields) (m : Fields)
    → get j (edit_map k f m) ≡ (if k == j then some (obj (f (map_or_new (get k m)))) else get j m)
unfolding edit_map
get-edit_map k j f m = get-put k j (obj (f (map_or_new (get k m)))) m

pub get-edit_list_other :
    (k j : String) (f : Fields → Fields) (m : Fields)
    → (k == j) ≡ false
    → get j (edit_list k f m) ≡ get j m
unfolding edit_list
get-edit_list_other k j f m h =
    elim (as_items (get k m)) as (λ o. get j (put_edited k f o m) ≡ get j m) [
      | none ↦ refl
      | some xs ↦ ground (arith, get-put k j (arr (edit_elements f xs)) m)
    ]

pub get-edit_list :
    (k : String) (f : Fields → Fields) (m : Fields) (xs : Items)
    → as_items (get k m) ≡ some xs
    → get k (edit_list k f m) ≡ some (arr (edit_elements f xs))
unfolding edit_list
get-edit_list k f m xs h =
    rw h (ground (arith, get-put k k (arr (edit_elements f xs)) m, eq_refl k))

-- The text under a key stays a text, and becomes one.
pub is_text-default_text :
    (k j v : String) (m : Fields)
    → is_text (get j (default_text k v m)) ≡ (if k == j then true else is_text (get j m))
is_text-default_text k j v m = ground (arith, get-default_text k j v m, eq_iff k j)

pub is_text-or_text :
    (o : Option Json) (v : String) → is_text (if is_text o then o else some (str v)) ≡ true
is_text-or_text o v = ground arith

-- `m[k] == nil`: absent, or null.
abbrev pub is_nil : Option Json → Bool
is_nil none = true
is_nil (some null) = true
is_nil (some (bool b)) = false
is_nil (some (num n)) = false
is_nil (some (str s)) = false
is_nil (some (arr xs)) = false
is_nil (some (obj fs)) = false

-- `if m[k] == nil { m[k] = v }`.
unfoldable pub default_nil : String → Json → Fields → Fields
default_nil k v m = if is_nil (get k m) then put k v m else m

pub get-default_nil :
    (k j : String) (v : Json) (m : Fields)
    → get j (default_nil k v m)
      ≡ (if k == j then (if is_nil (get k m) then some v else get k m) else get j m)
unfolding default_nil
get-default_nil k j v m = ground (arith, get-put k j v m, eq_iff k j)

-- `if c, _ := m[k].(map[string]any); c != nil { ... }` with changes of `c` in place.
abbrev pub put_map : String → (Fields → Fields) → Option Fields → Fields → Fields
put_map k f none m = m
put_map k f (some fs) m = put k (obj (f fs)) m

unfoldable pub edit_if_map : String → (Fields → Fields) → Fields → Fields
edit_if_map k f m = put_map k f (as_map (get k m)) m

pub get-edit_if_map_other :
    (k j : String) (f : Fields → Fields) (m : Fields)
    → (k == j) ≡ false
    → get j (edit_if_map k f m) ≡ get j m
unfolding edit_if_map
get-edit_if_map_other k j f m h =
    elim (as_map (get k m)) as (λ o. get j (put_map k f o m) ≡ get j m) [
      | none ↦ refl
      | some fs ↦ ground (arith, get-put k j (obj (f fs)) m)
    ]
