-- ===== src/Select/Fulfillments.antt =====
-- select_batch.go: the fulfillments that normalizeSelectPayload does not refuse.
use load_test_backend.Base.{
  ◌≡◌, refl, Bool, true, false, not, ◌&&◌, ◌||◌, Option, none, some, ◌==◌, string_eq, arith,
  Bool-cases, inl, inr, if◌then◌else◌,
}
use load_test_backend.Json.{
  Json, null, bool, num, str, arr, obj, Items, nil, cons, Fields, get, as_map, sprint, get-put,
}
use load_test_backend.Json.Edit.{map_or_new, is_nil, AllMaps, get-edit_map, get-default_nil}
use load_test_backend.Select.Normalize.{
  Checked, fine, refused, SelectError, check_address, check_location, check_end, sprint_or_nil,
  default_code, finish_fulfillment, cons_fine, finish_map, finish_fulfillments,
}

-- The empty text itself; a value that is missing or no text is none.
abbrev pub is_empty_text : Option Json → Bool
is_empty_text (some (str s)) = s == ""
is_empty_text (some null) = false
is_empty_text (some (bool b)) = false
is_empty_text (some (num n)) = false
is_empty_text (some (arr xs)) = false
is_empty_text (some (obj fs)) = false
is_empty_text none = false

-- A value that is there, is not null and is not the empty text.
abbrev pub has_value : Option Json → Bool
has_value o = not (is_nil o) && not (is_empty_text o)

-- The end of a fulfillment: a map with a location, which has a GPS value that is not the empty text and
-- an address, whose area code is not the empty text.
abbrev pub has_address : Option Fields → Bool
has_address none = false
has_address (some address) = not (is_empty_text (get "area_code" address))

abbrev pub has_location : Option Fields → Bool
has_location none = false
has_location (some location) =
    not (is_empty_text (get "gps" location)) && has_address (as_map (get "address" location))

abbrev pub has_end : Option Fields → Bool
has_end none = false
has_end (some stop) = has_location (as_map (get "location" stop))

-- A fulfillment with a type, a code of its state, and the place of its end.
abbrev pub is_ready : Fields → Bool
is_ready m =
    not (is_nil (get "type" m))
    && has_value (get "code" (map_or_new (get "descriptor" (map_or_new (get "state" m)))))

abbrev pub IsReady : Fields → Type 0
IsReady m = (is_ready m ≡ true) × (has_end (as_map (get "end" m)) ≡ true)

empty-sprint : (o : Option Json) → (sprint_or_nil o == "") ≡ false → is_empty_text o ≡ false
unfolding sprint
empty-sprint none h = refl
empty-sprint (some null) h = refl
empty-sprint (some (bool b)) h = refl
empty-sprint (some (num n)) h = refl
empty-sprint (some (str s)) h = h
empty-sprint (some (arr xs)) h = refl
empty-sprint (some (obj fs)) h = refl

has_address-checked : (o : Option Fields) → check_address o ≡ none → has_address o ≡ true
has_address-checked none h = ground arith
has_address-checked (some address) h = ground (arith, empty-sprint (get "area_code" address))

has_location-checked : (o : Option Fields) → check_location o ≡ none → has_location o ≡ true
has_location-checked none h = ground arith
has_location-checked (some location) h = ground (
  arith,
  empty-sprint (get "gps" location),
  has_address-checked (as_map (get "address" location)),
)

has_end-checked : (o : Option Fields) → check_end o ≡ none → has_end o ≡ true
has_end-checked none h = ground arith
has_end-checked (some stop) h = has_location-checked (as_map (get "location" stop)) h

pub code-default_code : (m : Fields) → has_value (get "code" (default_code m)) ≡ true
unfolding default_code sprint
code-default_code m =
    elim (Bool-cases (is_nil (get "code" m) || sprint_or_nil (get "code" m) == "")) [
      | inl e ↦ rw e (simp (get-put))
      | inr e ↦ rw e (ground (arith, empty-sprint (get "code" m)))
    ]

is_nil-default : (o : Option Json) → is_nil (if is_nil o then some (str "Delivery") else o) ≡ false
is_nil-default o = ground arith

is_ready-finish_fulfillment : (m : Fields) → is_ready (finish_fulfillment m) ≡ true
unfolding finish_fulfillment
is_ready-finish_fulfillment m =
    simp (get-edit_map, get-default_nil, is_nil-default, code-default_code)

finish_fulfillment-IsReady :
    (m : Fields) → check_end (as_map (get "end" m)) ≡ none → IsReady (finish_fulfillment m)
unfolding finish_fulfillment
finish_fulfillment-IsReady m h = (
  is_ready-finish_fulfillment m,
  simp (get-edit_map, get-default_nil) (has_end-checked (as_map (get "end" m)) h),
)

module _ {A : Type 0} where
  abbrev pub OnFine : (A → Type 0) → Checked A → Type 0
  OnFine P (fine a) = P a
  OnFine P (refused e) = Unit

finish_map-AllReady :
    (m : Fields) (e : Option SelectError) (rest : Checked Items)
    → check_end (as_map (get "end" m)) ≡ e
    → OnFine (AllMaps IsReady) rest
    → OnFine (AllMaps IsReady) (finish_map m e rest)
finish_map-AllReady m (some e) rest h k = tt
finish_map-AllReady m none (refused e) h k = tt
finish_map-AllReady m none (fine fs) h k = (finish_fulfillment-IsReady m h, k)

cons_fine-AllReady :
    (f : Json) (rest : Checked Items)
    → ((fs : Items) → AllMaps IsReady fs → AllMaps IsReady (cons f fs))
    → OnFine (AllMaps IsReady) rest
    → OnFine (AllMaps IsReady) (cons_fine f rest)
cons_fine-AllReady f (refused e) g k = tt
cons_fine-AllReady f (fine fs) g k = g fs k

pub finish_fulfillments-AllReady : (fs : Items) → OnFine (AllMaps IsReady) (finish_fulfillments fs)
unfolding finish_fulfillments
finish_fulfillments-AllReady nil = tt
finish_fulfillments-AllReady (cons (obj m) fs) =
    finish_map-AllReady m _ (finish_fulfillments fs) refl (finish_fulfillments-AllReady fs)
finish_fulfillments-AllReady (cons null fs) =
    cons_fine-AllReady null (finish_fulfillments fs) (λ _ k. k) (finish_fulfillments-AllReady fs)
finish_fulfillments-AllReady (cons (bool b) fs) =
    cons_fine-AllReady (bool b) (finish_fulfillments fs) (λ _ k. k)
      (finish_fulfillments-AllReady fs)
finish_fulfillments-AllReady (cons (num n) fs) =
    cons_fine-AllReady (num n) (finish_fulfillments fs) (λ _ k. k) (finish_fulfillments-AllReady fs)
finish_fulfillments-AllReady (cons (str s) fs) =
    cons_fine-AllReady (str s) (finish_fulfillments fs) (λ _ k. k) (finish_fulfillments-AllReady fs)
finish_fulfillments-AllReady (cons (arr xs) fs) =
    cons_fine-AllReady (arr xs) (finish_fulfillments fs) (λ _ k. k)
      (finish_fulfillments-AllReady fs)
