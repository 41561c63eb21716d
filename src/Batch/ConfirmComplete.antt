-- ===== src/Batch/ConfirmComplete.antt =====
-- What enrichConfirm puts into an order, whatever the callback left out.
use load_test_backend.Base.{
  ◌≡◌, refl, String, Bool, true, false, Option, none, some, [], ◌∷◌, inl, inr, Bool-cases, arith,
  ◌&&◌, ◌==◌, string_eq,
}
use load_test_backend.Json.{Json, null, bool, num, str, arr, obj, Fields, get, as_string, get-put}
use load_test_backend.Json.Edit.{
  is_text, get-edit_map, get-edit_list_other, get-default_text, is_text-or_text,
}
use load_test_backend.Batch.Confirm.{
  Drawn, default_order_id, default_state, confirm_fulfillment, fill_params, fill_payment,
  confirm_order, enrich_confirm, known_state,
}
use load_test_backend.Batch.Orders.{
  inner, has_text, all_texts, AllFulfillments, order_of, AllFulfillments-edit_list,
}

abbrev pub has_person : Fields → Bool
has_person m = has_text "name" (inner "person" (inner "end" m)) && has_text "@ondc/org/TAT" m

-- The order has identifier, known state and times, and a payment with all its parts.
abbrev pub has_payment : Fields → Bool
has_payment order =
    all_texts ("uri" ∷ "tl_method" ∷ "status" ∷ "type" ∷ "collected_by" ∷ [])
      (inner "payment" order)
    && all_texts ("amount" ∷ "currency" ∷ "transaction_id" ∷ [])
        (inner "params" (inner "payment" order))

has_person-confirm_fulfillment :
    (name : String) (m : Fields) → has_person (confirm_fulfillment name m) ≡ true
unfolding confirm_fulfillment
has_person-confirm_fulfillment name m = simp (get-edit_map, is_text-or_text, get-default_text)

has_payment-confirm_order :
    (txn : String) (drawn : Drawn) (order : Fields)
    → has_payment (confirm_order txn drawn order) ≡ true
unfolding confirm_order fill_payment fill_params
has_payment-confirm_order txn drawn order = simp (get-edit_map, get-default_text, is_text-or_text)

has_person-confirm_order :
    (txn : String) (drawn : Drawn) (order : Fields)
    → AllFulfillments has_person (confirm_order txn drawn order)
unfolding confirm_order
has_person-confirm_order txn drawn order = simp (get-edit_map) (
    AllFulfillments-edit_list has_person (confirm_fulfillment _) _
      (has_person-confirm_fulfillment _))

-- The head of a confirm order: identifier, state and the two times.
abbrev pub has_head : Fields → Bool
has_head order =
    all_texts ("id" ∷ "created_at" ∷ "updated_at" ∷ []) order
    && known_state (as_string (get "state" order))

is_text-non_empty : (o : Option Json) → (as_string o == "") ≡ false → is_text o ≡ true
is_text-non_empty none h = ground arith
is_text-non_empty (some (str s)) h = refl
is_text-non_empty (some null) h = ground arith
is_text-non_empty (some (bool b)) h = ground arith
is_text-non_empty (some (num n)) h = ground arith
is_text-non_empty (some (arr xs)) h = ground arith
is_text-non_empty (some (obj fs)) h = ground arith

has_text-id :
    (txn fresh_id : String) (order : Fields)
    → has_text "id" (default_order_id txn fresh_id order) ≡ true
unfolding default_order_id
has_text-id txn fresh_id order = elim (Bool-cases (as_string (get "id" order) == "")) [
  | inl e ↦ rw e (simp (get-put))
  | inr e ↦ rw e (is_text-non_empty (get "id" order) e)
]

known_state-default_state :
    (order : Fields) → known_state (as_string (get "state" (default_state order))) ≡ true
unfolding default_state
known_state-default_state order = elim (Bool-cases (known_state (as_string (get "state" order)))) [
  | inl e ↦ rw e e
  | inr e ↦ rw e (simp (get-put))
]

get-default_state : (order : Fields) → get "id" (default_state order) ≡ get "id" order
unfolding default_state
get-default_state order = elim (Bool-cases (known_state (as_string (get "state" order)))) [
  | inl e ↦ rw e refl
  | inr e ↦ rw e (simp (get-put))
]

has_head-confirm_order :
    (txn : String) (drawn : Drawn) (order : Fields)
    → has_head (confirm_order txn drawn order) ≡ true
unfolding confirm_order
has_head-confirm_order txn drawn order = simp (
  get-edit_map,
  get-edit_list_other "fulfillments" "id",
  get-edit_list_other "fulfillments" "state",
  get-edit_list_other "fulfillments" "created_at",
  get-edit_list_other "fulfillments" "updated_at",
  get-default_text,
  is_text-or_text,
  get-default_state,
  has_text-id,
  known_state-default_state,
)

-- The order of a confirm payload has an identifier, a known state and its times, its payment has all its
-- texts and parameters, and each of its fulfillments that is a map has a person and a turnaround time,
-- whatever the callback had there.
pub enrich_confirm_complete :
    (drawn : Drawn) (context full : Fields)
    → (has_head (order_of (enrich_confirm drawn context full)) ≡ true)
      × (has_payment (order_of (enrich_confirm drawn context full)) ≡ true)
      × AllFulfillments has_person (order_of (enrich_confirm drawn context full))
unfolding enrich_confirm
enrich_confirm_complete drawn context full = simp (get-edit_map) (
  has_head-confirm_order _ drawn _,
  has_payment-confirm_order _ drawn _,
  has_person-confirm_order _ drawn _,
)
