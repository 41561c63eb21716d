-- ===== src/Select/Transactions.antt =====
-- select_batch.go: the transaction identifiers that are read back from the generated payloads.
use load_test_backend.Base.{
  ℕ, zero, suc, ◌+◌, ◌%◌, ◌≡◌, refl, ap, ◌∙◌, String, false, Option, none, some, List, [], ◌∷◌, map,
  length, lookup, lookup-insert, ◌==◌, string_eq, arith, if◌then◌else◌,
}
use load_test_backend.Json.{
  Json, null, str, obj, Fields, end, field, get, put, as_map, sprint, Payload, doc, decode_map,
  get-put,
}
use load_test_backend.Json.Edit.{edit_if_map}
use load_test_backend.Select.Normalize.{
  Checked, fine, refused, extract_transaction_ids, txn_of, default_ttl, put_order, normalize_in,
  normalize_message, normalize_order, normalize_select_payload,
}
use load_test_backend.Select.Payloads.{
  SelectContext, Envelope, encode_members, encode_envelope, SelectDraws, default_member,
  select_context, cons_checked, order_message, order_at, build_from, build_select_payloads,
  raw_or_null,
}
use load_test_backend.Select.Fulfillments.{OnFine}

-- json.Marshal of a decoded payload.
abbrev pub encoded : Option Fields → Payload
encoded none = doc null
encoded (some m) = doc (obj m)

abbrev text_value : Option String → Option Json
text_value none = none
text_value (some s) = some (str s)

get-encode_members :
    (k : String) (context : SelectContext)
    → get k (encode_members context) ≡ text_value (lookup k context)
unfolding get encode_members lookup
get-encode_members k [] = refl
get-encode_members k ((j, v) ∷ context) = ground (arith, get-encode_members k context)

put_order-context :
    (m message : Fields) (o : Checked Fields)
    → OnFine (λ n. get "context" n ≡ get "context" m) (put_order m message o)
put_order-context m message (refused e) = tt
put_order-context m message (fine order) = simp (get-put)

normalize_message-context :
    (m : Fields) (o : Option Fields)
    → OnFine (λ n. get "context" n ≡ get "context" m) (normalize_message m o)
normalize_message-context m none = refl
normalize_message-context m (some message) = by-order (as_map (get "order" message))
  where
    by-order :
        (o : Option Fields)
        → OnFine (λ n. get "context" n ≡ get "context" m) (normalize_in m message o)
    by-order none = refl
    by-order (some order) = put_order-context m message (normalize_order order)

get-default_ttl :
    (context : Fields) → get "transaction_id" (default_ttl context) ≡ get "transaction_id" context
unfolding default_ttl
get-default_ttl context = ground (arith, get-put "ttl" "transaction_id" (str "PT30S") context)

lookup-default_member :
    (k j v : String) (context : SelectContext)
    → (k == j) ≡ false
    → lookup j (default_member k v context) ≡ lookup j context
unfolding default_member
lookup-default_member k j v context h = ground (arith, lookup-insert k j v context)

abbrev pub drawn_txn : SelectDraws → String → ℕ → String
drawn_txn d fixed_txn_id i = if fixed_txn_id == "" then d.transaction_id i else fixed_txn_id

lookup-select_context :
    (d : SelectDraws) (i : ℕ) (fixed_txn_id : String) (base : SelectContext)
    → lookup "transaction_id" (select_context d i fixed_txn_id base)
      ≡ some (drawn_txn d fixed_txn_id i)
unfolding select_context
lookup-select_context d i fixed_txn_id base =
    lookup-default_member "ttl" "transaction_id" "PT30S" _ refl ∙ simp (lookup-insert)

-- The one identifier of a payload whose context has it.
txn_of-context :
    (n : Fields) (context : Fields) (txn_id : String)
    → get "context" n ≡ some (obj context)
    → get "transaction_id" context ≡ some (str txn_id)
    → (txn_id == "") ≡ false
    → txn_of (decode_map (encoded (some n))) ≡ txn_id ∷ []
unfolding sprint
txn_of-context n context txn_id h k l = rw (h, k, l) refl

OnFine-as_some :
    (P : Option Fields → Type 0) (c : Checked Fields)
    → OnFine (λ n. P (some n)) c
    → OnFine P (elim c [ fine n ↦ fine (some n) | refused e ↦ refused e ])
OnFine-as_some P (fine n) h = h
OnFine-as_some P (refused e) h = tt

OnFine-map :
    (P Q : Fields → Type 0) (c : Checked Fields)
    → ((n : Fields) → P n → Q n)
    → OnFine P c
    → OnFine Q c
OnFine-map P Q (fine n) f h = f n h
OnFine-map P Q (refused e) f h = tt

normalize-transaction :
    (e : Envelope) (txn_id : String)
    → lookup "transaction_id" e.context ≡ some txn_id
    → (txn_id == "") ≡ false
    → OnFine
        (λ n. txn_of (decode_map (encoded n)) ≡ txn_id ∷ [])
        (normalize_select_payload (encode_envelope e))
unfolding normalize_select_payload edit_if_map get
normalize-transaction e txn_id h k =
    let context = default_ttl (encode_members e.context) in
    let m = put "context" (obj context) (
      field "context" (obj (encode_members e.context))
        (field "message" (raw_or_null e.message) end)) in
    OnFine-as_some (λ n. txn_of (decode_map (encoded n)) ≡ txn_id ∷ [])
      (normalize_message m (as_map (get "message" m)))
      (OnFine-map (λ n. get "context" n ≡ get "context" m) _ _
        (λ n same.
          txn_of-context n context txn_id (same ∙ get-put "context" "context" (obj context) _)
            (get-default_ttl (encode_members e.context)
              ∙ get-encode_members "transaction_id" e.context
              ∙ ap text_value h)
            k)
        (normalize_message-context m (as_map (get "message" m))))

-- The identifiers drawn from position `i` on, for `n` payloads.
unfoldable pub drawn_from : SelectDraws → String → ℕ → ℕ → List String
drawn_from d fixed_txn_id i zero = []
drawn_from d fixed_txn_id i (suc n) =
    drawn_txn d fixed_txn_id i ∷ drawn_from d fixed_txn_id (i + 1) n

cons_checked-ids :
    (p : Checked (Option Fields)) (ps : Checked (List (Option Fields))) (txn_id : String)
    (ids : List String)
    → OnFine (λ n. txn_of (decode_map (encoded n)) ≡ txn_id ∷ []) p
    → OnFine (λ ns. extract_transaction_ids (map encoded ns) ≡ ids) ps
    → OnFine (λ ns. extract_transaction_ids (map encoded ns) ≡ txn_id ∷ ids) (cons_checked p ps)
unfolding extract_transaction_ids
cons_checked-ids (refused e) ps txn_id ids h k = tt
cons_checked-ids (fine n) (refused e) txn_id ids h k = tt
cons_checked-ids (fine n) (fine ns) txn_id ids h k = rw (h, k) refl

build_from-ids :
    (d : SelectDraws) (base : SelectContext) (orders : List Json) (fixed_txn_id : String) (i n : ℕ)
    → ((j : ℕ) → (drawn_txn d fixed_txn_id j == "") ≡ false)
    → OnFine
        (λ ns. extract_transaction_ids (map encoded ns) ≡ drawn_from d fixed_txn_id i n)
        (build_from d base orders fixed_txn_id i n)
unfolding build_from drawn_from extract_transaction_ids
build_from-ids d base orders fixed_txn_id i zero h = refl
build_from-ids d base orders fixed_txn_id i (suc n) h =
    cons_checked-ids _ _ _ _
      (normalize-transaction
        (record {
          context = select_context d i fixed_txn_id base;
          message = some (order_message (order_at (i % length orders) orders));
        })
        (drawn_txn d fixed_txn_id i) (lookup-select_context d i fixed_txn_id base) (h i))
      (build_from-ids d base orders fixed_txn_id (i + 1) n h)

-- From the payloads of buildSelectPayloads, when no order is refused, ExtractTransactionIDs reads back the
-- identifiers of the batch: one for each payload, in their order, the fixed one if there is one and else the
-- one drawn for the payload.
pub extract-build :
    (d : SelectDraws) (base : SelectContext) (orders : List Json) (n : ℕ) (fixed_txn_id : String)
    → ((j : ℕ) → (drawn_txn d fixed_txn_id j == "") ≡ false)
    → OnFine
        (λ ns. extract_transaction_ids (map encoded ns) ≡ drawn_from d fixed_txn_id 0 n)
        (build_select_payloads d base orders n fixed_txn_id)
unfolding build_select_payloads
extract-build d base orders n fixed_txn_id h = build_from-ids d base orders fixed_txn_id 0 n h
