-- ===== src/Batch/Recorded.antt =====
-- The payloads of a batch and the callbacks that they come from.
use mathlib.Core.Path.{ap₂}
use mathlib.Core.List.{Mem, mem-cons_self, mem-cons_of_mem}
use load_test_backend.Base.{
  ℕ, ◌+◌, ◌≡◌, refl, ap, ◌∙◌, map, String, Bool, true, false, Option, none, some, List, [], ◌∷◌,
  All, length, count_if, Bool-cases, inl, inr, arith, not, ◌&&◌, ◌==◌, string_eq, eq_iff,
  if◌then◌else◌,
}
use load_test_backend.Json.{
  Json, null, bool, num, str, arr, obj, Fields, get, put, as_map, Payload, empty, malformed, doc,
  get-put,
}
use load_test_backend.Json.Edit.{map_or_new, get-default_value, edit_map}
use load_test_backend.Store.{Result, ok, err}
use load_test_backend.Batch.Init.{enrich_init}
use load_test_backend.Batch.Confirm.{enrich_confirm}
use load_test_backend.Batch.Acknowledged.{acknowledges, rejected-acknowledges}
use load_test_backend.Batch.FromCallbacks.{
  Reader, Outside, Target, init, confirm, action_of, rejected, new_context, enrich, payload_from,
  from_fields, decoded, build_one, append_built, build_all, build_batch_from_callbacks,
}

abbrev pub context_of : Fields → Fields
context_of payload = map_or_new (get "context" payload)

-- Where a payload comes from, and what its context says.
pub record FromCallback (target : Target) (source : String) (read : Reader) (o : Outside)
    (run_id : String) (txn_ids : List String) (position : ℕ) (payload : Fields) : Type 0 where
  pub txn_id : String
  pub full : Fields
  pub context : Fields
  pub asked : Mem txn_id txn_ids
  pub found : read run_id "pipeline_b" source txn_id ≡ ok (doc (obj full))
  pub acknowledged : acknowledges full ≡ true
  pub in_context : as_map (get "context" full) ≡ some context
  pub action : get "action" (context_of payload) ≡ some (str (action_of target))
  pub message_id : get "message_id" (context_of payload) ≡ some (str (o.message_id position))
  pub transaction_id : get "transaction_id" (context_of payload) ≡ get "transaction_id" context

-- The independent test that a transaction has a callback to build from.
abbrev pub is_some {ℓ} : {A : Type ℓ} → Option A → Bool
is_some none = false
is_some (some a) = true

abbrev pub usable_fields : Option (Option Fields) → Bool
usable_fields none = false
usable_fields (some none) = false
usable_fields (some (some full)) = acknowledges full && is_some (as_map (get "context" full))

abbrev pub usable : String → Reader → String → String → Bool
usable source read run_id txn_id =
    not (txn_id == "") && usable_fields (decoded (read run_id "pipeline_b" source txn_id))

context-enrich :
    (target : Target) (o : Outside) (i : ℕ) (selected : Result Payload) (context full : Fields)
    → context_of (enrich target o i selected context (put "context" (obj context) full)) ≡ context
unfolding edit_map enrich_init enrich_confirm
context-enrich init o i selected context full = simp (get-put)
context-enrich confirm o i selected context full = simp (get-put)

context-new :
    (action message_id timestamp : String) (context : Fields)
    → (get "action" (new_context action message_id timestamp context) ≡ some (str action))
      × (get "message_id" (new_context action message_id timestamp context) ≡ some (str message_id))
      × (get "transaction_id" (new_context action message_id timestamp context)
          ≡ get "transaction_id" context)
unfolding new_context
context-new action message_id timestamp context = (
  simp (get-default_value, get-put),
  simp (get-default_value, get-put),
  simp (get-default_value, get-put),
)

module _ (target : Target) (source : String) (read : Reader) (o : Outside) (run_id : String) where
  abbrev OnSome : (Fields → Type 0) → Option Fields → Type 0
  OnSome P none = Unit
  OnSome P (some p) = P p

  All-append_built :
      (P : Fields → Type 0) (b : Option Fields) (out : List Fields)
      → OnSome P b
      → All P out
      → All P (append_built b out)
  All-append_built P none out h k = k
  All-append_built P (some p) out h k = (h, k)

  decoded-found :
      (r : Result Payload) (full : Fields) → decoded r ≡ some (some full) → r ≡ ok (doc (obj full))
  decoded-found (err e) full h = ground arith
  decoded-found (ok empty) full h = ground arith
  decoded-found (ok malformed) full h = ground arith
  decoded-found (ok (doc (obj fs))) full h = ground arith
  decoded-found (ok (doc null)) full h = ground arith
  decoded-found (ok (doc (bool b))) full h = ground arith
  decoded-found (ok (doc (num n))) full h = ground arith
  decoded-found (ok (doc (str s))) full h = ground arith
  decoded-found (ok (doc (arr xs))) full h = ground arith

  payload_from-FromCallback :
      (ids : List String) (i : ℕ) (txn_id : String) (selected : Result Payload) (full : Fields)
      → Mem txn_id ids
      → read run_id "pipeline_b" source txn_id ≡ ok (doc (obj full))
      → rejected full ≡ false
      → (context : Option Fields) → as_map (get "context" full) ≡ context
      → OnSome
          (FromCallback target source read o run_id ids i)
          (payload_from target o i selected full context)
  unfolding payload_from
  payload_from-FromCallback ids i txn_id selected full asked found acknowledged none in_context = tt
  payload_from-FromCallback ids i txn_id selected full asked found acknowledged (some context)
        in_context =
      let (action, message_id, transaction_id) =
        context-new (action_of target) (o.message_id i) (o.timestamp i) context in
      let changed = new_context (action_of target) (o.message_id i) (o.timestamp i) context in
      record {
        txn_id = txn_id;
        full = full;
        context = context;
        asked = asked;
        found = found;
        acknowledged = ground (arith, rejected-acknowledges full);
        in_context = in_context;
        action = ap (get "action") (context-enrich target o i selected changed full) ∙ action;
        message_id =
            ap (get "message_id") (context-enrich target o i selected changed full) ∙ message_id;
        transaction_id =
            ap (get "transaction_id") (context-enrich target o i selected changed full)
            ∙ transaction_id;
      }

  from_fields-FromCallback :
      (ids : List String) (i : ℕ) (txn_id : String) (selected : Result Payload)
      → Mem txn_id ids
      → (full : Option (Option Fields)) → decoded (read run_id "pipeline_b" source txn_id) ≡ full
      → OnSome
          (FromCallback target source read o run_id ids i)
          (from_fields target o i selected full)
  unfolding from_fields
  from_fields-FromCallback ids i txn_id selected asked none h = tt
  from_fields-FromCallback ids i txn_id selected asked (some none) h = tt
  from_fields-FromCallback ids i txn_id selected asked (some (some full)) h =
      elim (Bool-cases (rejected full)) [
        | inl e ↦ rw e tt
        | inr e ↦ rw e (
            payload_from-FromCallback ids i txn_id selected full asked
              (decoded-found (read run_id "pipeline_b" source txn_id) full h) e
              (as_map (get "context" full)) refl)
      ]

  build_one-FromCallback :
      (ids : List String) (i : ℕ) (txn_id : String)
      → Mem txn_id ids
      → OnSome
          (FromCallback target source read o run_id ids i)
          (build_one target source read o run_id i txn_id)
  unfolding build_one
  build_one-FromCallback ids i txn_id asked = elim (Bool-cases (txn_id == "")) [
    | inl e ↦ rw e tt
    | inr e ↦ rw e (
        from_fields-FromCallback ids i txn_id (read run_id "pipeline_b" "select" txn_id) asked
          (decoded (read run_id "pipeline_b" source txn_id)) refl)
  ]

  -- A payload from a callback, built at some position of the list.
  abbrev pub FromSome : List String → Fields → Type 0
  FromSome ids p = (i : ℕ) × FromCallback target source read o run_id ids i p

  at_position :
      (ids : List String) (i : ℕ) (b : Option Fields)
      → OnSome (FromCallback target source read o run_id ids i) b
      → OnSome (FromSome ids) b
  at_position ids i none h = tt
  at_position ids i (some p) h = (i, h)

  build_all-FromCallback :
      (ids : List String) (i : ℕ) (rest : List String)
      → ((x : String) → Mem x rest → Mem x ids)
      → All (FromSome ids) (build_all target source read o run_id i rest)
  unfolding build_all
  build_all-FromCallback ids i [] within = tt
  build_all-FromCallback ids i (x ∷ rest) within =
      All-append_built (FromSome ids) (build_one target source read o run_id i x)
        (build_all target source read o run_id (i + 1) rest)
        (at_position ids i (build_one target source read o run_id i x)
          (build_one-FromCallback ids i x (within x mem-cons_self)))
        (build_all-FromCallback ids (i + 1) rest (λ y m. within y (mem-cons_of_mem x m)))

  length-append_built :
      (b : Option Fields) (out : List Fields)
      → length (append_built b out) ≡ (if is_some b then 1 else 0) + length out
  length-append_built none out = omega arith
  length-append_built (some p) out = omega arith

  is_some-payload_from :
      (i : ℕ) (selected : Result Payload) (full : Fields) (context : Option Fields)
      → is_some (payload_from target o i selected full context) ≡ is_some context
  unfolding payload_from
  is_some-payload_from i selected full none = refl
  is_some-payload_from i selected full (some context) = refl

  is_some-from_fields :
      (i : ℕ) (selected : Result Payload) (full : Option (Option Fields))
      → is_some (from_fields target o i selected full) ≡ usable_fields full
  unfolding from_fields
  is_some-from_fields i selected none = refl
  is_some-from_fields i selected (some none) = refl
  is_some-from_fields i selected (some (some full)) = ground (
    arith,
    rejected-acknowledges full,
    is_some-payload_from i selected full (as_map (get "context" full)),
  )

  is_some-build_one :
      (i : ℕ) (txn_id : String)
      → is_some (build_one target source read o run_id i txn_id) ≡ usable source read run_id txn_id
  unfolding build_one
  is_some-build_one i txn_id = ground (
    arith,
    is_some-from_fields i (read run_id "pipeline_b" "select" txn_id)
        (decoded (read run_id "pipeline_b" source txn_id)),
  )

  length-build_all :
      (i : ℕ) (ids : List String)
      → length (build_all target source read o run_id i ids)
        ≡ count_if (usable source read run_id) ids
  unfolding build_all
  length-build_all i [] = refl
  length-build_all i (x ∷ ids) = ground (
    arith,
    length-append_built (build_one target source read o run_id i x)
        (build_all target source read o run_id (i + 1) ids),
    is_some-build_one i x,
    length-build_all (i + 1) ids,
  )

  -- The message identifiers of a batch: for each transaction with a usable callback the one drawn at
  -- its position in the list.
  abbrev pub message_ids : ℕ → List String → List (Option Json)
  message_ids i [] = []
  message_ids i (x ∷ ids) =
      let rest = message_ids (i + 1) ids in
      if usable source read run_id x then some (str (o.message_id i)) ∷ rest else rest

  abbrev pub message_id_of : Fields → Option Json
  message_id_of p = get "message_id" (context_of p)

  message_ids-append_built :
      (i : ℕ) (x : String) (b : Option Fields) (out : List Fields) (rest : List (Option Json))
      → OnSome (FromCallback target source read o run_id (x ∷ []) i) b
      → is_some b ≡ usable source read run_id x
      → map message_id_of out ≡ rest
      → map message_id_of (append_built b out)
        ≡ (if usable source read run_id x then some (str (o.message_id i)) ∷ rest else rest)
  message_ids-append_built i x none out rest h u e = rw (← u) e
  message_ids-append_built i x (some p) out rest h u e =
      rw (← u) (ap₂ (λ (m : Option Json) (ms : List (Option Json)). m ∷ ms) h.message_id e)

  message_ids-build_all :
      (i : ℕ) (ids : List String)
      → map message_id_of (build_all target source read o run_id i ids) ≡ message_ids i ids
  unfolding build_all
  message_ids-build_all i [] = refl
  message_ids-build_all i (x ∷ ids) =
      message_ids-append_built i x (build_one target source read o run_id i x)
        (build_all target source read o run_id (i + 1) ids) (message_ids (i + 1) ids)
        (build_one-FromCallback (x ∷ []) i x mem-cons_self) (is_some-build_one i x)
        (message_ids-build_all (i + 1) ids)

  abbrev pub BatchFrom : List String → Option (List Fields) → Type 0
  BatchFrom txn_ids none = run_id ≡ ""
  BatchFrom txn_ids (some out) =
      (length out ≡ count_if (usable source read run_id) txn_ids)
      × All (FromSome txn_ids) out
      × (map message_id_of out ≡ message_ids 0 txn_ids)

  -- The batch has one payload for each transaction of the list with a recorded callback that decodes,
  -- is not rejected and has a context, and each payload comes from such a callback of its
  -- transaction: its context has the target action and the transaction identifier of the callback. The
  -- message identifiers of the batch are, in order, those drawn at the positions of the transactions
  -- that have such a callback. Only the empty run identifier gives the error.
  pub build_batch-callbacks :
      (txn_ids : List String)
      → BatchFrom txn_ids (build_batch_from_callbacks target source read o run_id txn_ids)
  unfolding build_batch_from_callbacks
  build_batch-callbacks txn_ids = elim (Bool-cases (run_id == "")) [
    | inl e ↦ rw e ((eq_iff run_id "").0 e)
    | inr e ↦ rw e (
      length-build_all 0 txn_ids,
      build_all-FromCallback txn_ids 0 txn_ids (λ y m. m),
      message_ids-build_all 0 txn_ids,
    )
  ]
