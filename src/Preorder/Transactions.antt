-- ===== src/Preorder/Transactions.antt =====
-- routes.go, `finalizeRunLatencies`: the set of the transactions of a stage.
use load_test_backend.Base.{
  ℕ, ◌≡◌, refl, String, Bool, false, List, [], ◌∷◌, arith, ◌==◌, string_eq, eq_iff, Assoc, map,
  count_if, not, ◌||◌, ◌&&◌, if◌then◌else◌,
}
use load_test_backend.Latency.{RunLatencyEvent}
use load_test_backend.Preorder.{add_id, add_ids, union_ids}

abbrev pub occurs : String → List String → Bool
occurs x [] = false
occurs x (y ∷ ys) = y == x || occurs x ys

abbrev pub occurrences : String → List String → ℕ
occurrences x = count_if (λ y. y == x)

abbrev pub bit : Bool → ℕ
bit b = if b then 1 else 0

occurs-add_id :
    (id x : String) (xs : List String)
    → occurs x (add_id id xs) ≡ (occurs x xs || (id == x && not (x == "")))
unfolding add_id
occurs-add_id id x [] = ground (arith, eq_iff id x, eq_iff id "", eq_iff x "")
occurs-add_id id x (y ∷ ys) = ground (
  arith,
  eq_iff id x,
  eq_iff y id,
  eq_iff y x,
  eq_iff x "",
  eq_iff y "",
  eq_iff id "",
  occurs-add_id id x ys,
)

occurrences-other :
    (id x : String) (xs : List String)
    → (id == x) ≡ false
    → occurrences x (add_id id xs) ≡ occurrences x xs
unfolding add_id
occurrences-other id x [] h = ground arith
occurrences-other id x (y ∷ ys) h = ground (arith, occurrences-other id x ys h)

occurrences-none : (x : String) (xs : List String) → occurs x xs ≡ false → occurrences x xs ≡ 0
occurrences-none x [] h = refl
occurrences-none x (y ∷ ys) h = ground (arith, occurrences-none x ys)

occurrences-add_id :
    (id x : String) (xs : List String)
    → occurrences x xs ≡ bit (occurs x xs)
    → occurrences x (add_id id xs) ≡ bit (occurs x (add_id id xs))
unfolding add_id
occurrences-add_id id x [] h = ground arith
occurrences-add_id id x (y ∷ ys) h = ground (
  arith,
  eq_iff id x,
  eq_iff y id,
  eq_iff y x,
  occurrences-other id x ys,
  occurs-add_id id x ys,
  occurrences-add_id id x ys,
)

occurrences-add_ids :
    (ids set : List String) (x : String)
    → occurrences x set ≡ bit (occurs x set)
    → (occurrences x (add_ids ids set) ≡ bit (occurs x (add_ids ids set)))
      × (occurs x (add_ids ids set) ≡ (occurs x set || (occurs x ids && not (x == ""))))
unfolding add_ids
occurrences-add_ids [] set x h = (h, ground arith)
occurrences-add_ids (id ∷ ids) set x h =
    let ih = occurrences-add_ids ids (add_id id set) x (occurrences-add_id id x set h) in
    (ih.0, ground (arith, ih, occurs-add_id id x set))

-- The transactions of a stage are those that were sent or have a recorded event, each once, without
-- the empty identifier.
pub occurrences-union_ids :
    (request_ids : List String) (existing : Assoc String RunLatencyEvent) (x : String)
    → occurrences x (union_ids request_ids existing)
      ≡ bit ((occurs x request_ids || occurs x (map (λ e. e.0) existing)) && not (x == ""))
unfolding union_ids
occurrences-union_ids request_ids existing x =
    let sent = occurrences-add_ids request_ids [] x refl in
    let both = occurrences-add_ids (map (λ e. e.0) existing) (add_ids request_ids []) x sent.0 in
    ground (arith, sent, both)
