-- ===== src/Store/Routes.antt =====
-- redis_store.go, `LinkTxn` and `GetTxnRoute`: the route of a transaction is one text, for ten minutes.
use Prim.Native.String.{String, ◌++◌ as cat}
use load_test_backend.Base.{
  Bool, true, false, List, [], ◌∷◌, ◌==◌, string_eq, ◌+◌, ◌*◌, ◌≡◌, refl, arith, lookup, insert,
  split_n, has_char, split_n-append, cons-cat, lookup-insert, eq_refl, leb, if◌then◌else◌,
}
use load_test_backend.Store.Keys.{txn_key}
use load_test_backend.Store.{
  Env, World, Result, ok, err, Exec, ◌>>=◌, the_env, set_call, get_call, missing, invalid_route,
}
use load_test_backend.Store.Redis.{write, read, entry, or_missing, second}

pub record TxnRoute : Type 0 where
  pub run_id : String
  pub session_id : String
  pub verification_enabled : Bool

unfoldable pub route_text : String → String → Bool → String
route_text run_id session_id verification_enabled =
    cat run_id (cat ":" (cat session_id (cat ":" (if verification_enabled then "1" else "0"))))

-- The last case cannot arise: `SplitN` with 3 gives at most three parts.
unfoldable pub parse_route : List String → Result TxnRoute
parse_route [] = err invalid_route
parse_route (_ ∷ []) = err invalid_route
parse_route (run_id ∷ session_id ∷ []) =
    ok (record { run_id = run_id; session_id = session_id; verification_enabled = true })
parse_route (run_id ∷ session_id ∷ flag ∷ []) =
    ok (record { run_id = run_id; session_id = session_id; verification_enabled = flag == "1" })
parse_route (run_id ∷ session_id ∷ _ ∷ _ ∷ _) =
    ok (record { run_id = run_id; session_id = session_id; verification_enabled = false })

module _ {A : Type 0} where
  abbrev pub lift : Result A → Exec A
  lift r env w = (r, w)

unfoldable pub link_txn : String → String → String → Bool → Exec (Unit {0})
unfolding route_text
link_txn txn_id run_id session_id verification_enabled = do
  env ← the_env
  write set_call (txn_key txn_id) (λ r. record r {
    routes =
        insert txn_id
          (entry (route_text run_id session_id verification_enabled) (env.now + 600 * second))
          r.routes;
  })

unfoldable pub get_txn_route : String → Exec TxnRoute
unfolding parse_route
get_txn_route txn_id = do
  found ← read (txn_key txn_id) (λ r. lookup txn_id r.routes)
  text ← or_missing found
  lift (parse_route (split_n b':' 2 text))

-- `s` has no colon.
abbrev pub IsPlain : String → Type 0
IsPlain s = has_char b':' s ≡ false

parse-flag :
    (run_id session_id : String) (flag : Bool)
    → parse_route (run_id ∷ session_id ∷ (if flag then "1" else "0") ∷ [])
      ≡ ok (record { run_id = run_id; session_id = session_id; verification_enabled = flag })
unfolding parse_route
parse-flag run_id session_id true = refl
parse-flag run_id session_id false = refl

-- A route that `LinkTxn` writes for identifiers without a colon is read back whole.
parse-route_text :
    (run_id session_id : String) (flag : Bool)
    → IsPlain run_id
    → IsPlain session_id
    → parse_route (split_n b':' 2 (route_text run_id session_id flag))
      ≡ ok (record { run_id = run_id; session_id = session_id; verification_enabled = flag })
unfolding route_text split_n
parse-route_text run_id session_id flag p q =
    let bit : String = if flag then "1" else "0" in
    rw
      (
        cons-cat ":" (cat session_id (cat ":" bit)),
        split_n-append ":" 1 run_id (cat session_id (cat ":" bit)) p,
        cons-cat ":" bit,
        split_n-append ":" 0 session_id bit q,
      )
      (parse-flag run_id session_id flag)

module _ (txn_id run_id session_id : String) (flag : Bool) (env env' : Env) (w : World) where
  -- For identifiers without a colon, and unless the write or the read fails, a route that was linked
  -- is read back exactly as it was linked for ten minutes, and is missing afterwards.
  pub get_txn_route-link_txn :
      IsPlain run_id
      → IsPlain session_id
      → env.redis_fails set_call (txn_key txn_id) ≡ false
      → env'.redis_fails get_call (txn_key txn_id) ≡ false
      → (get_txn_route txn_id env' (link_txn txn_id run_id session_id flag env w).1).0 ≡ (
          if leb env'.now (env.now + 600 * second)
          then ok (record { run_id = run_id; session_id = session_id; verification_enabled = flag })
          else err missing)
  unfolding get_txn_route link_txn
  get_txn_route-link_txn p q e e' = ground (
    arith,
    lookup-insert txn_id txn_id (entry (route_text run_id session_id flag) (env.now + 600 * second))
        w.redis.routes,
    eq_refl txn_id,
    parse-route_text run_id session_id flag p q,
  )
