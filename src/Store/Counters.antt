-- ===== src/Store/Counters.antt =====
-- redis_store.go, `IncrMetric`: what it does to the counters that a reader at the same time finds.
use load_test_backend.Base.{
  ℕ, ◌+◌, ◌≡◌, refl, String, Bool, true, false, Option, none, some, ◌==◌, arith, Entry, fresh, not,
  ap, ◌∙◌, string_eq, eq_refl, eq_iff, lookup, lookup-insert, if◌then◌else◌,
}
use load_test_backend.Store.Keys.{MetricKey, metric_eq, same_metric_iff, metric_key}
use load_test_backend.Store.{Env, World, incr_call, expire_call}
use load_test_backend.Store.Redis.{incr_metric, add_to, extend, count_of, deadline_of}

-- The value of a counter that has not expired, 0 without one.
abbrev pub live_count : Env → World → MetricKey → ℕ
live_count env w k = count_of (fresh env.now (lookup k w.redis.counters))

-- The new entry of a counter is live, whether the EXPIRE went through or not.
live-deadline_of :
    (now n : ℕ) (old : Option (Entry ℕ))
    → fresh now (some (record { value = n; deadline = deadline_of now old })) ≡ some n
live-deadline_of now n none = refl
live-deadline_of now n (some e) = ground arith

-- The two steps on the tables.
add_to-live :
    (env : Env) (w : World) (k j : MetricKey) (delta : ℕ)
    → live_count env (record w { redis = add_to env.now k delta w.redis }) j
      ≡ (if k == j then live_count env w k + delta else live_count env w j)
add_to-live env w k j delta =
    let old = lookup k w.redis.counters in
    let n : ℕ = count_of (fresh env.now old) + delta in
    ground (
      arith,
      lookup-insert k j (record { value = n; deadline = deadline_of env.now old }) w.redis.counters,
      live-deadline_of env.now n old,
    )

extend-live :
    (env : Env) (w : World) (k j : MetricKey) (e : Entry ℕ)
    → lookup k w.redis.counters ≡ some e
    → fresh env.now (some e) ≡ some e.value
    → live_count env (record w { redis = extend (env.now + env.ttl) k w.redis }) j
      ≡ live_count env w j
extend-live env w k j e p q = ground (
  arith,
  same_metric_iff k j,
  lookup-insert k j (record { value = e.value; deadline = some (env.now + env.ttl) })
      w.redis.counters,
)

-- Both steps; the second may fail.
counted : Env → World → MetricKey → ℕ → Bool → World
counted env w k delta extended =
    let w' : World = record w { redis = add_to env.now k delta w.redis } in
    if extended then record w' { redis = extend (env.now + env.ttl) k w'.redis } else w'

counted-live :
    (env : Env) (w : World) (k j : MetricKey) (delta : ℕ) (extended : Bool)
    → live_count env (counted env w k delta extended) j
      ≡ (if k == j then live_count env w k + delta else live_count env w j)
unfolding counted
counted-live env w k j delta false = add_to-live env w k j delta
counted-live env w k j delta true =
    let old = lookup k w.redis.counters in
    let n : ℕ = count_of (fresh env.now old) + delta in
    let e : Entry ℕ = record { value = n; deadline = deadline_of env.now old } in
    let w' : World = record w { redis = add_to env.now k delta w.redis } in
    let at_k = lookup-insert k k e w.redis.counters in
    let found : lookup k w'.redis.counters ≡ some e = ground (arith, at_k, metric_eq.beq_iff k k) in
    extend-live env w' k j e found (live-deadline_of env.now n old) ∙ add_to-live env w k j delta

incr_metric-counted :
    (env : Env) (w : World) (run_id action counter : String) (delta : ℕ)
    → let k : MetricKey = record { run_id = run_id; action = action; counter = counter } in
      env.redis_fails incr_call (metric_key k) ≡ false
      → (incr_metric run_id action counter delta env w).1
        ≡ counted env w k delta (not (env.redis_fails expire_call (metric_key k)))
unfolding incr_metric counted
incr_metric-counted env w run_id action counter delta h = ground arith

-- An increment that does not fail adds its amount to its own counter, from 0 when that was absent or
-- had expired, and leaves every other counter as it was.
pub incr_metric-live :
    (env : Env) (w : World) (run_id action counter : String) (delta : ℕ) (j : MetricKey)
    → let k : MetricKey = record { run_id = run_id; action = action; counter = counter } in
      env.redis_fails incr_call (metric_key k) ≡ false
      → live_count env (incr_metric run_id action counter delta env w).1 j
        ≡ (if k == j then live_count env w k + delta else live_count env w j)
incr_metric-live env w run_id action counter delta j h =
    let k : MetricKey = record { run_id = run_id; action = action; counter = counter } in
    ap (λ v. live_count env v j) (incr_metric-counted env w run_id action counter delta h)
    ∙ counted-live env w k j delta (not (env.redis_fails expire_call (metric_key k)))

-- The same among the counters of one run and action.
pub incr_metric-among :
    (env : Env) (w : World) (run_id action counter : String) (delta : ℕ) (other : String)
    → env.redis_fails incr_call
        (metric_key (record { run_id = run_id; action = action; counter = counter }))
      ≡ false
    → live_count env
        (incr_metric run_id action counter delta env w).1
        (record { run_id = run_id; action = action; counter = other })
      ≡ live_count env w (record { run_id = run_id; action = action; counter = other })
        + (if counter == other then delta else 0)
incr_metric-among env w run_id action counter delta other h = ground (
  arith,
  incr_metric-live env w run_id action counter delta
      (record { run_id = run_id; action = action; counter = other }) h,
  eq_refl run_id,
  eq_refl action,
  eq_iff counter other,
)
