-- ===== src/Store/Redis.antt =====
-- redis_store.go, its methods over the tables of `RedisState`.
use load_test_backend.Base.{
  ℕ, String, Bool, Option, none, some, ◌==◌, string_eq, ◌+◌, ◌*◌, Assoc, Entry, fresh, lookup,
  insert, remove, leb, ◌||◌, if◌then◌else◌,
}
use load_test_backend.Json.{Payload}
use load_test_backend.Session.{
  Session, CatalogState, PreorderState, Run, RunMetrics, ActionMetrics, unset, idle,
}
use load_test_backend.Session.Journey.{no_action}
use load_test_backend.Store.Keys.{
  Key, MetricKey, metric_eq, session_key, bpp_index_key, catalog_key, preorder_key, run_key,
  discovery_key, metric_key,
}
use load_test_backend.Store.{
  Env, RedisState, RedisCall, set_call, get_call, del_call, incr_call, expire_call, Result, ok, err,
  Exec, ◌>>=◌, ◌>>◌, pure, raise, attempt, ignore, the_env, store_failure, missing,
}

-- NewRedisStore: the time to live, in nanoseconds; a limit that is not positive means an hour.
abbrev pub second : ℕ
second = 1_000_000_000

unfoldable pub store_ttl : ℕ → ℕ
store_ttl session_ttl_seconds =
    if leb session_ttl_seconds 0 then 3600 * second else session_ttl_seconds * second

-- A command that changes the tables, and a read; either may fail.
abbrev pub write : RedisCall → Key → (RedisState → RedisState) → Exec (Unit {0})
write call key change env w =
    if env.redis_fails call key
    then (err store_failure, w)
    else (ok tt, record w { redis = change w.redis })

module _ {V : Type 0} where
  abbrev pub read : Key → (RedisState → Option (Entry V)) → Exec (Option V)
  read key look env w =
      if env.redis_fails get_call key
      then (err store_failure, w)
      else (ok (fresh env.now (look w.redis)), w)

  abbrev pub entry : V → ℕ → Entry V
  entry v deadline = record { value = v; deadline = some deadline }

  -- `if err != nil || data == nil`: no error, and a value.
  abbrev pub or_missing : Option V → Exec V
  or_missing none = raise missing
  or_missing (some v) = pure v

  -- The same where the error of the read is dropped.
  abbrev pub found_or_missing : Result (Option V) → Exec V
  found_or_missing (err e) = raise missing
  found_or_missing (ok found) = or_missing found

unfoldable pub create_session : Session → Exec (Unit {0})
create_session sess = do
  env ← the_env
  write set_call (session_key sess.id)
      (λ r. record r { sessions = insert sess.id (entry sess (env.now + env.ttl)) r.sessions })
  write set_call (bpp_index_key sess.bpp_id) (λ r. record r {
    bpp_index = insert sess.bpp_id (entry sess.id (env.now + env.ttl)) r.bpp_index;
  })

unfoldable pub get_session : String → Exec Session
get_session id = do found ← read (session_key id) (λ r. lookup id r.sessions); or_missing found

unfoldable pub delete_session : String → Exec (Unit {0})
unfolding get_session
delete_session id = do
  sess ← get_session id
  ignore (
      write del_call (bpp_index_key sess.bpp_id)
        (λ r. record r { bpp_index = remove sess.bpp_id r.bpp_index }))
  ignore (write del_call (session_key id) (λ r. record r { sessions = remove id r.sessions }))
  ignore (write del_call (catalog_key id) (λ r. record r { catalogs = remove id r.catalogs }))
  ignore (write del_call (preorder_key id) (λ r. record r { preorders = remove id r.preorders }))

unfoldable pub get_session_by_bpp : String → Exec Session
unfolding get_session
get_session_by_bpp bpp_id = do
  found ← attempt (read (bpp_index_key bpp_id) (λ r. lookup bpp_id r.bpp_index))
  id ← found_or_missing found
  get_session id

unfoldable pub set_catalog_state : String → CatalogState → Exec (Unit {0})
set_catalog_state id state = do
  env ← the_env
  write set_call (catalog_key id)
      (λ r. record r { catalogs = insert id (entry state (env.now + env.ttl)) r.catalogs })

abbrev pub no_catalog : CatalogState
no_catalog = record { status = unset; on_search_id = ""; updated_at = 0 }

abbrev pub idle_preorder : PreorderState
idle_preorder = record { status = idle; active_run_id = "" }

module _ {V : Type 0} where
  -- A failed read and a missing entry both give the default.
  abbrev pub value_or : V → Result (Option V) → V
  value_or d (ok (some v)) = v
  value_or d (ok none) = d
  value_or d (err e) = d

unfoldable pub get_catalog_state : String → Exec CatalogState
get_catalog_state id = do
  found ← attempt (read (catalog_key id) (λ r. lookup id r.catalogs))
  pure (value_or no_catalog found)

unfoldable pub set_preorder_state : String → PreorderState → Exec (Unit {0})
set_preorder_state id state = do
  env ← the_env
  write set_call (preorder_key id)
      (λ r. record r { preorders = insert id (entry state (env.now + env.ttl)) r.preorders })

unfoldable pub get_preorder_state : String → Exec PreorderState
get_preorder_state id = do
  found ← attempt (read (preorder_key id) (λ r. lookup id r.preorders))
  pure (value_or idle_preorder found)

unfoldable pub create_run : Run → Exec (Unit {0})
create_run run = do
  env ← the_env
  write set_call (run_key run.id)
      (λ r. record r { runs = insert run.id (entry run (env.now + env.ttl)) r.runs })

unfoldable pub get_run : String → Exec Run
get_run id = do found ← attempt (read (run_key id) (λ r. lookup id r.runs)); found_or_missing found

abbrev pub is_final : String → Bool
is_final status = status == "completed" || status == "failed"

unfoldable pub update_run_status : String → String → Exec (Unit {0})
unfolding get_run
update_run_status id status = do
  run ← get_run id
  env ← the_env
  let run' = record run {
    status = status;
    completed_at = if is_final status then env.now else run.completed_at;
  }
  write set_call (run_key id)
      (λ r. record r { runs = insert id (entry run' (env.now + env.ttl)) r.runs })

-- INCRBY keeps the deadline of a live counter and starts an absent one at 0; EXPIRE then sets it.
abbrev pub count_of : Option ℕ → ℕ
count_of none = 0
count_of (some n) = n

abbrev pub deadline_of : ℕ → Option (Entry ℕ) → Option ℕ
deadline_of now none = none
deadline_of now (some e) = elim (fresh now (some e)) [ none ↦ none | some n ↦ e.deadline ]

abbrev pub add_to : ℕ → MetricKey → ℕ → RedisState → RedisState
add_to now k delta r =
    let old = lookup k r.counters in
    record r {
      counters =
          insert k
            (record { value = count_of (fresh now old) + delta; deadline = deadline_of now old })
            r.counters;
    }

abbrev pub extend : ℕ → MetricKey → RedisState → RedisState
extend deadline k r = elim (lookup k r.counters) [
  | none ↦ r
  | some e ↦ record r {
    counters = insert k (record { value = e.value; deadline = some deadline }) r.counters;
  }
]

unfoldable pub incr_metric : String → String → String → ℕ → Exec (Unit {0})
incr_metric run_id action counter delta = do
  env ← the_env
  let k : MetricKey = record { run_id = run_id; action = action; counter = counter }
  write incr_call (metric_key k) (add_to env.now k delta)
  ignore (write expire_call (metric_key k) (extend (env.now + env.ttl) k))

-- One counter as `GetMetrics` reads it: a failed read and a missing key leave it 0.
unfoldable pub metric_value : Env → Assoc MetricKey (Entry ℕ) → MetricKey → ℕ
metric_value env counters k =
    if env.redis_fails get_call (metric_key k)
    then 0
    else count_of (fresh env.now (lookup k counters))

unfoldable pub action_metrics : Env → Assoc MetricKey (Entry ℕ) → String → String → ActionMetrics
unfolding metric_value
action_metrics env counters run_id action = record {
  sent = value "sent";
  success = value "success";
  failure = value "failure";
  timeout = value "timeout";
  avg_ms = no_action.avg_ms;
  p90_ms = no_action.p90_ms;
  p95_ms = no_action.p95_ms;
  p99_ms = no_action.p99_ms;
}
  where
    value : String → ℕ
    value counter =
        metric_value env counters (record { run_id = run_id; action = action; counter = counter })

unfoldable pub metrics_of : Env → Assoc MetricKey (Entry ℕ) → String → RunMetrics
unfolding action_metrics
metrics_of env counters run_id =
    let of_action = action_metrics env counters run_id in
    record {
      select = of_action "select";
      on_select = of_action "on_select";
      init = of_action "init";
      on_init = of_action "on_init";
      confirm = of_action "confirm";
      on_confirm = of_action "on_confirm";
    }

unfoldable pub get_metrics : String → Exec RunMetrics
get_metrics run_id env w = (ok (metrics_of env w.redis.counters run_id), w)

unfoldable pub set_discovery_payload : String → Payload → Exec (Unit {0})
set_discovery_payload txn_id payload = do
  env ← the_env
  write set_call (discovery_key txn_id)
      (λ r. record r { discovery = insert txn_id (entry payload (env.now + env.ttl)) r.discovery })

unfoldable pub get_discovery_payload : String → Exec (Option Payload)
get_discovery_payload txn_id = read (discovery_key txn_id) (λ r. lookup txn_id r.discovery)
