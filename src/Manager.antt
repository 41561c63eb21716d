-- ===== src/Manager.antt =====
-- internal/domain/session/manager.go: the session manager over the two stores.
pub mod Runs
pub mod Finish
pub mod Sessions
use load_test_backend.Base.{
  ℕ, String, Bool, true, false, not, Option, none, some, List, [], ◌∷◌, ◌==◌, string_eq, ◌+◌, ◌&&◌,
  ◌||◌, ltb, leb, if◌then◌else◌,
}
use load_test_backend.Json.{Payload}
use load_test_backend.Latency.{RunLatencySummary, Stage, on_select, on_init, on_confirm}
use load_test_backend.Session.{
  Session, CatalogState, PreorderState, PreorderStatus, SessionStatus, Run, RunMetrics,
  ActionMetrics, ThrottleMetrics, active, expired, unset, idle, running, stopping,
}
use load_test_backend.Session.Journey.{
  build_run_journey_metrics, no_metrics, no_journeys, no_throttle,
}
use load_test_backend.Store.{
  Env, World, Result, ok, err, Exec, Error, ◌>>=◌, ◌>>◌, pure, raise, attempt, ignore, handle,
  the_env, missing, session_not_found, session_expired, run_already_active, no_active_run,
}
use load_test_backend.Store.Redis.{
  create_session, get_session, delete_session, get_session_by_bpp, set_catalog_state,
  set_preorder_state, get_preorder_state, create_run, get_run, update_run_status, get_metrics,
  is_final, idle_preorder,
}
use load_test_backend.Store.Mongo.{
  save_session, save_run, get_session_by_id, get_run_by_id, expire_sessions_by_bpp,
  hard_delete_session, hard_delete_sessions_by_bpp, get_run_latency_summaries, summary_of,
  get_sessions_by_bpp, search_latest_runs, is_active,
}

-- `if s, _ := m.state.GetSessionByBPP(...); s != nil { _ = m.state.DeleteSession(s.ID) }`
unfoldable pub drop_state_session : Result Session → Exec (Unit {0})
unfolding delete_session
drop_state_session (ok s) = ignore (delete_session s.id)
drop_state_session (err e) = pure tt

abbrev pub new_session : Env → String → String → String → String → Session
new_session env bpp_id bpp_uri core_version domain = record {
  id = env.new_id;
  bpp_id = bpp_id;
  bpp_uri = bpp_uri;
  status = active;
  created_at = env.now;
  expires_at = env.now + env.ttl;
  core_version = core_version;
  domain = domain;
  verification_enabled = false;
  error_injection_enabled = true;
}

unfoldable pub create : String → String → String → String → Exec Session
unfolding drop_state_session
create bpp_id bpp_uri core_version domain = do
  existing ← attempt (get_session_by_bpp bpp_id)
  drop_state_session existing
  ignore (expire_sessions_by_bpp bpp_id)
  env ← the_env
  let s = new_session env bpp_id bpp_uri core_version domain
  create_session s
  set_catalog_state s.id (record { status = unset; on_search_id = ""; updated_at = env.now })
  set_preorder_state s.id idle_preorder
  ignore (save_session s)
  pure s

-- `now.After(s.ExpiresAt)`
abbrev pub is_past : Env → Session → Bool
is_past env s = ltb s.expires_at env.now

unfoldable pub get_live : String → Exec Session
get_live id =
    handle (get_session id)
      (λ s env w.
        if not (is_active s.status) || is_past env s then (err session_expired, w) else (ok s, w))
      (λ _. raise session_not_found)

-- `s, err = m.state.GetSession(id)`, and Mongo where that fails.
unfoldable pub find_session_anywhere : String → Exec Session
find_session_anywhere id =
    handle (get_session id) pure
      (λ _. handle (get_session_by_id id) pure (λ _. raise session_not_found))

unfoldable pub mark_expired : Session → Exec Session
mark_expired s env w =
    let s' = record s { status = expired } in
    if is_active s.status && is_past env s
    then (ok s', (ignore (save_session s') env w).1)
    else (ok s, w)

unfoldable pub get_any : String → Exec Session
unfolding find_session_anywhere mark_expired
get_any id = do s ← find_session_anywhere id; mark_expired s

unfoldable pub set_verification_enabled : String → Bool → Exec Session
set_verification_enabled id enabled = do
  s ← get_any id
  let s' = record s { verification_enabled = enabled }
  create_session s'
  ignore (save_session s')
  pure s'

unfoldable pub set_error_injection_enabled : String → Bool → Exec Session
set_error_injection_enabled id enabled = do
  s ← get_any id
  let s' = record s { error_injection_enabled = enabled }
  create_session s'
  ignore (save_session s')
  pure s'

unfoldable pub delete_state_or_find : String → Exec (Unit {0})
delete_state_or_find id =
    handle (get_session id) (λ _. ignore (delete_session id))
      (λ _. handle (get_session_by_id id) (λ _. pure tt) (λ _. raise session_not_found))

unfoldable pub delete : String → Exec (Unit {0})
unfolding delete_state_or_find
delete id = do delete_state_or_find id; hard_delete_session id

unfoldable pub delete_all_by_bpp : String → Exec ℕ
unfolding drop_state_session
delete_all_by_bpp bpp_id = do
  found ← attempt (get_session_by_bpp bpp_id)
  drop_state_session found
  hard_delete_sessions_by_bpp bpp_id

abbrev pub is_running : PreorderStatus → Bool
is_running running = true
is_running idle = false
is_running stopping = false

abbrev pub new_run : Env → String → String → ℕ → ℕ → Run
new_run env session_id bpp_id rps duration_sec = record {
  id = env.new_id;
  session_id = session_id;
  bpp_id = bpp_id;
  rps = rps;
  duration_sec = duration_sec;
  status = "running";
  metrics = no_metrics;
  system_metrics = no_throttle;
  journey_metrics = no_journeys;
  started_at = env.now;
  completed_at = 0;
}

-- The part of `StartRun` behind its guard.
unfoldable pub launch_run : String → String → ℕ → ℕ → Exec Run
launch_run session_id bpp_id rps duration_sec = do
  env ← the_env
  let r = new_run env session_id bpp_id rps duration_sec
  create_run r
  set_preorder_state session_id (record { status = running; active_run_id = r.id })
  pure r

unfoldable pub start_run : String → String → ℕ → ℕ → Exec Run
unfolding launch_run
start_run session_id bpp_id rps duration_sec = do
  ps ← get_preorder_state session_id
  if is_running ps.status
      then raise run_already_active
      else launch_run session_id bpp_id rps duration_sec

abbrev pub summary_metrics : Option RunLatencySummary → ActionMetrics → ActionMetrics
summary_metrics none m = m
summary_metrics (some s) m = record {
  sent = s.total;
  success = s.success_count;
  failure = s.failure_count;
  timeout = s.timeout_count;
  avg_ms = s.avg_ms;
  p90_ms = s.p90_ms;
  p95_ms = s.p95_ms;
  p99_ms = s.p99_ms;
}

abbrev pub with_summaries : List RunLatencySummary → RunMetrics → RunMetrics
with_summaries sums m = record m {
  on_select = summary_metrics (summary_of on_select sums) m.on_select;
  on_init = summary_metrics (summary_of on_init sums) m.on_init;
  on_confirm = summary_metrics (summary_of on_confirm sums) m.on_confirm;
}

abbrev pub merge_found : Run → Result (List RunLatencySummary) → Run
merge_found run (ok sums) = record run { metrics = with_summaries sums run.metrics }
merge_found run (err e) = run

unfoldable pub merge_run_latency_summaries : Run → Exec Run
merge_run_latency_summaries run = if is_final run.status then merge else pure run
  where
    merge : Exec Run
    merge = do sums ← attempt (get_run_latency_summaries run.id); pure (merge_found run sums)

-- What `FinishRun` saves, if Redis still has the run.
unfoldable pub save_finished : RunMetrics → String → Result Run → Exec (Unit {0})
unfolding merge_run_latency_summaries
save_finished metrics status (err e) = pure tt
save_finished metrics status (ok run) = do
  env ← the_env
  run' ←
      merge_run_latency_summaries
        (record run { status = status; completed_at = env.now; metrics = metrics })
  ignore (save_run (record run' { journey_metrics = build_run_journey_metrics run'.metrics }))

unfoldable pub finish_run : String → String → String → Exec (Unit {0})
unfolding save_finished
finish_run session_id run_id status = do
  ignore (update_run_status run_id status)
  ignore (set_preorder_state session_id idle_preorder)
  metrics ← get_metrics run_id
  run ← attempt (get_run run_id)
  save_finished metrics status run

-- `Manager.GetRun`: the run of Redis with its counters, or the saved run.
unfoldable pub load_saved_run : String → Exec Run
load_saved_run run_id = do
  saved ← get_run_by_id run_id
  pure (record saved { journey_metrics = build_run_journey_metrics saved.metrics })

unfoldable pub load_live_run : String → Run → Exec Run
unfolding merge_run_latency_summaries
load_live_run run_id r = do
  metrics ← get_metrics run_id
  r' ← merge_run_latency_summaries (record r { metrics = metrics })
  pure (record r' { journey_metrics = build_run_journey_metrics r'.metrics })

-- `Manager.GetRun`: the run of Redis with its counters, or the saved run.
unfoldable pub load_run : String → Exec Run
unfolding load_saved_run load_live_run
load_run run_id = handle (get_run run_id) (load_live_run run_id) (λ _. load_saved_run run_id)

-- The part of `StopRun` behind its guard.
unfoldable pub request_stop : String → String → Exec String
request_stop session_id run_id = do
  ignore (set_preorder_state session_id (record { status = stopping; active_run_id = run_id }))
  ignore (update_run_status run_id "stopping")
  pure run_id

unfoldable pub stop_run : String → Exec String
unfolding request_stop
stop_run session_id = do
  ps ← get_preorder_state session_id
  if not (is_running ps.status) || ps.active_run_id == ""
      then raise no_active_run
      else request_stop session_id ps.active_run_id

unfoldable pub find_run_anywhere : String → Exec Run
find_run_anywhere run_id = handle (get_run run_id) pure (λ _. get_run_by_id run_id)

unfoldable pub set_run_system_metrics : String → ThrottleMetrics → Exec (Unit {0})
unfolding find_run_anywhere
set_run_system_metrics run_id sys = do
  r ← find_run_anywhere run_id
  let r' = record r { system_metrics = sys }
  create_run r'
  ignore (save_run r')

abbrev pub is_session : Result Session → String → Bool
is_session (ok s) id = s.id == id
is_session (err e) id = false

-- The loop of `GetSessionsByBPP`: an active session that has run out is listed and saved as expired,
-- unless it is the one that Redis has.
unfoldable pub expire_listed : Result Session → List Session → Exec (List Session)
unfolding mark_expired
expire_listed in_redis [] = pure []
expire_listed in_redis (s ∷ ss) = do
  s' ← if is_session in_redis s.id then pure s else mark_expired s
  ss' ← expire_listed in_redis ss
  pure (s' ∷ ss')

unfoldable pub list_sessions_by_bpp : String → ℕ → ℕ → Exec (List Session × ℕ)
unfolding expire_listed
list_sessions_by_bpp bpp_id page page_size = do
  found ← get_sessions_by_bpp bpp_id page page_size
  in_redis ← attempt (get_session_by_bpp bpp_id)
  listed ← expire_listed in_redis found.0
  pure (listed, found.1)

unfoldable pub search_runs : String → String → ℕ → Exec (List Run)
search_runs bpp_id session_id limit =
    let at_least = if leb limit 0 then 20 else limit in
    search_latest_runs bpp_id session_id (if ltb 100 at_least then 100 else at_least)
