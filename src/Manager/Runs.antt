-- ===== src/Manager/Runs.antt =====
-- manager.go, `StartRun`, `StopRun` and `FinishRun`: which runs a session lets start.
use load_test_backend.Base.{
  ℕ, String, false, ◌+◌, ◌≤◌, ◌≡◌, refl, arith, lookup-insert, eq_refl, string_eq,
}
use load_test_backend.Session.{PreorderState, Run, RunMetrics, running, stopping}
use load_test_backend.Store.{
  Env, World, Result, ok, err, set_call, get_call, run_already_active, no_active_run,
}
use load_test_backend.Store.Keys.{preorder_key, run_key}
use load_test_backend.Store.Redis.{
  get_preorder_state, set_preorder_state, create_run, update_run_status, get_run, entry,
  idle_preorder, get_metrics, metrics_of,
}
use load_test_backend.Manager.{start_run, stop_run, finish_run, new_run, save_finished}
use load_test_backend.Store.Mongo.{save_run, get_run_latency_summaries}

-- The preorder state that a manager reads.
abbrev pub preorder_of : String → Env → World → Result PreorderState
preorder_of session_id env w = (get_preorder_state session_id env w).0

module _ (session_id bpp_id : String) (rps duration_sec : ℕ) (env : Env) (w : World) where
  abbrev started : Result Run × World
  started = start_run session_id bpp_id rps duration_sec env w

  -- A run that `StartRun` reports as started is the active run of its session until the entry runs
  -- out, so that a second `StartRun` in that time is refused and changes nothing.
  pub start_run_twice :
      (r : Run) (bpp_id' : String) (rps' duration_sec' : ℕ) (env' : Env)
      → started.0 ≡ ok r
      → env'.redis_fails get_call (preorder_key session_id) ≡ false
      → env'.now ≤ env.now + env.ttl
      → start_run session_id bpp_id' rps' duration_sec' env' started.1
        ≡ (err run_already_active, started.1)
  unfolding start_run get_preorder_state set_preorder_state create_run
  start_run_twice r bpp_id' rps' duration_sec' env' h e l = ground (
    arith,
    lookup-insert session_id session_id
        (entry (record { status = running; active_run_id = env.new_id }) (env.now + env.ttl))
        w.redis.preorders,
    eq_refl session_id,
  )

module _ (session_id : String) (env : Env) (w : World) where
  abbrev stopped : Result String × World
  stopped = stop_run session_id env w

  -- A stop that succeeds, with its write of the preorder state, names the active run, which was
  -- running; the session then holds that run as stopping, and a second stop is refused.
  pub stop_run_lem :
      (run_id : String) (env' : Env)
      → stopped.0 ≡ ok run_id
      → env.redis_fails set_call (preorder_key session_id) ≡ false
      → env'.redis_fails get_call (preorder_key session_id) ≡ false
      → env'.now ≤ env.now + env.ttl
      → (preorder_of session_id env w ≡ ok (record { status = running; active_run_id = run_id }))
        × (preorder_of session_id env' stopped.1
            ≡ ok (record { status = stopping; active_run_id = run_id }))
        × (stop_run session_id env' stopped.1 ≡ (err no_active_run, stopped.1))
  unfolding stop_run get_preorder_state set_preorder_state update_run_status
  stop_run_lem run_id env' h e e' l =
      let ps = (get_preorder_state session_id env w).0 in
      ground (
        arith,
        lookup-insert session_id session_id
            (entry (record { status = stopping; active_run_id = run_id }) (env.now + env.ttl))
            w.redis.preorders,
        eq_refl session_id,
      )

  -- After a stop that wrote the preorder state, `StartRun` is not refused: unless one of its two
  -- writes fails it starts a second run, although nothing has ended the first.
  pub start_run_after_stop :
      (run_id bpp_id : String) (rps duration_sec : ℕ) (env' : Env)
      → stopped.0 ≡ ok run_id
      → env.redis_fails set_call (preorder_key session_id) ≡ false
      → env'.redis_fails get_call (preorder_key session_id) ≡ false
      → env'.redis_fails set_call (run_key env'.new_id) ≡ false
      → env'.redis_fails set_call (preorder_key session_id) ≡ false
      → (start_run session_id bpp_id rps duration_sec env' stopped.1).0
        ≡ ok (new_run env' session_id bpp_id rps duration_sec)
  unfolding stop_run start_run get_preorder_state set_preorder_state update_run_status create_run
  start_run_after_stop run_id bpp_id rps duration_sec env' h e e' f g = ground (
    arith,
    lookup-insert session_id session_id
        (entry (record { status = stopping; active_run_id = run_id }) (env.now + env.ttl))
        w.redis.preorders,
    eq_refl session_id,
  )

module _ (run_id status : String) (env : Env) (w : World) where
  update_run_status-preorders :
      (update_run_status run_id status env w).1.redis.preorders ≡ w.redis.preorders
  unfolding update_run_status
  update_run_status-preorders = ground arith

  pub update_run_status-counters :
      (update_run_status run_id status env w).1.redis.counters ≡ w.redis.counters
  unfolding update_run_status
  update_run_status-counters = ground arith

  pub update_run_status-mongo : (update_run_status run_id status env w).1.mongo ≡ w.mongo
  unfolding update_run_status
  update_run_status-mongo = ground arith

  save_finished-redis :
      (m : RunMetrics) (r : Result Run) → (save_finished m status r env w).1.redis ≡ w.redis
  unfolding save_finished save_run get_run_latency_summaries
  save_finished-redis m (ok r) = ground arith
  save_finished-redis m (err e) = refl

module _ (session_id run_id status : String) (env : Env) (w : World) where
  -- The world that `FinishRun` reads the run and its counters in.
  abbrev pub idled : World
  idled =
      (set_preorder_state session_id idle_preorder env (update_run_status run_id status env w).1).1

  pub get_run-world : (v : World) → (get_run run_id env v).1 ≡ v
  unfolding get_run
  get_run-world v = ground arith

  abbrev pub finished : World
  finished = (finish_run session_id run_id status env w).1

  finish_run-redis : finished.redis ≡ idled.redis
  unfolding finish_run get_metrics
  finish_run-redis = ground (
    arith,
    save_finished-redis run_id status env (get_run run_id env idled).1
        (metrics_of env idled.redis.counters run_id) (get_run run_id env idled).0,
    get_run-world idled,
  )

  -- Finishing any run whatever makes its session idle, also when another run is the active one,
  -- unless the write or the later read fails.
  pub finish_run_idles :
      (env' : Env)
      → env.redis_fails set_call (preorder_key session_id) ≡ false
      → env'.redis_fails get_call (preorder_key session_id) ≡ false
      → preorder_of session_id env' finished ≡ ok idle_preorder
  unfolding get_preorder_state set_preorder_state
  finish_run_idles env' e e' = ground (
    arith,
    finish_run-redis,
    lookup-insert session_id session_id (entry idle_preorder (env.now + env.ttl))
        (update_run_status run_id status env w).1.redis.preorders,
    eq_refl session_id,
  )
