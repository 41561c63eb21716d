-- ===== src/Manager/Finish.antt =====
-- manager.go, `FinishRun`: what it saves of a run.
use load_test_backend.Base.{
  ℕ, List, [], ◌∷◌, Option, none, ap, ◌∙◌, refl, ◌||◌, Bool-cases, inl, inr, String, false, some,
  ◌+◌, ◌≡◌, arith, lookup, keep_if, lookup-insert, eq_refl, string_eq, fresh, ◌==◌, if◌then◌else◌,
}
use load_test_backend.Float.{zero_float}
use load_test_backend.Latency.{RunLatencySummary, Stage, stage_eq, on_select, on_init, on_confirm}
use load_test_backend.Session.{Run, RunMetrics, ActionMetrics}
use load_test_backend.Session.Journey.{build_run_journey_metrics}
use load_test_backend.Store.{
  Env, World, ok, RedisCall, MongoCall, set_call, get_call, find_summaries, update_run,
}
use load_test_backend.Store.Keys.{Key, MetricKey, metric_eq, metric_key, run_key, preorder_key}
use load_test_backend.Store.Redis.{
  get_run, update_run_status, set_preorder_state, get_metrics, metrics_of, action_metrics,
  metric_value, entry, is_final,
}
use load_test_backend.Store.Mongo.{save_run, get_run_latency_summaries, summary_of}
use load_test_backend.Store.Counters.{live_count}
use load_test_backend.Preorder.Summaries.{summary_at}
use load_test_backend.Manager.{finish_run, save_finished, summary_metrics, with_summaries}
use load_test_backend.Manager.Runs.{
  update_run_status-counters, update_run_status-mongo, idled, finished, get_run-world,
}

-- The calls that `FinishRun` depends on succeed.
pub record NoFailure (env : Env) : Type 0 where
  pub redis : (c : RedisCall) (k : Key) → env.redis_fails c k ≡ false
  pub mongo : (c : MongoCall) → env.mongo_fails c ≡ false

module _ (session_id run_id status : String) (env : Env) (w : World) where
  -- The run as `UpdateRunStatus` leaves it.
  abbrev marked : Run → Run
  marked run = record run {
    status = status;
    completed_at = if is_final status then env.now else run.completed_at;
  }

  get_run-idled :
      (run : Run)
      → NoFailure env
      → fresh env.now (lookup run_id w.redis.runs) ≡ some run
      → (get_run run_id env (idled session_id run_id status env w)).0 ≡ ok (marked run)
  unfolding get_run set_preorder_state update_run_status
  get_run-idled run nf found = ground (
    arith,
    nf.redis get_call (run_key run_id),
    nf.redis set_call (run_key run_id),
    nf.redis set_call (preorder_key session_id),
    lookup-insert run_id run_id (entry (marked run) (env.now + env.ttl)) w.redis.runs,
    eq_refl run_id,
  )

  idled-counters : (idled session_id run_id status env w).redis.counters ≡ w.redis.counters
  unfolding set_preorder_state
  idled-counters = ground (arith, update_run_status-counters run_id status env w)

  idled-mongo : (idled session_id run_id status env w).mongo ≡ w.mongo
  unfolding set_preorder_state
  idled-mongo = ground (arith, update_run_status-mongo run_id status env w)

-- The metrics that a finished run is saved with.
abbrev final_metrics : String → String → Env → World → RunMetrics
final_metrics run_id status env w =
    let counted = metrics_of env w.redis.counters run_id in
    let sums = keep_if (λ (s : RunLatencySummary). s.run_id == run_id) w.mongo.summaries in
    if is_final status then with_summaries sums counted else counted

abbrev pub saved_run : Run → String → Env → RunMetrics → Run
saved_run run status env m = record run {
  status = status;
  completed_at = env.now;
  metrics = m;
  journey_metrics = build_run_journey_metrics m;
}

save_finished-saves :
    (run : Run) (m : RunMetrics) (status : String) (env : Env) (v : World)
    → NoFailure env
    → let sums = keep_if (λ (s : RunLatencySummary). s.run_id == run.id) v.mongo.summaries in
      lookup run.id (save_finished m status (ok run) env v).1.mongo.runs
      ≡ some (saved_run run status env (if is_final status then with_summaries sums m else m))
unfolding save_finished save_run get_run_latency_summaries
save_finished-saves run m status env v nf =
    let sums = keep_if (λ (s : RunLatencySummary). s.run_id == run.id) v.mongo.summaries in
    ground (
      arith,
      nf.mongo find_summaries,
      nf.mongo update_run,
      lookup-insert run.id run.id
          (saved_run run status env (if is_final status then with_summaries sums m else m))
          v.mongo.runs,
      eq_refl run.id,
    )

-- A latency summary as the metrics of its callback stage.
abbrev pub summarized : Option RunLatencySummary → ActionMetrics → ActionMetrics
summarized none m = m
summarized (some s) m = record {
  sent = s.total;
  success = s.success_count;
  failure = s.failure_count;
  timeout = s.timeout_count;
  avg_ms = s.avg_ms;
  p90_ms = s.p90_ms;
  p95_ms = s.p95_ms;
  p99_ms = s.p99_ms;
}

summarized-metrics :
    (o : Option RunLatencySummary) (m : ActionMetrics) → summary_metrics o m ≡ summarized o m
summarized-metrics none m = refl
summarized-metrics (some s) m = refl

summary_of-at :
    (run_id : String) (stage : Stage) (ss : List RunLatencySummary)
    → summary_of stage (keep_if (λ (s : RunLatencySummary). s.run_id == run_id) ss)
      ≡ summary_at run_id stage ss
unfolding summary_of
summary_of-at run_id stage [] = refl
summary_of-at run_id stage (s ∷ ss) = ground (arith, summary_of-at run_id stage ss)

module _ (run_id status : String) (env : Env) (w : World) where
  -- The live counters of an action, without latencies.
  abbrev pub counted : String → ActionMetrics
  counted action =
      let live : String → ℕ =
        λ c. live_count env w (record { run_id = run_id; action = action; counter = c }) in
      record {
        sent = live "sent";
        success = live "success";
        failure = live "failure";
        timeout = live "timeout";
        avg_ms = zero_float;
        p90_ms = zero_float;
        p95_ms = zero_float;
        p99_ms = zero_float;
      }

  -- A callback stage: from its summary in MongoDB when the run has ended.
  abbrev pub stage_metrics : Stage → ActionMetrics → ActionMetrics
  stage_metrics stage m =
      if status == "completed" || status == "failed"
      then summarized (summary_at run_id stage w.mongo.summaries) m
      else m

  abbrev pub expected_metrics : RunMetrics
  expected_metrics = record {
    select = counted "select";
    on_select = stage_metrics on_select (counted "on_select");
    init = counted "init";
    on_init = stage_metrics on_init (counted "on_init");
    confirm = counted "confirm";
    on_confirm = stage_metrics on_confirm (counted "on_confirm");
  }

  counted-action :
      (action : String)
      → NoFailure env
      → action_metrics env w.redis.counters run_id action ≡ counted action
  unfolding action_metrics metric_value
  counted-action action nf =
      let key : String → MetricKey =
        λ c. record { run_id = run_id; action = action; counter = c } in
      rw
        (
          nf.redis get_call (metric_key (key "sent")),
          nf.redis get_call (metric_key (key "success")),
          nf.redis get_call (metric_key (key "failure")),
          nf.redis get_call (metric_key (key "timeout")),
        )
        refl

  counted-all :
      NoFailure env
      → metrics_of env w.redis.counters run_id ≡ record {
        select = counted "select";
        on_select = counted "on_select";
        init = counted "init";
        on_init = counted "on_init";
        confirm = counted "confirm";
        on_confirm = counted "on_confirm";
      }
  unfolding metrics_of
  counted-all nf =
      rw
        (
          counted-action "select" nf,
          counted-action "on_select" nf,
          counted-action "init" nf,
          counted-action "on_init" nf,
          counted-action "confirm" nf,
          counted-action "on_confirm" nf,
        )
        refl

  stage-merged :
      (stage : Stage) (m : ActionMetrics)
      → summary_metrics
          (summary_of stage
            (keep_if (λ (s : RunLatencySummary). s.run_id == run_id) w.mongo.summaries))
          m
        ≡ summarized (summary_at run_id stage w.mongo.summaries) m
  stage-merged stage m =
      ap (λ (o : Option RunLatencySummary). summary_metrics o m)
        (summary_of-at run_id stage w.mongo.summaries)
      ∙ summarized-metrics (summary_at run_id stage w.mongo.summaries) m

  final-expected : NoFailure env → final_metrics run_id status env w ≡ expected_metrics
  final-expected nf = elim (Bool-cases (is_final status)) [
    | inl e ↦
        rw (counted-all nf, e)
          (rw
            (
              stage-merged on_select (counted "on_select"),
              stage-merged on_init (counted "on_init"),
              stage-merged on_confirm (counted "on_confirm"),
            )
            refl)
    | inr e ↦ rw (counted-all nf, e) refl
  ]

module _ (session_id run_id status : String) (env : Env) (w : World) where
  finish_run_merged :
      (run : Run)
      → NoFailure env
      → fresh env.now (lookup run_id w.redis.runs) ≡ some run
      → run.id ≡ run_id
      → lookup run_id (finished session_id run_id status env w).mongo.runs
        ≡ some (saved_run run status env (final_metrics run_id status env w))
  unfolding finish_run get_metrics
  finish_run_merged run nf found named =
      let v = idled session_id run_id status env w in
      ground (
        arith,
        get_run-idled session_id run_id status env w run nf found,
        get_run-world session_id run_id status env w v,
        idled-counters session_id run_id status env w,
        idled-mongo session_id run_id status env w,
        save_finished-saves (marked session_id run_id status env w run)
            (metrics_of env v.redis.counters run_id) status env v nf,
      )

  -- If no call fails, finishing a run that Redis still has saves it in MongoDB with the status, the
  -- current time and the live counters of Redis for its six actions; if the status is completed or
  -- failed, each of the three callback stages that has a latency summary in MongoDB takes the total, the
  -- counts by outcome and the latencies of that summary instead.
  pub finish_run_saves :
      (run : Run)
      → NoFailure env
      → fresh env.now (lookup run_id w.redis.runs) ≡ some run
      → run.id ≡ run_id
      → lookup run_id (finished session_id run_id status env w).mongo.runs
        ≡ some (saved_run run status env (expected_metrics run_id status env w))
  finish_run_saves run nf found named =
      finish_run_merged run nf found named
      ∙ ap (λ (m : RunMetrics). some (saved_run run status env m))
          (final-expected run_id status env w nf)
