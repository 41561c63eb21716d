-- ===== src/Preorder.antt =====
-- internal/handlers/testing/routes.go: `finalizeRunLatencies`, which classifies every transaction of a
-- run once the run has ended, and `updateMetrics`. The map `txnIDSet` is a list without repetition; the
-- order in which Go ranges over it is the order of the list.
pub mod Totals
pub mod Transactions
pub mod Summaries
pub mod Updates
use load_test_backend.Base.{
  ℕ, ◌+◌, ◌*◌, String, Bool, true, false, Option, none, some, List, [], ◌∷◌, ◌++◌, map, ℤ, Assoc,
  lookup, ◌==◌, string_eq, leb, length, if◌then◌else◌,
}
use load_test_backend.Float.{Float64, of_int}
use load_test_backend.Latency.{
  Stage, on_select, on_init, on_confirm, Outcome, success, failure, timeout, RunLatencyEvent,
  RunLatencySummary,
}
use load_test_backend.Latency.Percentiles.{FloatOps, compute_summary, LatencySummary}
use load_test_backend.Store.{
  Env, World, Result, ok, err, Exec, ◌>>=◌, ◌>>◌, pure, attempt, ignore, branch, handle, the_env,
}
use load_test_backend.Store.Redis.{second, incr_metric}
use load_test_backend.Store.Mongo.{
  get_run_latency_events_for_stage, upsert_run_latency_events_bulk, upsert_run_latency_event,
  upsert_run_latency_summary,
}
use load_test_backend.RunLog.{LogReader}
use load_test_backend.Dispatch.{DispatchResult, count_success, count_errors}

-- callbackTimeout, in nanoseconds.
abbrev pub callback_timeout : ℕ
callback_timeout = 30 * second

abbrev pub request_of : Stage → String
request_of on_select = "select"
request_of on_init = "init"
request_of on_confirm = "confirm"

-- `txnIDSet[id] = struct{}{}`, but not for "".
unfoldable pub add_id : String → List String → List String
add_id id [] = if id == "" then [] else id ∷ []
add_id id (x ∷ xs) = if x == id then x ∷ xs else x ∷ add_id id xs

unfoldable pub add_ids : List String → List String → List String
unfolding add_id
add_ids [] set = set
add_ids (id ∷ ids) set = add_ids ids (add_id id set)

unfoldable pub union_ids : List String → Assoc String RunLatencyEvent → List String
unfolding add_ids
union_ids request_ids existing = add_ids (map (λ e. e.0) existing) (add_ids request_ids [])

-- What the loop over the transactions collects.
pub record Tally : Type 0 where
  pub success_count : ℕ
  pub failure_count : ℕ
  pub timeout_count : ℕ
  pub latencies : List ℤ
  pub missing_events : List RunLatencyEvent

abbrev pub empty_tally : Tally
empty_tally = record {
  success_count = 0;
  failure_count = 0;
  timeout_count = 0;
  latencies = [];
  missing_events = [];
}

abbrev pub with_latency : Option ℤ → List ℤ → List ℤ
with_latency none ms = ms
with_latency (some n) ms = ms ++ n ∷ []

abbrev pub count_outcome : Outcome → Tally → Tally
count_outcome success t = record t { success_count = t.success_count + 1 }
count_outcome failure t = record t { failure_count = t.failure_count + 1 }
count_outcome timeout t = record t { timeout_count = t.timeout_count + 1 }

-- The `switch ev.Outcome` of a recorded event.
abbrev pub count_event : Outcome → Option ℤ → Tally → Tally
count_event success ms t = record t {
  success_count = t.success_count + 1;
  latencies = with_latency ms t.latencies;
}
count_event failure ms t = count_outcome failure t
count_event timeout ms t = count_outcome timeout t

-- A transaction without a recorded event: late once it was sent 30 seconds before the cutoff.
abbrev pub missing_outcome : ℕ → Result ℕ → Outcome
missing_outcome cutoff (err e) = failure
missing_outcome cutoff (ok sent_at) =
    if leb (sent_at + callback_timeout) cutoff then timeout else failure

abbrev pub sent_or : ℕ → Result ℕ → ℕ
sent_or cutoff (err e) = cutoff
sent_or cutoff (ok sent_at) = sent_at

module _ (session_id run_id : String) (stage : Stage) (cutoff : ℕ) where
  abbrev pub missing_event : String → Result ℕ → RunLatencyEvent
  missing_event txn_id sent = record {
    session_id = session_id;
    run_id = run_id;
    stage = stage;
    txn_id = txn_id;
    sent_at = sent_or cutoff sent;
    received_at = none;
    latency_ms = none;
    outcome = missing_outcome cutoff sent;
    recorded_at = cutoff;
    timeout_cause = "";
  }

  abbrev pub add_missing : RunLatencyEvent → Tally → Tally
  add_missing e t = record t { missing_events = t.missing_events ++ e ∷ [] }

  -- One round of the loop: the event of the transaction, or its send time in the log.
  unfoldable pub classify : Option RunLatencyEvent → Result ℕ → String → Tally → Tally
  classify (some e) sent txn_id t = count_event e.outcome e.latency_ms t
  classify none sent txn_id t =
      add_missing (missing_event txn_id sent) (count_outcome (missing_outcome cutoff sent) t)

  unfoldable pub classify_all :
      Assoc String RunLatencyEvent → LogReader → List String → Tally → Tally
  unfolding classify
  classify_all existing log [] t = t
  classify_all existing log (id ∷ ids) t =
      classify_all existing log ids (
        classify (lookup id existing) (log.send_time run_id "pipeline_b" (request_of stage) id) id
          t)

  unfoldable pub summary_from : FloatOps → ℕ → Tally → RunLatencySummary
  summary_from ops total t =
      let s = compute_summary ops t.latencies in
      record {
        session_id = session_id;
        run_id = run_id;
        stage = stage;
        timeout_threshold_ms = 30_000;
        cutoff_at = cutoff;
        total = total;
        success_count = t.success_count;
        failure_count = t.failure_count;
        timeout_count = t.timeout_count;
        avg_ms = s.avg_ms;
        p90_ms = of_int s.p90_ms;
        p95_ms = of_int s.p95_ms;
        p99_ms = of_int s.p99_ms;
        computed_at = cutoff;
      }

-- The fallback of a failed bulk write: one upsert for each event, errors logged.
unfoldable pub upsert_each : List RunLatencyEvent → Exec (Unit {0})
upsert_each [] = pure tt
upsert_each (e ∷ es) = ignore (upsert_run_latency_event e) >> upsert_each es

unfoldable pub save_missing : List RunLatencyEvent → Exec (Unit {0})
unfolding upsert_each
save_missing [] = pure tt
save_missing (e ∷ es) =
    handle (upsert_run_latency_events_bulk (e ∷ es)) (λ _. pure tt) (λ _. upsert_each (e ∷ es))

-- One stage from the transactions that were sent; a failed read of the events skips it.
unfoldable pub finalize_listed :
    FloatOps → LogReader → String → String → ℕ → Stage → List String → Exec (Unit {0})
unfolding save_missing classify_all summary_from union_ids
finalize_listed ops log session_id run_id cutoff stage request_ids =
    handle (get_run_latency_events_for_stage run_id stage)
      (λ existing.
        let ids = union_ids request_ids existing in
        let t = classify_all session_id run_id stage cutoff existing log ids empty_tally in
        save_missing t.missing_events
        >> ignore (
            upsert_run_latency_summary
              (summary_from session_id run_id stage cutoff ops (length ids) t)))
      (λ _. pure tt)

-- One stage; an error of `ListTxnIDs` skips it, too.
unfoldable pub finalize_stage : FloatOps → LogReader → String → String → ℕ → Stage → Exec (Unit {0})
unfolding finalize_listed
finalize_stage ops log session_id run_id cutoff stage =
    branch (log.listed run_id "pipeline_b" (request_of stage))
      (finalize_listed ops log session_id run_id cutoff stage) (λ _. pure tt)

unfoldable pub finalize_run_latencies : FloatOps → LogReader → String → String → Exec (Unit {0})
unfolding finalize_stage
finalize_run_latencies ops log session_id run_id = do
  env ← the_env
  finalize_stage ops log session_id run_id env.now on_select
  finalize_stage ops log session_id run_id env.now on_init
  finalize_stage ops log session_id run_id env.now on_confirm

-- updateMetrics; a failed write is dropped.
unfoldable pub update_metrics : String → String → List DispatchResult → Exec (Unit {0})
unfolding count_success count_errors
update_metrics run_id action results = do
  ignore (incr_metric run_id action "sent" (length results))
  ignore (incr_metric run_id action "success" (count_success results))
  ignore (incr_metric run_id action "failure" (count_errors results))
