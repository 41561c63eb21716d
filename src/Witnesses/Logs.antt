-- ===== src/Witnesses/Logs.antt =====
-- The run log, the counters and the end of a run.
use load_test_backend.Base.{
  ◌+◌, ◌*◌, ◌≡◌, refl, String, none, some, List, [], ◌∷◌, pos, length, count_if, ◌==◌, string_eq,
  Assoc,
}
use load_test_backend.Latency.{
  Stage, stage_eq, on_select, success, failure, timeout, RunLatencyEvent, RunLatencySummary,
}
use load_test_backend.Store.{Env, World, err, missing}
use load_test_backend.Store.Keys.{MetricKey, metric_eq}
use load_test_backend.Store.Redis.{second}
use load_test_backend.RunLog.{
  MemoryStore, new_memory_store, record_payload, record_timestamp, get_payload, get_timestamp,
  count, list_txn_ids, cleanup, bucket_key, reader_of,
}
use load_test_backend.RunLog.Lookup.{Call}
use load_test_backend.RunLog.Cleanup.{cleanup-run}
use load_test_backend.Dispatch.{DispatchResult, send_failed}
use load_test_backend.Preorder.{classify_all, empty_tally}
use load_test_backend.Preorder.Totals.{has_outcome, added_events, classify_all-totals}
use load_test_backend.Preorder.Transactions.{occurs, occurrences, bit, occurrences-union_ids}
use load_test_backend.Preorder.{union_ids}
use load_test_backend.Base.{map, not, ◌||◌, ◌&&◌, lookup, insert, false}
use load_test_backend.Preorder.Summaries.{summary_at, transactions, finalized, finalize_stage-total}
use load_test_backend.Witnesses.{calm, empty_world, payload_of, exact_ops}

abbrev log : MemoryStore
log = record_payload "run-1" "pipeline_b" "select" "txn-1" (payload_of "txn-1") new_memory_store

abbrev call : String → String → Call
call run_id txn_id = record {
  run_id = run_id;
  pipeline = "pipeline_b";
  action = "select";
  txn_id = txn_id;
  payload = payload_of txn_id;
}

-- One call for another run, and one without a transaction.
abbrev calls : List Call
calls = call "run-1" "txn-2" ∷ call "run-2" "txn-3" ∷ call "run-1" "" ∷ call "run-1" "txn-2" ∷ []

cleanup-run_example :
    ((txn_id : String)
      → get_payload "run-1" "pipeline_b" "select" txn_id (cleanup "run-1" log) ≡ err missing)
    × ((txn_id : String)
        → get_timestamp "run-1" "pipeline_b" "select" txn_id (cleanup "run-1" log) ≡ err missing)
    × (count "run-1" "pipeline_b" "select" (cleanup "run-1" log) ≡ 0)
    × (list_txn_ids "run-1" "pipeline_b" "select" (cleanup "run-1" log) ≡ [])
cleanup-run_example = cleanup-run "run-1" "pipeline_b" "select" log

abbrev sent_counter : MetricKey
sent_counter = record { run_id = "run-1"; action = "select"; counter = "sent" }

abbrev clock : Env
clock = calm (100 * second) "id"

-- Sent 50 seconds, sent 10 seconds and never sent before the cutoff; and one with a callback.
abbrev timed : MemoryStore
timed =
    record_timestamp "run-1" "pipeline_b" "select" "late" (50 * second)
      (record_timestamp "run-1" "pipeline_b" "select" "early" (90 * second) new_memory_store)

abbrev answered : RunLatencyEvent
answered = record {
  session_id = "session-1";
  run_id = "run-1";
  stage = on_select;
  txn_id = "done";
  sent_at = 60 * second;
  received_at = some (61 * second);
  latency_ms = some (pos 1000);
  outcome = success;
  recorded_at = 61 * second;
  timeout_cause = "";
}

abbrev existing : Assoc String RunLatencyEvent
existing = ("done", answered) ∷ []

abbrev ids : List String
ids = "late" ∷ "early" ∷ "never" ∷ "done" ∷ []

classify_all-totals_example :
    let log = reader_of timed in
    let t =
      classify_all "session-1" "run-1" on_select (100 * second) existing log ids empty_tally in
    let has = has_outcome "session-1" "run-1" on_select (100 * second) existing log in
    (t.success_count ≡ count_if (has success) ids)
    × (t.failure_count ≡ count_if (has failure) ids)
    × (t.timeout_count ≡ count_if (has timeout) ids)
    × (t.missing_events
        ≡ added_events "session-1" "run-1" on_select (100 * second) existing log ids)
    × (t.success_count + t.failure_count + t.timeout_count ≡ length ids)
classify_all-totals_example =
    classify_all-totals "session-1" "run-1" on_select (100 * second) existing (reader_of timed) ids

abbrev after_stage : World
after_stage =
    finalized exact_ops (reader_of timed) "session-1" "run-1" (100 * second) on_select
      ("early" ∷ "late" ∷ []) clock empty_world

finalize_stage-total_example :
    (s : RunLatencySummary) × (summary_at "run-1" on_select after_stage.mongo.summaries ≡ some s)
    × (s.success_count + s.failure_count + s.timeout_count ≡ s.total)
    × (s.total
        ≡ length (
            transactions exact_ops
              (reader_of timed)
              "session-1"
              "run-1"
              (100 * second)
              on_select
              ("early" ∷ "late" ∷ [])
              clock
              empty_world))
    × ((other_run : String) (other_stage : Stage)
        → ("run-1" == other_run && on_select == other_stage) ≡ false
        → summary_at other_run other_stage after_stage.mongo.summaries
          ≡ summary_at other_run other_stage [])
unfolding record_timestamp list_txn_ids lookup insert bucket_key
finalize_stage-total_example =
    finalize_stage-total exact_ops (reader_of timed) "session-1" "run-1" (100 * second) on_select
      ("early" ∷ "late" ∷ []) clock empty_world refl refl refl

abbrev results : List DispatchResult
results =
    record { index = 0; txn_id = "a"; error = none }
    ∷ record { index = 1; txn_id = "b"; error = some send_failed }
    ∷ []

-- A transaction that was sent and has an event.
abbrev done : String
done = "done"

occurrences-union_ids_example :
    occurrences "done" (union_ids ("late" ∷ "done" ∷ "" ∷ []) existing)
    ≡ bit (
        (occurs "done" ("late" ∷ "done" ∷ "" ∷ []) || occurs "done" (map (λ e. e.0) existing))
        && not (done == ""))
occurrences-union_ids_example = occurrences-union_ids ("late" ∷ "done" ∷ "" ∷ []) existing "done"
