-- ===== src/Witnesses/Managers.antt =====
-- Sessions, runs and the route of a transaction.
use load_test_backend.Base.{
  pos, ◌*◌, ◌≡◌, refl, false, some, [], ◌∷◌, arith, lookup, insert, has_char, string_eq,
}
use load_test_backend.Float.{zero_float, of_int}
use load_test_backend.Latency.{on_init, RunLatencySummary}
use load_test_backend.Session.{Session, expired, running, stopping, unset}
use load_test_backend.Store.{Env, World, ok, err, run_already_active, no_active_run}
use load_test_backend.Store.Redis.{
  second, get_session_by_bpp, get_preorder_state, get_catalog_state, set_preorder_state,
  idle_preorder, get_session, create_run, update_run_status, incr_metric,
}
use load_test_backend.Store.Routes.{link_txn, get_txn_route, get_txn_route-link_txn}
use load_test_backend.Manager.{
  create, get_live, start_run, stop_run, new_session, new_run, set_verification_enabled,
}
use load_test_backend.Manager.Runs.{
  preorder_of, start_run_twice, stop_run_lem, start_run_after_stop, finish_run_idles, finished,
}
use load_test_backend.Manager.Finish.{saved_run, expected_metrics, finish_run_saves}
use load_test_backend.Store.Redis.{create_session, set_catalog_state}
use load_test_backend.Store.Mongo.{expire_sessions_by_bpp, expire_matching, save_session}
use load_test_backend.Manager.{drop_state_session}
use load_test_backend.Manager.Sessions.{
  active_of, create_lem, create_only_active, set_verification_takes_over,
}
use load_test_backend.Witnesses.{calm, calm-NoFailure, empty_world}

abbrev begin : Env
begin = calm (10 * second) "run-1"

abbrev later : Env
later = calm (20 * second) "run-2"

abbrev with_run : World
with_run = (start_run "s" "bpp" 5 60 begin empty_world).1

start_run_twice_example :
    start_run "s" "bpp" 5 60 later (start_run "s" "bpp" 5 60 begin empty_world).1
    ≡ (err run_already_active, (start_run "s" "bpp" 5 60 begin empty_world).1)
unfolding start_run get_preorder_state set_preorder_state create_run lookup
start_run_twice_example =
    start_run_twice "s" "bpp" 5 60 begin empty_world (new_run begin "s" "bpp" 5 60) "bpp" 5 60 later
      refl refl (omega arith)

abbrev last : Env
last = calm (30 * second) "run-3"

abbrev stopped_world : World
stopped_world = (stop_run "s" later with_run).1

stop_run_lem_example :
    (preorder_of "s" later with_run ≡ ok (record { status = running; active_run_id = "run-1" }))
    × (preorder_of "s" last stopped_world
        ≡ ok (record { status = stopping; active_run_id = "run-1" }))
    × (stop_run "s" last stopped_world ≡ (err no_active_run, stopped_world))
unfolding start_run stop_run get_preorder_state set_preorder_state create_run update_run_status
    lookup insert
stop_run_lem_example = stop_run_lem "s" later with_run "run-1" last refl refl refl (omega arith)

start_run_after_stop_example :
    (start_run "s" "bpp" 5 60 last stopped_world).0 ≡ ok (new_run last "s" "bpp" 5 60)
unfolding start_run stop_run get_preorder_state set_preorder_state create_run update_run_status
    lookup insert
start_run_after_stop_example =
    start_run_after_stop "s" later with_run "run-1" "bpp" 5 60 last refl refl refl refl refl

-- Another run than the active one is finished.
finish_run_idles_example :
    preorder_of "s" last (finished "s" "run-0" "completed" later with_run) ≡ ok idle_preorder
finish_run_idles_example = finish_run_idles "s" "run-0" "completed" later with_run last refl refl

-- The run has a summary of its on_init callbacks, and Redis a count of its on_select callbacks.
abbrev init_summary : RunLatencySummary
init_summary = record {
  session_id = "s";
  run_id = "run-1";
  stage = on_init;
  timeout_threshold_ms = 30_000;
  cutoff_at = 15 * second;
  total = 6;
  success_count = 3;
  failure_count = 2;
  timeout_count = 1;
  avg_ms = zero_float;
  p90_ms = of_int (pos 40);
  p95_ms = of_int (pos 50);
  p99_ms = of_int (pos 60);
  computed_at = 15 * second;
}

abbrev with_summary : World
with_summary =
    let counted = (incr_metric "run-1" "on_select" "success" 4 begin with_run).1 in
    record counted { mongo = record counted.mongo { summaries = init_summary ∷ [] } }

finish_run_saves_example :
    lookup "run-1" (finished "s" "run-1" "completed" later with_summary).mongo.runs
    ≡ some (
        saved_run
          (new_run begin "s" "bpp" 5 60)
          "completed"
          later
          (expected_metrics "run-1" "completed" later with_summary))
unfolding start_run get_preorder_state set_preorder_state create_run incr_metric lookup insert
finish_run_saves_example =
    finish_run_saves "s" "run-1" "completed" later with_summary (new_run begin "s" "bpp" 5 60)
      (calm-NoFailure (20 * second) "run-2") refl refl

-- A BPP that already has a session.
abbrev first_session : Env
first_session = calm (10 * second) "session-1"

abbrev next_session : Env
next_session = calm (20 * second) "session-2"

abbrev with_session : World
with_session = (create "bpp" "https://bpp" "1.2.0" "ONDC:RET10" first_session empty_world).1

abbrev with_next : World
with_next = (create "bpp" "https://bpp" "1.2.0" "ONDC:RET10" next_session with_session).1

abbrev second_session : Session
second_session = new_session next_session "bpp" "https://bpp" "1.2.0" "ONDC:RET10"

create_lem_example :
    ((create "bpp" "https://bpp" "1.2.0" "ONDC:RET10" next_session with_session).0
      ≡ ok second_session)
    × ((get_live "session-2" last with_next).0 ≡ ok second_session)
    × ((get_session_by_bpp "bpp" last with_next).0 ≡ ok second_session)
    × ((get_preorder_state "session-2" last with_next).0 ≡ ok idle_preorder)
    × ((get_catalog_state "session-2" last with_next).0
        ≡ ok (record { status = unset; on_search_id = ""; updated_at = 20 * second }))
create_lem_example =
    create_lem "bpp" "https://bpp" "1.2.0" "ONDC:RET10" next_session with_session last
      (calm-NoFailure (20 * second) "session-2") (calm-NoFailure (30 * second) "run-3")
      (omega arith)

create_only_active_example :
    ((create "bpp" "https://bpp" "1.2.0" "ONDC:RET10" next_session with_session).0
      ≡ ok second_session)
    × (active_of "bpp" with_next.mongo.sessions ≡ ("session-2", second_session) ∷ [])
create_only_active_example =
    create_only_active "bpp" "https://bpp" "1.2.0" "ONDC:RET10" next_session with_session
      (calm-NoFailure (20 * second) "session-2")

-- A session that only MongoDB has, and another session of its BPP in Redis.
abbrev archived : Session
archived = new_session first_session "bpp" "https://bpp" "1.2.0" "ONDC:RET10"

abbrev with_archived : World
with_archived = record empty_world {
  mongo = record (empty_world.mongo) { sessions = ("session-1", archived) ∷ [] };
}

set_verification_takes_over_example :
    (t : Session) × ((get_session_by_bpp "bpp" last
        (set_verification_enabled "session-1" false next_session
          (create "bpp" "https://bpp" "1.2.0" "ONDC:RET10" next_session with_archived).1).1).0
      ≡ ok t)
    × (t.id ≡ "session-1")
unfolding create create_session get_session get_session_by_bpp drop_state_session
    expire_sessions_by_bpp expire_matching set_catalog_state set_preorder_state save_session lookup
    insert
set_verification_takes_over_example =
    set_verification_takes_over "session-1" false (record archived { status = expired })
      next_session last
      (create "bpp" "https://bpp" "1.2.0" "ONDC:RET10" next_session with_archived).1
      (calm-NoFailure (20 * second) "session-2") (calm-NoFailure (30 * second) "run-3") refl refl
      refl (omega arith)

-- The route of a transaction.
get_txn_route-link_txn_example :
    (get_txn_route "txn" last (link_txn "txn" "run-1" "session-1" false begin empty_world).1).0
    ≡ ok (record { run_id = "run-1"; session_id = "session-1"; verification_enabled = false })
unfolding has_char
get_txn_route-link_txn_example =
    get_txn_route-link_txn "txn" "run-1" "session-1" false begin last empty_world refl refl refl
      refl
