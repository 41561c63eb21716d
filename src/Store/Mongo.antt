-- ===== src/Store/Mongo.antt =====
-- mongo_store.go, its methods over the collections of `MongoState`. A unique index makes one document
-- of each run, stage and transaction.
use load_test_backend.Base.{
  ℕ, zero, suc, String, Bool, true, false, Option, none, some, List, [], ◌∷◌, ◌++◌, ◌==◌, string_eq,
  ◌-◌, ◌*◌, Assoc, lookup, insert, remove, leb, nat_eq, ◌&&◌, ◌||◌, keep_if, length, if◌then◌else◌,
}
use load_test_backend.Json.{Payload}
use load_test_backend.Latency.{RunLatencyEvent, RunLatencySummary, Stage, stage_eq}
use load_test_backend.Session.{Session, Run, SessionStatus, active, expired}
use load_test_backend.Store.{
  MongoState, MongoCall, ok, err, Exec, RunPayload, ◌>>=◌, ◌>>◌, pure, ignore, the_env,
  store_failure, missing, update_session, update_run, update_catalog, find_catalog, find_runs,
  find_run, count_sessions, find_sessions, find_session, insert_payload, update_event, bulk_events,
  update_summary, find_events, find_summaries, expire_sessions, delete_runs, delete_catalogs,
  delete_sessions,
}
use load_test_backend.Store.Redis.{or_missing}

abbrev pub change : MongoCall → (MongoState → MongoState) → Exec (Unit {0})
change call f env w =
    if env.mongo_fails call then (err store_failure, w) else (ok tt, record w { mongo = f w.mongo })

module _ {A : Type 0} where
  abbrev pub find : MongoCall → (MongoState → A) → Exec A
  find call f env w = if env.mongo_fails call then (err store_failure, w) else (ok (f w.mongo), w)

  -- `FindOne(...).Decode`: an error and a missing document are both reported as not found.
  abbrev pub find_one : MongoCall → (MongoState → Option A) → Exec A
  find_one call f env w =
      if env.mongo_fails call then (err missing, w) else or_missing (f w.mongo) env w

  -- Sorted by a time, the latest first; documents with one time keep their order.
  unfoldable pub insert_latest : (A → ℕ) → A → List A → List A
  insert_latest time x [] = x ∷ []
  insert_latest time x (y ∷ ys) =
      if leb (time y) (time x) then x ∷ y ∷ ys else y ∷ insert_latest time x ys

  unfoldable pub latest_first : (A → ℕ) → List A → List A
  unfolding insert_latest
  latest_first time [] = []
  latest_first time (x ∷ xs) = insert_latest time x (latest_first time xs)

  unfoldable pub take : ℕ → List A → List A
  take zero xs = []
  take (suc n) [] = []
  take (suc n) (x ∷ xs) = x ∷ take n xs

  unfoldable pub drop : ℕ → List A → List A
  drop zero xs = xs
  drop (suc n) [] = []
  drop (suc n) (x ∷ xs) = drop n xs

  abbrev pub documents : Assoc String A → List A
  documents [] = []
  documents ((k, x) ∷ xs) = x ∷ documents xs

unfoldable pub save_session : Session → Exec (Unit {0})
save_session s = change update_session (λ m. record m { sessions = insert s.id s m.sessions })

unfoldable pub save_run : Run → Exec (Unit {0})
save_run r = change update_run (λ m. record m { runs = insert r.id r m.runs })

unfoldable pub save_catalog : String → Payload → Exec (Unit {0})
save_catalog session_id payload =
    change update_catalog (λ m. record m { catalogs = insert session_id payload m.catalogs })

unfoldable pub get_catalog : String → Exec Payload
get_catalog session_id = find_one find_catalog (λ m. lookup session_id m.catalogs)

unfoldable pub get_run_history : String → Exec (List Run)
unfolding latest_first
get_run_history session_id = find find_runs λ m.
    latest_first (λ r. r.started_at) (keep_if (λ r. r.session_id == session_id) (documents m.runs))

unfoldable pub search_latest_runs : String → String → ℕ → Exec (List Run)
unfolding latest_first take
search_latest_runs bpp_id session_id limit =
    find find_runs
      λ m. take limit (latest_first (λ r. r.started_at) (keep_if matches (documents m.runs)))
  where
    matches : Run → Bool
    matches r = r.bpp_id == bpp_id && (session_id == "" || r.session_id == session_id)

unfoldable pub get_run_by_id : String → Exec Run
get_run_by_id run_id = find_one find_run (λ m. lookup run_id m.runs)

-- The page with its total; `page` counts from 1.
unfoldable pub get_sessions_by_bpp : String → ℕ → ℕ → Exec (List Session × ℕ)
unfolding latest_first take drop
get_sessions_by_bpp bpp_id page page_size = do
  total ← find count_sessions (λ m. length (matching m))
  sessions ← find find_sessions (λ m.
      take page_size
        (drop ((page - 1) * page_size) (latest_first (λ s. s.created_at) (matching m))))
  pure (sessions, total)
  where
    matching : MongoState → List Session
    matching m = keep_if (λ s. s.bpp_id == bpp_id) (documents m.sessions)

unfoldable pub get_session_by_id : String → Exec Session
get_session_by_id id = find_one find_session (λ m. lookup id m.sessions)

unfoldable pub save_run_payload : RunPayload → Exec (Unit {0})
save_run_payload p = do
  env ← the_env
  let p' = record p {
    id = if p.id == "" then env.new_id else p.id;
    timestamp = if nat_eq p.timestamp 0 then env.now else p.timestamp;
  }
  change insert_payload (λ m. record m { payloads = m.payloads ++ p' ∷ [] })

abbrev pub same_event : String → Stage → String → RunLatencyEvent → Bool
same_event run_id stage txn_id e = (e.run_id == run_id && e.stage == stage) && e.txn_id == txn_id

-- `$setOnInsert` with upsert: the first event of a run, stage and transaction stays.
unfoldable pub upsert_event : RunLatencyEvent → List RunLatencyEvent → List RunLatencyEvent
upsert_event e [] = e ∷ []
upsert_event e (x ∷ xs) =
    if same_event e.run_id e.stage e.txn_id x then x ∷ xs else x ∷ upsert_event e xs

unfoldable pub upsert_events : List RunLatencyEvent → List RunLatencyEvent → List RunLatencyEvent
unfolding upsert_event
upsert_events [] xs = xs
upsert_events (e ∷ es) xs = upsert_events es (upsert_event e xs)

unfoldable pub upsert_run_latency_event : RunLatencyEvent → Exec (Unit {0})
unfolding upsert_event
upsert_run_latency_event e =
    change update_event (λ m. record m { events = upsert_event e m.events })

unfoldable pub upsert_run_latency_events_bulk : List RunLatencyEvent → Exec (Unit {0})
unfolding upsert_events
upsert_run_latency_events_bulk [] = pure tt
upsert_run_latency_events_bulk (e ∷ es) =
    change bulk_events (λ m. record m { events = upsert_events (e ∷ es) m.events })

-- `$set` with upsert: the last summary of a run and stage stays.
unfoldable pub upsert_summary : RunLatencySummary → List RunLatencySummary → List RunLatencySummary
upsert_summary s [] = s ∷ []
upsert_summary s (x ∷ xs) =
    if x.run_id == s.run_id && x.stage == s.stage then s ∷ xs else x ∷ upsert_summary s xs

unfoldable pub upsert_run_latency_summary : RunLatencySummary → Exec (Unit {0})
unfolding upsert_summary
upsert_run_latency_summary s =
    change update_summary (λ m. record m { summaries = upsert_summary s m.summaries })

-- `out[ev.TxnID] = &ev` over the cursor.
unfoldable pub add_by_txn :
    List RunLatencyEvent → Assoc String RunLatencyEvent → Assoc String RunLatencyEvent
add_by_txn [] out = out
add_by_txn (e ∷ es) out = add_by_txn es (insert e.txn_id e out)

unfoldable pub by_txn : List RunLatencyEvent → Assoc String RunLatencyEvent
unfolding add_by_txn
by_txn es = add_by_txn es []

unfoldable pub get_run_latency_events_for_stage :
    String → Stage → Exec (Assoc String RunLatencyEvent)
unfolding by_txn
get_run_latency_events_for_stage run_id stage =
    find find_events λ m. by_txn (keep_if (λ e. e.run_id == run_id && e.stage == stage) m.events)

-- The summary of one stage in the map that `GetRunLatencySummaries` returns.
unfoldable pub summary_of : Stage → List RunLatencySummary → Option RunLatencySummary
summary_of stage [] = none
summary_of stage (s ∷ ss) = if s.stage == stage then some s else summary_of stage ss

unfoldable pub get_run_latency_summaries : String → Exec (List RunLatencySummary)
get_run_latency_summaries run_id =
    find find_summaries (λ m. keep_if (λ s. s.run_id == run_id) m.summaries)

abbrev pub is_active : SessionStatus → Bool
is_active active = true
is_active expired = false

unfoldable pub expire_matching : String → Assoc String Session → Assoc String Session
expire_matching bpp_id [] = []
expire_matching bpp_id ((id, s) ∷ rest) =
    (id, if s.bpp_id == bpp_id && is_active s.status then record s { status = expired } else s)
    ∷ expire_matching bpp_id rest

unfoldable pub expire_sessions_by_bpp : String → Exec (Unit {0})
unfolding expire_matching
expire_sessions_by_bpp bpp_id =
    change expire_sessions (λ m. record m { sessions = expire_matching bpp_id m.sessions })

module _ {A : Type 0} where
  unfoldable pub drop_documents : (A → Bool) → Assoc String A → Assoc String A
  drop_documents p [] = []
  drop_documents p ((k, x) ∷ rest) =
      let others = drop_documents p rest in if p x then others else (k, x) ∷ others

  unfoldable pub drop_ids : (String → Bool) → Assoc String A → Assoc String A
  drop_ids p [] = []
  drop_ids p ((k, x) ∷ rest) =
      let others = drop_ids p rest in if p k then others else (k, x) ∷ others

unfoldable pub hard_delete_session : String → Exec (Unit {0})
unfolding drop_documents
hard_delete_session id = do
  ignore (
      change delete_runs (λ m. record m { runs = drop_documents (λ r. r.session_id == id) m.runs }))
  ignore (change delete_catalogs (λ m. record m { catalogs = remove id m.catalogs }))
  change delete_sessions (λ m. record m { sessions = remove id m.sessions })

unfoldable pub ids_of : String → Assoc String Session → List String
ids_of bpp_id [] = []
ids_of bpp_id ((id, s) ∷ rest) =
    let others = ids_of bpp_id rest in if s.bpp_id == bpp_id then id ∷ others else others

unfoldable pub one_of : List String → String → Bool
one_of [] id = false
one_of (x ∷ xs) id = x == id || one_of xs id

unfoldable pub hard_delete_sessions_by_bpp : String → Exec ℕ
unfolding drop_documents drop_ids ids_of one_of
hard_delete_sessions_by_bpp bpp_id = do
  ids ← find find_sessions (λ m. ids_of bpp_id m.sessions)
  delete_all ids
  where
    delete_all : List String → Exec ℕ
    delete_all [] = pure 0
    delete_all (i ∷ is) = do
      let ids = i ∷ is
      ignore (
          change delete_runs
            (λ m. record m { runs = drop_documents (λ r. one_of ids r.session_id) m.runs }))
      ignore
          (change delete_catalogs (λ m. record m { catalogs = drop_ids (one_of ids) m.catalogs }))
      before ← find delete_sessions (λ m. length m.sessions)
      change delete_sessions (λ m. record m { sessions = drop_ids (one_of ids) m.sessions })
      after ← find delete_sessions (λ m. length m.sessions)
      pure (before - after)
