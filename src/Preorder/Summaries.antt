-- ===== src/Preorder/Summaries.antt =====
-- routes.go, `finalizeRunLatencies`: the summary that a stage leaves in MongoDB.
use load_test_backend.Base.{
  ℕ, ◌+◌, ◌≡◌, refl, String, false, List, [], ◌∷◌, ◌==◌, string_eq, arith, Assoc, length, keep_if,
  ◌&&◌, Option, none, some, eq_iff, eq_refl, ap, ◌∙◌, Bool, true, sym, Bool-cases, inl, inr,
  if◌then◌else◌,
}
use mathlib.Core.Bool.{false≢true}
use load_test_backend.Latency.{Stage, stage_eq, same_stage_iff, RunLatencyEvent, RunLatencySummary}
use load_test_backend.Latency.Percentiles.{FloatOps}
use load_test_backend.Store.{Env, World, Error, Result, ok, err, Exec, find_events, update_summary}
use load_test_backend.Store.Mongo.{
  by_txn, upsert_summary, get_run_latency_events_for_stage, upsert_run_latency_event,
  upsert_run_latency_events_bulk, upsert_run_latency_summary,
}
use load_test_backend.RunLog.{LogReader}
use load_test_backend.Preorder.{
  request_of, union_ids, empty_tally, classify_all, summary_from, upsert_each, save_missing,
  finalize_listed, finalize_stage,
}
use load_test_backend.Preorder.Totals.{classify_all-totals}

abbrev KeepsSummaries : Exec (Unit {0}) → Env → World → Type 0
KeepsSummaries m env w = ((m env w).0 ≡ ok tt) × ((m env w).1.mongo.summaries ≡ w.mongo.summaries)

upsert_each-keeps :
    (es : List RunLatencyEvent) (env : Env) (w : World) → KeepsSummaries (upsert_each es) env w
unfolding upsert_each upsert_run_latency_event
upsert_each-keeps [] env w = ground arith
upsert_each-keeps (e ∷ es) env w =
    let ih = upsert_each-keeps es env (upsert_run_latency_event e env w).1 in ground arith

save_missing-keeps :
    (es : List RunLatencyEvent) (env : Env) (w : World) → KeepsSummaries (save_missing es) env w
unfolding save_missing upsert_run_latency_events_bulk
save_missing-keeps [] env w = ground arith
save_missing-keeps (e ∷ es) env w = ground (arith, upsert_each-keeps (e ∷ es) env w)

-- The first summary of a run and stage in the collection.
abbrev pub summary_at : String → Stage → List RunLatencySummary → Option RunLatencySummary
summary_at run_id stage [] = none
summary_at run_id stage (s ∷ ss) =
    if s.run_id == run_id && s.stage == stage then some s else summary_at run_id stage ss

abbrev is_of : RunLatencySummary → String → Stage → Bool
is_of s run_id stage = s.run_id == run_id && s.stage == stage

-- Summaries of one run and stage are found under the same keys.
is_of-same :
    (x s : RunLatencySummary) (run_id : String) (stage : Stage)
    → is_of x s.run_id s.stage ≡ true
    → is_of x run_id stage ≡ is_of s run_id stage
is_of-same x s run_id stage h =
    let run : x.run_id ≡ s.run_id = (eq_iff x.run_id s.run_id).0 (ground arith) in
    let same : x.stage ≡ s.stage = (same_stage_iff x.stage s.stage).0 (ground arith) in
    ap (λ r. r == run_id && x.stage == stage) run
    ∙ ap (λ (t : Stage). s.run_id == run_id && t == stage) same

is_of_self : (s : RunLatencySummary) → is_of s s.run_id s.stage ≡ true
is_of_self s = ground (arith, eq_refl s.run_id, (same_stage_iff s.stage s.stage).1 refl)

is_of-both :
    (x s : RunLatencySummary) (run_id : String) (stage : Stage)
    → is_of x run_id stage ≡ true
    → is_of s run_id stage ≡ true
    → is_of x s.run_id s.stage ≡ true
is_of-both x s run_id stage h k =
    let run : s.run_id ≡ run_id = (eq_iff s.run_id run_id).0 (ground arith) in
    let same : s.stage ≡ stage = (same_stage_iff s.stage stage).0 (ground arith) in
    ap (λ r. x.run_id == r && x.stage == s.stage) run
    ∙ ap (λ (t : Stage). x.run_id == run_id && x.stage == t) same
    ∙ h

-- At most one of two tests holds, so their order does not matter.
apart :
    (a b : Bool) (s x : RunLatencySummary) (rest : Option RunLatencySummary)
    → (a ≡ true → b ≡ true → ⊥)
    → (if a then some x else if b then some s else rest)
      ≡ (if b then some s else if a then some x else rest)
apart true true s x rest h = absurd (h refl refl)
apart true false s x rest h = refl
apart false b s x rest h = refl

again :
    (b : Bool) (s x : RunLatencySummary) (rest : Option RunLatencySummary)
    → (if b then some s else rest) ≡ (if b then some s else if b then some x else rest)
again true s x rest = refl
again false s x rest = refl

summary_at-upsert :
    (s : RunLatencySummary) (run_id : String) (stage : Stage) (ss : List RunLatencySummary)
    → summary_at run_id stage (upsert_summary s ss)
      ≡ (if is_of s run_id stage then some s else summary_at run_id stage ss)
unfolding upsert_summary
summary_at-upsert s run_id stage [] = refl
summary_at-upsert s run_id stage (x ∷ xs) = elim (Bool-cases (is_of x s.run_id s.stage)) [
  | inl e ↦ rw (e, is_of-same x s run_id stage e) (again (is_of s run_id stage) s x _)
  | inr e ↦
      rw (e, summary_at-upsert s run_id stage xs)
        (apart (is_of x run_id stage) (is_of s run_id stage) s x (summary_at run_id stage xs)
          (λ h k. false≢true (sym e ∙ is_of-both x s run_id stage h k)))
]

module _ (ops : FloatOps) (log : LogReader) (session_id run_id : String) (cutoff : ℕ)
    (stage : Stage) (request_ids : List String) (env : Env) (w : World) where
  abbrev pub recorded : Assoc String RunLatencyEvent
  recorded = by_txn (keep_if (λ e. e.run_id == run_id && e.stage == stage) w.mongo.events)

  abbrev pub transactions : List String
  transactions = union_ids request_ids recorded

  abbrev written : RunLatencySummary
  written =
      summary_from session_id run_id stage cutoff ops (length transactions)
        (classify_all session_id run_id stage cutoff recorded log transactions empty_tally)

  abbrev pub finalized : World
  finalized = (finalize_stage ops log session_id run_id cutoff stage env w).1

  finalize_stage-listed :
      log.listed run_id "pipeline_b" (request_of stage) ≡ ok request_ids
      → finalize_stage ops log session_id run_id cutoff stage env w
        ≡ finalize_listed ops log session_id run_id cutoff stage request_ids env w
  unfolding finalize_stage
  finalize_stage-listed l = rw l refl

  finalize_stage-summary :
      log.listed run_id "pipeline_b" (request_of stage) ≡ ok request_ids
      → env.mongo_fails find_events ≡ false
      → env.mongo_fails update_summary ≡ false
      → finalized.mongo.summaries ≡ upsert_summary written w.mongo.summaries
  unfolding finalize_listed get_run_latency_events_for_stage upsert_run_latency_summary
  finalize_stage-summary l p q =
      let t = classify_all session_id run_id stage cutoff recorded log transactions empty_tally in
      ap (λ (r : Result (Unit {0}) × World). r.1.mongo.summaries) (finalize_stage-listed l)
      ∙ ground (arith, save_missing-keeps t.missing_events env w)

  -- Without the list of the transactions, or without the events, the stage is skipped.
  finalize_stage-skipped :
      (e : Error)
      → log.listed run_id "pipeline_b" (request_of stage) ≡ err e
      → finalize_stage ops log session_id run_id cutoff stage env w ≡ (ok tt, w)
  unfolding finalize_stage
  finalize_stage-skipped e l = rw l refl

  -- Unless listing the transactions, reading the events or writing the summary fails, and whatever
  -- becomes of the writes of the missing events, MongoDB then has a summary of this run and stage whose
  -- successes, failures and timeouts add up to its total, the number of the transactions sent or
  -- recorded, and its summaries of other runs and stages are those that it had.
  pub finalize_stage-total :
      log.listed run_id "pipeline_b" (request_of stage) ≡ ok request_ids
      → env.mongo_fails find_events ≡ false
      → env.mongo_fails update_summary ≡ false
      → (s : RunLatencySummary) × (summary_at run_id stage finalized.mongo.summaries ≡ some s)
        × (s.success_count + s.failure_count + s.timeout_count ≡ s.total)
        × (s.total ≡ length transactions)
        × ((other_run : String) (other_stage : Stage)
            → (run_id == other_run && stage == other_stage) ≡ false
            → summary_at other_run other_stage finalized.mongo.summaries
              ≡ summary_at other_run other_stage w.mongo.summaries)
  unfolding summary_from
  finalize_stage-total l p q =
      let totals = classify_all-totals session_id run_id stage cutoff recorded log transactions in
      let saved = finalize_stage-summary l p q in
      (
        written,
        rw saved (
            ground (
              arith,
              summary_at-upsert written run_id stage w.mongo.summaries,
              is_of_self written,
            )),
        totals.4,
        refl,
        λ other_run other_stage h.
            rw saved
              (ground (arith, summary_at-upsert written other_run other_stage w.mongo.summaries)),
      )
