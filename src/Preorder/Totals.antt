-- ===== src/Preorder/Totals.antt =====
-- routes.go, `finalizeRunLatencies`: the counts of a stage against an independent classification.
use load_test_backend.Base.{
  ℕ, ◌+◌, ◌≡◌, refl, sym, ◌∙◌, ap, String, Bool, true, false, Option, none, some, List, [], ◌∷◌,
  ◌++◌, map, string_eq, arith, ℤ, Assoc, lookup, length, count_if, keep_if, ltb, if◌then◌else◌,
}
use mathlib.Core.List.{append_assoc, append-nil}
use load_test_backend.Latency.{Stage, Outcome, success, failure, timeout, RunLatencyEvent}
use load_test_backend.Store.{Result, ok, err}
use load_test_backend.RunLog.{LogReader}
use load_test_backend.Preorder.{
  request_of, Tally, empty_tally, missing_outcome, add_missing, missing_event, count_event,
  count_outcome, classify, classify_all,
}

abbrev pub is_outcome : Outcome → Outcome → Bool
is_outcome success success = true
is_outcome failure failure = true
is_outcome timeout timeout = true
is_outcome _ _ = false

-- What a transaction without an event counts as: a timeout when it has a send time that lies 30
-- seconds (in nanoseconds) or more before the cutoff.
abbrev pub unanswered_outcome : ℕ → Result ℕ → Outcome
unanswered_outcome cutoff (err e) = failure
unanswered_outcome cutoff (ok sent_at) =
    if ltb cutoff (sent_at + 30_000_000_000) then failure else timeout

missing-unanswered :
    (cutoff : ℕ) (sent : Result ℕ) → missing_outcome cutoff sent ≡ unanswered_outcome cutoff sent
missing-unanswered cutoff (err e) = refl
missing-unanswered cutoff (ok sent_at) = ground arith

-- What a transaction counts as: its recorded outcome, and without one whether it is late.
abbrev pub outcome_of : ℕ → Option RunLatencyEvent → Result ℕ → Outcome
outcome_of cutoff (some e) sent = e.outcome
outcome_of cutoff none sent = unanswered_outcome cutoff sent

abbrev pub time_or : ℕ → Result ℕ → ℕ
time_or cutoff (err e) = cutoff
time_or cutoff (ok sent_at) = sent_at

abbrev pub is_none : Option RunLatencyEvent → Bool
is_none none = true
is_none (some e) = false

abbrev one_if : Bool → ℕ
one_if b = if b then 1 else 0

-- The counts of a tally, over those of an earlier one.
abbrev Counts : Tally → Tally → ℕ → ℕ → ℕ → Type 0
Counts t t' s f l =
    (t'.success_count ≡ t.success_count + s)
    × (t'.failure_count ≡ t.failure_count + f)
    × (t'.timeout_count ≡ t.timeout_count + l)

count_event-Counts :
    (o : Outcome) (ms : Option ℤ) (t : Tally)
    → Counts t
        (count_event o ms t)
        (one_if (is_outcome success o))
        (one_if (is_outcome failure o))
        (one_if (is_outcome timeout o))
count_event-Counts success ms t = ground arith
count_event-Counts failure ms t = ground arith
count_event-Counts timeout ms t = ground arith

missing-Counts :
    (session_id run_id : String) (stage : Stage) (cutoff : ℕ) (o : Outcome) (e : RunLatencyEvent)
    (t : Tally)
    → Counts t
        (add_missing session_id run_id stage cutoff e (count_outcome o t))
        (one_if (is_outcome success o))
        (one_if (is_outcome failure o))
        (one_if (is_outcome timeout o))
missing-Counts session_id run_id stage cutoff success e t = ground arith
missing-Counts session_id run_id stage cutoff failure e t = ground arith
missing-Counts session_id run_id stage cutoff timeout e t = ground arith

one_outcome :
    (o : Outcome)
    → one_if (is_outcome success o) + one_if (is_outcome failure o) + one_if (is_outcome timeout o)
      ≡ 1
one_outcome success = omega arith
one_outcome failure = omega arith
one_outcome timeout = omega arith

module _ (session_id run_id : String) (stage : Stage) (cutoff : ℕ) where
  classify-Counts :
      (o : Option RunLatencyEvent) (sent : Result ℕ) (id : String) (t : Tally)
      → Counts t
          (classify session_id run_id stage cutoff o sent id t)
          (one_if (is_outcome success (outcome_of cutoff o sent)))
          (one_if (is_outcome failure (outcome_of cutoff o sent)))
          (one_if (is_outcome timeout (outcome_of cutoff o sent)))
  unfolding classify
  classify-Counts (some e) sent id t = count_event-Counts e.outcome e.latency_ms t
  classify-Counts none sent id t = rw (← missing-unanswered cutoff sent) (
      missing-Counts session_id run_id stage cutoff (missing_outcome cutoff sent)
        (missing_event session_id run_id stage cutoff id sent) t)

  -- The event that a transaction without one is given.
  abbrev pub added_event : Result ℕ → String → RunLatencyEvent
  added_event sent id = record {
    session_id = session_id;
    run_id = run_id;
    stage = stage;
    txn_id = id;
    sent_at = time_or cutoff sent;
    received_at = none;
    latency_ms = none;
    outcome = unanswered_outcome cutoff sent;
    recorded_at = cutoff;
    timeout_cause = "";
  }

  missing-added :
      (sent : Result ℕ) (id : String)
      → missing_event session_id run_id stage cutoff id sent ≡ added_event sent id
  missing-added (err e) id = refl
  missing-added (ok sent_at) id = ground (arith, missing-unanswered cutoff (ok sent_at))

  count_outcome-events :
      (o : Outcome) (t : Tally) → (count_outcome o t).missing_events ≡ t.missing_events
  count_outcome-events success t = refl
  count_outcome-events failure t = refl
  count_outcome-events timeout t = refl

  count_event-events :
      (o : Outcome) (ms : Option ℤ) (t : Tally)
      → (count_event o ms t).missing_events ≡ t.missing_events
  count_event-events success ms t = refl
  count_event-events failure ms t = refl
  count_event-events timeout ms t = refl

  abbrev added_for : Option RunLatencyEvent → Result ℕ → String → List RunLatencyEvent
  added_for none sent id = added_event sent id ∷ []
  added_for (some e) sent id = []

  classify-events :
      (o : Option RunLatencyEvent) (sent : Result ℕ) (id : String) (t : Tally)
      → (classify session_id run_id stage cutoff o sent id t).missing_events
        ≡ t.missing_events ++ added_for o sent id
  unfolding classify
  classify-events (some e) sent id t =
      rw (append-nil t.missing_events) (count_event-events e.outcome e.latency_ms t)
  classify-events none sent id t =
      rw (count_outcome-events (missing_outcome cutoff sent) t, missing-added sent id) refl

  module _ (existing : Assoc String RunLatencyEvent) (log : LogReader) where
    abbrev pub sent_of : String → Result ℕ
    sent_of id = log.send_time run_id "pipeline_b" (request_of stage) id

    abbrev pub has_outcome : Outcome → String → Bool
    has_outcome o id = is_outcome o (outcome_of cutoff (lookup id existing) (sent_of id))

    abbrev pub is_missing : String → Bool
    is_missing id = is_none (lookup id existing)

    -- The events of the transactions that have none, in the order of the transactions.
    abbrev pub added_events : List String → List RunLatencyEvent
    added_events ids = map (λ id. added_event (sent_of id) id) (keep_if is_missing ids)

    added_events-cons :
        (id : String) (ids : List String) (o : Option RunLatencyEvent)
        → lookup id existing ≡ o
        → added_for o (sent_of id) id ++ added_events ids ≡ added_events (id ∷ ids)
    added_events-cons id ids none h = rw h refl
    added_events-cons id ids (some e) h = rw h refl

    classify_all-events :
        (ids : List String) (t : Tally)
        → (classify_all session_id run_id stage cutoff existing log ids t).missing_events
          ≡ t.missing_events ++ added_events ids
    unfolding classify_all
    classify_all-events [] t = sym (append-nil t.missing_events)
    classify_all-events (id ∷ ids) t =
        let t' = classify session_id run_id stage cutoff (lookup id existing) (sent_of id) id t in
        classify_all-events ids t'
        ∙ ap (λ (es : List RunLatencyEvent). es ++ added_events ids)
            (classify-events (lookup id existing) (sent_of id) id t)
        ∙ append_assoc t.missing_events _ (added_events ids)
        ∙ ap (λ (es : List RunLatencyEvent). t.missing_events ++ es)
            (added_events-cons id ids (lookup id existing) refl)

    classify_all-Counts :
        (ids : List String) (t : Tally)
        → Counts t
            (classify_all session_id run_id stage cutoff existing log ids t)
            (count_if (has_outcome success) ids)
            (count_if (has_outcome failure) ids)
            (count_if (has_outcome timeout) ids)
    unfolding classify_all
    classify_all-Counts [] t = ground arith
    classify_all-Counts (id ∷ ids) t =
        let t' = classify session_id run_id stage cutoff (lookup id existing) (sent_of id) id t in
        let step = classify-Counts (lookup id existing) (sent_of id) id t in
        let ih = classify_all-Counts ids t' in (omega arith, omega arith, omega arith)

    outcome_partition :
        (ids : List String)
        → count_if (has_outcome success) ids
            + count_if (has_outcome failure) ids
            + count_if (has_outcome timeout) ids
          ≡ length ids
    outcome_partition [] = omega arith
    outcome_partition (id ∷ ids) =
        let ih = outcome_partition ids in
        let o = outcome_of cutoff (lookup id existing) (sent_of id) in
        let one = one_outcome o in omega arith

    -- However the transactions of a stage ended, each is counted once: the successes, failures and
    -- timeouts are the transactions with that recorded outcome or, without a recorded event, those sent
    -- 30 seconds or more before the cutoff as timeouts and the others as failures; they add up to all of
    -- them. The missing events are one for each transaction without an event, in their order, under
    -- its identifier, with that outcome, its send time or else the cutoff, and no latency.
    pub classify_all-totals :
        (ids : List String)
        → let t = classify_all session_id run_id stage cutoff existing log ids empty_tally in
          (t.success_count ≡ count_if (has_outcome success) ids)
          × (t.failure_count ≡ count_if (has_outcome failure) ids)
          × (t.timeout_count ≡ count_if (has_outcome timeout) ids)
          × (t.missing_events ≡ added_events ids)
          × (t.success_count + t.failure_count + t.timeout_count ≡ length ids)
    classify_all-totals ids =
        let c = classify_all-Counts ids empty_tally in
        let p = outcome_partition ids in
        (omega arith, omega arith, omega arith, classify_all-events ids empty_tally, omega arith)
