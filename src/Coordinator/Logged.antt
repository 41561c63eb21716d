-- ===== src/Coordinator/Logged.antt =====
-- internal/domain/pipeline/coordinator.go: what the sends of a stage leave in the run log.
use load_test_backend.Base.{
  ℕ, ◌≡◌, refl, ◌∙◌, ap, sym, String, true, false, none, List, [], ◌∷◌, ◌⊎◌, inl, inr, ◌==◌,
  string_eq, eq_iff, eq_refl, Bool-cases, arith,
}
use mathlib.Core.Bool.{false≢true}
use load_test_backend.Json.{Payload}
use load_test_backend.Store.{ok}
use load_test_backend.RunLog.{MemoryStore, get_payload, get_timestamp}
use load_test_backend.Dispatch.{DispatchResult, is_success}
use load_test_backend.Coordinator.{Settings, Prepared, refused, prepared, prepare_payload}
use load_test_backend.Coordinator.Records.{
  payload-record, time-record, payload-record_timestamp, time-record_payload,
}
use load_test_backend.Coordinator.Stages.{
  Meets, sent_result, select_result, order_result, record_sent, stamp_sent, LogCall, record_call,
  stamp_call, log_write, log_after,
}

-- A call is one of the list.
abbrev pub In : LogCall → List LogCall → Type 0
In x [] = ⊥
In x (y ∷ ys) = (y ≡ x) ⊎ In x ys

module _ (run_id action : String) (named : (run_id == "") ≡ false)
    (acted : (action == "") ≡ false) where
  module _ (print : ℕ → String) (c : Settings) (m : Meets) (calls : List LogCall)
      (txn_id : String) where
    -- The log has for the transaction a payload that went out under it, and the time of such a send.
    abbrev pub HasPayload : MemoryStore → Type 0
    HasPayload s =
        (i : ℕ) × (raw : Payload) × (p : Payload) × In (record_call i raw) calls
        × (prepare_payload print c action i raw ≡ prepared p txn_id)
        × (get_payload run_id "pipeline_b" action txn_id s ≡ ok p)

    abbrev pub HasTime : MemoryStore → Type 0
    HasTime s =
        (i : ℕ) × (raw : Payload) × (p : Payload) × In (stamp_call i raw) calls
        × (prepare_payload print c action i raw ≡ prepared p txn_id)
        × (get_timestamp run_id "pipeline_b" action txn_id s ≡ ok (m.sent_at i))

    payload_kept :
        (i : ℕ) (raw : Payload) (s : MemoryStore) (r : Prepared)
        → In (record_call i raw) calls
        → prepare_payload print c action i raw ≡ r
        → HasPayload s
        → HasPayload (record_sent run_id action r s)
    unfolding record_sent
    payload_kept i raw s (refused other) within e h = h
    payload_kept i raw s (prepared p other) within e (j, raw', p', within', e', found) =
        elim (Bool-cases (other == "")) [
          | inl f ↦ rw f (j, raw', p', within', e', found)
          | inr f ↦ elim (Bool-cases (other == txn_id)) [
            | inl g ↦ (
              i,
              raw,
              p,
              within,
              e ∙ ap (prepared p) ((eq_iff other txn_id).0 g),
              rw f (payload-record run_id action named acted other txn_id p s f ∙ rw g refl),
            )
            | inr g ↦ (
              j,
              raw',
              p',
              within',
              e',
              rw f (payload-record run_id action named acted other txn_id p s f ∙ rw g found),
            )
          ]
        ]

    time_kept :
        (i : ℕ) (raw : Payload) (s : MemoryStore) (r : Prepared)
        → In (stamp_call i raw) calls
        → prepare_payload print c action i raw ≡ r
        → HasTime s
        → HasTime (stamp_sent run_id action (m.sent_at i) r s)
    unfolding stamp_sent
    time_kept i raw s (refused other) within e h = h
    time_kept i raw s (prepared p other) within e (j, raw', p', within', e', found) =
        elim (Bool-cases (other == "")) [
          | inl f ↦ rw f (j, raw', p', within', e', found)
          | inr f ↦ elim (Bool-cases (other == txn_id)) [
            | inl g ↦ (
              i,
              raw,
              p,
              within,
              e ∙ ap (prepared p) ((eq_iff other txn_id).0 g),
              rw f (
                  time-record run_id action named acted other txn_id (m.sent_at i) s f ∙ rw g refl),
            )
            | inr g ↦ (
              j,
              raw',
              p',
              within',
              e',
              rw f (
                  time-record run_id action named acted other txn_id (m.sent_at i) s f
                  ∙ rw g found),
            )
          ]
        ]

    payload_unstamped :
        (r : Prepared) (t : ℕ) (s : MemoryStore)
        → get_payload run_id "pipeline_b" action txn_id (stamp_sent run_id action t r s)
          ≡ get_payload run_id "pipeline_b" action txn_id s
    unfolding stamp_sent
    payload_unstamped (refused other) t s = refl
    payload_unstamped (prepared p other) t s =
        ground (arith, payload-record_timestamp run_id action named acted other txn_id t s)

    time_unrecorded :
        (r : Prepared) (s : MemoryStore)
        → get_timestamp run_id "pipeline_b" action txn_id (record_sent run_id action r s)
          ≡ get_timestamp run_id "pipeline_b" action txn_id s
    unfolding record_sent
    time_unrecorded (refused other) s = refl
    time_unrecorded (prepared p other) s =
        ground (arith, time-record_payload run_id action named acted other txn_id p s)

    write-HasPayload :
        (x : LogCall) (s : MemoryStore)
        → In x calls
        → HasPayload s
        → HasPayload (log_write print c m run_id action x s)
    unfolding log_write
    write-HasPayload (record_call i raw) s within h =
        payload_kept i raw s (prepare_payload print c action i raw) within refl h
    write-HasPayload (stamp_call i raw) s within (j, raw', p', within', e', found) = (
      j,
      raw',
      p',
      within',
      e',
      payload_unstamped (prepare_payload print c action i raw) (m.sent_at i) s ∙ found,
    )

    write-HasTime :
        (x : LogCall) (s : MemoryStore)
        → In x calls
        → HasTime s
        → HasTime (log_write print c m run_id action x s)
    unfolding log_write
    write-HasTime (stamp_call i raw) s within h =
        time_kept i raw s (prepare_payload print c action i raw) within refl h
    write-HasTime (record_call i raw) s within (j, raw', p', within', e', found) =
        (j, raw', p', within', e', time_unrecorded (prepare_payload print c action i raw) s ∙ found)

    abbrev Within : List LogCall → Type 0
    Within xs = (x : LogCall) → In x xs → In x calls

    after-HasPayload :
        (xs : List LogCall) (s : MemoryStore)
        → Within xs
        → HasPayload s
        → HasPayload (log_after print c m run_id action xs s)
    unfolding log_after
    after-HasPayload [] s within h = h
    after-HasPayload (x ∷ xs) s within h =
        after-HasPayload xs _ (λ y k. within y (inr k))
          (write-HasPayload x s (within x (inl refl)) h)

    after-HasTime :
        (xs : List LogCall) (s : MemoryStore)
        → Within xs
        → HasTime s
        → HasTime (log_after print c m run_id action xs s)
    unfolding log_after
    after-HasTime [] s within h = h
    after-HasTime (x ∷ xs) s within h =
        after-HasTime xs _ (λ y k. within y (inr k)) (write-HasTime x s (within x (inl refl)) h)

    module _ (i : ℕ) (raw p : Payload)
        (e : prepare_payload print c action i raw ≡ prepared p txn_id)
        (full : (txn_id == "") ≡ false) where
      own-HasPayload :
          (s : MemoryStore)
          → In (record_call i raw) calls
          → HasPayload (log_write print c m run_id action (record_call i raw) s)
      unfolding log_write record_sent
      own-HasPayload s within = (
        i,
        raw,
        p,
        within,
        e,
        rw (e, record_sent, full)
            (payload-record run_id action named acted txn_id txn_id p s full
              ∙ rw (eq_refl txn_id) refl),
      )

      own-HasTime :
          (s : MemoryStore)
          → In (stamp_call i raw) calls
          → HasTime (log_write print c m run_id action (stamp_call i raw) s)
      unfolding log_write stamp_sent
      own-HasTime s within = (
        i,
        raw,
        p,
        within,
        e,
        rw (e, stamp_sent, full)
            (time-record run_id action named acted txn_id txn_id (m.sent_at i) s full
              ∙ rw (eq_refl txn_id) refl),
      )

      reached-HasPayload :
          (xs : List LogCall) (s : MemoryStore)
          → Within xs
          → In (record_call i raw) xs
          → HasPayload (log_after print c m run_id action xs s)
      unfolding log_after
      reached-HasPayload [] s within k = absurd k
      reached-HasPayload (x ∷ xs) s within (inl here) =
          after-HasPayload xs _ (λ y k. within y (inr k))
            (rw here (own-HasPayload s (within (record_call i raw) (inl here))))
      reached-HasPayload (x ∷ xs) s within (inr k) =
          reached-HasPayload xs _ (λ y l. within y (inr l)) k

      reached-HasTime :
          (xs : List LogCall) (s : MemoryStore)
          → Within xs
          → In (stamp_call i raw) xs
          → HasTime (log_after print c m run_id action xs s)
      unfolding log_after
      reached-HasTime [] s within k = absurd k
      reached-HasTime (x ∷ xs) s within (inl here) =
          after-HasTime xs _ (λ y k. within y (inr k))
            (rw here (own-HasTime s (within (stamp_call i raw) (inl here))))
      reached-HasTime (x ∷ xs) s within (inr k) = reached-HasTime xs _ (λ y l. within y (inr l)) k

  -- A result with a transaction and without an error is that of a payload that was prepared.
  sent_prepared :
      (m : Meets) (i : ℕ) (r : Prepared) (result : DispatchResult)
      → (result ≡ select_result m i r) ⊎ (result ≡ order_result m i r)
      → is_success result ≡ true
      → (result.txn_id == "") ≡ false
      → (p : Payload) × (r ≡ prepared p result.txn_id)
  unfolding select_result order_result
  sent_prepared m i (refused txn_id) result (inl e) h full = ground arith
  sent_prepared m i (refused txn_id) result (inr e) h full = ground arith
  sent_prepared m i (prepared p txn_id) result (inl e) h full = elim (Bool-cases (txn_id == "")) [
    | inl f ↦
        let skipped : result ≡ record { index = i; txn_id = ""; error = none } = e ∙ rw f refl in
        absurd
          (false≢true (sym full ∙ ap (λ (r : DispatchResult). r.txn_id == "") skipped ∙ eq_refl ""))
    | inr f ↦
        let sent : result ≡ sent_result m i p txn_id = e ∙ rw f refl in
        (p, ap (λ (r : DispatchResult). prepared p r.txn_id) (sym sent))
  ]
  sent_prepared m i (prepared p txn_id) result (inr e) h full =
      (p, ap (λ (r : DispatchResult). prepared p r.txn_id) (sym e))

  -- For a run and an action with names, in whatever order the sends of a stage make their two calls of
  -- the run log: when a send that makes both has a result with a transaction and without an error,
  -- the log after the stage has for this transaction a payload that was prepared under it by a send of
  -- the stage, and the send time of a send of the stage under it.
  pub log_after-Logged :
      (print : ℕ → String) (c : Settings) (m : Meets) (calls : List LogCall) (s : MemoryStore)
      (i : ℕ) (raw : Payload) (result : DispatchResult)
      → In (record_call i raw) calls
      → In (stamp_call i raw) calls
      → (result ≡ select_result m i (prepare_payload print c action i raw))
        ⊎ (result ≡ order_result m i (prepare_payload print c action i raw))
      → is_success result ≡ true
      → (result.txn_id == "") ≡ false
      → let log = log_after print c m run_id action calls s in
        HasPayload print c m calls result.txn_id log × HasTime print c m calls result.txn_id log
  log_after-Logged print c m calls s i raw result recorded stamped of h full =
      let (p, e) = sent_prepared m i (prepare_payload print c action i raw) result of h full in
      (
        reached-HasPayload print c m calls result.txn_id i raw p e full calls s (λ y k. k) recorded,
        reached-HasTime print c m calls result.txn_id i raw p e full calls s (λ y k. k) stamped,
      )
