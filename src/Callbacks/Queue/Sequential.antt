-- ===== src/Callbacks/Queue/Sequential.antt =====
-- callbacks/routes.go, the latency queue: the call of enqueueLatencyEvent that the handlers of Callbacks make.
use load_test_backend.Base.{
  ℕ, ◌+◌, ◌<◌, ◌≡◌, refl, ◌∙◌, subst, [], ◌∷◌, ◌++◌, arith, length, length-append, ltb, leb, ltb→lt,
  Bool-cases, inl, inr, if◌then◌else◌,
}
use load_test_backend.Latency.{RunLatencyEvent}
use load_test_backend.Callbacks.{Controller, enqueue_latency_event}
use load_test_backend.Callbacks.Queue.{
  Caller, entering, sent, measured, loaded, queued, dropping, refused, Queue, put, measure, load,
  keep, swap, drop, fall_back, Steps, start, next,
}

-- A controller with one call.
abbrev with_caller : Controller → Caller → Queue
with_caller c x = record {
  channel = c.latency_queue;
  max_depth = c.queue_max_depth;
  dropped = c.queue_dropped;
  sync_fallback = c.queue_sync_fallback;
  callers = x ∷ [];
  received = [];
}

module _ (capacity : ℕ) (ev : RunLatencyEvent) (c : Controller) where
  abbrev after_put : Queue
  after_put = record (with_caller c sent) { channel = c.latency_queue ++ ev ∷ [] }

  abbrev depth : ℕ
  depth = length (c.latency_queue ++ ev ∷ [])

  load-Steps :
      length c.latency_queue < capacity
      → Steps capacity
          (with_caller c (entering ev))
          (record after_put { callers = loaded depth c.queue_max_depth ∷ [] })
  load-Steps room =
      next
        (next (next start (put (with_caller c (entering ev)) [] [] ev refl room))
          (measure after_put [] [] refl))
        (load (record after_put { callers = measured depth ∷ [] }) [] [] depth refl)

  grown : depth ≡ length c.latency_queue + 1
  grown = length-append c.latency_queue (ev ∷ []) ∙ omega arith

  -- `enqueue_latency_event`, which the handlers call, is a call that nothing interrupts.
  enqueue-Steps : Steps capacity (with_caller c (entering ev)) (
      with_caller
        (enqueue_latency_event capacity ev c).1
        (if (enqueue_latency_event capacity ev c).0 then queued depth else refused))
  unfolding enqueue_latency_event
  enqueue-Steps = elim (Bool-cases (ltb (length c.latency_queue) capacity)) [
    | inl e ↦
        let room = ltb→lt (length c.latency_queue) capacity e in
        elim (Bool-cases (leb (length c.latency_queue + 1) c.queue_max_depth)) [
          | inl f ↦
              rw (e, f)
                (next (load-Steps room) (
                  keep (record after_put { callers = loaded depth c.queue_max_depth ∷ [] }) [] []
                    depth c.queue_max_depth refl (ground (arith, grown))))
          | inr f ↦
              rw (e, f)
                (subst
                  (λ (n : ℕ).
                    Steps capacity (with_caller c (entering ev))
                      (record after_put { max_depth = n; callers = queued depth ∷ [] }))
                  grown
                  (next (load-Steps room) (
                    swap (record after_put { callers = loaded depth c.queue_max_depth ∷ [] }) [] []
                      depth c.queue_max_depth refl (ground (arith, grown)) refl)))
        ]
    | inr e ↦ rw e (
        next (next start (drop (with_caller c (entering ev)) [] [] ev refl (ground arith))) (
          fall_back (record (with_caller c dropping) { dropped = c.queue_dropped + 1 }) [] [] refl))
  ]
