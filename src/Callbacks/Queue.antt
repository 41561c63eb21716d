-- ===== src/Callbacks/Queue.antt =====
-- callbacks/routes.go: the queue of latency events, its counters, and the callers of enqueueLatencyEvent and the
-- workers side by side. Each step is one operation on the channel or on an atomic counter.
pub mod Callers
pub mod Sound
pub mod Sequential
use load_test_backend.Base.{
  ℕ, ◌+◌, ◌≤◌, ◌<◌, ◌≡◌, ◌≢◌, Bool, true, false, List, [], ◌∷◌, ◌++◌, map, All, length, count_if,
}
use load_test_backend.Latency.{RunLatencyEvent}

-- Where a call of enqueueLatencyEvent is: before its `select`, past the send, past `len`, past a `Load` of
-- the maximum, back with true; past the first counter of a refusal, and back with false.
pub data Caller : Type 0 where
  entering : RunLatencyEvent → Caller
  sent : Caller
  measured : ℕ → Caller
  loaded : ℕ → ℕ → Caller
  queued : ℕ → Caller
  dropping : Caller
  refused : Caller

pub record Queue : Type 0 where
  pub channel : List RunLatencyEvent
  pub max_depth : ℕ
  pub dropped : ℕ
  pub sync_fallback : ℕ
  pub callers : List Caller
  -- the events that the workers have received
  pub received : List RunLatencyEvent

abbrev pub begin_queue : List RunLatencyEvent → Queue
begin_queue events = record {
  channel = [];
  max_depth = 0;
  dropped = 0;
  sync_fallback = 0;
  callers = map entering events;
  received = [];
}

pub data Step (capacity : ℕ) : Queue → Queue → Type 0 where
  put :
      (q : Queue) (before after : List Caller) (ev : RunLatencyEvent)
      → q.callers ≡ before ++ (entering ev ∷ after)
      → length q.channel < capacity
      → Step capacity q
          (record q { channel = q.channel ++ ev ∷ []; callers = before ++ (sent ∷ after) })
  measure :
      (q : Queue) (before after : List Caller)
      → q.callers ≡ before ++ (sent ∷ after)
      → Step capacity q (record q { callers = before ++ (measured (length q.channel) ∷ after) })
  load :
      (q : Queue) (before after : List Caller) (depth : ℕ)
      → q.callers ≡ before ++ (measured depth ∷ after)
      → Step capacity q (record q { callers = before ++ (loaded depth q.max_depth ∷ after) })
  -- `depth <= cur`
  keep :
      (q : Queue) (before after : List Caller) (depth cur : ℕ)
      → q.callers ≡ before ++ (loaded depth cur ∷ after)
      → depth ≤ cur
      → Step capacity q (record q { callers = before ++ (queued depth ∷ after) })
  -- `CompareAndSwap(cur, depth)`
  swap :
      (q : Queue) (before after : List Caller) (depth cur : ℕ)
      → q.callers ≡ before ++ (loaded depth cur ∷ after)
      → cur < depth
      → q.max_depth ≡ cur
      → Step capacity q (record q { max_depth = depth; callers = before ++ (queued depth ∷ after) })
  -- the same when another caller was faster
  retry :
      (q : Queue) (before after : List Caller) (depth cur : ℕ)
      → q.callers ≡ before ++ (loaded depth cur ∷ after)
      → cur < depth
      → q.max_depth ≢ cur
      → Step capacity q (record q { callers = before ++ (measured depth ∷ after) })
  drop :
      (q : Queue) (before after : List Caller) (ev : RunLatencyEvent)
      → q.callers ≡ before ++ (entering ev ∷ after)
      → capacity ≤ length q.channel
      → Step capacity q
          (record q { dropped = q.dropped + 1; callers = before ++ (dropping ∷ after) })
  fall_back :
      (q : Queue) (before after : List Caller)
      → q.callers ≡ before ++ (dropping ∷ after)
      → Step capacity q
          (record q { sync_fallback = q.sync_fallback + 1; callers = before ++ (refused ∷ after) })
  -- a worker
  receive :
      (q : Queue) (ev : RunLatencyEvent) (rest : List RunLatencyEvent)
      → q.channel ≡ ev ∷ rest
      → Step capacity q (record q { channel = rest; received = q.received ++ ev ∷ [] })

pub data Steps (capacity : ℕ) (from : Queue) : Queue → Type 0 where
  start : Steps capacity from from
  next : {p q : Queue} → Steps capacity from p → Step capacity p q → Steps capacity from q

-- The calls that have sent their event, those that are back with false, and those in between.
abbrev pub is_sent : Caller → Bool
is_sent (entering ev) = false
is_sent sent = true
is_sent (measured d) = true
is_sent (loaded d cur) = true
is_sent (queued d) = true
is_sent dropping = false
is_sent refused = false

abbrev pub is_refused : Caller → Bool
is_refused (entering ev) = false
is_refused sent = false
is_refused (measured d) = false
is_refused (loaded d cur) = false
is_refused (queued d) = false
is_refused dropping = false
is_refused refused = true

abbrev pub is_dropping : Caller → Bool
is_dropping (entering ev) = false
is_dropping sent = false
is_dropping (measured d) = false
is_dropping (loaded d cur) = false
is_dropping (queued d) = false
is_dropping dropping = true
is_dropping refused = false

-- A depth that a call has measured fits into the queue, a maximum that it has loaded has not fallen
-- since, and once it is back its depth is on record.
abbrev pub IsRecorded : ℕ → ℕ → Caller → Type 0
IsRecorded capacity max_depth (entering ev) = Unit
IsRecorded capacity max_depth sent = Unit
IsRecorded capacity max_depth (measured d) = d ≤ capacity
IsRecorded capacity max_depth (loaded d cur) = (d ≤ capacity) × (cur ≤ max_depth)
IsRecorded capacity max_depth (queued d) = d ≤ max_depth
IsRecorded capacity max_depth dropping = Unit
IsRecorded capacity max_depth refused = Unit

pub record QueueIsSound (capacity : ℕ) (q : Queue) : Type 0 where
  pub bounded : length q.channel ≤ capacity
  pub max_bounded : q.max_depth ≤ capacity
  pub recorded : All (IsRecorded capacity q.max_depth) q.callers
  pub drops : q.dropped ≡ count_if is_dropping q.callers + count_if is_refused q.callers
  pub fallbacks : q.sync_fallback ≡ count_if is_refused q.callers
  pub accounted : length q.received + length q.channel ≡ count_if is_sent q.callers
