-- ===== src/Pacing.antt =====
-- internal/handlers/testing/routes.go: `pacingThrottle`, which spaces the requests of a run. The clock
-- and the base limiter are an `Attempt` for each round of the loop; `time.After` fires at the wait or
-- later, so the clock after it is the wait and a delay. Times are nanoseconds; `next` is `none` for the
-- zero time.
pub mod Spacing
pub mod Counting
use load_test_backend.Base.{
  ℕ, ◌+◌, ◌-◌, ◌*◌, ◌/◌, String, Bool, true, false, Option, none, some, List, [], ◌∷◌, leb, ◌==◌,
  string_eq, not, ◌||◌, ◌&&◌, ltb, if◌then◌else◌,
}

pub record PacingThrottle : Type 0 where
  pub has_base : Bool
  pub interval : ℕ
  pub next : Option ℕ
  pub acquire_calls : ℕ
  pub allowed_calls : ℕ
  pub retry_count : ℕ
  pub wait_total_ms : ℕ
  pub wait_max_ms : ℕ
  pub deny_global : ℕ
  pub deny_session : ℕ
  pub deny_other : ℕ

unfoldable pub new_pacing_throttle : Bool → ℕ → PacingThrottle
new_pacing_throttle has_base rps = record {
  has_base = has_base;
  interval = if not has_base || leb rps 0 then 0 else 1_000_000_000 / rps;
  next = none;
  acquire_calls = 0;
  allowed_calls = 0;
  retry_count = 0;
  wait_total_ms = 0;
  wait_max_ms = 0;
  deny_global = 0;
  deny_session = 0;
  deny_other = 0;
}

pub record Attempt : Type 0 where
  -- `time.Now()` at the top of the round
  pub now : ℕ
  -- the context is done before the wait is over
  pub canceled_waiting : Bool
  -- from the end of the wait to the `time.Now()` of a grant
  pub delay : ℕ
  -- the answer of the base limiter; the reason is "" when it gives none
  pub allowed : Bool
  pub reason : String
  -- the context is done in the pause of 10 ms
  pub canceled_retry : Bool

-- The end of a call: let through without pacing, granted at a time, the context done, or still in the
-- loop after the attempts.
pub data Ended : Type 0 where
  unpaced canceled trying : Ended
  granted : ℕ → Ended

abbrev pub next_or : ℕ → Option ℕ → ℕ
next_or now none = now
next_or now (some n) = n

-- The first half of a round: the wait until `next`, and its statistics.
abbrev pub wait_of : Attempt → PacingThrottle → ℕ
wait_of a t = next_or a.now t.next - a.now

unfoldable pub begin_round : Attempt → PacingThrottle → PacingThrottle
begin_round a t =
    let wait_ms = wait_of a t / 1_000_000 in
    record t {
      acquire_calls = t.acquire_calls + 1;
      next = some (next_or a.now t.next);
      wait_total_ms = t.wait_total_ms + wait_ms;
      wait_max_ms = if leb wait_ms t.wait_max_ms then t.wait_max_ms else wait_ms;
    }

abbrev pub grant : ℕ → PacingThrottle → PacingThrottle
grant at t = record t { allowed_calls = t.allowed_calls + 1; next = some (at + t.interval) }

unfoldable pub deny : String → PacingThrottle → PacingThrottle
deny reason t =
    let t' = record t { retry_count = t.retry_count + 1 } in
    if reason == "global"
    then record t' { deny_global = t.deny_global + 1 }
    else if reason == "session"
    then record t' { deny_session = t.deny_session + 1 }
    else record t' { deny_other = t.deny_other + 1 }

-- The loop of Acquire. The select on the context is only reached with a wait.
unfoldable pub acquire_loop : List Attempt → PacingThrottle → Ended × PacingThrottle
unfolding begin_round deny
acquire_loop [] t = (trying, t)
acquire_loop (a ∷ rounds) t =
    let begun = begin_round a t in
    let again = acquire_loop rounds (deny a.reason begun) in
    let at = a.now + wait_of a t + a.delay in
    if a.canceled_waiting && ltb 0 (wait_of a t)
    then (canceled, begun)
    else if a.allowed
    then (granted at, grant at begun)
    else if a.canceled_retry
    then (canceled, deny a.reason begun)
    else again

unfoldable pub acquire : List Attempt → PacingThrottle → Ended × PacingThrottle
unfolding acquire_loop
acquire rounds t =
    if not t.has_base || leb t.interval 0 then (unpaced, t) else acquire_loop rounds t
