-- ===== src/Limiter.antt =====
-- internal/domain/session/rate_limiter.go: the Lua token buckets and the limiter that calls them.
-- Tokens are counted in thousandths, so that the refill of whole milliseconds is exact; times are
-- milliseconds. A bucket is `none` when Redis has no hash under its key.
pub mod Bucket
pub mod Counters
use load_test_backend.Base.{
  ℕ, suc, ◌+◌, ◌-◌, ◌*◌, ◌≡◌, String, Bool, true, false, Option, none, some, List, [], ◌∷◌, ℤ, pos,
  negsuc, sub_ℕ, ◌+ℤ◌, leb_ℤ, leb, ltb, nat_eq, ◌==◌, string_eq, Entry, fresh, Assoc, lookup,
  insert, if◌then◌else◌,
}

pub record TokenBucket : Type 0 where
  pub tokens : ℤ
  pub last : ℕ

abbrev pub negate_ℕ : ℕ → ℤ
negate_ℕ n = sub_ℕ 0 n

abbrev pub min_ℤ : ℤ → ℤ → ℤ
min_ℤ a b = if leb_ℤ a b then a else b

-- `(now - last) * refill_rate / 1000`, in thousandths of a token.
unfoldable pub refill : ℕ → ℕ → ℕ → ℤ
refill last now rate =
    if leb last now then pos ((now - last) * rate) else negate_ℕ ((last - now) * rate)

abbrev pub bucket_or_full : ℕ → ℕ → Option TokenBucket → TokenBucket
bucket_or_full max_tokens now none = record { tokens = pos (max_tokens * 1000); last = now }
bucket_or_full max_tokens now (some b) = b

-- The tokens after the refill.
unfoldable pub refilled : ℕ → ℕ → ℕ → TokenBucket → ℤ
unfolding refill ◌+ℤ◌
refilled max_tokens rate now b =
    min_ℤ (pos (max_tokens * 1000)) (b.tokens +ℤ refill b.last now rate)

-- acquire_bucket: whether it gave the tokens, and the bucket that it writes.
unfoldable pub acquire_bucket : ℕ → ℕ → ℕ → ℕ → Option TokenBucket → Bool × TokenBucket
unfolding refilled
acquire_bucket max_tokens rate now requested found =
    let tokens = refilled max_tokens rate now (bucket_or_full max_tokens now found) in
    if leb_ℤ (pos (requested * 1000)) tokens
    then (true, record { tokens = tokens +ℤ negate_ℕ (requested * 1000); last = now })
    else (false, record { tokens = tokens; last = now })

-- The keys of the script: `ratelimit:global`, and `ratelimit:session:` with each session.
pub record Buckets : Type 0 where
  pub shared : Option (Entry TokenBucket)
  pub sessions : Assoc String (Entry TokenBucket)

pub data Verdict : Type 0 where
  allowed denied_global denied_session : Verdict

-- EXPIRE for ten seconds, at the clock of Redis.
abbrev pub kept : ℕ → TokenBucket → Entry TokenBucket
kept redis_now b = record { value = b; deadline = some (redis_now + 10_000) }

-- The script, at the clock of Redis and the time that the program passes.
unfoldable pub run_script : ℕ → ℕ → ℕ → ℕ → ℕ → String → Buckets → Verdict × Buckets
unfolding acquire_bucket
run_script global_max session_max redis_now now requested session_id b =
    let (given, shared) =
      acquire_bucket global_max global_max now requested (fresh redis_now b.shared) in
    let b' = record b { shared = some (kept redis_now shared) } in
    let (given', own) =
      acquire_bucket session_max session_max now requested
        (fresh redis_now (lookup session_id b.sessions)) in
    let b'' = record b' { sessions = insert session_id (kept redis_now own) b.sessions } in
    if given
    then (if given' then (allowed, b'') else (denied_session, b''))
    else (denied_global, b')

-- What EVALSHA returns, as go-redis decodes it: a list, or something else. An item is an integer, or
-- another value with the text that `fmt.Sprint` gives it; `integer` has that text too.
pub data Item : Type 0 where
  integer : ℤ → String → Item
  other : String → Item

pub data Reply : Type 0 where
  items : List Item → Reply
  not_items : Reply

abbrev pub to_int : Item → ℤ
to_int (integer n s) = n
to_int (other s) = pos 0

abbrev pub item_text : Item → String
item_text (integer n s) = s
item_text (other s) = s

abbrev pub is_one : ℤ → Bool
is_one n = elim n [ pos k ↦ nat_eq k 1 | negsuc k ↦ false ]

unfoldable pub parse_acquire_result : Reply → Bool × String
parse_acquire_result not_items = (false, "unknown")
parse_acquire_result (items []) = (false, "unknown")
parse_acquire_result (items (x ∷ [])) =
    if is_one (to_int x) then (true, "ok") else (false, "unknown")
parse_acquire_result (items (x ∷ y ∷ _)) = (is_one (to_int x), item_text y)

-- The two values that the script returns.
abbrev pub script_reply : Verdict → Reply
script_reply allowed = items (integer (pos 1) "1" ∷ other "ok" ∷ [])
script_reply denied_global = items (integer (pos 0) "0" ∷ other "global" ∷ [])
script_reply denied_session = items (integer (pos 0) "0" ∷ other "session" ∷ [])

pub record RateLimiter : Type 0 where
  pub script_sha : String
  pub global_max : ℕ
  pub session_max : ℕ
  pub allowed_count : ℕ
  pub denied_global_count : ℕ
  pub denied_session_count : ℕ
  pub denied_other_count : ℕ
  pub redis_errors : ℕ

unfoldable pub new_rate_limiter : ℕ → ℕ → RateLimiter
new_rate_limiter global_rps per_session_rps = record {
  script_sha = "";
  global_max = if leb global_rps 0 then 2000 else global_rps;
  session_max = if leb per_session_rps 0 then 150 else per_session_rps;
  allowed_count = 0;
  denied_global_count = 0;
  denied_session_count = 0;
  denied_other_count = 0;
  redis_errors = 0;
}

unfoldable pub count_denied : String → RateLimiter → RateLimiter
count_denied reason rl =
    if reason == "global"
    then record rl { denied_global_count = rl.denied_global_count + 1 }
    else if reason == "session"
    then record rl { denied_session_count = rl.denied_session_count + 1 }
    else record rl { denied_other_count = rl.denied_other_count + 1 }

unfoldable pub count_reply : Bool × String → RateLimiter → (Bool × String) × RateLimiter
unfolding count_denied
count_reply (true, reason) rl = ((true, reason), record rl { allowed_count = rl.allowed_count + 1 })
count_reply (false, reason) rl = ((false, reason), count_denied reason rl)

-- `none` is an error of the EVALSHA call.
unfoldable pub acquire_with_reason : Option Reply → RateLimiter → (Bool × String) × RateLimiter
unfolding count_reply parse_acquire_result
acquire_with_reason reply rl =
    if rl.script_sha == ""
    then ((true, "script_not_loaded"), record rl { allowed_count = rl.allowed_count + 1 })
    else elim reply [
      | none ↦ (
        (false, "redis_error"),
        record rl {
          redis_errors = rl.redis_errors + 1;
          denied_other_count = rl.denied_other_count + 1;
        },
      )
      | some r ↦ count_reply (parse_acquire_result r) rl
    ]
