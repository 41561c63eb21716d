-- ===== src/Limiter/Bucket.antt =====
-- rate_limiter.go, acquire_bucket: the bound that a token bucket is for.
use load_test_backend.Base.{
  ℕ, ◌+◌, ◌-◌, ◌*◌, ◌≤◌, ◌≡◌, refl, true, false, some, List, [], ◌∷◌, pos, leb, ◌+ℤ◌, arith,
  if◌then◌else◌, min, Bool-cases, inl, inr,
}
use load_test_backend.Limiter.{TokenBucket, refilled, acquire_bucket}

-- Requests for one token each, at these times, on a bucket that stays in Redis: the tokens given, and
-- the bucket after them.
unfoldable pub run_bucket : ℕ → ℕ → TokenBucket → List ℕ → ℕ × TokenBucket
run_bucket max_tokens rate b [] = (0, b)
run_bucket max_tokens rate b (now ∷ later) =
    let (given, b') = acquire_bucket max_tokens rate now 1 (some b) in
    let (count, b'') = run_bucket max_tokens rate b' later in
    ((if given then 1 else 0) + count, b'')

-- The times do not fall, and the last of them.
abbrev pub Rising : ℕ → List ℕ → Type 0
Rising from [] = Unit
Rising from (now ∷ later) = (from ≤ now) × Rising now later

abbrev pub last_of : ℕ → List ℕ → ℕ
last_of from [] = from
last_of from (now ∷ later) = last_of now later

abbrev bucket : ℕ → ℕ → TokenBucket
bucket n last = record { tokens = pos n; last = last }

-- One request: what it leaves, and how much it takes.
abbrev available : ℕ → ℕ → ℕ → ℕ → ℕ → ℕ
available max_tokens rate n last now = min (max_tokens * 1000) (n + (now - last) * rate)

module _ (max_tokens rate n last now : ℕ) (h : last ≤ now) where
  abbrev m : ℕ
  m = available max_tokens rate n last now

  refilled-bucket : refilled max_tokens rate now (bucket n last) ≡ pos m
  unfolding refilled
  refilled-bucket = ground arith

  acquire-bucket :
      acquire_bucket max_tokens rate now 1 (some (bucket n last))
      ≡ (if leb 1000 m then (true, bucket (m - 1000) now) else (false, bucket m now))
  unfolding acquire_bucket ◌+ℤ◌
  acquire-bucket = ground arith

spans : (rate a b c : ℕ) → a ≤ b → b ≤ c → (c - b) * rate + (b - a) * rate ≡ (c - a) * rate
spans rate a b c h k = let e : c - a ≡ (c - b) + (b - a) = omega arith in rw e (omega arith)

run_bucket_bound :
    (max_tokens rate n last : ℕ) (times : List ℕ)
    → Rising last times
    → (left : ℕ) × ((run_bucket max_tokens rate (bucket n last) times).1
        ≡ bucket left (last_of last times))
      × ((run_bucket max_tokens rate (bucket n last) times).0 * 1000 + left
          ≤ n + (last_of last times - last) * rate)
      × (last ≤ last_of last times)
unfolding run_bucket
run_bucket_bound max_tokens rate n last [] h = (n, refl, omega arith, omega arith)
run_bucket_bound max_tokens rate n last (now ∷ later) h =
    elim (Bool-cases (leb 1000 (m max_tokens rate n last now h.0))) [
      | inl e ↦
          let m' : ℕ = m max_tokens rate n last now h.0 in
          let (left, end, bound, up) = run_bucket_bound max_tokens rate (m' - 1000) now later h.1 in
          rw (acquire-bucket max_tokens rate n last now h.0, e)
            (
              left,
              end,
              ground (arith, bound, e, spans rate last now (last_of now later) h.0 up),
              omega arith,
            )
      | inr e ↦
          let m' : ℕ = m max_tokens rate n last now h.0 in
          let (left, end, bound, up) = run_bucket_bound max_tokens rate (m') now later h.1 in
          rw (acquire-bucket max_tokens rate n last now h.0, e)
            (
              left,
              end,
              ground (arith, bound, e, spans rate last now (last_of now later) h.0 up),
              omega arith,
            )
    ]

-- A bucket that stays in Redis and does not hold less than 0 gives, to requests at times that do not
-- fall, at most `max_tokens` tokens and the refill of the time from the first request to the last,
-- however long it rested before the first.
pub token_bucket_bound :
    (max_tokens rate n last first : ℕ) (later : List ℕ)
    → Rising last (first ∷ later)
    → (run_bucket max_tokens rate (record { tokens = pos n; last = last }) (first ∷ later)).0 * 1000
      ≤ max_tokens * 1000 + (last_of first later - first) * rate
unfolding run_bucket
token_bucket_bound max_tokens rate n last first later h =
    elim (Bool-cases (leb 1000 (m max_tokens rate n last first h.0))) [
      | inl e ↦
          let m' : ℕ = m max_tokens rate n last first h.0 in
          let (left, end, bound, up) =
            run_bucket_bound max_tokens rate (m' - 1000) first later h.1 in
          rw (acquire-bucket max_tokens rate n last first h.0, e) (ground (arith, bound, e))
      | inr e ↦
          let m' : ℕ = m max_tokens rate n last first h.0 in
          let (left, end, bound, up) = run_bucket_bound max_tokens rate m' first later h.1 in
          rw (acquire-bucket max_tokens rate n last first h.0, e) (ground (arith, bound))
    ]
