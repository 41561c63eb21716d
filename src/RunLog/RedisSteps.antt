-- ===== src/RunLog/RedisSteps.antt =====
-- redis_store.go: what a write changes while nothing fails and nothing expires before a horizon.
use load_test_backend.Base.{
  ℕ, ◌+◌, ◌≤◌, ◌≡◌, refl, ap, ◌∙◌, eq_refl, Bool-cases, inl, inr, String, true, false, Option, none,
  some, [], ◌∷◌, ◌==◌, string_eq, arith, lookup, insert, lookup-insert, Entry, if◌then◌else◌,
}
use load_test_backend.Store.{Result, ok}
use load_test_backend.RunLog.Redis.{
  Bytes, Value, hash, counter, RedisLog, LogEnv, LogCall, hset, incr, expire, unexpired, live_entry,
  live, entry, hash_with, hset_entry, counter_plus, incr_entry, written, client_hset, client_incr,
  client_expire,
}

abbrev pub value_of : Option (Entry Value) → Option Value
value_of none = none
value_of (some e) = some e.value

abbrev pub DeadlineLasts : ℕ → Option ℕ → Type 0
DeadlineLasts horizon none = Unit
DeadlineLasts horizon (some d) = horizon ≤ d

-- An entry that is there up to the horizon.
abbrev pub LastsTo : ℕ → Option (Entry Value) → Type 0
LastsTo horizon none = Unit
LastsTo horizon (some e) = DeadlineLasts horizon e.deadline

abbrev pub AllLast : ℕ → RedisLog → Type 0
AllLast horizon s = (key : String) → LastsTo horizon (lookup key s)

-- A call up to the horizon, not earlier than one time to live before it, of which no command fails.
pub record IsSmooth (horizon : ℕ) (env : LogEnv) : Type 0 where
  pub before : env.now ≤ horizon
  pub within : horizon ≤ env.now + env.ttl
  pub no_failure : (call : LogCall) (key : String) → env.fails call key ≡ false

unexpired-lasting :
    (horizon now : ℕ) (d : Option ℕ)
    → now ≤ horizon
    → DeadlineLasts horizon d
    → unexpired now d ≡ true
unexpired-lasting horizon now none h k = refl
unexpired-lasting horizon now (some t) h k = ground arith

live_entry-lasting :
    (horizon now : ℕ) (o : Option (Entry Value))
    → now ≤ horizon
    → LastsTo horizon o
    → live_entry now o ≡ o
live_entry-lasting horizon now none h k = refl
live_entry-lasting horizon now (some e) h k = rw (unexpired-lasting horizon now e.deadline h k) refl

pub live-lasting :
    (horizon now : ℕ) (key : String) (s : RedisLog)
    → now ≤ horizon
    → AllLast horizon s
    → live now key s ≡ lookup key s
unfolding live
live-lasting horizon now key s h k = live_entry-lasting horizon now (lookup key s) h (k key)

-- What a write with a new time to live makes of a value: `none` where the value is of another type.
abbrev pub hash_after : String → Bytes → Option Value → Option Value
hash_after txn_id v none = some (hash ((txn_id, v) ∷ []))
hash_after txn_id v (some (hash h)) = some (hash (insert txn_id v h))
hash_after txn_id v (some (counter n)) = none

abbrev pub counter_after : Option Value → Option Value
counter_after none = some (counter 1)
counter_after (some (counter n)) = some (counter (n + 1))
counter_after (some (hash h)) = none

module _ (horizon : ℕ) (env : LogEnv) (smooth : IsSmooth horizon env) where
  lookup-expire :
      (key j : String) (e : Entry Value) (s : RedisLog)
      → LastsTo horizon (some e)
      → lookup j (client_expire env key (insert key e s))
        ≡ (if key == j then some (entry e.value (some (env.now + env.ttl))) else lookup j s)
  unfolding client_expire live
  lookup-expire key j e s h =
      let here : lookup key (insert key e s) ≡ some e =
        lookup-insert key key e s ∙ ap (λ b. if b then some e else lookup key s) (eq_refl key) in
      rw
        (
          smooth.no_failure expire key,
          here,
          unexpired-lasting horizon env.now e.deadline smooth.before h,
        )
        (ground (
          arith,
          lookup-insert key j (entry e.value (some (env.now + env.ttl))) (insert key e s),
          lookup-insert key j e s,
        ))

  pub AllLast-wrote :
      (key : String) (v : Value) (s s' : RedisLog)
      → ((j : String)
          → lookup j s'
            ≡ (if key == j then some (entry v (some (env.now + env.ttl))) else lookup j s))
      → AllLast horizon s
      → AllLast horizon s'
  AllLast-wrote key v s s' wrote last j =
      rw (wrote j)
        (elim (Bool-cases (key == j)) [ inl e ↦ rw e smooth.within | inr e ↦ rw e (last j) ])

-- A write that succeeded, and the store after the following EXPIRE.
pub record HasWritten (env : LogEnv) (key : String) (w : Value) (s : RedisLog)
    (p : Result (Unit {0}) × RedisLog) : Type 0 where
  pub done : p.0 ≡ ok tt
  pub wrote :
      (j : String)
      → lookup j (client_expire env key p.1)
        ≡ (if key == j then some (entry w (some (env.now + env.ttl))) else lookup j s)

-- The entry that a command leaves has the value, and a deadline that lasts.
abbrev Leaves : ℕ → Value → Option (Entry Value) → Type 0
Leaves horizon w o = (e : Entry Value) × (o ≡ some e) × (e.value ≡ w) × LastsTo horizon (some e)

hset_entry-Leaves :
    (horizon : ℕ) (txn_id : String) (v : Bytes) (w : Value) (o : Option (Entry Value))
    → LastsTo horizon o
    → hash_after txn_id v (value_of o) ≡ some w
    → Leaves horizon w (hset_entry txn_id v o)
hset_entry-Leaves horizon txn_id v w none h k =
    (entry (hash ((txn_id, v) ∷ [])) none, refl, ground arith, tt)
hset_entry-Leaves horizon txn_id v w (some e) h k = by-value e.value e.deadline h k
  where
    by-value :
        (x : Value) (d : Option ℕ)
        → DeadlineLasts horizon d
        → hash_after txn_id v (some x) ≡ some w
        → Leaves horizon w (hash_with txn_id v x d)
    by-value (hash b) d h k = (entry (hash (insert txn_id v b)) d, refl, ground arith, h)
    by-value (counter n) d h k = ground arith

incr_entry-Leaves :
    (horizon : ℕ) (w : Value) (o : Option (Entry Value))
    → LastsTo horizon o
    → counter_after (value_of o) ≡ some w
    → Leaves horizon w (incr_entry o)
incr_entry-Leaves horizon w none h k = (entry (counter 1) none, refl, ground arith, tt)
incr_entry-Leaves horizon w (some e) h k = by-value e.value e.deadline h k
  where
    by-value :
        (x : Value) (d : Option ℕ)
        → DeadlineLasts horizon d
        → counter_after (some x) ≡ some w
        → Leaves horizon w (counter_plus x d)
    by-value (hash b) d h k = ground arith
    by-value (counter n) d h k = (entry (counter (n + 1)) d, refl, ground arith, h)

module _ (horizon : ℕ) (env : LogEnv) (smooth : IsSmooth horizon env) (key : String) (w : Value)
    (s : RedisLog) (last : AllLast horizon s) where
  written-HasWritten :
      (o : Option (Entry Value)) → Leaves horizon w o → HasWritten env key w s (written key o s)
  written-HasWritten o (e, is, value, lasts) = rw is (record {
    done = refl;
    wrote = λ j.
        lookup-expire horizon env smooth key j e s lasts
        ∙ ap (λ v. if key == j then some (entry v (some (env.now + env.ttl))) else lookup j s)
            value;
  })

  pub client_hset-HasWritten :
      (txn_id : String) (v : Bytes)
      → hash_after txn_id v (value_of (lookup key s)) ≡ some w
      → HasWritten env key w s (client_hset env key txn_id v s)
  unfolding client_hset
  client_hset-HasWritten txn_id v h =
      rw (smooth.no_failure hset key, live-lasting horizon env.now key s smooth.before last)
        (written-HasWritten (hset_entry txn_id v (lookup key s))
          (hset_entry-Leaves horizon txn_id v w (lookup key s) (last key) h))

  pub client_incr-HasWritten :
      counter_after (value_of (lookup key s)) ≡ some w
      → HasWritten env key w s (client_incr env key s)
  unfolding client_incr
  client_incr-HasWritten h =
      rw (smooth.no_failure incr key, live-lasting horizon env.now key s smooth.before last)
        (written-HasWritten (incr_entry (lookup key s))
          (incr_entry-Leaves horizon w (lookup key s) (last key) h))
