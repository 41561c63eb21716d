-- ===== src/RunLog/Redis.antt =====
-- internal/shared/runlog/redis_store.go, over the commands of internal/shared/redis. The keys are the texts
-- that the program makes, in one table with times to live, as the server has them. Which commands fail is part
-- of the environment; the glob match of SCAN is a parameter. FlushToFilesystem only writes files.
use Prim.Native.String.{◌++◌ as cat}
use load_test_backend.Base.{
  ℕ, ◌+◌, ◌*◌, ◌^◌, String, Bool, true, Option, none, some, List, [], ◌∷◌, map, string_eq, Assoc,
  lookup, insert, Entry, leb, ℤ, pos, negsuc, if◌then◌else◌,
}
use load_test_backend.Json.{Payload}
use load_test_backend.Store.{Result, ok, err, missing, store_failure}
use load_test_backend.RunLog.{bucket_key, incomplete}

-- A field of a hash: a payload, or the decimal text of a time in nanoseconds.
pub data Bytes : Type 0 where
  raw : Payload → Bytes
  nanos : ℕ → Bytes

pub data Value : Type 0 where
  hash : Assoc String Bytes → Value
  counter : ℕ → Value

abbrev pub RedisLog : Type 0
RedisLog = Assoc String (Entry Value)

pub data LogCall : Type 0 where
  hset hget hgetall hmget incr expire get keys del : LogCall

-- The store and the surroundings of one call: the time, the time to live and the commands that fail.
pub record LogEnv : Type 0 where
  pub now : ℕ
  pub ttl : ℕ
  pub fails : LogCall → String → Bool

-- NewRedisStore: seconds to nanoseconds, 600 s unless positive.
unfoldable pub ttl_of : ℤ → ℕ
ttl_of (pos n) = (if leb n 0 then 600 else n) * 10 ^ 9
ttl_of (negsuc n) = 600 * 10 ^ 9

unfoldable pub hash_key : String → String → String → String
hash_key run_id pipeline action = cat "runlog" (cat ":" (bucket_key run_id pipeline action))

unfoldable pub timestamp_hash_key : String → String → String → String
timestamp_hash_key run_id pipeline action =
    cat "runlog"
      (cat ":" (cat run_id (cat ":" (cat "ts" (cat ":" (cat pipeline (cat ":" action)))))))

unfoldable pub counter_key : String → String → String → String
counter_key run_id pipeline action =
    cat "runlog"
      (cat ":" (cat run_id (cat ":" (cat "count" (cat ":" (cat pipeline (cat ":" action)))))))

-- The entry of a key, unless it has expired.
abbrev pub unexpired : ℕ → Option ℕ → Bool
unexpired now none = true
unexpired now (some d) = leb now d

abbrev pub live_entry : ℕ → Option (Entry Value) → Option (Entry Value)
live_entry now none = none
live_entry now (some e) = if unexpired now e.deadline then some e else none

unfoldable pub live : ℕ → String → RedisLog → Option (Entry Value)
live now key s = live_entry now (lookup key s)

abbrev pub entry : Value → Option ℕ → Entry Value
entry v d = record { value = v; deadline = d }

-- HSET and INCR on what the key has: `none` is the server's error on a value of another type.
abbrev pub hash_with : String → Bytes → Value → Option ℕ → Option (Entry Value)
hash_with txn_id v (hash h) d = some (entry (hash (insert txn_id v h)) d)
hash_with txn_id v (counter n) d = none

abbrev pub hset_entry : String → Bytes → Option (Entry Value) → Option (Entry Value)
hset_entry txn_id v none = some (entry (hash ((txn_id, v) ∷ [])) none)
hset_entry txn_id v (some e) = hash_with txn_id v e.value e.deadline

abbrev pub counter_plus : Value → Option ℕ → Option (Entry Value)
counter_plus (hash h) d = none
counter_plus (counter n) d = some (entry (counter (n + 1)) d)

abbrev pub incr_entry : Option (Entry Value) → Option (Entry Value)
incr_entry none = some (entry (counter 1) none)
incr_entry (some e) = counter_plus e.value e.deadline

abbrev pub written : String → Option (Entry Value) → RedisLog → Result (Unit {0}) × RedisLog
written key none s = (err store_failure, s)
written key (some e) s = (ok tt, insert key e s)

unfoldable pub client_hset :
    LogEnv → String → String → Bytes → RedisLog → Result (Unit {0}) × RedisLog
client_hset env key txn_id v s =
    if env.fails hset key
    then (err store_failure, s)
    else written key (hset_entry txn_id v (live env.now key s)) s

unfoldable pub client_incr : LogEnv → String → RedisLog → Result (Unit {0}) × RedisLog
client_incr env key s =
    if env.fails incr key
    then (err store_failure, s)
    else written key (incr_entry (live env.now key s)) s

abbrev pub expire_entry : String → ℕ → Option (Entry Value) → RedisLog → RedisLog
expire_entry key d none s = s
expire_entry key d (some e) s = insert key (entry e.value (some d)) s

-- `_ = s.client.Expire(ctx, key, s.ttl)`.
unfoldable pub client_expire : LogEnv → String → RedisLog → RedisLog
client_expire env key s =
    if env.fails expire key then s else expire_entry key (env.now + env.ttl) (live env.now key s) s

abbrev pub then_expire :
    LogEnv
    → String
    → Result (Unit {0}) × RedisLog
    → (RedisLog → Result (Unit {0}) × RedisLog)
    → Result (Unit {0}) × RedisLog
then_expire env key (err e, s) next = (err e, s)
then_expire env key (ok u, s) next = next (client_expire env key s)

unfoldable pub redis_record :
    LogEnv → String → String → String → String → Payload → RedisLog → Result (Unit {0}) × RedisLog
redis_record env run_id pipeline action txn_id payload s =
    let hk = hash_key run_id pipeline action in
    let ck = counter_key run_id pipeline action in
    if incomplete run_id pipeline action txn_id
    then (ok tt, s)
    else then_expire env hk (client_hset env hk txn_id (raw payload) s)
        (λ s'. then_expire env ck (client_incr env ck s') (λ s''. (ok tt, s'')))

unfoldable pub redis_record_timestamp :
    LogEnv → String → String → String → String → ℕ → RedisLog → Result (Unit {0}) × RedisLog
redis_record_timestamp env run_id pipeline action txn_id t s =
    let hk = timestamp_hash_key run_id pipeline action in
    if incomplete run_id pipeline action txn_id
    then (ok tt, s)
    else then_expire env hk (client_hset env hk txn_id (nanos t) s) (λ s'. (ok tt, s'))

-- The fields of a hash; a missing key has none, and a counter gives the server's error.
abbrev pub fields_of : Option (Entry Value) → Result (Assoc String Bytes)
fields_of none = ok []
fields_of (some e) = elim e.value [ hash h ↦ ok h | counter n ↦ err store_failure ]

abbrev pub field_or_missing : String → Result (Assoc String Bytes) → Result Bytes
field_or_missing txn_id (err e) = err e
field_or_missing txn_id (ok h) = elim (lookup txn_id h) [ none ↦ err missing | some v ↦ ok v ]

unfoldable pub redis_get : LogEnv → String → String → String → String → RedisLog → Result Bytes
redis_get env run_id pipeline action txn_id s =
    let hk = hash_key run_id pipeline action in
    if env.fails hget hk
    then err store_failure
    else field_or_missing txn_id (fields_of (live env.now hk s))

-- `fmt.Sscanf(raw, "%d", &ns)`; a payload there does not parse.
abbrev pub parse_nanos : Result Bytes → Result ℕ
parse_nanos (err e) = err e
parse_nanos (ok (nanos t)) = ok t
parse_nanos (ok (raw p)) = err store_failure

unfoldable pub redis_get_timestamp :
    LogEnv → String → String → String → String → RedisLog → Result ℕ
redis_get_timestamp env run_id pipeline action txn_id s =
    let hk = timestamp_hash_key run_id pipeline action in
    if env.fails hget hk
    then err store_failure
    else parse_nanos (field_or_missing txn_id (fields_of (live env.now hk s)))

abbrev pub names : Result (Assoc String Bytes) → Result (List String)
names (err e) = err e
names (ok h) = ok (map (λ e. e.0) h)

unfoldable pub redis_list_txn_ids :
    LogEnv → String → String → String → RedisLog → Result (List String)
redis_list_txn_ids env run_id pipeline action s =
    let hk = timestamp_hash_key run_id pipeline action in
    if env.fails hgetall hk then err store_failure else names (fields_of (live env.now hk s))

-- A counter that is a hash gives the server's error.
abbrev pub count_of : Option (Entry Value) → Result ℕ
count_of none = ok 0
count_of (some e) = elim e.value [ counter n ↦ ok n | hash h ↦ err store_failure ]

unfoldable pub redis_count : LogEnv → String → String → String → RedisLog → Result ℕ
redis_count env run_id pipeline action s =
    let ck = counter_key run_id pipeline action in
    if env.fails get ck then err store_failure else count_of (live env.now ck s)

-- The identifiers of HMGET that the hash has.
unfoldable pub pick_fields : Assoc String Bytes → List String → Assoc String Bytes
pick_fields h [] = []
pick_fields h (id ∷ ids) = elim (lookup id h) [
  | none ↦ pick_fields h ids
  | some v ↦ insert id v (pick_fields h ids)
]

abbrev pub picked : Result (Assoc String Bytes) → List String → Result (Assoc String Bytes)
picked (err e) ids = err e
picked (ok h) ids = ok (pick_fields h ids)

unfoldable pub redis_get_multi :
    LogEnv → String → String → String → List String → RedisLog → Result (Assoc String Bytes)
redis_get_multi env run_id pipeline action [] s = ok []
redis_get_multi env run_id pipeline action (id ∷ ids) s =
    let hk = hash_key run_id pipeline action in
    if env.fails hmget hk
    then err store_failure
    else picked (fields_of (live env.now hk s)) (id ∷ ids)

-- Cleanup and Export go over the keys that match a pattern.
module _ (matches : String → String → Bool) where
  unfoldable pub del_matching : String → RedisLog → RedisLog
  del_matching pattern [] = []
  del_matching pattern ((k, e) ∷ s) =
      let rest = del_matching pattern s in if matches pattern k then rest else (k, e) ∷ rest

  unfoldable pub redis_cleanup : LogEnv → String → RedisLog → RedisLog
  redis_cleanup env run_id s =
      let pattern = cat "runlog:" (cat run_id ":*") in
      if env.fails keys pattern
      then s
      else if env.fails del pattern
      then s
      else del_matching pattern s
