-- ===== src/RunLog.antt =====
-- internal/shared/runlog: memory_store.go, the payloads and send times of a run by pipeline, action and
-- transaction. The buckets are keyed by the text that `bucketKey` makes. The methods take the lock of
-- the store, and the counter is atomic, so a sequence of calls is a sequence of states; the iteration order
-- of a map is the order of the association list.
pub mod Lookup
pub mod Cleanup
pub mod Redis
pub mod RedisKeys
pub mod RedisSteps
pub mod Agreement
pub mod RecordAgreement
pub mod Refinement
use Prim.Native.Char.{code}
use Prim.Native.String.{◌++◌ as cat}
use load_test_backend.Base.{
  ℕ, ◌+◌, String, Bool, true, false, Option, none, some, List, [], ◌∷◌, ◌++◌, map, ◌||◌, Assoc,
  lookup, insert, ◌==◌, string_eq, split_n, nat_eq, if◌then◌else◌,
}
use load_test_backend.Json.{Payload}
use load_test_backend.Store.{Result, ok, err, missing}

pub record MemoryStore : Type 0 where
  pub data_of : Assoc String (Assoc String Payload)
  pub counters : Assoc String ℕ
  pub timestamps : Assoc String (Assoc String ℕ)

abbrev pub new_memory_store : MemoryStore
new_memory_store = record { data_of = []; counters = []; timestamps = [] }

unfoldable pub bucket_key : String → String → String → String
bucket_key run_id pipeline action = cat run_id (cat ":" (cat pipeline (cat ":" action)))

-- The guard of `Record` and `RecordTimestamp`.
abbrev pub incomplete : String → String → String → String → Bool
incomplete run_id pipeline action txn_id =
    ((run_id == "" || pipeline == "") || action == "") || txn_id == ""

module _ {V : Type 0} where
  -- The bucket of a key, an empty one when the key is new.
  abbrev pub bucket_or_new : Option (Assoc String V) → Assoc String V
  bucket_or_new none = []
  bucket_or_new (some b) = b

  unfoldable pub put_in :
      String → String → V → Assoc String (Assoc String V) → Assoc String (Assoc String V)
  put_in key txn_id v t = insert key (insert txn_id v (bucket_or_new (lookup key t))) t

  abbrev pub found_in : Option (Assoc String V) → String → Result V
  found_in none txn_id = err missing
  found_in (some b) txn_id = elim (lookup txn_id b) [ none ↦ err missing | some v ↦ ok v ]

abbrev pub counter_or_zero : Option ℕ → ℕ
counter_or_zero none = 0
counter_or_zero (some n) = n

unfoldable pub record_payload :
    String → String → String → String → Payload → MemoryStore → MemoryStore
unfolding put_in
record_payload run_id pipeline action txn_id payload s =
    let key = bucket_key run_id pipeline action in
    if incomplete run_id pipeline action txn_id then s else record s {
      data_of = put_in key txn_id payload s.data_of;
      counters = insert key (counter_or_zero (lookup key s.counters) + 1) s.counters;
    }

unfoldable pub record_timestamp : String → String → String → String → ℕ → MemoryStore → MemoryStore
unfolding put_in
record_timestamp run_id pipeline action txn_id t s =
    if incomplete run_id pipeline action txn_id
    then s
    else record s { timestamps = put_in (bucket_key run_id pipeline action) txn_id t s.timestamps }

unfoldable pub get_timestamp : String → String → String → String → MemoryStore → Result ℕ
get_timestamp run_id pipeline action txn_id s =
    found_in (lookup (bucket_key run_id pipeline action) s.timestamps) txn_id

unfoldable pub list_txn_ids : String → String → String → MemoryStore → List String
list_txn_ids run_id pipeline action s =
    elim (lookup (bucket_key run_id pipeline action) s.timestamps) [
      | none ↦ []
      | some b ↦ map (λ e. e.0) b
    ]

unfoldable pub get_payload : String → String → String → String → MemoryStore → Result Payload
get_payload run_id pipeline action txn_id s =
    found_in (lookup (bucket_key run_id pipeline action) s.data_of) txn_id

-- The map `out` of GetMulti; `some` only the identifiers that the bucket has.
unfoldable pub pick : Assoc String Payload → List String → Assoc String Payload
pick b [] = []
pick b (id ∷ ids) = elim (lookup id b) [ none ↦ pick b ids | some v ↦ insert id v (pick b ids) ]

unfoldable pub get_multi :
    String → String → String → List String → MemoryStore → Assoc String Payload
unfolding pick
get_multi run_id pipeline action txn_ids s =
    elim (lookup (bucket_key run_id pipeline action) s.data_of) [
      | none ↦ []
      | some b ↦ pick b txn_ids
    ]

unfoldable pub count : String → String → String → MemoryStore → ℕ
count run_id pipeline action s =
    counter_or_zero (lookup (bucket_key run_id pipeline action) s.counters)

-- strings.HasPrefix(s, p).
unfoldable pub has_prefix : String → String → Bool
has_prefix s String.[] = true
has_prefix String.[] (String.◌∷◌ y p) = false
has_prefix (String.◌∷◌ x s) (String.◌∷◌ y p) =
    if nat_eq (code x) (code y) then has_prefix s p else false

abbrev pub run_prefix : String → String
run_prefix run_id = cat run_id ":"

module _ {V : Type 0} where
  unfoldable pub drop_run : String → Assoc String V → Assoc String V
  drop_run prefix [] = []
  drop_run prefix ((k, v) ∷ t) =
      let rest = drop_run prefix t in if has_prefix k prefix then rest else (k, v) ∷ rest

unfoldable pub cleanup : String → MemoryStore → MemoryStore
unfolding drop_run
cleanup run_id s = record {
  data_of = drop_run (run_prefix run_id) s.data_of;
  counters = drop_run (run_prefix run_id) s.counters;
  timestamps = drop_run (run_prefix run_id) s.timestamps;
}

-- The two methods of a store that the end of a run reads, whichever store it is; the store in
-- memory returns no error from `ListTxnIDs`.
pub record LogReader : Type 0 where
  pub listed : String → String → String → Result (List String)
  pub send_time : String → String → String → String → Result ℕ

abbrev pub reader_of : MemoryStore → LogReader
reader_of s = record {
  listed = λ run_id pipeline action. ok (list_txn_ids run_id pipeline action s);
  send_time = λ run_id pipeline action txn_id. get_timestamp run_id pipeline action txn_id s;
}

-- What the callback of Export and the files of FlushToFilesystem get.
pub record Exported : Type 0 where
  pub pipeline : String
  pub action : String
  pub txn_id : String
  pub payload : Payload

abbrev pub exported_bucket : String → String → Assoc String Payload → List Exported
exported_bucket pipeline action b =
    map (λ e. record { pipeline = pipeline; action = action; txn_id = e.0; payload = e.1 }) b

-- `len(parts) != 3` skips the bucket.
unfoldable pub exported_parts : List String → Assoc String Payload → List Exported
exported_parts [] b = []
exported_parts (_ ∷ []) b = []
exported_parts (_ ∷ _ ∷ []) b = []
exported_parts (_ ∷ pipeline ∷ action ∷ []) b = exported_bucket pipeline action b
exported_parts (_ ∷ _ ∷ _ ∷ _ ∷ _) b = []

unfoldable pub exported_from : String → Assoc String (Assoc String Payload) → List Exported
unfolding exported_parts
exported_from run_id [] = []
exported_from run_id ((k, b) ∷ t) =
    let rest = exported_from run_id t in
    if has_prefix k (run_prefix run_id) then exported_parts (split_n b':' 2 k) b ++ rest else rest

unfoldable pub exported : String → MemoryStore → List Exported
unfolding exported_from
exported run_id s = exported_from run_id s.data_of
