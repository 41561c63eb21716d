-- ===== src/Store.antt =====
-- The two stores behind a handler: Redis (internal/shared/redis, internal/ports/session/redis_store.go)
-- and MongoDB (internal/ports/session/mongo_store.go), the errors, and the actions over them.
-- Each call of a store client may fail: `Env` says which calls fail while one handler runs.
pub mod Keys
pub mod Redis
pub mod Mongo
pub mod Routes
pub mod Counters
use load_test_backend.Base.{ℕ, String, Bool, true, false, Option, List, Assoc, Entry, if◌then◌else◌}
use load_test_backend.Json.{Payload}
use load_test_backend.Latency.{RunLatencyEvent, RunLatencySummary}
use load_test_backend.Session.{Session, CatalogState, PreorderState, Run}
use Keys.{Key, MetricKey}

-- The Redis commands, and the methods of the Mongo collections that the program calls.
pub data RedisCall : Type 0 where
  set_call get_call del_call incr_call expire_call : RedisCall

pub data MongoCall : Type 0 where
  update_session update_run update_catalog find_catalog find_runs find_run count_sessions
        find_sessions find_session insert_payload find_payloads update_event bulk_events
        update_summary find_events find_summaries expire_sessions delete_runs delete_catalogs
        delete_sessions :
      MongoCall

-- What a handler takes from outside: the clock, a fresh UUID, the time to live of the Redis entries
-- (in nanoseconds) and the calls that fail.
pub record Env : Type 0 where
  pub now : ℕ
  pub new_id : String
  pub ttl : ℕ
  pub redis_fails : RedisCall → Key → Bool
  pub mongo_fails : MongoCall → Bool

-- One table for each kind of key; Store/Keys has the keys as the program spells them.
pub record RedisState : Type 0 where
  pub sessions : Assoc String (Entry Session)
  pub bpp_index : Assoc String (Entry String)
  pub catalogs : Assoc String (Entry CatalogState)
  pub preorders : Assoc String (Entry PreorderState)
  pub runs : Assoc String (Entry Run)
  pub counters : Assoc MetricKey (Entry ℕ)
  pub routes : Assoc String (Entry String)
  pub discovery : Assoc String (Entry Payload)

pub record RunPayload : Type 0 where
  pub id : String
  pub run_id : String
  pub session_id : String
  pub stage : String
  pub direction : String
  pub txn_id : String
  pub status : ℕ
  pub timestamp : ℕ
  pub body : Payload

-- The collections, by `_id` where the program sets it.
pub record MongoState : Type 0 where
  pub sessions : Assoc String Session
  pub runs : Assoc String Run
  pub catalogs : Assoc String Payload
  pub payloads : List RunPayload
  pub events : List RunLatencyEvent
  pub summaries : List RunLatencySummary

pub record World : Type 0 where
  pub redis : RedisState
  pub mongo : MongoState

-- internal/shared/apierror, and the plain errors of the stores.
pub data Error : Type 0 where
  -- an error that a store client returned
  store_failure : Error
  -- `fmt.Errorf("... not found")`
  missing : Error
  invalid_route : Error
  session_not_found session_expired catalog_not_ready catalog_pending run_already_active
        run_not_found no_active_run invalid_request_body upstream_timeout :
      Error
  -- `NewCustomError(http_code, code, ...)`
  custom : ℕ → String → Error

pub data Result {ℓ} (A : Type ℓ) : Type ℓ where
  ok : A → Result A
  err : Error → Result A

-- A method that reads the environment, changes the stores and may fail.
abbrev pub Exec : Type 0 → Type 0
Exec A = Env → World → Result A × World

module _ {A B : Type 0} where
  abbrev pub continue : Result A → (A → Exec B) → Exec B
  continue (ok a) f env w = f a env w
  continue (err e) f env w = (err e, w)

  infixl 5 ◌>>=◌
  abbrev pub ◌>>=◌ : Exec A → (A → Exec B) → Exec B
  ◌>>=◌ m f env w = let (r, w') = m env w in continue r f env w'

module _ {B : Type 0} where
  infixl 5 ◌>>◌
  abbrev pub ◌>>◌ : Exec (Unit {0}) → Exec B → Exec B
  ◌>>◌ m n = m >>= λ _. n

module _ {A : Type 0} where
  abbrev pub pure : A → Exec A
  pure a env w = (ok a, w)

  abbrev pub raise : Error → Exec A
  raise e env w = (err e, w)

  -- `x, err := m()`: the error as a value.
  abbrev pub attempt : Exec A → Exec (Result A)
  attempt m env w = let (r, w') = m env w in (ok r, w')

  -- `_ = m()`.
  abbrev pub ignore : Exec A → Exec (Unit {0})
  ignore m env w = (ok tt, (m env w).1)

module _ {A B : Type 0} where
  abbrev pub branch : Result A → (A → Exec B) → (Error → Exec B) → Exec B
  branch (ok a) f g = f a
  branch (err e) f g = g e

  -- `x, err := m(); if err != nil { g } else { f }`
  abbrev pub handle : Exec A → (A → Exec B) → (Error → Exec B) → Exec B
  handle m f g env w = let (r, w') = m env w in branch r f g env w'

abbrev pub the_env : Exec Env
the_env env w = (ok env, w)
