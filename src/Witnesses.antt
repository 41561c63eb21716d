-- ===== src/Witnesses.antt =====
-- Concrete inputs for the theorems, one file for each part: a clock and stores in which no call fails,
-- and small worlds.
mod Managers
mod Statistics
mod Limits
mod Logs
mod Inbound
mod Payloads
mod Keys
mod RedisLog
use load_test_backend.Base.{
  ℕ, ◌*◌, ◌/◌, ◌+◌, String, Bool, true, false, Option, none, some, List, [], ◌∷◌, ℤ, pos, ◌≡◌, refl,
}
use load_test_backend.Float.{Float64, of_int, decimal, mul, div, sub, round}
use load_test_backend.Json.{Payload, doc, obj, end, field, str, Fields}
use load_test_backend.Latency.Percentiles.{FloatOps}
use load_test_backend.Session.{Session, active, Run}
use load_test_backend.Store.{Env, World, RedisState, MongoState}
use load_test_backend.Store.Redis.{second}
use load_test_backend.Store.Keys.{Key}
use load_test_backend.Store.{RedisCall, MongoCall}
use load_test_backend.Manager.Finish.{NoFailure}

abbrev pub calm : ℕ → String → Env
calm now id = record {
  now = now;
  new_id = id;
  ttl = 3600 * second;
  redis_fails = λ _ _. false;
  mongo_fails = λ _. false;
}

pub calm-NoFailure : (now : ℕ) (id : String) → NoFailure (calm now id)
calm-NoFailure now id = record { redis = λ c k. refl; mongo = λ c. refl }

abbrev pub empty_world : World
empty_world = record {
  redis = record {
    sessions = [];
    bpp_index = [];
    catalogs = [];
    preorders = [];
    runs = [];
    counters = [];
    routes = [];
    discovery = [];
  };
  mongo = record {
    sessions = [];
    runs = [];
    catalogs = [];
    payloads = [];
    events = [];
    summaries = [];
  };
}

-- A payload with this transaction.
abbrev pub payload_of : String → Payload
payload_of txn_id = doc (obj (field "context" (obj (field "transaction_id" (str txn_id) end)) end))

-- Floating-point steps that are exact for the literals of the percentiles.
abbrev pub hundredths : Float64 → ℕ
hundredths (decimal d p) = d
hundredths (of_int n) = 0
hundredths (mul a b) = 0
hundredths (div a b) = 0
hundredths (sub a b) = 0
hundredths (round a) = 0

abbrev pub exact_ops : FloatOps
exact_ops = record {
  le_zero = λ _. false;
  ge_one = λ _. false;
  trunc_index = λ p n. pos (hundredths p * n / 100);
}
