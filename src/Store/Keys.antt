-- ===== src/Store/Keys.antt =====
-- redis_store.go, the Redis keys: `sessionKey` to `discoveryKey`. The model keeps one table for each
-- kind of key; this module has the texts.
use Prim.Native.String.{◌++◌ as cat}
use load_test_backend.Base.{String, Bool, true, ◌≡◌, ◌↔◌, ◌&&◌, Eq, string_eq, eq_iff, arith, ◌==◌}

-- `run:<run_id>:m:<action>:<field>`, by its parts.
pub record MetricKey : Type 0 where
  pub run_id : String
  pub action : String
  pub counter : String

abbrev same_metric : MetricKey → MetricKey → Bool
same_metric a b = (a.run_id == b.run_id && a.action == b.action) && a.counter == b.counter

pub same_metric_iff : (a b : MetricKey) → (same_metric a b ≡ true) ↔ (a ≡ b)
same_metric_iff a b =
    ground (arith, eq_iff a.run_id b.run_id, eq_iff a.action b.action, eq_iff a.counter b.counter)

instance abbrev pub metric_eq : Eq MetricKey
metric_eq = record { beq = same_metric; beq_iff = same_metric_iff }

pub data Key : Type 0 where
  session_key bpp_index_key catalog_key preorder_key run_key txn_key discovery_key : String → Key
  metric_key : MetricKey → Key

pub key_text : Key → String
key_text (session_key id) = cat "session:" id
key_text (bpp_index_key bpp_id) = cat "bpp_session:" bpp_id
key_text (catalog_key id) = cat "session:" (cat id ":catalog")
key_text (preorder_key id) = cat "session:" (cat id ":preorder")
key_text (run_key id) = cat "run:" id
key_text (metric_key k) = cat "run:" (cat k.run_id (cat ":m:" (cat k.action (cat ":" k.counter))))
key_text (txn_key txn_id) = cat "txn:" txn_id
key_text (discovery_key txn_id) = cat "discovery:" txn_id
