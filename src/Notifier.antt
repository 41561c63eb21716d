-- ===== src/Notifier.antt =====
-- internal/domain/pipeline/callback_notifier.go: a counter and a channel of one signal for each run and
-- callback action, under the text that `key` makes.
pub mod Steps
use Prim.Native.String.{◌++◌ as cat}
use load_test_backend.Base.{
  ℕ, ◌+◌, String, Bool, true, false, Option, none, some, List, [], ◌∷◌, Assoc, lookup, insert, ◌==◌,
  string_eq,
}
use load_test_backend.RunLog.{run_prefix, drop_run}

-- The counter, and whether the buffer of the channel holds a signal.
pub record Slot : Type 0 where
  pub counter : ℕ
  pub signal : Bool

abbrev pub Notifier : Type 0
Notifier = Assoc String Slot

abbrev pub slot_or_new : Option Slot → Slot
slot_or_new none = record { counter = 0; signal = false }
slot_or_new (some s) = s

abbrev pub slot_key : String → String → String
slot_key run_id action = cat run_id (cat ":" action)

-- Notify, run without interruption; Notifier/Steps takes it apart.
unfoldable pub notify : String → String → Notifier → Notifier
notify run_id action n =
    let s = slot_or_new (lookup (slot_key run_id action) n) in
    insert (slot_key run_id action) (record { counter = s.counter + 1; signal = true }) n
