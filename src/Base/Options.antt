-- ===== src/Base/Options.antt =====
-- `do` blocks over optional values.
use mathlib.Core.Option.{Option, none, some}

module _ {ℓ} {A B : Type ℓ} where
  infixl 5 ◌>>=◌
  abbrev pub ◌>>=◌ : Option A → (A → Option B) → Option B
  ◌>>=◌ none f = none
  ◌>>=◌ (some a) f = f a
