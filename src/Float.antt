-- ===== src/Float.antt =====
-- float64 values, kept as the expression that the program evaluates: no rounding is modelled, and
-- nothing is assumed of it.
use load_test_backend.Base.{ℕ, ℤ, pos}

pub data Float64 : Type 0 where
  of_int : ℤ → Float64
  -- the literal with these digits over this power of ten
  decimal : ℕ → ℕ → Float64
  mul div sub : Float64 → Float64 → Float64
  -- `math.Round`
  round : Float64 → Float64

abbrev pub zero_float : Float64
zero_float = of_int (pos 0)
