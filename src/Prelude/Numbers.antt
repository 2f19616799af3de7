-- ===== src/Prelude/Numbers.antt =====
-- What the parsers of JavaScript make of a text that should hold a number.
use Prim.Native.Nat.{ℕ}

-- `natural n` is a finite number of zero or more, rounded down.
pub data Parsed : Type 0 where
  not_finite negative : Parsed
  natural : ℕ → Parsed
