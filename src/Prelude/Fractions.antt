-- ===== src/Prelude/Fractions.antt =====
-- Quotients that the source computes in Decimal or floating-point numbers, kept exact: a numerator
-- over a denominator, compared by cross multiplication.
use Prim.Native.Nat.{ℕ, ◌*◌}
use mathlib.Core.Bool.{Bool}
use acbu_backend.Prelude.Tests.{ltb, leb}

pub record Fraction : Type 0 where
  pub num : ℕ
  pub den : ℕ

-- `a < b`, for positive denominators.
abbrev pub less : Fraction → Fraction → Bool
less a b = ltb (a.num * b.den) (b.num * a.den)

-- `a >= b`, for positive denominators.
abbrev pub at_least : Fraction → Fraction → Bool
at_least a b = leb (b.num * a.den) (a.num * b.den)

abbrev pub over : ℕ → ℕ → Fraction
over n d = record { num = n; den = d }
