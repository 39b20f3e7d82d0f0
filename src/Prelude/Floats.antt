-- ===== src/Prelude/Floats.antt =====
-- Python's `float` as an interface: the comparisons and operations that the models use. A literal
-- such as 0.85 is the quotient of two whole numbers, rounded once, as `/` rounds; `fixed` prints
-- two decimals.
use Prim.Native.Nat.{ℕ}
use Prim.Native.String.{String}
use mathlib.Core.Bool.{Bool}

pub record Floats (F : Type 0) : Type 0 where
  pub leq : F → F → Bool
  pub less : F → F → Bool
  pub add : F → F → F
  pub sub : F → F → F
  pub least : F → F → F
  pub greatest : F → F → F
  pub quotient : ℕ → ℕ → F
  pub fixed : F → String
