-- ===== src/Base/Floats.antt =====
-- `float64`, which the language leaves to the machine: a type with its operations. No law is
-- assumed here; a theorem that needs one takes it as a hypothesis.
use Prim.Native.Nat.{ℕ, ◌+◌, ◌-◌, ◌*◌, ◌/◌, ◌%◌}
use mathlib.Core.Bool.{Bool}
use system_monitor_go.Base.Tests.{ltb, ◌==◌}
use system_monitor_go.Base.Ints.{ℤ, pos_part}

pub record Float64 : Type 1 where
  pub F : Type 0
  -- `float64(n)` of an unsigned and of a signed integer, and the literals with a whole value.
  pub of_nat : ℕ → F
  pub of_int : ℤ → F
  pub add : F → F → F
  pub sub : F → F → F
  pub mul : F → F → F
  pub div : F → F → F
  -- `a < b` and `a == b`
  pub lt : F → F → Bool
  pub eq : F → F → Bool

-- Whole numbers as an instance, for examples: it has no fractions and no negative values.
abbrev pub whole : Float64
whole = record {
  F = ℕ;
  of_nat = λ n. n;
  of_int = λ z. pos_part z;
  add = λ a b. a + b;
  sub = λ a b. a - b;
  mul = λ a b. a * b;
  div = λ a b. a / b;
  lt = λ a b. ltb a b;
  eq = λ a b. a == b;
}

-- `Seconds` of a duration in nanoseconds
unfoldable pub float_seconds : (fl : Float64) → ℕ → fl.F
float_seconds fl n =
    fl.add (fl.of_nat (n / 1000000000)) (fl.div (fl.of_nat (n % 1000000000)) (fl.of_nat 1000000000))
