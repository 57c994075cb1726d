-- ===== src/Float.antt =====
-- The float64 arithmetic of the program, as a parameter: what the code computes and compares.
use snmptune.Prelude.{ℕ, ◌+◌, ◌*◌, ◌/◌, Bool, ltb}

-- `of_nat` is a conversion from an integer, `seconds` is `time.Duration.Seconds`, and `ceil` is
-- `int(math.Ceil(x))` of a value that is not negative.
pub record FloatOps : Type 1 where
  pub F : Type 0
  pub of_nat : ℕ → F
  pub add : F → F → F
  pub mul : F → F → F
  pub div : F → F → F
  pub lt : F → F → Bool
  pub seconds : ℕ → F
  pub ceil : F → ℕ

-- A concrete arithmetic for examples: fixed point, in units of 1/10000.
abbrev pub fixed_point : FloatOps
fixed_point = record {
  F = ℕ;
  of_nat = λ n. n * 10000;
  add = λ a b. a + b;
  mul = λ a b. a * b / 10000;
  div = λ a b. a * 10000 / b;
  lt = ltb;
  seconds = λ n. n / 100_000;
  ceil = λ a. (a + 9999) / 10000;
}
