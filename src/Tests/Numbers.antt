-- ===== src/Tests/Numbers.antt =====
-- An instance of the arithmetic that the runs use.
use morton.Base.{ℕ, ◌+◌, ◌*◌, ltb, leb}
use morton.Core.Float.{F32}

-- Whole numbers for `float`.
abbrev pub whole : F32
whole = record {
  Carrier = ℕ;
  add = λ a b. a + b;
  sub = λ a b. a;
  mul = λ a b. a * b;
  div = λ a b. a;
  neg = λ a. a;
  abs = λ a. a;
  sqrt = λ a. a;
  cos = λ a. a;
  sin = λ a. a;
  lt = ltb;
  le = leb;
  of_u64 = λ n. n;
  to_u32 = λ n. n;
  to_i32 = λ n. n;
  decimal = λ n k. n;
}
