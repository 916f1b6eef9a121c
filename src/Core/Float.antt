-- ===== src/Core/Float.antt =====
-- The `float` arithmetic that the compiler provides, as a parameter: the estimates of the transport,
-- movement and quantization are computed by it.
use morton.Base.{ℕ, Bool}

pub record F32 : Type 1 where
  pub Carrier : Type 0
  pub add : Carrier → Carrier → Carrier
  pub sub : Carrier → Carrier → Carrier
  pub mul : Carrier → Carrier → Carrier
  pub div : Carrier → Carrier → Carrier
  pub neg : Carrier → Carrier
  pub abs : Carrier → Carrier
  pub sqrt : Carrier → Carrier
  pub cos : Carrier → Carrier
  pub sin : Carrier → Carrier
  pub lt : Carrier → Carrier → Bool
  pub le : Carrier → Carrier → Bool
  -- `static_cast<f32>` of an unsigned integer.
  pub of_u64 : ℕ → Carrier
  -- `static_cast<u32>` and `static_cast<i32>`, the latter as its bit pattern.
  pub to_u32 : Carrier → ℕ
  pub to_i32 : Carrier → ℕ
  -- `decimal n k` is the literal n / 10 ^ k.
  pub decimal : ℕ → ℕ → Carrier
