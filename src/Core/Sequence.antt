-- ===== src/Core/Sequence.antt =====
-- `sequence_greater` of src/core/types.h: the order on wrapping sequence numbers.
use morton.Base.{
  ℕ, ◌-◌, ◌^◌, ◌≤◌, ◌<◌, ◌≡◌, ◌≢◌, Bool, true, false, not, ◌&&◌, ◌||◌, ltb, leb, sub16, sub32,
  arith,
}

-- The 16-bit overload. `a - b` is an `int`, and not negative where it is computed.
unfoldable pub sequence_greater : ℕ → ℕ → Bool
sequence_greater a b = (ltb b a && leb (a - b) 32768) || (ltb a b && ltb 32768 (b - a))

-- The 32-bit overload, for ticks and input sequences.
unfoldable pub tick_greater : ℕ → ℕ → Bool
tick_greater a b = (ltb b a && leb (a - b) 2147483648) || (ltb a b && ltb 2147483648 (b - a))

-- Of two different sequence numbers exactly one is the greater.
pub sequence_greater_swap :
    (a b : ℕ) → a < 2 ^ 16 → b < 2 ^ 16 → a ≢ b → sequence_greater a b ≡ not (sequence_greater b a)
unfolding sequence_greater
sequence_greater_swap a b ha hb ne = ground arith

pub sequence_greater_irrefl : (a : ℕ) → sequence_greater a a ≡ false
unfolding sequence_greater
sequence_greater_irrefl a = ground arith

-- The greater of two numbers lies at most 32768 ahead, counted with the wrap, and a number that
-- lies fewer ahead than that is the greater.
pub sequence_greater_ahead :
    (a b : ℕ)
    → a < 2 ^ 16
    → b < 2 ^ 16
    → (sequence_greater a b ≡ true → (1 ≤ sub16 a b) × (sub16 a b ≤ 32768))
      × (1 ≤ sub16 a b → sub16 a b < 32768 → sequence_greater a b ≡ true)
unfolding sequence_greater
sequence_greater_ahead a b ha hb = (λ h. ground arith, λ h k. ground arith)

-- Of two different ticks exactly one is the greater.
pub tick_greater_swap :
    (a b : ℕ) → a < 2 ^ 32 → b < 2 ^ 32 → a ≢ b → tick_greater a b ≡ not (tick_greater b a)
unfolding tick_greater
tick_greater_swap a b ha hb ne = ground arith

pub tick_greater_ahead :
    (a b : ℕ)
    → a < 2 ^ 32
    → b < 2 ^ 32
    → (tick_greater a b ≡ true → (1 ≤ sub32 a b) × (sub32 a b ≤ 2147483648))
      × (1 ≤ sub32 a b → sub32 a b < 2147483648 → tick_greater a b ≡ true)
unfolding tick_greater
tick_greater_ahead a b ha hb = (λ h. ground arith, λ h k. ground arith)
