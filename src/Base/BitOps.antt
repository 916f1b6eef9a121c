-- ===== src/Base/BitOps.antt =====
-- `|` of disjoint fields and `&` with a low mask as arithmetic, at every width, from the equation
-- for the lowest digit. The native operations are a recursion on binary digits with fuel.
use Prim.Native.Nat.{
  ℕ, zero, suc, ◌+◌, ◌-◌, ◌*◌, ◌/◌, ◌%◌, ◌^◌, ◌≤◌, ◌<◌, min, max, bit_and, bit_or, digits, bitwise,
  bit_and-bitwise, bit_or-bitwise,
}
use mathlib.Core.Path.{◌≡◌, refl, sym, ap, ◌∙◌}
use native.Mathlib.Nat.{div-div-eq-div-mul, pow-suc, one-le-pow}
use native.Mathlib.Omega.{arith}

module _ (base : ℕ → ℕ) (digit : ℕ → ℕ → ℕ) where
  no_digits : (y fuel : ℕ) → digits base digit fuel zero y ≡ base y
  no_digits y zero = refl
  no_digits y (suc fuel) = refl

  -- Any two fuels from the number itself on give the same result.
  same_digits : (x y i j : ℕ) → x ≤ i → x ≤ j → digits base digit i x y ≡ digits base digit j x y
  same_digits zero y i j hi hj = no_digits y i ∙ sym (no_digits y j)
  same_digits (suc x) y zero j hi hj = absurd (omega arith)
  same_digits (suc x) y (suc i) zero hi hj = absurd (omega arith)
  same_digits (suc x) y (suc i) (suc j) hi hj =
      let half : suc x / 2 ≤ x = omega arith in
      rw (same_digits (suc x / 2) (y / 2) i j (omega arith) (omega arith))

  lowest_digit :
      (x y : ℕ)
      → bitwise base digit (suc x) y
        ≡ digit (suc x % 2) (y % 2) + 2 * bitwise base digit (suc x / 2) (y / 2)
  lowest_digit x y =
      let half : suc x / 2 ≤ x = omega arith in
      omega (arith, same_digits (suc x / 2) (y / 2) x (suc x / 2) half (omega arith))

pub bit_or_step : (x y : ℕ) → bit_or x y ≡ max (x % 2) (y % 2) + 2 * bit_or (x / 2) (y / 2)
bit_or_step zero y = simp bit_or-bitwise (omega arith)
bit_or_step (suc x) y = simp bit_or-bitwise (lowest_digit (λ t. t) max x y)

pub bit_and_step : (x y : ℕ) → bit_and x y ≡ min (x % 2) (y % 2) + 2 * bit_and (x / 2) (y / 2)
bit_and_step zero y = simp bit_and-bitwise (omega arith)
bit_and_step (suc x) y = simp bit_and-bitwise (lowest_digit (λ t. zero) min x y)

-- `bound` is any number that is not less.
or_zero_within : (bound x : ℕ) → x ≤ bound → bit_or x 0 ≡ x
or_zero_within bound zero low = refl
or_zero_within zero (suc x) low = absurd (omega arith)
or_zero_within (suc bound) (suc x) low =
    let half = or_zero_within bound (suc x / 2) (omega arith) in
    omega (arith, half, bit_or_step (suc x) 0)

and_zero_within : (bound x : ℕ) → x ≤ bound → bit_and x 0 ≡ 0
and_zero_within bound zero low = refl
and_zero_within zero (suc x) low = absurd (omega arith)
and_zero_within (suc bound) (suc x) low =
    let half = and_zero_within bound (suc x / 2) (omega arith) in
    omega (arith, half, bit_and_step (suc x) 0)

pub bit_or-zero : (a : ℕ) → bit_or a 0 ≡ a
bit_or-zero a = or_zero_within a a (omega arith)

pub bit_and-zero : (a : ℕ) → bit_and a 0 ≡ 0
bit_and-zero a = and_zero_within a a (omega arith)

pub zero-bit_or : (b : ℕ) → bit_or 0 b ≡ b
zero-bit_or b = simp bit_or-bitwise refl

scale-suc : (q k : ℕ) → q * 2 ^ suc k ≡ 2 * (q * 2 ^ k)
scale-suc q k = omega (arith, ap (λ (t : ℕ). q * t) (pow-suc 2 k))

-- `low | (high << k)` is a sum when `low` fits `k` bits.
pub bit_or_shifted : (k high low : ℕ) → low < 2 ^ k → bit_or low (high * 2 ^ k) ≡ low + high * 2 ^ k
bit_or_shifted zero high zero h = omega (arith, zero-bit_or (high * 2 ^ 0))
bit_or_shifted zero high (suc low) h = absurd (omega arith)
bit_or_shifted (suc k) high low h = ground (
  arith,
  bit_or_step low (high * 2 ^ suc k),
  scale-suc high k,
  pow-suc 2 k,
  bit_or_shifted k high (low / 2) (omega (arith, pow-suc 2 k)),
)

and_mask_split : (k q r : ℕ) → r < 2 ^ k → bit_and (q * 2 ^ k + r) (2 ^ k - 1) ≡ r
and_mask_split zero q r h = rw bit_and-zero (omega arith)
and_mask_split (suc k) q r h = ground (
  arith,
  bit_and_step (q * 2 ^ suc k + r) (2 ^ suc k - 1),
  scale-suc q k,
  pow-suc 2 k,
  and_mask_split k q (r / 2) (omega (arith, pow-suc 2 k)),
)

-- A mask of `k` low bits is the remainder by `2 ^ k`.
pub bit_and_mask : (k a : ℕ) → bit_and a (2 ^ k - 1) ≡ a % 2 ^ k
bit_and_mask k a = ground (arith, one-le-pow k 2, and_mask_split k (a / 2 ^ k) (a % 2 ^ k))

shift_one : (k x : ℕ) → bit_and x (2 ^ suc k) ≡ 2 * bit_and (x / 2) (2 ^ k)
shift_one k x =
    let even : 2 ^ suc k % 2 ≡ 0 = omega (arith, pow-suc 2 k) in
    let half : 2 ^ suc k / 2 ≡ 2 ^ k = omega (arith, pow-suc 2 k) in
    omega (arith, bit_and_step x (2 ^ suc k), even, ap (bit_and (x / 2)) half)

-- The highest bit of a number of `suc k` bits.
top_bit : (k x : ℕ) → x < 2 ^ suc k → bit_and x (2 ^ k) ≡ x / 2 ^ k * 2 ^ k
top_bit zero x low = omega (arith, bit_and_step x 1, bit_and-zero (x / 2))
top_bit (suc k) x low =
    let double : 2 * 2 ^ k ≡ 2 ^ suc k = omega (arith, pow-suc 2 k) in
    let quotient : x / 2 / 2 ^ k ≡ x / 2 ^ suc k =
      div-div-eq-div-mul x 2 (2 ^ k) ∙ ap (λ p. x / p) double in
    let below : x / 2 < 2 ^ suc k = omega (arith, pow-suc 2 (suc k)) in
    shift_one k x
    ∙ ap (λ t. 2 * t) (top_bit k (x / 2) below)
    ∙ sym (scale-suc (x / 2 / 2 ^ k) k)
    ∙ ap (λ q. q * 2 ^ suc k) quotient

-- The high bit of a byte.
pub bit_and_high : (x : ℕ) → x < 256 → bit_and x 0x80 ≡ x / 128 * 128
bit_and_high x low = top_bit 7 x low
