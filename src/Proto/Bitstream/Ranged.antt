-- ===== src/Proto/Bitstream/Ranged.antt =====
-- `write_ranged`, `read_ranged` and `bits_required` of src/proto/bitstream.h. An `i32` is its bit
-- pattern, a number below 2 ^ 32. Signed overflow is undefined in the source, so the two functions
-- are modelled for the ranges in which it cannot happen, `IsRange`, as all ranges of the program are.
use native.Mathlib.Nat.{pow-suc}
use morton.Base.{
  ℕ, zero, suc, ◌+◌, ◌/◌, ◌^◌, ◌≤◌, ◌<◌, ◌≡◌, ◌∙◌, Bool, false, inl, inr, ltb, ◌==◌, ◌++◌,
  if◌then◌else◌, u32, sub32, ◌>>>◌, Bool-cases, List, arith,
}
use morton.Base.BitList.{bits}
use morton.Proto.Bitstream.Writer.{BitWriter, write_bits}
use morton.Proto.Bitstream.Writer.Emit.{Emits, write_bits-Emits}
use morton.Proto.Bitstream.Reader.{BitReader, read_bits}
use morton.Proto.Bitstream.Reader.Take.{IsValid, Read, remaining}
use morton.Proto.Bitstream.Reader.Fields.{read_value-Reads}

-- `a < b` between signed 32-bit values.
abbrev pub signed_ltb : ℕ → ℕ → Bool
signed_ltb a b = ltb (u32 (a + 2 ^ 31)) (u32 (b + 2 ^ 31))

-- `while (range > 0)`: 32 halvings empty any 32-bit value.
unfoldable pub count_bits : ℕ → ℕ → ℕ → ℕ
count_bits zero range bits = bits
count_bits (suc fuel) range bits =
    let rest = count_bits fuel (range >>> 1) (bits + 1) in if ltb 0 range then rest else bits

-- The difference in `i64`, cast to `u32`.
unfoldable pub bits_required : ℕ → ℕ → ℕ
bits_required min max = let bits = count_bits 32 (sub32 max min) 0 in if bits == 0 then 1 else bits

unfoldable pub clamp_ranged : ℕ → ℕ → ℕ → ℕ
clamp_ranged value min max =
    let raised = (if signed_ltb value min then min else value) in
    if signed_ltb max raised then max else raised

-- Bounds with which no `i32` overflows, whatever value is written and whatever bits are read: the
-- distance between them is an `i32`, and so is `min` plus anything that the counted bits can hold.
-- 2 ^ 31 added to an `i32` makes its order that of the numbers.
pub record IsRange (min max : ℕ) : Type 0 where
  pub min_fits : min < 2 ^ 32
  pub max_fits : max < 2 ^ 32
  pub ordered : u32 (min + 2 ^ 31) ≤ u32 (max + 2 ^ 31)
  pub narrow : u32 (max + 2 ^ 31) < u32 (min + 2 ^ 31) + 2 ^ 31
  pub safe : u32 (min + 2 ^ 31) + 2 ^ bits_required min max ≤ 2 ^ 32

unfoldable pub write_ranged : BitWriter → ℕ → (min max : ℕ) → IsRange min max → BitWriter
write_ranged w value min max range =
    write_bits w (sub32 (clamp_ranged value min max) min) (bits_required min max)

unfoldable pub read_ranged : BitReader → (min max : ℕ) → IsRange min max → ℕ × BitReader
read_ranged r min max range =
    let (value, r') = read_bits r (bits_required min max) in (u32 (value + min), r')

-- The loop counts the binary digits.
count_bits-lt :
    (fuel range bits : ℕ)
    → range < 2 ^ fuel
    → (extra : ℕ) × (count_bits fuel range bits ≡ bits + extra)
      × (range < 2 ^ extra)
      × (extra ≤ fuel)
unfolding count_bits
count_bits-lt zero range bits h = (0, omega arith, h, omega arith)
count_bits-lt (suc fuel) range bits h = elim (Bool-cases (ltb 0 range)) [
  | inl some ↦
      let (extra, e, lt, le) =
        count_bits-lt fuel (range / 2) (bits + 1) (omega (arith, pow-suc 2 fuel)) in
      (
        suc extra,
        rw (some, count_bits) (e ∙ omega arith),
        omega (arith, lt, pow-suc 2 extra),
        omega (arith, le),
      )
  | inr none ↦ (0, rw (none, count_bits) (omega arith), ground arith, omega arith)
]

at_least_one :
    (range extra : ℕ)
    → range < 2 ^ extra
    → extra ≤ 32
    → (range < 2 ^ (if extra == 0 then 1 else extra)) × ((if extra == 0 then 1 else extra) ≤ 32)
at_least_one range zero h k = (omega arith, omega arith)
at_least_one range (suc extra) h k =
    let positive : (suc extra == 0) ≡ false = ground arith in rw positive (h, k)

-- For any two bounds, the distance from `min` to `max` fits the bits that are counted for it, and
-- there are at most 32 of them.
pub bits_required-fits :
    (min max : ℕ) → (sub32 max min < 2 ^ bits_required min max) × (bits_required min max ≤ 32)
unfolding bits_required
bits_required-fits min max =
    let (extra, e, lt, le) = count_bits-lt 32 (sub32 max min) 0 (omega arith) in
    let e' : count_bits 32 (sub32 max min) 0 ≡ extra = omega (arith, e) in
    rw e' (at_least_one (sub32 max min) extra lt le)

abbrev pub InRange : ℕ → ℕ → ℕ → Type 0
InRange value min max =
    (value < 2 ^ 32)
    × (min < 2 ^ 32)
    × (max < 2 ^ 32)
    × (signed_ltb value min ≡ false)
    × (signed_ltb max value ≡ false)

clamp-InRange : (value min max : ℕ) → InRange value min max → clamp_ranged value min max ≡ value
unfolding clamp_ranged
clamp-InRange value min max h = ground arith

ranged_fits :
    (value min max : ℕ) → InRange value min max → sub32 value min < 2 ^ bits_required min max
ranged_fits value min max h =
    omega (arith, offset_le value min max h, (bits_required-fits min max).0)
  where
    offset_le : (v lo hi : ℕ) → InRange v lo hi → sub32 v lo ≤ sub32 hi lo
    offset_le v lo hi k = ground arith

pub write_ranged-Emits :
    (w : BitWriter) (value min max : ℕ) (range : IsRange min max)
    → InRange value min max
    → Emits w (bits (bits_required min max) (sub32 value min)) (write_ranged w value min max range)
unfolding write_ranged
write_ranged-Emits w value min max range h = rw (clamp-InRange value min max h) (
    write_bits-Emits w (sub32 value min) (bits_required min max) (bits_required-fits min max).1
      (omega arith))

-- In a range in which no `i32` overflows (IsRange), a value of the range, negative ones included,
-- comes back from its bits.
pub read_ranged-Reads :
    (value min max : ℕ) (range : IsRange min max)
    → InRange value min max
    → (r : BitReader) (rest : List ℕ) → IsValid r
    → remaining r ≡ bits (bits_required min max) (sub32 value min) ++ rest
    → Read r value rest (read_ranged r min max range)
unfolding read_ranged
read_ranged-Reads value min max range h r rest k e =
    let got =
      read_value-Reads (bits_required min max) (sub32 value min) (bits_required-fits min max).1
        (ranged_fits value min max h) r rest k e in
    record {
      value = rw got.value (omega arith);
      valid = got.valid;
      left = got.left;
      latch = got.latch;
    }
