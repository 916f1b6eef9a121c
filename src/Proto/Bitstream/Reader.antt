-- ===== src/Proto/Bitstream/Reader.antt =====
-- `BitReader`. Each read returns its value and the new reader.
pub mod Take
pub mod Fields
pub mod Buffer
pub mod Chain
use morton.Base.{
  ℕ, zero, suc, ◌+◌, ◌-◌, ◌*◌, ◌^◌, Bool, true, false, not, List, [], ◌∷◌, bit_and, bit_or, ltb,
  ◌==◌, if◌then◌else◌, get_or, length, take, drop, u8, u16, u32, u64, sub32, ◌<<<◌, ◌>>>◌,
}

pub record BitReader : Type 0 where
  pub buffer : List ℕ
  pub capacity_bits : ℕ
  pub bit_pos : ℕ
  pub overflow : Bool

-- The constructor, over the `size` bytes at `buffer`.
unfoldable pub new_reader : List ℕ → BitReader
new_reader buffer = record {
  buffer = buffer;
  capacity_bits = u32 (length buffer * 8);
  bit_pos = 0;
  overflow = false;
}

-- `while (remaining > 0)`: at least one bit a round, so `remaining` rounds are enough. The result
-- is `result` with the new `bit_pos_`.
unfoldable pub read_loop : ℕ → List ℕ → ℕ → ℕ → ℕ → ℕ → ℕ × ℕ
read_loop zero buffer result written remaining bit_pos = (result, bit_pos)
read_loop (suc fuel) buffer result written remaining bit_pos = elim (ltb 0 remaining) [
  | true ↦
      let byte_index = bit_pos >>> 3 in
      let bit_offset = bit_and bit_pos 7 in
      let avail_in_byte = 8 - bit_offset in
      let step = (if ltb remaining avail_in_byte then remaining else avail_in_byte) in
      let chunk = bit_and (get_or buffer byte_index 0 >>> bit_offset) (2 ^ step - 1) in
      read_loop fuel buffer (bit_or result (u32 (chunk <<< written))) (written + step)
        (remaining - step) (bit_pos + step)
  | false ↦ (result, bit_pos)
]

unfoldable pub read_bits : BitReader → ℕ → ℕ × BitReader
read_bits r count =
    if count == 0
    then (0, r)
    else if ltb r.capacity_bits (u32 (r.bit_pos + count))
    then (0, record r { overflow = true })
    else let (result, bit_pos) = read_loop count r.buffer 0 0 count r.bit_pos in
      (result, record r { bit_pos = bit_pos })

unfoldable pub read_bool : BitReader → Bool × BitReader
read_bool r = let (value, r') = read_bits r 1 in (not (value == 0), r')

unfoldable pub read_u8 : BitReader → ℕ × BitReader
read_u8 r = let (value, r') = read_bits r 8 in (u8 value, r')

unfoldable pub read_u16 : BitReader → ℕ × BitReader
read_u16 r = let (value, r') = read_bits r 16 in (u16 value, r')

unfoldable pub read_u32 : BitReader → ℕ × BitReader
read_u32 r = read_bits r 32

unfoldable pub read_float : BitReader → ℕ × BitReader
read_float r = read_bits r 32

unfoldable pub read_u64 : BitReader → ℕ × BitReader
read_u64 r =
    let (low, r1) = read_bits r 32 in
    let (high, r2) = read_bits r1 32 in (bit_or low (u64 (high <<< 32)), r2)

-- `for (int i = 0; i < 5; ++i)`, with the rounds that are left.
unfoldable pub read_varint_loop : ℕ → BitReader → ℕ → ℕ → ℕ × BitReader
read_varint_loop zero r result shift = (result, r)
read_varint_loop (suc left) r result shift =
    let (byte, r') = read_bits r 8 in
    let result' = bit_or result (u32 (bit_and byte 0x7f <<< shift)) in
    let rest = read_varint_loop left r' result' (shift + 7) in
    if bit_and byte 0x80 == 0 then (result', r') else rest

unfoldable pub read_varint : BitReader → ℕ × BitReader
read_varint r = read_varint_loop 5 r 0 0

-- `for (u32 i = 0; i < count; ++i) out[i] = read_u8();`
unfoldable pub read_each : ℕ → BitReader → List ℕ × BitReader
read_each zero r = ([], r)
read_each (suc left) r =
    let (byte, r1) = read_u8 r in let (rest, r2) = read_each left r1 in (byte ∷ rest, r2)

unfoldable pub read_string : BitReader → List ℕ × BitReader
read_string r =
    let (len, r') = read_varint r in
    if ltb 1023 len then ([], record r' { overflow = true }) else read_each len r'

-- The bytes that are stored at `out`; none on overflow at a byte boundary.
unfoldable pub read_bytes : BitReader → ℕ → List ℕ × BitReader
read_bytes r count =
    if not (bit_and r.bit_pos 7 == 0)
    then read_each count r
    else if ltb r.capacity_bits (u64 (r.bit_pos + count * 8))
    then ([], record r { overflow = true })
    else (
      take count (drop (r.bit_pos >>> 3) r.buffer),
      record r { bit_pos = u32 (r.bit_pos + count * 8) },
    )

unfoldable pub align : BitReader → BitReader
align r = let rem = bit_and r.bit_pos 7 in if not (rem == 0) then (read_bits r (8 - rem)).1 else r

unfoldable pub bytes_read : BitReader → ℕ
bytes_read r = u32 (r.bit_pos + 7) >>> 3

unfoldable pub bits_remaining : BitReader → ℕ
bits_remaining r = sub32 r.capacity_bits r.bit_pos
