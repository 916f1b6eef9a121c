-- ===== src/Proto/Bitstream/Writer.antt =====
-- `BitWriter`. Of the caller's buffer the model keeps the bytes that are written so far, in order:
-- `buffer` is `buffer_[0 .. flushed_bytes_)`, so `flushed_bytes_` is its length.
pub mod Append
pub mod Emit
pub mod Finish
use morton.Base.{
  ℕ, zero, suc, ◌+◌, ◌-◌, ◌*◌, ◌^◌, Bool, true, false, not, List, [], ◌∷◌, ◌++◌, bit_and, bit_or,
  ltb, leb, ◌==◌, if◌then◌else◌, length, take, u8, u32, u64, sub32, ◌<<<◌, ◌>>>◌,
}

pub record BitWriter : Type 0 where
  pub buffer : List ℕ
  pub capacity_bits : ℕ
  pub bit_pos : ℕ
  pub accumulator : ℕ
  pub pending_bits : ℕ
  pub overflow : Bool

-- The constructor, over a buffer of `capacity` bytes.
unfoldable pub new_writer : ℕ → BitWriter
new_writer capacity = record {
  buffer = [];
  capacity_bits = u32 (capacity * 8);
  bit_pos = 0;
  accumulator = 0;
  pending_bits = 0;
  overflow = false;
}

-- One round of the loop in `write_bits`.
abbrev pub flush_byte : BitWriter → BitWriter
flush_byte w = record w {
  buffer = w.buffer ++ (u8 w.accumulator ∷ []);
  accumulator = w.accumulator >>> 8;
  pending_bits = w.pending_bits - 8;
}

-- `while (pending_bits_ >= 8)`. Each round takes 8 bits, so `pending_bits_` rounds are enough.
unfoldable pub flush_bytes : ℕ → BitWriter → BitWriter
flush_bytes zero w = w
flush_bytes (suc fuel) w = elim (leb 8 w.pending_bits) [
  | true ↦ flush_bytes fuel (flush_byte w)
  | false ↦ w
]

-- `if (bits < 32) value &= (1u << bits) - 1u;`
unfoldable pub mask_value : ℕ → ℕ → ℕ
mask_value value count = if ltb count 32 then bit_and value (2 ^ count - 1) else value

-- The state that the loop of `write_bits` starts from.
unfoldable pub push_bits : BitWriter → ℕ → ℕ → BitWriter
push_bits w value count = record w {
  accumulator = bit_or w.accumulator (u64 (mask_value value count <<< w.pending_bits));
  pending_bits = u32 (w.pending_bits + count);
  bit_pos = u32 (w.bit_pos + count);
}

unfoldable pub write_bits : BitWriter → ℕ → ℕ → BitWriter
write_bits w value count =
    if count == 0
    then w
    else if ltb w.capacity_bits (u32 (w.bit_pos + count))
    then record w { overflow = true }
    else flush_bytes (push_bits w value count).pending_bits (push_bits w value count)

unfoldable pub write_bool : BitWriter → Bool → BitWriter
write_bool w value = write_bits w (if value then 1 else 0) 1

unfoldable pub write_u8 : BitWriter → ℕ → BitWriter
write_u8 w value = write_bits w value 8

unfoldable pub write_u16 : BitWriter → ℕ → BitWriter
write_u16 w value = write_bits w value 16

unfoldable pub write_u32 : BitWriter → ℕ → BitWriter
write_u32 w value = write_bits w value 32

-- A `float` is given as its bit pattern, which is what `std::memcpy` copies.
unfoldable pub write_float : BitWriter → ℕ → BitWriter
write_float w value = write_bits w value 32

unfoldable pub write_u64 : BitWriter → ℕ → BitWriter
write_u64 w value =
    write_bits (write_bits w (u32 (bit_and value 0xffff_ffff)) 32) (u32 (value >>> 32)) 32

-- `while (value >= 0x80) { ... value >>= 7; }` and the last group.
unfoldable pub write_varint_loop : ℕ → BitWriter → ℕ → BitWriter
write_varint_loop zero w value = write_bits w (bit_and value 0x7f) 8
write_varint_loop (suc fuel) w value = elim (leb 0x80 value) [
  | true ↦ write_varint_loop fuel (write_bits w (bit_or (bit_and value 0x7f) 0x80) 8) (value >>> 7)
  | false ↦ write_bits w (bit_and value 0x7f) 8
]

-- A 32-bit value is below 0x80 after four rounds.
unfoldable pub write_varint : BitWriter → ℕ → BitWriter
write_varint w value = write_varint_loop 4 w value

-- `for (u32 i = 0; i < count; ++i) write_u8(data[i]);` over the bytes that the loop reads.
unfoldable pub write_each : BitWriter → List ℕ → BitWriter
write_each w [] = w
write_each w (b ∷ bs) = write_each (write_u8 w b) bs

unfoldable pub write_string : BitWriter → List ℕ → BitWriter
write_string w value =
    let len = u32 (if ltb 1023 (length value) then 1023 else length value) in
    write_each (write_varint w len) (take len value)

-- The `memcpy` at a byte boundary.
unfoldable pub append_bytes : BitWriter → List ℕ → BitWriter
append_bytes w block =
    if ltb w.capacity_bits (u64 (w.bit_pos + length block * 8))
    then record w { overflow = true }
    else record w { buffer = w.buffer ++ block; bit_pos = u32 (w.bit_pos + length block * 8) }

-- `block` is the `count` bytes at `data`.
unfoldable pub write_bytes : BitWriter → List ℕ → BitWriter
write_bytes w block = if not (w.pending_bits == 0) then write_each w block else append_bytes w block

unfoldable pub align : BitWriter → BitWriter
align w = let rem = bit_and w.bit_pos 7 in if not (rem == 0) then write_bits w 0 (8 - rem) else w

-- What `bytes_written` leaves in the buffer, and the length that it returns.
unfoldable pub finished : BitWriter → List ℕ
finished w = if ltb 0 w.pending_bits then w.buffer ++ (u8 w.accumulator ∷ []) else w.buffer

unfoldable pub bytes_written : BitWriter → ℕ
bytes_written w = length w.buffer + (if ltb 0 w.pending_bits then 1 else 0)

unfoldable pub bits_remaining : BitWriter → ℕ
bits_remaining w = sub32 w.capacity_bits w.bit_pos
