-- ===== src/Proto/Bitstream/Reader/Buffer.antt =====
-- The buffer of a `BitReader` of src/proto/bitstream.h across its reads.
use morton.Base.{
  ℕ, zero, suc, ◌+◌, ◌*◌, ◌≡◌, refl, ◌∙◌, not, inl, inr, ltb, ◌==◌, bit_and, u32, u64, Bool-cases,
}
use morton.Proto.Bitstream.Reader.{
  BitReader, read_bits, read_u8, read_u16, read_u32, read_each, read_bytes,
}

pub read_bits-buffer : (r : BitReader) (n : ℕ) → (read_bits r n).1.buffer ≡ r.buffer
unfolding read_bits
read_bits-buffer r n = elim (Bool-cases (n == 0)) [
  | inl nothing ↦ rw nothing refl
  | inr something ↦ elim (Bool-cases (ltb r.capacity_bits (u32 (r.bit_pos + n)))) [
    | inl short ↦ rw (something, short) refl
    | inr room ↦ rw (something, room) refl
  ]
]

pub read_u8-buffer : (r : BitReader) → (read_u8 r).1.buffer ≡ r.buffer
unfolding read_u8
read_u8-buffer r = read_bits-buffer r 8

pub read_u16-buffer : (r : BitReader) → (read_u16 r).1.buffer ≡ r.buffer
unfolding read_u16
read_u16-buffer r = read_bits-buffer r 16

pub read_u32-buffer : (r : BitReader) → (read_u32 r).1.buffer ≡ r.buffer
unfolding read_u32
read_u32-buffer r = read_bits-buffer r 32

read_each-buffer : (n : ℕ) (r : BitReader) → (read_each n r).1.buffer ≡ r.buffer
unfolding read_each
read_each-buffer zero r = refl
read_each-buffer (suc n) r = read_each-buffer n (read_u8 r).1 ∙ read_u8-buffer r

pub read_bytes-buffer : (r : BitReader) (n : ℕ) → (read_bytes r n).1.buffer ≡ r.buffer
unfolding read_bytes
read_bytes-buffer r n = elim (Bool-cases (not (bit_and r.bit_pos 7 == 0))) [
  | inl split ↦ rw split (read_each-buffer n r)
  | inr aligned ↦ elim (Bool-cases (ltb r.capacity_bits (u64 (r.bit_pos + n * 8)))) [
    | inl short ↦ rw (aligned, short) refl
    | inr room ↦ rw (aligned, room) refl
  ]
]
