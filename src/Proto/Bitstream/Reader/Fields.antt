-- ===== src/Proto/Bitstream/Reader/Fields.antt =====
-- The field reads of `BitReader` of src/proto/bitstream.h, on the bits that the writer has for a
-- field.
use native.Mathlib.Nat.{pow-suc, mod-eq_of_lt}
use mathlib.Core.Path.{ap₂}
use morton.Base.{
  ℕ, zero, suc, ◌+◌, ◌*◌, ◌/◌, ◌%◌, ◌^◌, ◌≤◌, ◌<◌, ◌≡◌, refl, sym, ap, ◌∙◌, Bool, true, false, List,
  [], ◌∷◌, ◌++◌, inl, inr, append-nil, append_assoc, length, drop, length-append, drop-drop,
  bit_and, bit_or, ltb, leb, u64, u32, All, if◌then◌else◌, Bool-cases, arith, ◌==◌, ==_iff,
}
use morton.Base.BitList.{
  bits_masked, joined-lt, bits, of_bits, length-bits, bits-add, pow-add, of_bits-bits,
}
use morton.Base.BitOps.{bit_or_shifted, bit_and_mask, bit_and_high}
use morton.Proto.Bitstream.Bytes.{
  flat, IsByte, flat-append, length-flat, flat-drop, flat-prefix, All-drop, drop_first,
}
use morton.Proto.Bitstream.Writer.Emit.{
  varint_groups, varint_bytes, string_bytes, string_bytes_whole,
}
use morton.Proto.Bitstream.Reader.{
  BitReader, new_reader, read_bits, read_bool, read_u8, read_u16, read_u32, read_float, read_u64,
  read_varint_loop, read_varint, read_each, read_string, read_bytes,
}
use morton.Proto.Bitstream.Reader.Take.{
  remaining, IsValid, Read, Reads, read_bits-Reads, length-remaining,
}

pub new_reader-IsValid :
    (buffer : List ℕ) → length buffer < 2 ^ 28 → All IsByte buffer → IsValid (new_reader buffer)
unfolding new_reader
new_reader-IsValid buffer h b = record {
  capacity = omega arith;
  position = omega arith;
  small = omega arith;
  bytes = b;
}

-- A value that fits its bits comes back.
pub read_value-Reads : (n v : ℕ) → n ≤ 32 → v < 2 ^ n → Reads (λ r. read_bits r n) (bits n v) v
read_value-Reads n v h fits r rest k e =
    let value : of_bits (bits n v) ≡ v = of_bits-bits n v ∙ mod-eq_of_lt fits in
    rw value at (read_bits-Reads (bits n v) n (length-bits n v) h r rest k e)

pub read_u8-Reads : (v : ℕ) → v < 2 ^ 8 → Reads read_u8 (bits 8 v) v
unfolding read_u8
read_u8-Reads v h r rest k e =
    let got = read_value-Reads 8 v (omega arith) h r rest k e in
    record {
      value = omega (arith, got.value);
      valid = got.valid;
      left = got.left;
      latch = got.latch;
    }

pub read_u16-Reads : (v : ℕ) → v < 2 ^ 16 → Reads read_u16 (bits 16 v) v
unfolding read_u16
read_u16-Reads v h r rest k e =
    let got = read_value-Reads 16 v (omega arith) h r rest k e in
    record {
      value = omega (arith, got.value);
      valid = got.valid;
      left = got.left;
      latch = got.latch;
    }

pub read_u32-Reads : (v : ℕ) → v < 2 ^ 32 → Reads read_u32 (bits 32 v) v
unfolding read_u32
read_u32-Reads v h r rest k e = read_value-Reads 32 v (omega arith) h r rest k e

pub read_float-Reads : (v : ℕ) → v < 2 ^ 32 → Reads read_float (bits 32 v) v
unfolding read_float
read_float-Reads v h r rest k e = read_value-Reads 32 v (omega arith) h r rest k e

pub read_bool-Reads : (b : Bool) → Reads read_bool (bits 1 (if b then 1 else 0)) b
unfolding read_bool
read_bool-Reads b r rest k e =
    let got = read_value-Reads 1 (if b then 1 else 0) (omega arith) (ground arith) r rest k e in
    record {
      value = ground (arith, got.value);
      valid = got.valid;
      left = got.left;
      latch = got.latch;
    }

pub read_u64-Reads : (v : ℕ) → v < 2 ^ 64 → Reads read_u64 (bits 64 v) v
unfolding read_u64
read_u64-Reads v h r rest k e =
    let low =
      read_value-Reads 32 (v % 2 ^ 32) (omega arith) (omega arith) r (bits 32 (v / 2 ^ 32) ++ rest)
        k split in
    let high =
      read_value-Reads 32 (v / 2 ^ 32) (omega arith) (omega arith) (read_bits r 32).1 rest low.valid
        low.left in
    record {
      value = rw (low.value, high.value) (join v h);
      valid = high.valid;
      left = high.left;
      latch = high.latch ∙ low.latch;
    }
  where
    split : remaining r ≡ bits 32 (v % 2 ^ 32) ++ (bits 32 (v / 2 ^ 32) ++ rest)
    split =
        e
        ∙ ap (λ (xs : List ℕ). xs ++ rest)
            (bits-add 32 32 v
              ∙ ap (λ (xs : List ℕ). xs ++ bits 32 (v / 2 ^ 32)) (sym (bits_masked 32 v)))
        ∙ append_assoc (bits 32 (v % 2 ^ 32)) (bits 32 (v / 2 ^ 32)) rest

    join : (u : ℕ) → u < 2 ^ 64 → bit_or (u % 2 ^ 32) (u64 (u / 2 ^ 32 * 2 ^ 32)) ≡ u
    join u small =
        let in_word : u / 2 ^ 32 * 2 ^ 32 < 2 ^ 64 = omega arith in
        rw (mod-eq_of_lt in_word, bit_or_shifted 32 (u / 2 ^ 32) (u % 2 ^ 32) (omega arith))
          (omega arith)

pub read_each-Reads : (bs : List ℕ) → All IsByte bs → Reads (read_each (length bs)) (flat bs) bs
unfolding read_each
read_each-Reads [] h r rest k e = record { value = refl; valid = k; left = e; latch = refl }
read_each-Reads (b ∷ bs) h r rest k e =
    let first =
      read_u8-Reads b h.0 r (flat bs ++ rest) k (e ∙ append_assoc (bits 8 b) (flat bs) rest) in
    let others = read_each-Reads bs h.1 (read_u8 r).1 rest first.valid first.left in
    record {
      value = ap₂ ◌∷◌ first.value others.value;
      valid = others.valid;
      left = others.left;
      latch = others.latch ∙ first.latch;
    }

-- One round of the varint loop: a group goes above the bits read so far.
or_group :
    (result shift g b : ℕ)
    → result < 2 ^ shift
    → b % 128 ≡ g
    → g * 2 ^ shift < 2 ^ 32
    → bit_or result (u32 (bit_and b 0x7f * 2 ^ shift)) ≡ result + g * 2 ^ shift
or_group result shift g b h e fits =
    rw (bit_and_mask 7 b, e, mod-eq_of_lt fits) (bit_or_shifted shift g result h)

high_clear : (v : ℕ) → v < 128 → (bit_and v 0x80 == 0) ≡ true
high_clear v h = (==_iff _ _).1 (omega (arith, bit_and_high v))

high_set : (g : ℕ) → g < 128 → (bit_and (g + 128) 0x80 == 0) ≡ false
high_set g h = ground (arith, bit_and_high (g + 128))

module _ (left result shift : ℕ) (fresh : result < 2 ^ shift) (r : BitReader) (rest : List ℕ)
    (k : IsValid r) where
  -- A byte below 128 ends the loop.
  last_group :
      (v : ℕ)
      → v < 128
      → v * 2 ^ shift < 2 ^ 32
      → remaining r ≡ bits 8 v ++ rest
      → Read r (result + v * 2 ^ shift) rest (read_varint_loop (suc left) r result shift)
  unfolding read_varint_loop
  last_group v small fits e =
      let got = read_value-Reads 8 v (omega arith) (omega arith) r rest k e in
      rw (got.value, high_clear v small, or_group result shift v v fresh (omega arith) fits)
        (record { value = refl; valid = got.valid; left = got.left; latch = got.latch })

  -- A byte from 128 on adds its group.
  next_group :
      (g : ℕ)
      → g < 128
      → g * 2 ^ shift < 2 ^ 32
      → remaining r ≡ bits 8 (g + 128) ++ rest
      → Read r (g + 128) rest (read_bits r 8)
        × (read_varint_loop (suc left) r result shift
            ≡ read_varint_loop left (read_bits r 8).1 (result + g * 2 ^ shift) (shift + 7))
  unfolding read_varint_loop
  next_group g small fits e =
      let got = read_value-Reads 8 (g + 128) (omega arith) (omega arith) r rest k e in
      (
        got,
        rw (got.value, high_set g small, or_group result shift g (g + 128) fresh (omega arith) fits)
            refl,
      )

-- The loop reads the groups of `v` above `result`, and stops at the last.
varint_loop-Read :
    (more left result shift v : ℕ)
    → more < left
    → v < 128 ^ suc more
    → v * 2 ^ shift < 2 ^ 32
    → result < 2 ^ shift
    → Reads
        (λ r. read_varint_loop left r result shift)
        (flat (varint_groups more v))
        (result + v * 2 ^ shift)
unfolding varint_groups
varint_loop-Read more zero result shift v m big fits h r rest k e = absurd (omega arith)
varint_loop-Read zero (suc left) result shift v m big fits h r rest k e =
    last_group left result shift h r rest k v (omega arith) fits (
      e
      ∙ ap (λ (xs : List ℕ). xs ++ rest)
          (append-nil (bits 8 (v % 128)) ∙ ap (bits 8) (omega arith)))
varint_loop-Read (suc more) (suc left) result shift v m big fits h r rest k e =
    elim (Bool-cases (leb 128 v)) [
      | inl going ↦
          let e' = rw going at e in
          let first =
            next_group left result shift h r (flat (varint_groups more (v / 128)) ++ rest) k
              (v % 128) (omega arith) (omega (arith, fits, parts v (2 ^ shift)))
              (e'
                ∙ append_assoc (bits 8 (v % 128 + 128)) (flat (varint_groups more (v / 128)))
                    rest) in
          let others =
            varint_loop-Read more left (result + v % 128 * 2 ^ shift) (shift + 7) (v / 128)
              (omega arith) (omega (arith, big, pow-suc 128 (suc more)))
              (omega (arith, fits, parts v (2 ^ shift), scale (v / 128) shift))
              (joined-lt shift 7 result (v % 128) h (omega arith)) (read_bits r 8).1 rest
              first.0.valid first.0.left in
          rw first.1 (record {
            value = others.value ∙ omega (arith, parts v (2 ^ shift), scale (v / 128) shift);
            valid = others.valid;
            left = others.left;
            latch = others.latch ∙ first.0.latch;
          })
      | inr last ↦
          let e' = rw last at e in
          last_group left result shift h r rest k v (ground arith) fits (
            e'
            ∙ ap (λ (xs : List ℕ). xs ++ rest)
                (append-nil (bits 8 (v % 128)) ∙ ap (bits 8) (below (ground arith))))
    ]
  where
    parts : (u s : ℕ) → u * s ≡ 128 * (u / 128 * s) + u % 128 * s
    parts u s =
        let whole : u ≡ 128 * (u / 128) + u % 128 = omega arith in
        omega (arith, ap (λ (t : ℕ). t * s) whole)

    scale : (u s : ℕ) → u * 2 ^ (s + 7) ≡ 128 * (u * 2 ^ s)
    scale u s = omega (arith, ap (λ (t : ℕ). u * t) (pow-add s 7))

    below : {u : ℕ} → u < 128 → u % 128 ≡ u
    below h = omega arith

-- A value of 32 bits comes back from the bytes of its groups, and the reader is left behind them.
pub read_varint-Reads :
    (v : ℕ)
    → v < 2 ^ 32
    → (r : BitReader) (rest : List ℕ) → IsValid r
    → remaining r ≡ flat (varint_bytes v) ++ rest
    → Read r v rest (read_varint r)
unfolding read_varint
read_varint-Reads v h r rest k e =
    let e1 : 0 + v * 2 ^ 0 ≡ v = omega arith in
    rw e1 at (
      varint_loop-Read 4 5 0 0 v (omega arith) (omega arith) (omega arith) (omega arith) r rest k e)

-- A text of at most 1023 bytes comes back whole, and the reader is left behind it.
pub read_string-Reads :
    (s : List ℕ)
    → All IsByte s
    → length s < 1024
    → (r : BitReader) (rest : List ℕ) → IsValid r
    → remaining r ≡ flat (string_bytes s) ++ rest
    → Read r s rest (read_string r)
unfolding read_string
read_string-Reads s h fits r rest k e =
    let first = read_varint-Reads (length s) (omega arith) r (flat s ++ rest) k (
      e
      ∙ ap (λ (t : List ℕ). flat t ++ rest) (string_bytes_whole s fits)
      ∙ ap (λ (t : List ℕ). t ++ rest) (flat-append (varint_bytes (length s)) s)
      ∙ append_assoc (flat (varint_bytes (length s))) (flat s) rest) in
    let others = read_each-Reads s h (read_varint r).1 rest first.valid first.left in
    let short : ltb 1023 (length s) ≡ false = ground arith in
    rw (first.value, short)
      (record {
        value = others.value;
        valid = others.valid;
        left = others.left;
        latch = others.latch ∙ first.latch;
      })

-- A run of bytes comes back, from a byte boundary as a part of the buffer and from anywhere else
-- one by one, and the reader is left behind it.
pub read_bytes-Reads :
    (bs : List ℕ)
    → All IsByte bs
    → (r : BitReader) (rest : List ℕ) → IsValid r
    → remaining r ≡ flat bs ++ rest
    → Read r bs rest (read_bytes r (length bs))
unfolding read_bytes
read_bytes-Reads bs h r rest k e = elim (Bool-cases (bit_and r.bit_pos 7 == 0)) [
  | inl aligned ↦
      let at : r.bit_pos % 8 ≡ 0 = ground (arith, bit_and_mask 3 r.bit_pos) in
      let here : flat (drop (r.bit_pos / 8) r.buffer) ≡ flat bs ++ rest =
        flat-drop (r.bit_pos / 8) r.buffer ∙ ap (λ n. drop n (flat r.buffer)) (omega arith) ∙ e in
      let bytes_left : All IsByte (drop (r.bit_pos / 8) r.buffer) =
        All-drop (r.bit_pos / 8) r.buffer k.bytes in
      let both = flat-prefix bs (drop (r.bit_pos / 8) r.buffer) rest h bytes_left here in
      let enough : r.bit_pos + length bs * 8 ≤ r.capacity_bits =
        omega (
          arith,
          length-remaining r k,
          ap length e,
          length-append (flat bs) rest,
          length-flat bs,
        ) in
      let after : u32 (r.bit_pos + length bs * 8) ≡ r.bit_pos + 8 * length bs =
        omega (arith, k.small) in
      let room : ltb r.capacity_bits (u64 (r.bit_pos + length bs * 8)) ≡ false =
        ground (arith, k.small) in
      rw (aligned, room)
        (record {
          value = both.0;
          valid = record {
            capacity = k.capacity;
            position = omega (arith, k.small);
            small = k.small;
            bytes = k.bytes;
          };
          left =
              ap (λ n. drop n (flat r.buffer)) after
              ∙ sym (drop-drop r.bit_pos (8 * length bs) (flat r.buffer))
              ∙ ap (drop (8 * length bs)) e
              ∙ drop_first (flat bs) rest (8 * length bs) (length-flat bs);
          latch = refl;
        })
  | inr split ↦ rw split (read_each-Reads bs h r rest k e)
]
