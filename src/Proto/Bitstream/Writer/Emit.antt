-- ===== src/Proto/Bitstream/Writer/Emit.antt =====
-- The writes of `BitWriter` of src/proto/bitstream.h with and without room, and chains of them.
use native.Mathlib.Decide.{dec_le}
use mathlib.Core.Path.{ap₂}
use morton.Base.{
  min, ℕ, zero, suc, ◌+◌, ◌*◌, ◌/◌, ◌%◌, ◌^◌, ◌≤◌, ◌<◌, ◌≡◌, refl, sym, ap, ◌∙◌, Bool, true, false,
  List, [], ◌∷◌, ◌++◌, inl, inr, append-nil, length, take, take-length, All, All-append,
  length-append, bit_and, bit_or, ltb, leb, u64, u32, if◌then◌else◌, Bool-cases, arith, ◌==◌,
}
use morton.Base.BitList.{bits_masked, bits_none, bits, length-bits, bits-add}
use morton.Base.BitOps.{bit_or_shifted, bit_and_mask}
use morton.Proto.Bitstream.Bytes.{flat, IsByte, flat-append, length-flat}
use morton.Proto.Bitstream.Writer.{
  BitWriter, flush_byte, flush_bytes, push_bits, write_bits, write_bool, write_u8, write_u16,
  write_u32, write_float, write_u64, write_varint_loop, write_varint, write_each, write_string,
  append_bytes, write_bytes,
}
use morton.Proto.Bitstream.Writer.Append.{
  IsValid, Writes, Writes-nil, Writes-trans, write_bits-Writes,
}

-- `w'` is what a write of the bits `xs` makes of `w`.
pub record Emits (w : BitWriter) (xs : List ℕ) (w' : BitWriter) : Type 0 where
  pub fits : IsValid w → w.bit_pos + length xs ≤ w.capacity_bits → Writes w xs w'
  pub full : IsValid w → w.capacity_bits < w.bit_pos + length xs → w'.overflow ≡ true
  pub sticky : w.overflow ≡ true → w'.overflow ≡ true

pub Emits-trans :
    {w w' w'' : BitWriter} (xs ys : List ℕ)
    → Emits w xs w'
    → Emits w' ys w''
    → Emits w (xs ++ ys) w''
Emits-trans {w} xs ys a b = record {
  fits = λ k r.
      let first = a.fits k (omega (arith, length-append xs ys)) in
      Writes-trans first
        (b.fits first.valid (omega (arith, length-append xs ys, first.position, first.capacity)));
  full = λ k r. elim (dec_le (w.bit_pos + length xs) w.capacity_bits) [
    | yes room ↦
        let first = a.fits k room in
        b.full first.valid (omega (arith, length-append xs ys, first.position, first.capacity))
    | no over ↦ b.sticky (a.full k (omega arith))
  ];
  sticky = λ e. b.sticky (a.sticky e);
}

flush_bytes-overflow : (fuel : ℕ) (w : BitWriter) → (flush_bytes fuel w).overflow ≡ w.overflow
unfolding flush_bytes
flush_bytes-overflow zero w = refl
flush_bytes-overflow (suc fuel) w = ground (arith, flush_bytes-overflow fuel (flush_byte w))

pub write_bits-Emits :
    (w : BitWriter) (v n : ℕ) → n ≤ 32 → v < 2 ^ 32 → Emits w (bits n v) (write_bits w v n)
write_bits-Emits w v n h hv = record {
  fits = λ k r. write_bits-Writes w v n k h hv (omega (arith, length-bits n v));
  full = λ k r. over k (omega (arith, length-bits n v));
  sticky = λ e.
      unfold write_bits push_bits in
      ground (arith, flush_bytes-overflow (push_bits w v n).pending_bits (push_bits w v n));
}
  where
    over : IsValid w → w.capacity_bits < w.bit_pos + n → (write_bits w v n).overflow ≡ true
    over k r = unfold write_bits in ground (arith, k.counted.small, k.counted.room)

pub Emits-nil : (w : BitWriter) → Emits w [] w
Emits-nil w = record {
  fits = λ k r. Writes-nil k;
  full = λ k r. absurd (omega (arith, k.counted.room));
  sticky = λ e. e;
}

-- The bits of a write may be given as another list, equal to its own.
pub Emits-eq : {w w' : BitWriter} {xs ys : List ℕ} → xs ≡ ys → Emits w xs w' → Emits w ys w'
Emits-eq {w} {w'} e a = rw e at a

pub write_bool-Emits :
    (w : BitWriter) (b : Bool) → Emits w (bits 1 (if b then 1 else 0)) (write_bool w b)
unfolding write_bool
write_bool-Emits w b = write_bits-Emits w (if b then 1 else 0) 1 (omega arith) (ground arith)

pub write_u8-Emits : (w : BitWriter) (v : ℕ) → v < 2 ^ 8 → Emits w (bits 8 v) (write_u8 w v)
unfolding write_u8
write_u8-Emits w v h = write_bits-Emits w v 8 (omega arith) (omega arith)

pub write_u16-Emits : (w : BitWriter) (v : ℕ) → v < 2 ^ 16 → Emits w (bits 16 v) (write_u16 w v)
unfolding write_u16
write_u16-Emits w v h = write_bits-Emits w v 16 (omega arith) (omega arith)

pub write_u32-Emits : (w : BitWriter) (v : ℕ) → v < 2 ^ 32 → Emits w (bits 32 v) (write_u32 w v)
unfolding write_u32
write_u32-Emits w v h = write_bits-Emits w v 32 (omega arith) h

pub write_float-Emits : (w : BitWriter) (v : ℕ) → v < 2 ^ 32 → Emits w (bits 32 v) (write_float w v)
unfolding write_float
write_float-Emits w v h = write_bits-Emits w v 32 (omega arith) h

pub write_u64-Emits : (w : BitWriter) (v : ℕ) → v < 2 ^ 64 → Emits w (bits 64 v) (write_u64 w v)
unfolding write_u64
write_u64-Emits w v h = Emits-eq same (
    Emits-trans (bits 32 low) (bits 32 high) (write_bits-Emits w low 32 (omega arith) (omega arith))
      (write_bits-Emits (write_bits w low 32) high 32 (omega arith) (omega arith)))
  where
    low : ℕ
    low = u32 (bit_and v 0xffff_ffff)

    high : ℕ
    high = u32 (v / 2 ^ 32)

    low_eq : low ≡ v % 2 ^ 32
    low_eq = omega (arith, bit_and_mask 32 v)

    same : bits 32 low ++ bits 32 high ≡ bits 64 v
    same =
        ap₂ ◌++◌ (ap (bits 32) low_eq ∙ bits_masked 32 v) (bits_masked 32 (v / 2 ^ 32))
        ∙ sym (bits-add 32 32 v)

pub write_each-Emits :
    (w : BitWriter) (bs : List ℕ) → All IsByte bs → Emits w (flat bs) (write_each w bs)
unfolding write_each
write_each-Emits w [] h = Emits-nil w
write_each-Emits w (b ∷ bs) h =
    Emits-trans (bits 8 b) (flat bs) (write_u8-Emits w b h.0)
      (write_each-Emits (write_u8 w b) bs h.1)

-- The groups of seven bits of a value, lowest first, all but the last with the high bit set.
-- `more` groups at most come before the last.
unfoldable pub varint_groups : ℕ → ℕ → List ℕ
varint_groups zero v = v % 128 ∷ []
varint_groups (suc more) v =
    if leb 128 v then (v % 128 + 128) ∷ varint_groups more (v / 128) else v % 128 ∷ []

abbrev pub varint_bytes : ℕ → List ℕ
varint_bytes v = varint_groups 4 v

group_more : (v : ℕ) → bit_or (bit_and v 0x7f) 0x80 ≡ v % 128 + 128
group_more v = omega (arith, bit_and_mask 7 v, bit_or_shifted 7 1 (bit_and v 0x7f))

group_last : (v : ℕ) → bit_and v 0x7f ≡ v % 128
group_last v = bit_and_mask 7 v

write_group : (w : BitWriter) (b : ℕ) → b < 2 ^ 8 → Emits w (flat (b ∷ [])) (write_bits w b 8)
write_group w b h =
    Emits-eq (sym (append-nil (bits 8 b))) (write_bits-Emits w b 8 (omega arith) (omega arith))

varint_loop-Emits :
    (fuel : ℕ) (w : BitWriter) (v : ℕ)
    → Emits w (flat (varint_groups fuel v)) (write_varint_loop fuel w v)
unfolding write_varint_loop varint_groups
varint_loop-Emits zero w v = rw (group_last v) (write_group w (v % 128) (omega arith))
varint_loop-Emits (suc fuel) w v = elim (Bool-cases (leb 128 v)) [
  | inl more ↦
      rw (more, group_more v, write_varint_loop)
        (Emits-trans (bits 8 (v % 128 + 128)) (flat (varint_groups fuel (v / 128)))
          (write_bits-Emits w (v % 128 + 128) 8 (omega arith) (omega arith))
          (varint_loop-Emits fuel (write_bits w (v % 128 + 128) 8) (v / 128)))
  | inr done ↦ rw (done, group_last v, write_varint_loop) (write_group w (v % 128) (omega arith))
]

pub write_varint-Emits :
    (w : BitWriter) (v : ℕ) → Emits w (flat (varint_bytes v)) (write_varint w v)
unfolding write_varint
write_varint-Emits w v = varint_loop-Emits 4 w v

-- A text on the wire: its length, cut to 1023, and so many of its bytes.
abbrev pub string_bytes : List ℕ → List ℕ
string_bytes s = varint_bytes (min 1023 (length s)) ++ take (min 1023 (length s)) s

-- A text that is not cut goes out whole.
pub string_bytes_whole :
    (s : List ℕ) → length s < 1024 → string_bytes s ≡ varint_bytes (length s) ++ s
string_bytes_whole s h =
    let uncut : min 1023 (length s) ≡ length s = omega arith in
    rw uncut (ap (λ (t : List ℕ). varint_bytes (length s) ++ t) (take-length s))

All-take : (n : ℕ) (bs : List ℕ) → All IsByte bs → All IsByte (take n bs)
All-take zero bs h = tt
All-take (suc n) [] h = tt
All-take (suc n) (b ∷ bs) h = (h.0, All-take n bs h.1)

pub write_string-Emits :
    (w : BitWriter) (s : List ℕ) → All IsByte s → Emits w (flat (string_bytes s)) (write_string w s)
unfolding write_string
write_string-Emits w s h =
    let len : ℕ = min 1023 (length s) in
    rw (cut_length s) (
      Emits-eq (sym (flat-append (varint_bytes len) (take len s))) (
        Emits-trans (flat (varint_bytes len)) (flat (take len s)) (write_varint-Emits w len)
          (write_each-Emits (write_varint w len) (take len s) (All-take len s h))))
  where
    cut_length :
        (s : List ℕ) → u32 (if ltb 1023 (length s) then 1023 else length s) ≡ min 1023 (length s)
    cut_length s = ground arith

append_bytes-Writes :
    (w : BitWriter) (bs : List ℕ)
    → All IsByte bs
    → w.pending_bits ≡ 0
    → IsValid w
    → w.bit_pos + 8 * length bs ≤ w.capacity_bits
    → Writes w (flat bs) (append_bytes w bs)
unfolding append_bytes
append_bytes-Writes w bs h p k r =
    let room : ltb w.capacity_bits (u64 (w.bit_pos + length bs * 8)) ≡ false =
      ground (arith, k.counted.small) in
    rw room (record {
      valid = record {
        counted = record {
          position = omega (arith, k.counted.small, length-append w.buffer bs);
          fits = k.counted.fits;
          bytes = All-append IsByte w.buffer bs k.counted.bytes h;
          room = omega (arith, k.counted.small);
          small = k.counted.small;
        };
        partial = k.partial;
      };
      appended =
          ap₂ ◌++◌ (flat-append w.buffer bs) (bits_none w.accumulator p)
          ∙ append-nil (flat w.buffer ++ flat bs)
          ∙ ap (λ (xs : List ℕ). xs ++ flat bs)
              (sym (append-nil (flat w.buffer))
                ∙ ap (◌++◌ (flat w.buffer)) (sym (bits_none w.accumulator p)));
      position = omega (arith, k.counted.small, length-flat bs);
      capacity = refl;
      latch = refl;
    })

append_bytes-overflow :
    (w : BitWriter) (bs : List ℕ)
    → length bs < 2 ^ 32
    → IsValid w
    → w.capacity_bits < w.bit_pos + 8 * length bs
    → (append_bytes w bs).overflow ≡ true
unfolding append_bytes
append_bytes-overflow w bs n k r = ground (arith, k.counted.small, k.counted.room)

-- `write_bytes` at any position.
pub write_bytes-Emits :
    (w : BitWriter) (bs : List ℕ)
    → All IsByte bs
    → length bs < 2 ^ 32
    → Emits w (flat bs) (write_bytes w bs)
unfolding write_bytes
write_bytes-Emits w bs h n = elim (Bool-cases (w.pending_bits == 0)) [
  | inl aligned ↦ rw aligned (record {
    fits = λ k r. append_bytes-Writes w bs h (ground arith) k (omega (arith, length-flat bs));
    full = λ k r. append_bytes-overflow w bs n k (omega (arith, length-flat bs));
    sticky = λ e. unfold append_bytes in ground arith;
  })
  | inr split ↦ rw split (write_each-Emits w bs h)
]
