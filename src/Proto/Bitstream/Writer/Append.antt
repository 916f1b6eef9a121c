-- ===== src/Proto/Bitstream/Writer/Append.antt =====
-- What the writes of `BitWriter` append, seen as lists of bits.
use native.Mathlib.Nat.{
  zero-add, mod-lt, mod-le, pow-le-pow_right, mul-le-mul, one-le-pow, mod-eq_of_lt,
  add-mul-div_right, div-eq_of_lt,
}
use morton.Base.{
  ℕ, zero, suc, ◌+◌, ◌-◌, ◌*◌, ◌/◌, ◌%◌, ◌^◌, ◌≤◌, ◌<◌, ◌≡◌, refl, sym, ap, ◌∙◌, false, List, [],
  ◌∷◌, ◌++◌, inl, inr, append-nil, append_assoc, length, All, All-append, length-append, ltb, leb,
  leb→le, ◌==◌, u32, u8, Bool-cases, arith,
}
use morton.Base.BitList.{joined-lt, bits_masked, bits, length-bits, bits-add, bits_low, pow-add}
use morton.Base.BitOps.{bit_or_shifted, bit_and_mask}
use morton.Proto.Bitstream.Bytes.{flat, IsByte, flat-append}
use morton.Proto.Bitstream.Writer.{
  BitWriter, flush_byte, flush_bytes, mask_value, push_bits, write_bits,
}

-- Everything that was written: the bytes of the buffer, then the bits that wait.
abbrev pub contents : BitWriter → List ℕ
contents w = flat w.buffer ++ bits w.pending_bits w.accumulator

-- The invariant but for the bound on the bits that wait.
pub record IsCounted (w : BitWriter) : Type 0 where
  pub position : w.bit_pos ≡ 8 * length w.buffer + w.pending_bits
  pub fits : w.accumulator < 2 ^ w.pending_bits
  pub bytes : All IsByte w.buffer
  pub room : w.bit_pos ≤ w.capacity_bits
  pub small : w.capacity_bits < 2 ^ 31

pub record IsValid (w : BitWriter) : Type 0 where
  pub counted : IsCounted w
  pub partial : w.pending_bits < 8

-- `w'` is `w` with the bits `xs` appended.
pub record Writes (w : BitWriter) (xs : List ℕ) (w' : BitWriter) : Type 0 where
  pub valid : IsValid w'
  pub appended : contents w' ≡ contents w ++ xs
  pub position : w'.bit_pos ≡ w.bit_pos + length xs
  pub capacity : w'.capacity_bits ≡ w.capacity_bits
  pub latch : w'.overflow ≡ w.overflow

pub Writes-nil : {w : BitWriter} → IsValid w → Writes w [] w
Writes-nil {w} k = record {
  valid = k;
  appended = sym (append-nil (contents w));
  position = omega arith;
  capacity = refl;
  latch = refl;
}

pub Writes-trans :
    {w w' w'' : BitWriter} {xs ys : List ℕ}
    → Writes w xs w'
    → Writes w' ys w''
    → Writes w (xs ++ ys) w''
Writes-trans {w} {xs = xs} {ys = ys} a b = record {
  valid = b.valid;
  appended =
      b.appended ∙ ap (λ (zs : List ℕ). zs ++ ys) a.appended ∙ append_assoc (contents w) xs ys;
  position = omega (arith, a.position, b.position, length-append xs ys);
  capacity = b.capacity ∙ a.capacity;
  latch = b.latch ∙ a.latch;
}

-- Eight bits of the accumulator are one byte.
take_byte : (n acc : ℕ) → bits (8 + n) acc ≡ bits 8 (u8 acc) ++ bits n (acc / 2 ^ 8)
take_byte n acc =
    bits-add 8 n acc
    ∙ ap (λ (xs : List ℕ). xs ++ bits n (acc / 2 ^ 8))
        (ap (bits 8) (whole acc) ∙ bits_low 8 (u8 acc) (acc / 2 ^ 8))
  where
    whole : (a : ℕ) → a ≡ u8 a + a / 2 ^ 8 * 2 ^ 8
    whole a = omega arith

-- Where `8 ≤ p`, `p` is 8 more than `p - 8`.
past_byte : {p : ℕ} → 8 ≤ p → p ≡ 8 + (p - 8)
past_byte h = omega arith

flush_byte-contents : (w : BitWriter) → 8 ≤ w.pending_bits → contents (flush_byte w) ≡ contents w
flush_byte-contents w h =
    let n : ℕ = w.pending_bits - 8 in
    let acc : ℕ = w.accumulator in
    ap (λ (xs : List ℕ). xs ++ bits n (acc / 2 ^ 8))
      (flat-append w.buffer (u8 acc ∷ [])
        ∙ ap (◌++◌ (flat w.buffer)) (append-nil (bits 8 (u8 acc))))
    ∙ append_assoc (flat w.buffer) (bits 8 (u8 acc)) (bits n (acc / 2 ^ 8))
    ∙ ap (◌++◌ (flat w.buffer)) (sym (take_byte n acc) ∙ ap (λ k. bits k acc) (sym (past_byte h)))

flush_byte-IsCounted : (w : BitWriter) → 8 ≤ w.pending_bits → IsCounted w → IsCounted (flush_byte w)
flush_byte-IsCounted w h c = record {
  position = omega (arith, length-append w.buffer (u8 w.accumulator ∷ []), c.position);
  fits = omega (arith, c.fits, pow-add 8 (w.pending_bits - 8), ap (λ (k : ℕ). 2 ^ k) (past_byte h));
  bytes = All-append IsByte w.buffer (u8 w.accumulator ∷ []) c.bytes (omega arith, tt);
  room = c.room;
  small = c.small;
}

-- The loop leaves less than a byte, and keeps the rest.
flush_bytes-Writes :
    (fuel : ℕ) (w : BitWriter)
    → IsCounted w
    → w.pending_bits < fuel + 8
    → Writes w [] (flush_bytes fuel w)
unfolding flush_bytes
flush_bytes-Writes zero w c h = record {
  valid = record { counted = c; partial = omega arith };
  appended = sym (append-nil (contents w));
  position = omega arith;
  capacity = refl;
  latch = refl;
}
flush_bytes-Writes (suc fuel) w c h = elim (Bool-cases (leb 8 w.pending_bits)) [
  | inl more ↦
      let enough : 8 ≤ w.pending_bits = leb→le _ _ more in
      let rest =
        flush_bytes-Writes fuel (flush_byte w) (flush_byte-IsCounted w enough c) (omega arith) in
      rw (more, flush_bytes)
        (record {
          valid = rest.valid;
          appended = rest.appended ∙ ap (λ (xs : List ℕ). xs ++ []) (flush_byte-contents w enough);
          position = rest.position;
          capacity = rest.capacity;
          latch = rest.latch;
        })
  | inr done ↦
      rw (done, flush_bytes)
        (record {
          valid = record { counted = c; partial = ground arith };
          appended = sym (append-nil (contents w));
          position = omega arith;
          capacity = refl;
          latch = refl;
        })
]

mask_value_lem : (v n : ℕ) → n ≤ 32 → v < 2 ^ 32 → mask_value v n ≡ v % 2 ^ n
unfolding mask_value
mask_value_lem v n h hv = elim (Bool-cases (ltb n 32)) [
  | inl short ↦ rw short (bit_and_mask n v)
  | inr full ↦ let e : n ≡ 32 = ground arith in rw (full, e) (sym (mod-eq_of_lt hv))
]

-- The bits of `acc + x * 2 ^ p`, for an `acc` below `2 ^ p`, are those of `acc`, then those of `x`.
bits_joined :
    (p n acc x : ℕ) → acc < 2 ^ p → bits (p + n) (acc + x * 2 ^ p) ≡ bits p acc ++ bits n x
bits_joined p n acc x h =
    bits-add p n (acc + x * 2 ^ p)
    ∙ ap (λ (xs : List ℕ). xs ++ bits n ((acc + x * 2 ^ p) / 2 ^ p)) (bits_low p acc x)
    ∙ ap (λ k. bits p acc ++ bits n k)
        (add-mul-div_right acc x (one-le-pow p 2 (omega arith))
          ∙ ap (λ k. k + x) (div-eq_of_lt h)
          ∙ zero-add x)

module _ (w : BitWriter) (v n : ℕ) (k : IsValid w) (h : n ≤ 32) (hv : v < 2 ^ 32) where
  small_power : 2 ^ w.pending_bits ≤ 2 ^ 7
  small_power = pow-le-pow_right (omega arith) {j = 7} (omega (arith, k.partial))

  in_word : v % 2 ^ n * 2 ^ w.pending_bits < 2 ^ 64
  in_word =
      let value_small : v % 2 ^ n ≤ 2 ^ 32 - 1 = omega (arith, mod-le v (2 ^ n)) in
      omega (arith, mul-le-mul value_small small_power)

  -- The shifted value fits 64 bits, and its bits lie above those that wait.
  push_bits_sum : (push_bits w v n).accumulator ≡ w.accumulator + v % 2 ^ n * 2 ^ w.pending_bits
  unfolding push_bits
  push_bits_sum =
      rw (mask_value_lem v n h hv, mod-eq_of_lt in_word)
        (bit_or_shifted w.pending_bits (v % 2 ^ n) w.accumulator k.counted.fits)

  module _ (r : w.bit_pos + n ≤ w.capacity_bits) where
    push_bits-pending : (push_bits w v n).pending_bits ≡ w.pending_bits + n
    unfolding push_bits
    push_bits-pending = omega (arith, k.partial)

    push_bits-position : (push_bits w v n).bit_pos ≡ w.bit_pos + n
    unfolding push_bits
    push_bits-position = omega (arith, k.counted.small)

    push_bits-IsCounted : IsCounted (push_bits w v n)
    push_bits-IsCounted = record {
      position =
          rw (push_bits-pending, push_bits-position)
            (unfold push_bits in omega (arith, k.counted.position));
      fits =
          rw (push_bits_sum, push_bits-pending)
            (joined-lt w.pending_bits n w.accumulator (v % 2 ^ n) k.counted.fits
              (mod-lt v (one-le-pow n 2 (omega arith))));
      bytes = unfold push_bits in k.counted.bytes;
      room = rw push_bits-position (unfold push_bits in r);
      small = unfold push_bits in k.counted.small;
    }

    push_bits-contents : contents (push_bits w v n) ≡ contents w ++ bits n v
    push_bits-contents =
        rw
          (
            push_bits_sum,
            push_bits-pending,
            bits_joined w.pending_bits n w.accumulator (v % 2 ^ n) k.counted.fits,
            bits_masked n v,
          )
          (unfold push_bits in
            sym (append_assoc (flat w.buffer) (bits w.pending_bits w.accumulator) (bits n v)))

    -- A write of at most 32 bits that has room appends the lowest `n` bits of the value, whatever lies
    -- above them, and keeps the writer well formed and its overflow flag as it was.
    pub write_bits-Writes : Writes w (bits n v) (write_bits w v n)
    unfolding write_bits bits
    write_bits-Writes = elim (Bool-cases (n == 0)) [
      | inl none ↦ let e : n ≡ 0 = ground arith in rw (none, e) (Writes-nil k)
      | inr some ↦
          let room : ltb w.capacity_bits (u32 (w.bit_pos + n)) ≡ false =
            ground (arith, k.counted.small) in
          let flushed =
            flush_bytes-Writes (push_bits w v n).pending_bits (push_bits w v n) push_bits-IsCounted
              (omega arith) in
          rw (some, room)
            (record {
              valid = flushed.valid;
              appended = flushed.appended ∙ append-nil _ ∙ push_bits-contents;
              position = omega (arith, flushed.position, push_bits-position, length-bits n v);
              capacity = unfold push_bits in flushed.capacity;
              latch = unfold push_bits in flushed.latch;
            })
    ]
