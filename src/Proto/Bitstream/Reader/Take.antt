-- ===== src/Proto/Bitstream/Reader/Take.antt =====
-- What the reads of `BitReader` take off the front of the bits that are left.
use native.Mathlib.Nat.{mod-lt, one-le-pow, mod-eq_of_lt, pow-le-pow_right}
use mathlib.Core.Path.{ap₂}
use morton.Base.{
  ℕ, zero, suc, ◌+◌, ◌-◌, ◌*◌, ◌/◌, ◌%◌, ◌^◌, ◌≤◌, ◌<◌, ◌≡◌, refl, sym, ap, ◌∙◌, true, false, List,
  [], ◌∷◌, ◌++◌, inl, inr, append_assoc, length, take, drop, get_or, All, length-append, drop-drop,
  take-add, take_first, bit_and, bit_or, ltb, u32, length-drop, if◌then◌else◌, Bool-cases, arith,
  ◌==◌, lt→ltb,
}
use morton.Base.BitList.{
  bits, of_bits, length-bits, bits-add, pow-add, of_bits-bits, of_bits-append, joined-lt,
}
use morton.Base.BitOps.{bit_or_shifted, bit_and_mask}
use morton.Proto.Bitstream.Bytes.{flat, IsByte, length-flat, drop-flat, drop_first}
use morton.Proto.Bitstream.Reader.{BitReader, read_loop, read_bits}

-- The bits that are not read yet.
abbrev pub remaining : BitReader → List ℕ
remaining r = drop r.bit_pos (flat r.buffer)

pub record IsValid (r : BitReader) : Type 0 where
  pub capacity : r.capacity_bits ≡ 8 * length r.buffer
  pub position : r.bit_pos ≤ r.capacity_bits
  pub small : r.capacity_bits < 2 ^ 31
  pub bytes : All IsByte r.buffer

-- `p` is the result of a read from `r` that returns `a` and leaves `rest`.
pub record Read {ℓ} {A : Type ℓ} (r : BitReader) (a : A) (rest : List ℕ) (p : A × BitReader)
    : Type ℓ where
  pub value : p.0 ≡ a
  pub valid : IsValid p.1
  pub left : remaining p.1 ≡ rest
  pub latch : p.1.overflow ≡ r.overflow

-- `read` takes the bits `xs` off the front and returns `a`.
abbrev pub Reads {ℓ} : {A : Type ℓ} → (BitReader → A × BitReader) → List ℕ → A → Type ℓ
Reads read xs a =
    (r : BitReader) (rest : List ℕ) → IsValid r → remaining r ≡ xs ++ rest → Read r a rest (read r)

-- The bits of a first field, then those of the others.
pub then_rest :
    (xs ys rest : List ℕ) {zs : List ℕ} → zs ≡ (xs ++ ys) ++ rest → zs ≡ xs ++ (ys ++ rest)
then_rest xs ys rest e = e ∙ append_assoc xs ys rest

-- The next bits, up to a byte's end, are those of that byte.
peek :
    (pos step : ℕ) (buffer : List ℕ)
    → pos % 8 + step ≤ 8
    → pos < 8 * length buffer
    → take step (drop pos (flat buffer)) ≡ bits step (get_or buffer (pos / 8) 0 / 2 ^ (pos % 8))
peek pos step buffer h lt =
    ap (λ k. take step (drop k (flat buffer))) whole
    ∙ ap (take step) (
        drop-flat i off (8 - off) buffer (omega arith) (omega arith)
        ∙ ap (λ k. bits k x ++ tail) avail
        ∙ ap (λ (ys : List ℕ). ys ++ tail) (bits-add step (8 - off - step) x)
        ∙ append_assoc (bits step x) _ tail)
    ∙ take_first (bits step x) _ step (length-bits step x)
  where
    i : ℕ
    i = pos / 8

    off : ℕ
    off = pos % 8

    x : ℕ
    x = get_or buffer i 0 / 2 ^ off

    tail : List ℕ
    tail = flat (drop (suc i) buffer)

    whole : pos ≡ 8 * i + off
    whole = omega arith

    avail : 8 - off ≡ step + (8 - off - step)
    avail = omega arith

-- The sum that one round of the loop makes: `chunk` above `result`.
or_chunk :
    (result written step x : ℕ)
    → result < 2 ^ written
    → written + step ≤ 32
    → bit_or result (u32 (bit_and x (2 ^ step - 1) * 2 ^ written))
      ≡ result + x % 2 ^ step * 2 ^ written
or_chunk result written step x h w =
    rw (bit_and_mask step x, mod-eq_of_lt in_word) (bit_or_shifted written (x % 2 ^ step) result h)
  where
    below : 0 + x % 2 ^ step * 2 ^ written < 2 ^ (written + step)
    below =
        joined-lt written step 0 (x % 2 ^ step) (one-le-pow written 2 (omega arith))
          (mod-lt x (one-le-pow step 2 (omega arith)))

    in_word : x % 2 ^ step * 2 ^ written < 2 ^ 32
    in_word =
        omega (arith, below, pow-le-pow_right {n = 2} (omega arith) {i = written + step} {j = 32} w)

-- Splitting the value of the next `step + more` bits.
of_bits_split :
    (step more pos : ℕ) (buffer : List ℕ)
    → pos % 8 + step ≤ 8
    → pos < 8 * length buffer
    → of_bits (take (step + more) (drop pos (flat buffer)))
      ≡ get_or buffer (pos / 8) 0 / 2 ^ (pos % 8) % 2 ^ step
        + 2 ^ step * of_bits (take more (drop (pos + step) (flat buffer)))
of_bits_split step more pos buffer h lt =
    ap of_bits (
      take-add step more (drop pos (flat buffer))
      ∙ ap₂ ◌++◌ (peek pos step buffer h lt) (ap (take more) (drop-drop pos step (flat buffer))))
    ∙ of_bits-append (bits step x) later
    ∙ ap₂ (λ a b. a + 2 ^ b * of_bits later) (of_bits-bits step x) (length-bits step x)
  where
    x : ℕ
    x = get_or buffer (pos / 8) 0 / 2 ^ (pos % 8)

    later : List ℕ
    later = take more (drop (pos + step) (flat buffer))

bit_and_mask_seven : (a : ℕ) → bit_and a 7 ≡ a % 8
bit_and_mask_seven a = bit_and_mask 3 a

-- Enough fuel: the loop adds the value of the next `left` bits above `result`.
read_loop_lem :
    (fuel : ℕ) (buffer : List ℕ) (result written left pos : ℕ)
    → left ≤ fuel
    → pos + left ≤ 8 * length buffer
    → result < 2 ^ written
    → written + left ≤ 32
    → read_loop fuel buffer result written left pos
      ≡ (result + 2 ^ written * of_bits (take left (drop pos (flat buffer))), pos + left)
unfolding read_loop of_bits
read_loop_lem zero buffer result written zero pos f c lt w = ground arith
read_loop_lem zero buffer result written (suc left) pos f c lt w = absurd (omega arith)
read_loop_lem (suc fuel) buffer result written zero pos f c lt w = ground arith
read_loop_lem (suc fuel) buffer result written (suc left) pos f c lt w =
    rw (lt→ltb 0 (suc left) (omega arith), bit_and_mask_seven pos, read_loop)
      (ap (λ res. read_loop fuel buffer res (written + step) (suc left - step) (pos + step))
          (or_chunk result written step x lt (omega (arith, step_le)))
        ∙ read_loop_lem fuel buffer (result + x % 2 ^ step * 2 ^ written) (written + step)
            (suc left - step) (pos + step) (omega (arith, step_le)) (omega (arith, step_le))
            (joined-lt written step result (x % 2 ^ step) lt
              (mod-lt x (one-le-pow step 2 (omega arith))))
            (omega (arith, step_le))
        ∙ ap₂ (λ a b. (a, b)) value place)
  where
    step : ℕ
    step = if ltb (suc left) (8 - pos % 8) then suc left else 8 - pos % 8

    x : ℕ
    x = get_or buffer (pos / 8) 0 / 2 ^ (pos % 8)

    later : ℕ
    later = of_bits (take (suc left - step) (drop (pos + step) (flat buffer)))

    step_le : (step ≤ suc left) × (pos % 8 + step ≤ 8) × (1 ≤ step)
    step_le = ground arith

    whole : suc left ≡ step + (suc left - step)
    whole = omega (arith, step_le)

    split : of_bits (take (suc left) (drop pos (flat buffer))) ≡ x % 2 ^ step + 2 ^ step * later
    split =
        ap (λ k. of_bits (take k (drop pos (flat buffer)))) whole
        ∙ of_bits_split step (suc left - step) pos buffer step_le.1 (omega arith)

    value :
        result + x % 2 ^ step * 2 ^ written + 2 ^ (written + step) * later
        ≡ result + 2 ^ written * of_bits (take (suc left) (drop pos (flat buffer)))
    value = rw (split, pow-add written step) (omega arith)

    place : pos + step + (suc left - step) ≡ pos + suc left
    place = omega (arith, step_le)

of_bits_none : (xs : List ℕ) → length xs ≡ 0 → of_bits xs ≡ 0
unfolding of_bits
of_bits_none [] e = refl
of_bits_none (x ∷ xs) e = absurd (omega arith)

pub length-remaining :
    (r : BitReader) → IsValid r → length (remaining r) + r.bit_pos ≡ r.capacity_bits
length-remaining r k =
    omega
      (arith, length-drop r.bit_pos (flat r.buffer), length-flat r.buffer, k.capacity, k.position)

module _ (xs : List ℕ) (n : ℕ) (len : length xs ≡ n) (h : n ≤ 32) (r : BitReader) (rest : List ℕ)
    (k : IsValid r) (e : remaining r ≡ xs ++ rest) where
  enough : r.bit_pos + n ≤ r.capacity_bits
  enough = omega (arith, length-remaining r k, ap length e, length-append xs rest)

  loop_result : read_loop n r.buffer 0 0 n r.bit_pos ≡ (of_bits xs, r.bit_pos + n)
  loop_result =
      read_loop_lem n r.buffer 0 0 n r.bit_pos (omega arith) (omega (arith, enough, k.capacity))
        (omega arith) (omega arith)
      ∙ ap (λ v. (v, r.bit_pos + n)) value
    where
      value : 0 + 2 ^ 0 * of_bits (take n (remaining r)) ≡ of_bits xs
      value = rw (e, take_first xs rest n len) (omega arith)

  advanced : BitReader
  advanced = record r { bit_pos = r.bit_pos + n }

  advanced-Read : Read r (of_bits xs) rest (of_bits xs, advanced)
  unfolding advanced
  advanced-Read = record {
    value = refl;
    valid = record { capacity = k.capacity; position = enough; small = k.small; bytes = k.bytes };
    left = sym (drop-drop r.bit_pos n (flat r.buffer)) ∙ ap (drop n) e ∙ drop_first xs rest n len;
    latch = refl;
  }

  read_bits_result : read_bits r n ≡ (of_bits xs, advanced)
  unfolding read_bits advanced
  read_bits_result = elim (Bool-cases (n == 0)) [
    | inl none ↦
        let zero_bits : n ≡ 0 = ground arith in
        let stays : r.bit_pos ≡ r.bit_pos + n = omega arith in
        rw none (
          ap₂ (λ v p. (v, record r { bit_pos = p })) (sym (of_bits_none xs (len ∙ zero_bits)))
            stays)
    | inr some ↦
        let room : ltb r.capacity_bits (u32 (r.bit_pos + n)) ≡ false =
          ground (arith, enough, k.small) in
        rw (some, room, loop_result)
  ]

-- A read with enough bits left returns their value.
pub read_bits-Reads :
    (xs : List ℕ) (n : ℕ) → length xs ≡ n → n ≤ 32 → Reads (λ r. read_bits r n) xs (of_bits xs)
read_bits-Reads xs n len h r rest k e =
    rw (read_bits_result xs n len h r rest k e) (advanced-Read xs n len h r rest k e)

-- A read of at most 32 bits, with fewer than that left, returns 0, sets the overflow flag and stays
-- where it is.
pub read_bits_short :
    (r : BitReader) (n : ℕ)
    → IsValid r
    → n ≤ 32
    → length (remaining r) < n
    → read_bits r n ≡ (0, record r { overflow = true })
unfolding read_bits
read_bits_short r n k h short = ground (arith, length-remaining r k, k.small)
