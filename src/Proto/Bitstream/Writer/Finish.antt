-- ===== src/Proto/Bitstream/Writer/Finish.antt =====
-- A writer from its construction to the bytes that `bytes_written` leaves behind.
use native.Mathlib.Nat.{div-eq_of_lt}
use native.Mathlib.Decide.{dec_le}
use mathlib.Core.Bool.{true≢false}
use morton.Base.{
  ℕ, ◌+◌, ◌-◌, ◌*◌, ◌^◌, ◌≤◌, ◌<◌, ◌≡◌, refl, sym, ap, ◌∙◌, false, List, [], ◌∷◌, ◌++◌, inl, inr,
  append-nil, append_assoc, length, All, All-append, length-append, ltb, u8, if◌then◌else◌,
  Bool-cases, arith, ◌↔◌,
}
use morton.Base.BitList.{bits_none, bits, bits-add, bits_masked}
use morton.Proto.Bitstream.Bytes.{flat, IsByte, flat-append}
use morton.Proto.Bitstream.Writer.{BitWriter, new_writer, finished, bytes_written}
use morton.Proto.Bitstream.Writer.Append.{contents, IsValid, Writes}
use morton.Proto.Bitstream.Writer.Emit.{Emits}

pub new_writer-IsValid : (capacity : ℕ) → capacity < 2 ^ 28 → IsValid (new_writer capacity)
unfolding new_writer
new_writer-IsValid capacity h = record {
  counted = record {
    position = omega arith;
    fits = omega arith;
    bytes = tt;
    room = omega arith;
    small = omega arith;
  };
  partial = omega arith;
}

new_writer-contents : (capacity : ℕ) → contents (new_writer capacity) ≡ []
unfolding new_writer bits
new_writer-contents capacity = refl

pub bytes_written-finished : (w : BitWriter) → bytes_written w ≡ length (finished w)
unfolding bytes_written finished
bytes_written-finished w = ground (arith, length-append w.buffer (u8 w.accumulator ∷ []))

-- The bits that fill the last byte up.
abbrev pub padding : BitWriter → List ℕ
padding w = if ltb 0 w.pending_bits then bits (8 - w.pending_bits) 0 else []

last_byte :
    (w : BitWriter)
    → IsValid w
    → flat (w.buffer ++ u8 w.accumulator ∷ []) ≡ contents w ++ bits (8 - w.pending_bits) 0
last_byte w k =
    flat-append w.buffer (u8 acc ∷ [])
    ∙ ap (◌++◌ (flat w.buffer)) (
        append-nil (bits 8 (u8 acc))
        ∙ bits_masked 8 acc
        ∙ ap (λ n. bits n acc) whole
        ∙ bits-add p (8 - p) acc
        ∙ ap (λ v. bits p acc ++ bits (8 - p) v) (div-eq_of_lt k.counted.fits))
    ∙ sym (append_assoc (flat w.buffer) (bits p acc) (bits (8 - p) 0))
  where
    acc : ℕ
    acc = w.accumulator

    p : ℕ
    p = w.pending_bits

    whole : 8 ≡ p + (8 - p)
    whole = omega (arith, k.partial)

-- The bytes of a well-formed writer hold the bits that were written, then zeros up to the byte
-- boundary.
pub finished-contents : (w : BitWriter) → IsValid w → flat (finished w) ≡ contents w ++ padding w
unfolding finished
finished-contents w k = elim (Bool-cases (ltb 0 w.pending_bits)) [
  | inl some ↦ rw some (last_byte w k)
  | inr none ↦
      let e : w.pending_bits ≡ 0 = ground arith in
      rw none (
        sym (
          append-nil (contents w)
          ∙ ap (◌++◌ (flat w.buffer)) (bits_none w.accumulator e)
          ∙ append-nil (flat w.buffer)))
]

pub finished-bytes : (w : BitWriter) → IsValid w → All IsByte (finished w)
unfolding finished
finished-bytes w k = ground (
  arith,
  k.counted.bytes,
  All-append IsByte w.buffer (u8 w.accumulator ∷ []) k.counted.bytes (omega arith, tt),
)

pub finished-length :
    (w : BitWriter) {capacity : ℕ}
    → IsValid w
    → w.capacity_bits ≡ 8 * capacity
    → length (finished w) ≤ capacity
unfolding finished
finished-length w k e =
    ground
      (arith, k.counted.position, k.counted.room, length-append w.buffer (u8 w.accumulator ∷ []))

-- A packet that is built by writes of the bits `xs` in a buffer of `capacity` bytes: the overflow
-- flag is clear exactly where they fit, and then the bytes begin with them.
pub record Builds (capacity : ℕ) (xs : List ℕ) (w : BitWriter) : Type 0 where
  pub flag : (w.overflow ≡ false) ↔ (length xs ≤ 8 * capacity)
  pub holds :
      w.overflow ≡ false
      → (pad : List ℕ) × (flat (finished w) ≡ xs ++ pad)
        × All IsByte (finished w)
        × (length (finished w) ≤ capacity)

pub Emits-Builds :
    (capacity : ℕ) (xs : List ℕ) (w : BitWriter)
    → capacity < 2 ^ 28
    → Emits (new_writer capacity) xs w
    → Builds capacity xs w
Emits-Builds capacity xs w h e = record {
  flag = (λ clear. fitted clear, λ room. (written room).latch ∙ (unfold new_writer in refl));
  holds = λ clear.
      let done = written (fitted clear) in
      (
        padding w,
        finished-contents w done.valid
            ∙ ap (λ (ys : List ℕ). ys ++ padding w)
                (done.appended ∙ ap (λ (ys : List ℕ). ys ++ xs) (new_writer-contents capacity)),
        finished-bytes w done.valid,
        finished-length w done.valid (done.capacity ∙ capacity_eq),
      );
}
  where
    start : IsValid (new_writer capacity)
    start = new_writer-IsValid capacity h

    capacity_eq : (new_writer capacity).capacity_bits ≡ 8 * capacity
    capacity_eq = unfold new_writer in omega arith

    position_eq : (new_writer capacity).bit_pos ≡ 0
    position_eq = unfold new_writer in refl

    written : length xs ≤ 8 * capacity → Writes (new_writer capacity) xs w
    written room = e.fits start (omega (arith, capacity_eq, position_eq))

    fitted : w.overflow ≡ false → length xs ≤ 8 * capacity
    fitted clear = elim (dec_le (length xs) (8 * capacity)) [
      | yes room ↦ room
      | no over ↦
          absurd (true≢false (sym (e.full start (omega (arith, capacity_eq, position_eq))) ∙ clear))
    ]
