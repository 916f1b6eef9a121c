-- ===== src/Proto/Packet.antt =====
-- The end of every encoder, `return writer.overflowed() ? 0 : writer.bytes_written();`, and the
-- round trip that the encoders share.
use native.Mathlib.Decide.{dec_le}
use morton.Base.{
  ℕ, ◌*◌, ◌^◌, ◌≤◌, ◌<◌, ◌⊎◌, ◌≡◌, refl, false, inl, inr, List, ◌++◌, Option, none, some,
  if◌then◌else◌, length, All, Bool-cases, arith,
}
use morton.Proto.Bitstream.Bytes.{flat, IsByte}
use morton.Proto.Bitstream.Writer.{BitWriter, new_writer, finished}
use morton.Proto.Bitstream.Writer.Emit.{Emits}
use morton.Proto.Bitstream.Writer.Finish.{Emits-Builds}
use morton.Proto.Bitstream.Reader.{new_reader}
use morton.Proto.Bitstream.Reader.Take.{remaining}

-- The bytes of the packet, or `none` for the result 0.
abbrev pub packet_of : BitWriter → Option (List ℕ)
packet_of w = if w.overflow then none else some (finished w)

-- `decode` returns `a` from any bytes that begin with the bits `xs`.
abbrev pub Decodes : {A : Type 0} → (List ℕ → Option A) → List ℕ → A → Type 0
Decodes decode xs a =
    (packet pad : List ℕ)
    → length packet < 2 ^ 28
    → All IsByte packet
    → flat packet ≡ xs ++ pad
    → decode packet ≡ some a

pub fresh : (packet : List ℕ) {xs : List ℕ} → flat packet ≡ xs → remaining (new_reader packet) ≡ xs
unfolding new_reader
fresh packet e = e

pub new_reader-overflow : (packet : List ℕ) → (new_reader packet).overflow ≡ false
unfolding new_reader
new_reader-overflow packet = refl

-- The two outcomes of an encoder for the bits `xs` of `a` in a buffer of `capacity` bytes: they do
-- not fit and it returns 0, or they fit and its packet, no longer than the buffer, decodes to `a`.
abbrev pub RoundTrips :
    {A : Type 0} → ℕ → List ℕ → Option (List ℕ) → (List ℕ → Option A) → A → Type 0
RoundTrips capacity xs encoded decode a =
    ((8 * capacity < length xs) × (encoded ≡ none))
    ⊎ ((packet : List ℕ) × (length xs ≤ 8 * capacity)
        × (encoded ≡ some packet)
        × (length packet ≤ capacity)
        × (decode packet ≡ some a))

pub packet-decode :
    {A : Type 0} (capacity : ℕ) (xs : List ℕ) (w : BitWriter) (decode : List ℕ → Option A) (a : A)
    → capacity < 2 ^ 28
    → Emits (new_writer capacity) xs w
    → Decodes decode xs a
    → RoundTrips capacity xs (packet_of w) decode a
packet-decode capacity xs w decode a h emits decodes =
    let built = Emits-Builds capacity xs w h emits in
    elim (dec_le (length xs) (8 * capacity)) [
      | yes room ↦
          let clear = built.flag.1 room in
          let (pad, begins, bytes, short) = built.holds clear in
          inr
            (finished w, room, rw clear, short, decodes (finished w) pad (omega arith) bytes begins)
      | no over ↦ elim (Bool-cases w.overflow) [
        | inl full ↦ inl (omega arith, rw full)
        | inr clear ↦ absurd (over (built.flag.0 clear))
      ]
    ]
