-- ===== src/Net/Reliability/Wire.antt =====
-- The bits that `write_packet` of reliability.cpp puts out, and when they do not fit the datagram.
pub mod Arrival
pub mod Datagram
use native.Mathlib.Nat.{pow-suc}
use native.Mathlib.Decide.{dec_le}
use mathlib.Core.Option.{some-injective}
use morton.Base.{
  ℕ, zero, suc, ◌+◌, ◌*◌, ◌%◌, ◌^◌, ◌≤◌, ◌<◌, ◌≡◌, ◌↔◌, refl, sym, ap, ◌∙◌, Bool, true, false, List,
  [], ◌∷◌, ◌++◌, Option, none, some, if◌then◌else◌, inl, inr, length, length-append, All, bit_or,
  u8, u16, sub16, ltb, ◌<<<◌, Bool-cases, Option-cases, arith,
}
use morton.Base.BitList.{bits, length-bits}
use morton.Base.BitOps.{bit_or_shifted}
use morton.Proto.Bitstream.Bytes.{flat, IsByte, length-flat}
use morton.Proto.Bitstream.Writer.{
  BitWriter, new_writer, write_u8, write_u16, write_u32, write_bytes, bits_remaining, finished,
  bytes_written,
}
use morton.Proto.Bitstream.Writer.Emit.{
  Emits, Emits-trans, Emits-nil, Emits-eq, write_u8-Emits, write_u16-Emits, write_u32-Emits,
  write_bytes-Emits,
}
use morton.Proto.Bitstream.Writer.Finish.{Builds, Emits-Builds}
use morton.Core.Float.{F32}
use morton.Net.SequenceBuffer.{SequenceBuffer, insert, exists}
use morton.Net.Reliability.{
  Endpoint, ReliableMessage, SentPacket, ReceivedPacket, sent_initial, max_reliable_message_size,
}
use morton.Net.Reliability.Send.{
  ack_bits_of, count_included, write_message, write_messages, write_body, ack_field, ack_bits_field,
  write_ack_header, include_count_of, packet_writer, packet_recorded, packet_counted, write_packet,
}

pub record IsMessage (m : ReliableMessage) : Type 0 where
  pub id_fits : m.id < 2 ^ 16
  pub channel_fits : m.channel < 2 ^ 8
  pub payload_bytes : All IsByte m.payload
  pub payload_short : length m.payload ≤ max_reliable_message_size

abbrev pub message_bits : ReliableMessage → List ℕ
message_bits m =
    bits 16 m.id ++ (bits 8 m.channel ++ (bits 16 (length m.payload) ++ flat m.payload))

-- The first `count` messages.
unfoldable pub messages_bits : ℕ → List ReliableMessage → List ℕ
messages_bits zero ms = []
messages_bits (suc count) [] = []
messages_bits (suc count) (m ∷ ms) = message_bits m ++ messages_bits count ms

abbrev pub body_bits : ℕ → List ReliableMessage → List ℕ → List ℕ
body_bits count ms unreliable =
    bits 8 count ++ (messages_bits count ms ++ (bits 16 (length unreliable) ++ flat unreliable))

write_message-Emits :
    (w : BitWriter) (m : ReliableMessage)
    → IsMessage m
    → Emits w (message_bits m) (write_message w m)
unfolding write_message
write_message-Emits w m v =
    let short : length m.payload < 2 ^ 16 = omega (arith, v.payload_short) in
    let same : u16 (length m.payload) ≡ length m.payload = omega arith in
    Emits-trans _ _ (write_u16-Emits w m.id v.id_fits) (
      Emits-trans _ _ (write_u8-Emits _ m.channel v.channel_fits) (
        rw same (
          Emits-trans _ _ (write_u16-Emits _ (length m.payload) short)
            (write_bytes-Emits _ m.payload v.payload_bytes (omega arith)))))

write_messages-Emits :
    (count : ℕ) (w : BitWriter) (ms : List ReliableMessage)
    → All IsMessage ms
    → Emits w (messages_bits count ms) (write_messages count w ms)
unfolding write_messages messages_bits
write_messages-Emits zero w ms v = Emits-nil w
write_messages-Emits (suc count) w [] v = Emits-nil w
write_messages-Emits (suc count) w (m ∷ ms) v =
    Emits-trans (message_bits m) (messages_bits count ms) (write_message-Emits w m v.0)
      (write_messages-Emits count (write_message w m) ms v.1)

write_unreliable-Emits :
    (w : BitWriter) (bs : List ℕ)
    → All IsByte bs
    → length bs < 2 ^ 16
    → Emits w (flat bs) (if ltb 0 (length bs) then write_bytes w bs else w)
write_unreliable-Emits w [] h short = Emits-nil w
write_unreliable-Emits w (b ∷ bs) h short =
    let some_bytes : ltb 0 (length (b ∷ bs)) ≡ true = ground arith in
    rw some_bytes (write_bytes-Emits w (b ∷ bs) h (omega arith))

write_body-Emits :
    (count : ℕ) (ms : List ReliableMessage) (unreliable : List ℕ) (w : BitWriter)
    → count < 2 ^ 8
    → All IsMessage ms
    → All IsByte unreliable
    → length unreliable < 2 ^ 16
    → Emits w (body_bits count ms unreliable) (write_body count ms unreliable w)
unfolding write_body
write_body-Emits count ms unreliable w small v h short =
    let count_same : u8 count ≡ count = omega arith in
    let size_same : u16 (length unreliable) ≡ length unreliable = omega arith in
    rw (count_same, size_same)
      (Emits-trans _ _ (write_u8-Emits w count small) (
        Emits-trans _ _ (write_messages-Emits count _ ms v) (
          Emits-trans _ _ (write_u16-Emits _ (length unreliable) short)
            (write_unreliable-Emits _ unreliable h short))))

ack_bits_of-lt :
    (received : SequenceBuffer ReceivedPacket) (highest i : ℕ)
    → ack_bits_of received highest i < 2 ^ i
unfolding ack_bits_of
ack_bits_of-lt received highest zero = omega arith
ack_bits_of-lt received highest (suc i) = ground (
  arith,
  ack_bits_of-lt received highest i,
  pow-suc 2 i,
  bit_or_shifted i 1 (ack_bits_of received highest i) (ack_bits_of-lt received highest i),
)

count_included-le :
    (left : ℕ) (w : BitWriter) (size : ℕ) (ms : List ReliableMessage)
    → count_included left w size ms ≤ left
unfolding count_included
count_included-le zero w size ms = omega arith
count_included-le (suc left) w size [] = omega arith
count_included-le (suc left) w size (m ∷ ms) = ground (arith, count_included-le left w size ms)

count_included-le_length :
    (left : ℕ) (w : BitWriter) (size : ℕ) (ms : List ReliableMessage)
    → count_included left w size ms ≤ length ms
unfolding count_included
count_included-le_length zero w size ms = omega arith
count_included-le_length (suc left) w size [] = omega arith
count_included-le_length (suc left) w size (m ∷ ms) =
    ground (arith, count_included-le_length left w size ms)

-- The bits of `count` messages.
unfoldable pub messages_size : ℕ → List ReliableMessage → ℕ
messages_size zero ms = 0
messages_size (suc count) [] = 0
messages_size (suc count) (m ∷ ms) = 40 + 8 * length m.payload + messages_size count ms

length-messages_bits :
    (count : ℕ) (ms : List ReliableMessage)
    → length (messages_bits count ms) ≡ messages_size count ms
unfolding messages_bits messages_size
length-messages_bits zero ms = refl
length-messages_bits (suc count) [] = refl
length-messages_bits (suc count) (m ∷ ms) = omega (
  arith,
  length-append (message_bits m) (messages_bits count ms),
  length-append (bits 16 m.id) (bits 8 m.channel ++ (bits 16 (length m.payload) ++ flat m.payload)),
  length-append (bits 8 m.channel) (bits 16 (length m.payload) ++ flat m.payload),
  length-append (bits 16 (length m.payload)) (flat m.payload),
  length-bits 16 m.id,
  length-bits 8 m.channel,
  length-bits 16 (length m.payload),
  length-flat m.payload,
  length-messages_bits count ms,
)

pub messages_size_whole : (count : ℕ) (ms : List ReliableMessage) → messages_size count ms % 8 ≡ 0
unfolding messages_size
messages_size_whole zero ms = refl
messages_size_whole (suc count) [] = refl
messages_size_whole (suc count) (m ∷ ms) = omega (arith, messages_size_whole count ms)

-- The state of a sender in which every field fits its width.
pub record IsSender {F : F32} (e : Endpoint F) : Type 0 where
  pub sequence_fits : e.sequence < 2 ^ 16
  pub highest_fits : e.highest_received < 2 ^ 16
  pub messages : All IsMessage e.unacked

module _ {F : F32} where
  abbrev pub header_bits : Endpoint F → List ℕ
  header_bits e = bits 16 e.sequence ++ (bits 16 (ack_field e) ++ bits 32 (ack_bits_field e))

  pub ack_field-lt : (e : Endpoint F) → IsSender e → ack_field e < 2 ^ 16
  unfolding ack_field
  ack_field-lt e v = ground (arith, v.highest_fits)

  pub ack_bits_field-lt : (e : Endpoint F) → ack_bits_field e < 2 ^ 32
  unfolding ack_bits_field
  ack_bits_field-lt e = ground (arith, ack_bits_of-lt e.received e.highest_received 32)

  write_ack_header-Emits :
      (e : Endpoint F) (w : BitWriter) → IsSender e → Emits w (header_bits e) (write_ack_header e w)
  unfolding write_ack_header
  write_ack_header-Emits e w v = Emits-trans _ _ (write_u16-Emits w e.sequence v.sequence_fits) (
      Emits-trans _ _ (write_u16-Emits _ (ack_field e) (ack_field-lt e v))
        (write_u32-Emits _ (ack_bits_field e) (ack_bits_field-lt e)))

  -- The bits of the packet, in number.
  abbrev pub packet_size : Endpoint F → List ℕ → ℕ → ℕ
  packet_size e unreliable capacity =
      88 + messages_size (include_count_of e unreliable capacity) e.unacked + 8 * length unreliable

  abbrev pub packet_bits : Endpoint F → List ℕ → ℕ → List ℕ
  packet_bits e unreliable capacity =
      header_bits e ++ body_bits (include_count_of e unreliable capacity) e.unacked unreliable

  pub include_count_of-le :
      (e : Endpoint F) (unreliable : List ℕ) (capacity : ℕ)
      → include_count_of e unreliable capacity ≤ 8
  unfolding include_count_of
  include_count_of-le e unreliable capacity =
      count_included-le 8 (write_ack_header e (new_writer capacity)) (length unreliable) e.unacked

  pub include_count_of-le_length :
      (e : Endpoint F) (unreliable : List ℕ) (capacity : ℕ)
      → include_count_of e unreliable capacity ≤ length e.unacked
  unfolding include_count_of
  include_count_of-le_length e unreliable capacity =
      count_included-le_length 8 (write_ack_header e (new_writer capacity)) (length unreliable)
        e.unacked

  -- A packet that is built is what the writer holds.
  pub write_packet_built :
      (e : Endpoint F) (capacity : ℕ) (unreliable : List ℕ) (now : ℕ) (packet : List ℕ)
      → (write_packet e capacity unreliable now).0 ≡ some packet
      → ((packet_writer e unreliable capacity).overflow ≡ false)
        × (finished (packet_writer e unreliable capacity) ≡ packet)
  unfolding write_packet
  write_packet_built e capacity unreliable now packet built =
      elim (Option-cases (insert sent_initial e.sent e.sequence)) [
        | inl out ↦ absurd (
            let failed : (write_packet e capacity unreliable now).0 ≡ none =
              rw (write_packet, out) refl in
            cc)
        | inr (sent, room) ↦ elim (Bool-cases (packet_writer e unreliable capacity).overflow) [
          | inl over ↦ absurd (
              let failed : (write_packet e capacity unreliable now).0 ≡ none =
                rw (write_packet, room, over) refl in
              cc)
          | inr clear ↦
              let done : (write_packet e capacity unreliable now).0
                  ≡ some (finished (packet_writer e unreliable capacity)) =
                rw (write_packet, room, clear) refl in
              (clear, some-injective _ _ (sym done ∙ built))
        ]
      ]

  pub packet_writer-Emits :
      (e : Endpoint F) (unreliable : List ℕ) (capacity : ℕ)
      → IsSender e
      → All IsByte unreliable
      → length unreliable < 2 ^ 16
      → Emits
          (new_writer capacity)
          (packet_bits e unreliable capacity)
          (packet_writer e unreliable capacity)
  unfolding packet_writer
  packet_writer-Emits e unreliable capacity v h short =
      Emits-trans _ _ (write_ack_header-Emits e (new_writer capacity) v) (
        write_body-Emits (include_count_of e unreliable capacity) e.unacked unreliable _
          (omega (arith, include_count_of-le e unreliable capacity)) v.messages h short)

  pub length-packet_bits :
      (e : Endpoint F) (unreliable : List ℕ) (capacity : ℕ)
      → length (packet_bits e unreliable capacity) ≡ packet_size e unreliable capacity
  length-packet_bits e unreliable capacity =
      let count : ℕ = include_count_of e unreliable capacity in
      omega (
        arith,
        length-append (header_bits e) (body_bits count e.unacked unreliable),
        length-append (bits 16 e.sequence) (bits 16 (ack_field e) ++ bits 32 (ack_bits_field e)),
        length-append (bits 16 (ack_field e)) (bits 32 (ack_bits_field e)),
        length-append (bits 8 count)
            (messages_bits count e.unacked ++ (bits 16 (length unreliable) ++ flat unreliable)),
        length-append (messages_bits count e.unacked)
            (bits 16 (length unreliable) ++ flat unreliable),
        length-append (bits 16 (length unreliable)) (flat unreliable),
        length-bits 16 e.sequence,
        length-bits 16 (ack_field e),
        length-bits 32 (ack_bits_field e),
        length-bits 8 count,
        length-bits 16 (length unreliable),
        length-flat unreliable,
        length-messages_bits count e.unacked,
      )

  write_packet_written :
      (e : Endpoint F) (capacity : ℕ) (unreliable : List ℕ) (now : ℕ)
      (sent : SequenceBuffer SentPacket)
      → insert sent_initial e.sent e.sequence ≡ some sent
      → (write_packet e capacity unreliable now).0 ≡ (
          if (packet_writer e unreliable capacity).overflow
          then none
          else some (finished (packet_writer e unreliable capacity)))
  unfolding write_packet
  write_packet_written e capacity unreliable now sent room =
      elim (Bool-cases (packet_writer e unreliable capacity).overflow) [
        | inl over ↦ rw (write_packet, room, over) refl
        | inr clear ↦ rw (write_packet, room, clear) refl
      ]

  -- The packet is not built exactly when its bits are more than the datagram has: 88 for the fixed
  -- fields, 40 and the payload for each message that was counted in, and the unreliable payload.
  pub write_packet-eq-none_iff :
      (e : Endpoint F) (capacity : ℕ) (unreliable : List ℕ) (now : ℕ)
      (sent : SequenceBuffer SentPacket)
      → IsSender e
      → capacity < 2 ^ 28
      → All IsByte unreliable
      → length unreliable < 2 ^ 16
      → insert sent_initial e.sent e.sequence ≡ some sent
      → ((write_packet e capacity unreliable now).0 ≡ none)
        ↔ (8 * capacity < packet_size e unreliable capacity)
  write_packet-eq-none_iff e capacity unreliable now sent v small h short room =
      elim (Bool-cases (packet_writer e unreliable capacity).overflow) [
        | inl over ↦ (λ x. too_long over, λ x. written ∙ ap none_if over)
        | inr clear ↦ (
          λ x. absurd (let e1 = written ∙ ap none_if clear in cc),
          λ long. absurd (
              let fits = built.flag.0 clear in
              omega (arith, length-packet_bits e unreliable capacity)),
        )
      ]
    where
      none_if : Bool → Option (List ℕ)
      none_if b = if b then none else some (finished (packet_writer e unreliable capacity))

      written :
          (write_packet e capacity unreliable now).0
          ≡ none_if (packet_writer e unreliable capacity).overflow
      written = write_packet_written e capacity unreliable now sent room

      built :
          Builds capacity (packet_bits e unreliable capacity) (packet_writer e unreliable capacity)
      built =
          Emits-Builds capacity (packet_bits e unreliable capacity)
            (packet_writer e unreliable capacity) small
            (packet_writer-Emits e unreliable capacity v h short)

      too_long :
          (packet_writer e unreliable capacity).overflow ≡ true
          → 8 * capacity < packet_size e unreliable capacity
      too_long over = elim (dec_le (packet_size e unreliable capacity) (8 * capacity)) [
        | yes fits ↦ absurd (
            let clear = built.flag.1 (omega (arith, length-packet_bits e unreliable capacity)) in
            cc)
        | no more ↦ omega arith
      ]
