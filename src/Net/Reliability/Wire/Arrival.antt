-- ===== src/Net/Reliability/Wire/Arrival.antt =====
-- What `read_packet` of reliability.cpp makes of the messages that `write_packet` put out.
use mathlib.Core.Path.{subst}
use morton.Base.{
  ℕ, zero, suc, ◌^◌, ◌≤◌, ◌<◌, ◌≡◌, refl, sym, ◌∙◌, true, false, List, [], ◌∷◌, ◌++◌, some, inl,
  inr, length, All, ltb, le→ltb, ◌||◌, Bool-cases, arith,
}
use morton.Base.BitList.{bits}
use morton.Proto.Bitstream.Bytes.{flat}
use morton.Proto.Bitstream.Reader.{BitReader, read_u8, read_u16, read_bytes}
use morton.Proto.Bitstream.Reader.Take.{IsValid, Read, remaining, then_rest}
use morton.Proto.Bitstream.Reader.Buffer.{read_u8-buffer, read_u16-buffer, read_bytes-buffer}
use morton.Proto.Bitstream.Reader.Fields.{read_u8-Reads, read_u16-Reads, read_bytes-Reads}
use morton.Net.Reliability.{ReliableMessage, max_reliable_message_size}
use morton.Net.Reliability.Receive.{buffer_message, read_message, read_messages}
use morton.Net.Reliability.Wire.{IsMessage, message_bits, messages_bits}

-- A message as it arrives: the count of its sends stays behind.
abbrev pub arrived : ReliableMessage → ReliableMessage
arrived m = record m { sends = 0 }

-- The reorder buffer after the first `count` messages.
unfoldable pub buffer_all :
    ℕ → ℕ → List ReliableMessage → List (ℕ × ReliableMessage) → List (ℕ × ReliableMessage)
buffer_all zero expected ms buffer = buffer
buffer_all (suc count) expected [] buffer = buffer
buffer_all (suc count) expected (m ∷ ms) buffer =
    buffer_all count expected ms (buffer_message expected (arrived m) buffer)

read_message-Read :
    (m : ReliableMessage) (r : BitReader) (rest : List ℕ)
    → IsMessage m
    → r.overflow ≡ false
    → IsValid r
    → remaining r ≡ message_bits m ++ rest
    → Read r (some (arrived m)) rest (read_message r)
unfolding read_message
read_message-Read m r rest v clear k e =
    let short : length m.payload < 2 ^ 16 = omega (arith, v.payload_short) in
    let allowed : ltb max_reliable_message_size (length m.payload) ≡ false =
      le→ltb _ _ v.payload_short in
    let a1 = bits 16 m.id in
    let a2 = bits 8 m.channel in
    let a3 = bits 16 (length m.payload) in
    let a4 = flat m.payload in
    let id =
      read_u16-Reads m.id v.id_fits r ((a2 ++ (a3 ++ a4)) ++ rest) k
        (then_rest a1 (a2 ++ (a3 ++ a4)) rest e) in
    let channel =
      read_u8-Reads m.channel v.channel_fits (read_u16 r).1 ((a3 ++ a4) ++ rest) id.valid
        (then_rest a2 (a3 ++ a4) rest id.left) in
    let size =
      read_u16-Reads (length m.payload) short (read_u8 (read_u16 r).1).1 (a4 ++ rest) channel.valid
        (then_rest a3 a4 rest channel.left) in
    let r3 : BitReader = (read_u16 (read_u8 (read_u16 r).1).1).1 in
    let payload = read_bytes-Reads m.payload v.payload_bytes r3 rest size.valid size.left in
    let no_overflow : r3.overflow ≡ false = size.latch ∙ channel.latch ∙ id.latch ∙ clear in
    subst (Read r (some (arrived m)) rest)
      (sym (
        rw (size.value, allowed, no_overflow, payload.latch ∙ no_overflow)
          (λ i. (
            some (record {
              id = id.value i;
              channel = channel.value i;
              sends = 0;
              payload = payload.value i;
            }),
            (read_bytes r3 (length m.payload)).1,
          ))))
      (record {
        value = refl;
        valid = payload.valid;
        left = payload.left;
        latch = payload.latch ∙ no_overflow ∙ sym clear;
      })

read_message-buffer : (r : BitReader) → (read_message r).1.buffer ≡ r.buffer
unfolding read_message
read_message-buffer r =
    let r2 : BitReader = (read_u8 (read_u16 r).1).1 in
    let size : ℕ = (read_u16 r2).0 in
    let r3 : BitReader = (read_u16 r2).1 in
    let same = read_u16-buffer r2 ∙ read_u8-buffer (read_u16 r).1 ∙ read_u16-buffer r in
    elim (Bool-cases (ltb max_reliable_message_size size || r3.overflow)) [
      | inl bad ↦ rw bad same
      | inr good ↦ elim (Bool-cases (read_bytes r3 size).1.overflow) [
        | inl short ↦ rw (good, short) (read_bytes-buffer r3 size ∙ same)
        | inr room ↦ rw (good, room) (read_bytes-buffer r3 size ∙ same)
      ]
    ]

-- The messages that a packet carries all arrive: read from its bits, they go to the reorder buffer
-- one after the other, the packet is not malformed, and what follows them is left to read.
pub read_messages-messages_bits :
    (count expected : ℕ) (ms : List ReliableMessage) (buffer : List (ℕ × ReliableMessage))
    (r : BitReader) (rest : List ℕ)
    → count ≤ length ms
    → All IsMessage ms
    → r.overflow ≡ false
    → IsValid r
    → remaining r ≡ messages_bits count ms ++ rest
    → (r' : BitReader) × (read_messages count expected r buffer
        ≡ (true, r', buffer_all count expected ms buffer))
      × (remaining r' ≡ rest)
      × IsValid r'
      × (r'.overflow ≡ false)
      × (r'.buffer ≡ r.buffer)
unfolding read_messages buffer_all messages_bits
read_messages-messages_bits zero expected ms buffer r rest h v clear k e =
    (r, refl, e, k, clear, refl)
read_messages-messages_bits (suc count) expected [] buffer r rest h v clear k e =
    absurd (omega arith)
read_messages-messages_bits (suc count) expected (m ∷ ms) buffer r rest h v clear k e =
    let first =
      read_message-Read m r (messages_bits count ms ++ rest) v.0 clear k
        (then_rest (message_bits m) (messages_bits count ms) rest e) in
    let (r', same, left, valid, ok, one_buffer) =
      read_messages-messages_bits count expected ms (buffer_message expected (arrived m) buffer)
        (read_message r).1 rest (omega arith) v.1 (first.latch ∙ clear) first.valid first.left in
    (r', rw (read_messages, first.value) same, left, valid, ok, one_buffer ∙ read_message-buffer r)
