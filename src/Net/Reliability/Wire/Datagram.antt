-- ===== src/Net/Reliability/Wire/Datagram.antt =====
-- A datagram from `write_packet` to `read_packet` of reliability.cpp.
use mathlib.Core.Path.{subst}
use morton.Base.{
  ℕ, ◌+◌, ◌*◌, ◌/◌, ◌%◌, ◌^◌, ◌≤◌, ◌<◌, ◌≡◌, refl, sym, ap, ◌∙◌, true, false, List, ◌++◌, none,
  some, if◌then◌else◌, length, length-append, take, drop, All, u32, ltb, le→ltb, arith,
}
use morton.Base.BitList.{bits}
use morton.Proto.Bitstream.Bytes.{flat, IsByte, length-flat, flat-drop, flat-prefix, All-drop}
use morton.Proto.Bitstream.Writer.{finished}
use morton.Proto.Bitstream.Writer.Finish.{Emits-Builds}
use morton.Proto.Bitstream.Reader.{BitReader, new_reader, read_u8, read_u16, read_u32, bytes_read}
use morton.Proto.Bitstream.Reader.Take.{IsValid, remaining, then_rest, length-remaining}
use morton.Proto.Bitstream.Reader.Fields.{
  new_reader-IsValid, read_u8-Reads, read_u16-Reads, read_u32-Reads,
}
use morton.Proto.Bitstream.Reader.Buffer.{read_u8-buffer, read_u16-buffer, read_u32-buffer}
use morton.Proto.Packet.{fresh, new_reader-overflow}
use morton.Core.Float.{F32}
use morton.Net.SequenceBuffer.{SequenceBuffer, insert, exists}
use morton.Net.Reliability.{
  Endpoint, ReliableMessage, ReceivedPacket, received_initial, max_reliable_per_packet,
}
use morton.Net.Reliability.Send.{
  ack_field, ack_bits_field, include_count_of, packet_writer, write_packet,
}
use morton.Net.Reliability.Receive.{
  ReadResult, deliver_in_order, note_received, process_acks, read_payload, read_body, read_packet,
}
use morton.Net.Reliability.Wire.{
  IsMessage, IsSender, messages_bits, body_bits, header_bits, packet_bits, packet_writer-Emits,
  ack_field-lt, ack_bits_field-lt, include_count_of-le, include_count_of-le_length,
  length-packet_bits, messages_size_whole, write_packet_built,
}
use morton.Net.Reliability.Wire.Arrival.{buffer_all, read_messages-messages_bits}

payload_place :
    (bs pad : List ℕ) (r : BitReader)
    → All IsByte bs
    → IsValid r
    → length pad % 8 ≡ 0
    → remaining r ≡ flat bs ++ pad
    → (take (length bs) (drop (bytes_read r) r.buffer) ≡ bs)
      × (bytes_read r + length bs ≤ length r.buffer)
unfolding bytes_read
payload_place bs pad r h k whole e =
    let total : 8 * length bs + length pad + r.bit_pos ≡ 8 * length r.buffer = omega (
      arith,
      length-remaining r k,
      ap length e,
      length-append (flat bs) pad,
      length-flat bs,
      k.capacity,
    ) in
    let at : u32 (r.bit_pos + 7) / 8 ≡ r.bit_pos / 8 = omega (arith, k.small, k.position) in
    let back : 8 * (r.bit_pos / 8) ≡ r.bit_pos = omega arith in
    let here : flat (drop (r.bit_pos / 8) r.buffer) ≡ flat bs ++ pad =
      flat-drop (r.bit_pos / 8) r.buffer ∙ ap (λ n. drop n (flat r.buffer)) back ∙ e in
    (
      ap (λ n. take (length bs) (drop n r.buffer)) at
          ∙ (flat-prefix bs (drop (r.bit_pos / 8) r.buffer) pad h
              (All-drop (r.bit_pos / 8) r.buffer k.bytes) here).0,
      omega arith,
    )

module _ {F : F32} where
  -- A packet taken in with the endpoint `e`, for delivery, and the unreliable payload `bs`.
  abbrev pub taken : Endpoint F → List ℕ → ReadResult F
  taken e bs = record {
    accepted = true;
    unreliable = if ltb 0 (length bs) then some bs else none;
    messages = (deliver_in_order e).0;
    endpoint = (deliver_in_order e).1;
  }

  read_payload-taken :
      (e : Endpoint F) (bs pad : List ℕ) (r : BitReader)
      → All IsByte bs
      → length bs < 2 ^ 16
      → IsValid r
      → r.overflow ≡ false
      → length pad % 8 ≡ 0
      → remaining r ≡ (bits 16 (length bs) ++ flat bs) ++ pad
      → read_payload e r.buffer r ≡ taken e bs
  unfolding read_payload
  read_payload-taken e bs pad r h short k clear whole left =
      let size =
        read_u16-Reads (length bs) short r (flat bs ++ pad) k
          (then_rest (bits 16 (length bs)) (flat bs) pad left) in
      let place = payload_place bs pad (read_u16 r).1 h size.valid whole size.left in
      let one_buffer = read_u16-buffer r in
      let inside : ltb (length r.buffer) (bytes_read (read_u16 r).1 + length bs) ≡ false =
        le→ltb (length r.buffer) (bytes_read (read_u16 r).1 + length bs)
          (omega (arith, place.1, ap length one_buffer)) in
      let same : take (length bs) (drop (bytes_read (read_u16 r).1) r.buffer) ≡ bs =
        ap (λ b. take (length bs) (drop (bytes_read (read_u16 r).1) b)) (sym one_buffer)
        ∙ place.0 in
      rw (size.value, size.latch ∙ clear, inside, same) refl

  read_body-taken :
      (e : Endpoint F) (count : ℕ) (ms : List ReliableMessage) (bs pad : List ℕ) (r : BitReader)
      → count ≤ 8
      → count ≤ length ms
      → All IsMessage ms
      → All IsByte bs
      → length bs < 2 ^ 16
      → IsValid r
      → r.overflow ≡ false
      → length pad % 8 ≡ 0
      → remaining r ≡ body_bits count ms bs ++ pad
      → read_body e r.buffer r
        ≡ taken
            (record e {
              reorder_buffer = buffer_all count e.expected_message_id ms e.reorder_buffer;
            })
            bs
  unfolding read_body
  read_body-taken e count ms bs pad r few there v h short k clear whole left =
      let end : List ℕ = bits 16 (length bs) ++ flat bs in
      let head =
        read_u8-Reads count (omega arith) r ((messages_bits count ms ++ end) ++ pad) k
          (then_rest (bits 8 count) (messages_bits count ms ++ end) pad left) in
      let (r', read, left', k', clear', one_buffer) =
        read_messages-messages_bits count e.expected_message_id ms e.reorder_buffer (read_u8 r).1
          (end ++ pad) there v (head.latch ∙ clear) head.valid
          (then_rest (messages_bits count ms) end pad head.left) in
      let allowed : ltb max_reliable_per_packet count ≡ false = le→ltb 8 count few in
      let e' : Endpoint F = record e {
        reorder_buffer = buffer_all count e.expected_message_id ms e.reorder_buffer;
      } in
      rw (head.value, allowed, read)
        (ap (λ b. read_payload e' b r') (sym (one_buffer ∙ read_u8-buffer r))
          ∙ read_payload-taken e' bs pad r' h short k' clear' whole left')

  -- The receiver once it has the header and the messages of a packet of `e`, before it delivers.
  abbrev pub after_packet :
      Endpoint F → Endpoint F → SequenceBuffer ReceivedPacket → ℕ → ℕ → ℕ → Endpoint F
  after_packet d e received count size now =
      let acked =
        process_acks (note_received d received e.sequence size now) (ack_field e) (ack_bits_field e)
          now in
      record acked {
        reorder_buffer = buffer_all count acked.expected_message_id e.unacked acked.reorder_buffer;
      }

  read_packet-taken :
      (d e : Endpoint F) (bs pad packet : List ℕ) (count now : ℕ)
      (received : SequenceBuffer ReceivedPacket)
      → IsSender e
      → count ≤ 8
      → count ≤ length e.unacked
      → All IsByte bs
      → length bs < 2 ^ 16
      → All IsByte packet
      → length packet < 2 ^ 28
      → length pad % 8 ≡ 0
      → flat packet ≡ (header_bits e ++ body_bits count e.unacked bs) ++ pad
      → exists d.received e.sequence ≡ false
      → insert received_initial d.received e.sequence ≡ some received
      → read_packet d packet now ≡ taken (after_packet d e received count (length packet) now) bs
  unfolding read_packet
  read_packet-taken d e bs pad packet count now received v few there h short bytes small whole
        begins new room =
      let a1 = bits 16 e.sequence in
      let a2 = bits 16 (ack_field e) in
      let a3 = bits 32 (ack_bits_field e) in
      let body = body_bits count e.unacked bs in
      let start = new_reader-IsValid packet small bytes in
      let s1 =
        read_u16-Reads e.sequence v.sequence_fits (new_reader packet) ((a2 ++ a3) ++ (body ++ pad))
          start
          (then_rest a1 (a2 ++ a3) (body ++ pad)
            (then_rest (header_bits e) body pad (fresh packet begins))) in
      let s2 =
        read_u16-Reads (ack_field e) (ack_field-lt e v) (read_u16 (new_reader packet)).1
          (a3 ++ (body ++ pad)) s1.valid (then_rest a2 a3 (body ++ pad) s1.left) in
      let r2 : BitReader = (read_u16 (read_u16 (new_reader packet)).1).1 in
      let s3 =
        read_u32-Reads (ack_bits_field e) (ack_bits_field-lt e) r2 (body ++ pad) s2.valid s2.left in
      let clear : (read_u32 r2).1.overflow ≡ false =
        s3.latch ∙ s2.latch ∙ s1.latch ∙ new_reader-overflow packet in
      let one_buffer : (read_u32 r2).1.buffer ≡ packet =
        read_u32-buffer r2
        ∙ read_u16-buffer (read_u16 (new_reader packet)).1
        ∙ read_u16-buffer (new_reader packet)
        ∙ (unfold new_reader in refl) in
      let acked : Endpoint F =
        process_acks (note_received d received e.sequence (length packet) now) (ack_field e)
          (ack_bits_field e) now in
      rw (clear, s1.value, new, room, s1.value, s2.value, s3.value)
        (ap (λ b. read_body acked b (read_u32 r2).1) (sym one_buffer)
          ∙ read_body-taken acked count e.unacked bs pad (read_u32 r2).1 few there v.messages h
              short s3.valid clear whole s3.left)

  -- A datagram that one endpoint writes and another takes in: the receiver accepts it, has its
  -- acknowledgements and its messages, in the order of the sender's queue, and its unreliable
  -- payload, and delivers what is then due.
  pub read_packet-write_packet :
      (d e : Endpoint F) (capacity : ℕ) (bs packet : List ℕ) (sent_at now : ℕ)
      (received : SequenceBuffer ReceivedPacket)
      → IsSender e
      → capacity < 2 ^ 28
      → All IsByte bs
      → length bs < 2 ^ 16
      → (write_packet e capacity bs sent_at).0 ≡ some packet
      → exists d.received e.sequence ≡ false
      → insert received_initial d.received e.sequence ≡ some received
      → read_packet d packet now
        ≡ taken (after_packet d e received (include_count_of e bs capacity) (length packet) now) bs
  read_packet-write_packet d e capacity bs packet sent_at now received v small h short written new
        room =
      let (clear, holds) = write_packet_built e capacity bs sent_at packet written in
      let built =
        Emits-Builds capacity (packet_bits e bs capacity) (packet_writer e bs capacity) small
          (packet_writer-Emits e bs capacity v h short) in
      let (pad, begins, bytes, fits) = built.holds clear in
      let count : ℕ = include_count_of e bs capacity in
      let whole : length pad % 8 ≡ 0 = omega (
        arith,
        ap length begins,
        length-append (packet_bits e bs capacity) pad,
        length-packet_bits e bs capacity,
        length-flat (finished (packet_writer e bs capacity)),
        messages_size_whole count e.unacked,
      ) in
      subst (λ p. read_packet d p now ≡ taken (after_packet d e received count (length p) now) bs)
        holds
        (read_packet-taken d e bs pad (finished (packet_writer e bs capacity)) count now received v
          (include_count_of-le e bs capacity) (include_count_of-le_length e bs capacity) h short
          bytes (omega arith) whole begins new room)
