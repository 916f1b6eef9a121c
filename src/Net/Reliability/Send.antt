-- ===== src/Net/Reliability/Send.antt =====
-- The sending half: `queue_reliable` and `write_packet`.
use morton.Base.{
  ℕ, zero, suc, ◌+◌, ◌*◌, false, ◌||◌, List, [], ◌∷◌, ◌++◌, Option, none, some, ltb, ◌==◌,
  if◌then◌else◌, length, bit_or, u8, u16, u32, u64, sub16, ◌<<<◌,
}
use morton.Core.Float.{F32}
use morton.Proto.Bitstream.Writer.{
  BitWriter, new_writer, write_u8, write_u16, write_u32, write_bytes, bits_remaining, finished,
  bytes_written,
}
use morton.Net.SequenceBuffer.{SequenceBuffer, insert, exists, store}
use morton.Net.Reliability.{
  Endpoint, ReliableMessage, SentPacket, ReceivedPacket, sent_initial, max_reliable_per_packet,
  max_reliable_message_size,
}

-- `for (u32 i = 0; i < 32; ++i)`, from the highest bit down: `count` bits are left to set.
unfoldable pub ack_bits_of : SequenceBuffer ReceivedPacket → ℕ → ℕ → ℕ
ack_bits_of received highest zero = 0
ack_bits_of received highest (suc i) =
    let rest = ack_bits_of received highest i in
    if exists received (sub16 highest (i + 1)) then bit_or rest (1 <<< i) else rest

-- The messages that the first loop of `write_packet` counts, at most `left` of them. The test sees
-- the room that is left after the header, whatever was counted before.
unfoldable pub count_included : ℕ → BitWriter → ℕ → List ReliableMessage → ℕ
count_included zero w unreliable_size messages = 0
count_included (suc left) w unreliable_size [] = 0
count_included (suc left) w unreliable_size (m ∷ ms) =
    let rest = count_included left w unreliable_size ms in
    let needed_bits = u32 (16 + 8 + 16 + length m.payload * 8) in
    if ltb (bits_remaining w) (u32 (needed_bits + unreliable_size * 8 + 32)) then 0 else suc rest

unfoldable pub write_message : BitWriter → ReliableMessage → BitWriter
write_message w m =
    write_bytes (write_u16 (write_u8 (write_u16 w m.id) m.channel) (u16 (length m.payload)))
      m.payload

unfoldable pub write_messages : ℕ → BitWriter → List ReliableMessage → BitWriter
write_messages zero w messages = w
write_messages (suc left) w [] = w
write_messages (suc left) w (m ∷ ms) = write_messages left (write_message w m) ms

-- `record->message_ids`, `message.sends++` and the count of retransmits, over the same messages.
unfoldable pub included_ids : ℕ → List ReliableMessage → List ℕ
included_ids zero messages = []
included_ids (suc left) [] = []
included_ids (suc left) (m ∷ ms) = m.id ∷ included_ids left ms

unfoldable pub count_sends : ℕ → List ReliableMessage → List ReliableMessage
count_sends zero messages = messages
count_sends (suc left) [] = []
count_sends (suc left) (m ∷ ms) = record m { sends = u32 (m.sends + 1) } ∷ count_sends left ms

unfoldable pub count_retransmits : ℕ → List ReliableMessage → ℕ
count_retransmits zero messages = 0
count_retransmits (suc left) [] = 0
count_retransmits (suc left) (m ∷ ms) = (if ltb 0 m.sends then 1 else 0) + count_retransmits left ms

-- All that follows the header, for `include_count` messages.
unfoldable pub write_body : ℕ → List ReliableMessage → List ℕ → BitWriter → BitWriter
write_body include_count messages unreliable w =
    let w1 = write_u8 w (u8 include_count) in
    let w2 = write_messages include_count w1 messages in
    let w3 = write_u16 w2 (u16 (length unreliable)) in
    if ltb 0 (length unreliable) then write_bytes w3 unreliable else w3

module _ {F : F32} where
  unfoldable pub queue_reliable : Endpoint F → ℕ → List ℕ → Endpoint F
  queue_reliable e channel payload =
      if length payload == 0 || ltb max_reliable_message_size (length payload)
      then e
      else record e {
        next_message_id = u16 (e.next_message_id + 1);
        unacked =
            e.unacked
            ++ (record { id = e.next_message_id; channel = channel; sends = 0; payload = payload }
                ∷ []);
      }

  -- The newest sequence received, and the history of the 32 before it.
  unfoldable pub ack_field : Endpoint F → ℕ
  ack_field e = if e.has_received then e.highest_received else 0

  unfoldable pub ack_bits_field : Endpoint F → ℕ
  ack_bits_field e = if e.has_received then ack_bits_of e.received e.highest_received 32 else 0

  unfoldable pub write_ack_header : Endpoint F → BitWriter → BitWriter
  write_ack_header e w =
      write_u32 (write_u16 (write_u16 w e.sequence) (ack_field e)) (ack_bits_field e)

  -- The number of messages that the packet carries.
  unfoldable pub include_count_of : Endpoint F → List ℕ → ℕ → ℕ
  include_count_of e unreliable capacity =
      count_included max_reliable_per_packet (write_ack_header e (new_writer capacity))
        (length unreliable) e.unacked

  -- The writer at the end of `write_packet`.
  unfoldable pub packet_writer : Endpoint F → List ℕ → ℕ → BitWriter
  packet_writer e unreliable capacity =
      write_body (include_count_of e unreliable capacity) e.unacked unreliable
        (write_ack_header e (new_writer capacity))

  -- The state once the messages are in the packet, with the record of the packet in `sent`.
  unfoldable pub packet_recorded : Endpoint F → SequenceBuffer SentPacket → ℕ → ℕ → ℕ → Endpoint F
  packet_recorded e sent include_count size now_us = record e {
    sequence = u16 (e.sequence + 1);
    sent = store sent e.sequence (record {
      send_time_us = now_us;
      size = size;
      acked = false;
      message_ids = included_ids include_count e.unacked;
    });
    unacked = count_sends include_count e.unacked;
    counters = record (e.counters) {
      reliable_retransmits =
          u64 (e.counters.reliable_retransmits + count_retransmits include_count e.unacked);
    };
  }

  unfoldable pub packet_counted : Endpoint F → ℕ → Endpoint F
  packet_counted e size = record e {
    counters = record (e.counters) { packets_sent = u64 (e.counters.packets_sent + 1) };
    window = record (e.window) { bytes_sent = u64 (e.window.bytes_sent + size) };
  }

  -- The bytes of the packet, `none` where the source returns 0, and the new state.
  unfoldable pub write_packet : Endpoint F → ℕ → List ℕ → ℕ → Option (List ℕ) × Endpoint F
  write_packet e capacity unreliable now_us =
      let include_count = include_count_of e unreliable capacity in
      let w = packet_writer e unreliable capacity in
      elim (insert sent_initial e.sent e.sequence) [
        | none ↦ (none, record e { sequence = u16 (e.sequence + 1) })
        | some sent ↦
            if w.overflow then (none, packet_recorded e sent include_count 0 now_us) else (
              some (finished w),
              packet_counted (packet_recorded e sent include_count (bytes_written w) now_us)
                  (bytes_written w),
            )
      ]
