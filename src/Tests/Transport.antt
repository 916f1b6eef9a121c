-- ===== src/Tests/Transport.antt =====
-- The reliable transport on concrete inputs.
use morton.Base.{
  ℕ, zero, suc, ◌+◌, ◌*◌, ◌≤◌, ◌<◌, ◌≡◌, ◌≢◌, ◌↔◌, refl, true, false, List, [], ◌∷◌, none, some,
  if◌then◌else◌, length, ltb, ◌==◌, u16, sub16, arith, ◌⊎◌, inl,
}
use morton.Core.Sequence.{sequence_greater}
use morton.Proto.Bitstream.Writer.{
  new_writer, flush_bytes, mask_value, push_bits, write_bits, write_u8, write_u16, write_u32,
  write_each, append_bytes, write_bytes, finished, bits_remaining,
}
use morton.Proto.Bitstream.Reader.{
  new_reader, read_loop, read_bits, read_u8, read_u16, read_u32, read_each, read_bytes, bytes_read,
}
use morton.Net.SequenceBuffer.{
  SequenceBuffer, new_buffer, insert, find, exists, store, place, advance, too_old, remove_range,
  clear_loop, ack_window_size,
}
use morton.Net.SequenceBuffer.Window.{IsValid, new_buffer-IsValid, insert-IsValid, store-IsValid}
use morton.Net.SequenceBuffer.Lookup.{insert-eq-none_iff, find-insert, find-store}
use morton.Net.Reliability.{
  Endpoint, ReliableMessage, SentPacket, ReceivedPacket, sent_initial, received_initial,
  new_endpoint,
}
use morton.Net.Reliability.Send.{
  count_included, write_message, write_messages, write_body, ack_field, ack_bits_field,
  write_ack_header, include_count_of, packet_writer, write_packet,
}
use morton.Net.Reliability.Receive.{
  rejected, find_message, buffer_message, read_message, read_messages, on_packet_acked,
  process_acks, read_payload, read_body, read_packet,
}
use morton.Net.Reliability.Rates.{loss_loop, loss_loop-end}
use morton.Net.Reliability.Acks.{on_packet_acked_twice, process_acks_unseen, not_carried}
use morton.Net.Reliability.Duplicates.{sequence_of}
use morton.Net.Reliability.Duplicates.Later.{receive_all, read_packet_again}
use morton.Net.SequenceBuffer.Recorded.{Near}
use morton.Net.Reliability.Order.{stream}
use morton.Net.Reliability.Order.Stream.{
  Receiver, Run, idle, start, arrive, deliver, take_in, hand_out, delivered_prefix,
  hand_out_complete,
}
use morton.Net.Reliability.Wire.{IsSender, packet_size, write_packet-eq-none_iff}
use morton.Net.Reliability.Wire.Datagram.{taken, after_packet, read_packet-write_packet}
use morton.Tests.Numbers.{whole}
use morton.Tests.Protocol.{is_bytes_sound}

abbrev blank : Endpoint whole
blank = new_endpoint whole

-- A sender with one message in its queue.
abbrev hello : ReliableMessage
hello = record { id = 0; channel = 2; sends = 0; payload = 104 ∷ 105 ∷ [] }

abbrev sender : Endpoint whole
sender = record blank { unacked = hello ∷ []; next_message_id = 1 }

sender-IsSender : IsSender sender
unfolding new_endpoint
sender-IsSender = record {
  sequence_fits = omega arith;
  highest_fits = omega arith;
  messages = (
    record {
      id_fits = omega arith;
      channel_fits = omega arith;
      payload_bytes = is_bytes_sound (104 ∷ 105 ∷ []) refl;
      payload_short = omega arith;
    },
    tt,
  );
}

abbrev first_slot : SequenceBuffer ReceivedPacket
first_slot = place received_initial (advance (new_buffer received_initial) 0) 0

nothing_yet : exists blank.received 0 ≡ false
unfolding new_endpoint exists new_buffer
nothing_yet = refl

first_insert : insert received_initial blank.received 0 ≡ some first_slot
unfolding new_endpoint insert new_buffer too_old
first_insert = refl

abbrev datagram : List ℕ
datagram = 0 ∷ 0 ∷ 0 ∷ 0 ∷ 0 ∷ 0 ∷ 0 ∷ 0 ∷ 1 ∷ 0 ∷ 0 ∷ 2 ∷ 2 ∷ 0 ∷ 104 ∷ 105 ∷ 1 ∷ 0 ∷ 7 ∷ []

sender-writes : (write_packet sender 64 (7 ∷ []) 5).0 ≡ some datagram
unfolding write_packet new_endpoint insert too_old new_buffer packet_writer write_body
    include_count_of write_ack_header count_included write_messages write_message ack_field
    ack_bits_field write_u8 write_u16 write_u32 write_bits write_bytes finished bits_remaining
    new_writer flush_bytes mask_value push_bits append_bytes
sender-writes = refl

read_packet-write_packet_example :
    read_packet blank datagram 9
    ≡ taken
        (after_packet blank sender first_slot (include_count_of sender (7 ∷ []) 64) 19 9)
        (7 ∷ [])
unfolding new_endpoint
read_packet-write_packet_example =
    read_packet-write_packet blank sender 64 (7 ∷ []) datagram 5 9 first_slot sender-IsSender
      (omega arith) (is_bytes_sound (7 ∷ []) refl) (omega arith) sender-writes nothing_yet
      first_insert

blank-received : IsValid blank.received
unfolding new_endpoint
blank-received = new_buffer-IsValid received_initial

blank-sent : IsValid blank.sent
unfolding new_endpoint
blank-sent = new_buffer-IsValid sent_initial

datagram-accepted : (read_packet blank datagram 9).accepted ≡ true
unfolding read_packet new_endpoint exists insert too_old new_buffer new_reader read_loop read_bits
    read_u8 read_u16 read_u32 read_each read_bytes bytes_read read_body read_payload read_messages
    read_message buffer_message find_message
datagram-accepted = refl

-- A packet with the number 2000, after which 0 is out of the history.
abbrev far_packet : List ℕ
far_packet = 208 ∷ 7 ∷ 0 ∷ 0 ∷ 0 ∷ 0 ∷ 0 ∷ 0 ∷ 0 ∷ 0 ∷ 0 ∷ []

datagram-number : sequence_of datagram ≡ 0
unfolding new_reader read_loop read_bits read_u16
datagram-number = refl

far_packet-number : sequence_of far_packet ≡ 2000
unfolding new_reader read_loop read_bits read_u16
far_packet-number = refl

far_packet-Near : Near 30000 (sequence_of datagram) (sequence_of far_packet)
far_packet-Near = rw (datagram-number, far_packet-number) (inl (omega arith))

read_packet_again_example :
    read_packet
      (receive_all (read_packet blank datagram 9).endpoint ((far_packet, 10) ∷ []))
      datagram
      11
    ≡ rejected (receive_all (read_packet blank datagram 9).endpoint ((far_packet, 10) ∷ []))
read_packet_again_example =
    read_packet_again blank datagram ((far_packet, 10) ∷ []) 9 11 30000 blank-received
      datagram-accepted (omega arith) (omega arith) (far_packet-Near, tt)

-- The room for a first packet in the history of those sent.
abbrev sent_slot : SequenceBuffer SentPacket
sent_slot = place sent_initial (advance (new_buffer sent_initial) 0) 0

sent_insert : insert sent_initial blank.sent 0 ≡ some sent_slot
unfolding new_endpoint insert new_buffer too_old
sent_insert = refl

write_packet-eq-none_iff_example :
    ((write_packet sender 18 (7 ∷ []) 5).0 ≡ none) ↔ (8 * 18 < packet_size sender (7 ∷ []) 18)
unfolding new_endpoint
write_packet-eq-none_iff_example =
    write_packet-eq-none_iff sender 18 (7 ∷ []) 5 sent_slot sender-IsSender (omega arith)
      (is_bytes_sound (7 ∷ []) refl) (omega arith) sent_insert

-- Two messages, each of which fits a datagram of 20 bytes, are both counted in, and no packet of
-- the two is built.
abbrev pair : Endpoint whole
pair = record blank { unacked = hello ∷ record hello { id = 1 } ∷ []; next_message_id = 2 }

pair-writes : (write_packet pair 20 (7 ∷ []) 5).0 ≡ none
unfolding write_packet new_endpoint insert too_old new_buffer packet_writer write_body
    include_count_of write_ack_header count_included write_messages write_message ack_field
    ack_bits_field write_u8 write_u16 write_u32 write_bits write_bytes finished bits_remaining
    new_writer flush_bytes mask_value push_bits append_bytes write_each
pair-writes = refl

-- A sender whose packet 0 is on its way.
abbrev waiting : Endpoint whole
waiting = record sender {
  sequence = 1;
  sent =
      store sent_slot 0
        (record { send_time_us = 5; size = 19; acked = false; message_ids = 0 ∷ [] });
}

abbrev on_its_way : SentPacket
on_its_way = record { send_time_us = 5; size = 19; acked = false; message_ids = 0 ∷ [] }

waiting-sent : IsValid waiting.sent
waiting-sent =
    store-IsValid sent_slot 0 on_its_way
      (insert-IsValid sent_initial blank.sent sent_slot 0 blank-sent (omega arith) sent_insert)

on_packet_acked_twice_example :
    on_packet_acked (on_packet_acked waiting 0 100) 0 200 ≡ on_packet_acked waiting 0 100
on_packet_acked_twice_example = on_packet_acked_twice waiting 0 100 200 waiting-sent (omega arith)

waiting-find : find sent_initial waiting.sent 0 ≡ some on_its_way
unfolding find exists store place advance new_buffer remove_range clear_loop
waiting-find = refl

blank_unseen : blank.has_received ≡ false
unfolding new_endpoint
blank_unseen = refl

process_acks_unseen_example :
    (process_acks waiting (ack_field blank) (ack_bits_field blank) 100).unacked
    ≡ not_carried (0 ∷ []) waiting.unacked
process_acks_unseen_example =
    process_acks_unseen blank waiting 100 on_its_way blank_unseen waiting-find refl (tt, tt)

insert-IsValid_example : IsValid sent_slot
insert-IsValid_example =
    insert-IsValid sent_initial blank.sent sent_slot 0 blank-sent (omega arith) sent_insert

insert-eq-none_iff_example : (insert sent_initial blank.sent 7 ≡ none) ↔ (
    (blank.sent.has_latest ≡ true)
    × (1024 ≤ sub16 blank.sent.latest 7)
    × ((sub16 blank.sent.latest 7 < 32768)
        ⊎ ((sub16 blank.sent.latest 7 ≡ 32768) × (7 < blank.sent.latest))))
insert-eq-none_iff_example = insert-eq-none_iff sent_initial blank.sent 7 blank-sent (omega arith)

find-insert_example : find sent_initial sent_slot 5 ≡ (
    if 5 == 0
    then some sent_initial
    else if ltb (sub16 sent_slot.latest 5) ack_window_size
    then find sent_initial blank.sent 5
    else none)
find-insert_example =
    find-insert sent_initial blank.sent sent_slot 0 5 blank-sent (omega arith) (omega arith)
      sent_insert

sent_slot-exists : exists sent_slot 0 ≡ true
unfolding exists place advance new_buffer remove_range clear_loop
sent_slot-exists = refl

find-store_example :
    find sent_initial (store sent_slot 0 on_its_way) 0
    ≡ (if 0 == 0 then some on_its_way else find sent_initial sent_slot 0)
find-store_example =
    find-store sent_initial sent_slot 0 0 on_its_way
      (insert-IsValid sent_initial blank.sent sent_slot 0 blank-sent (omega arith) sent_insert)
      (omega arith) (omega arith) sent_slot-exists

loss_loop-end_example :
    (loss_loop 5 (new_buffer sent_initial) 2 65533).0
    ≡ (if sequence_greater 2 65533 then 2 else 65533)
loss_loop-end_example =
    loss_loop-end (new_buffer sent_initial) 2 65533 5 (omega arith) (omega arith) (omega arith)

-- A stream, its message 1 before its message 0.
abbrev numbered : ℕ → ReliableMessage
numbered n = record { id = u16 n; channel = 0; sends = 0; payload = u16 n ∷ [] }

abbrev both_in : Receiver
both_in = take_in (numbered 0) (take_in (numbered 1) idle)

both_in-Run : Run numbered both_in
unfolding take_in
both_in-Run =
    arrive (take_in (numbered 1) idle) 0 (arrive idle 1 start (omega arith) (omega arith))
      (omega arith) (omega arith)

delivered_prefix_example :
    (hand_out both_in).delivered ≡ stream numbered 0 (length (hand_out both_in).delivered)
delivered_prefix_example =
    delivered_prefix numbered (λ n. refl) (hand_out both_in) (deliver both_in both_in-Run)

both_there :
    (n : ℕ)
    → length both_in.delivered ≤ n
    → n < length both_in.delivered + 2
    → find_message (u16 n) both_in.buffer ≢ none
unfolding take_in buffer_message find_message sequence_greater
both_there zero low high missing = cc
both_there (suc zero) low high missing = cc
both_there (suc (suc n)) low high missing = omega arith

hand_out_complete_example : length both_in.delivered + 2 ≤ length (hand_out both_in).delivered
hand_out_complete_example =
    hand_out_complete numbered (λ n. refl) both_in both_in-Run 2 (omega arith) both_there
