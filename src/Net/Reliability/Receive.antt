-- ===== src/Net/Reliability/Receive.antt =====
-- The receiving half: `read_packet`, `process_acks`, `on_packet_acked` and `deliver_in_order`.
use morton.Base.{
  ℕ, zero, suc, ◌+◌, ◌-◌, Bool, true, false, not, ◌&&◌, ◌||◌, List, [], ◌∷◌, Option, none, some,
  ltb, ◌==◌, if◌then◌else◌, length, take, drop, bit_and, u16, u64, sub16, sub64, ◌<<<◌,
}
use morton.Core.Float.{F32}
use morton.Core.Sequence.{sequence_greater}
use morton.Proto.Bitstream.Reader.{
  BitReader, new_reader, read_u8, read_u16, read_u32, read_bytes, bytes_read,
}
use morton.Net.SequenceBuffer.{SequenceBuffer, insert, exists, find, store}
use morton.Net.Reliability.{
  Endpoint, Estimates, ReliableMessage, SentPacket, ReceivedPacket, sent_initial, received_initial,
  max_reliable_per_packet, max_reliable_message_size,
}

-- `std::map::find`, `emplace` of a new key, and `erase`.
unfoldable pub find_message : ℕ → List (ℕ × ReliableMessage) → Option ReliableMessage
find_message id [] = none
find_message id ((key, m) ∷ rest) = if key == id then some m else find_message id rest

unfoldable pub erase_message : ℕ → List (ℕ × ReliableMessage) → List (ℕ × ReliableMessage)
erase_message id [] = []
erase_message id ((key, m) ∷ rest) = if key == id then rest else (key, m) ∷ erase_message id rest

-- What the loop of `read_packet` does with one message.
unfoldable pub buffer_message :
    ℕ → ReliableMessage → List (ℕ × ReliableMessage) → List (ℕ × ReliableMessage)
buffer_message expected m buffer =
    if not (sequence_greater m.id expected) && not (m.id == expected)
    then buffer
    else elim (find_message m.id buffer) [ none ↦ (m.id, m) ∷ buffer | some other ↦ buffer ]

-- One message off the wire, with the tests that end the packet: `none` is a malformed one.
unfoldable pub read_message : BitReader → Option ReliableMessage × BitReader
read_message r =
    let (id, r1) = read_u16 r in
    let (channel, r2) = read_u8 r1 in
    let (payload_size, r3) = read_u16 r2 in
    let (payload, r4) = read_bytes r3 payload_size in
    if ltb max_reliable_message_size payload_size || r3.overflow
    then (none, r3)
    else if r4.overflow
    then (none, r4)
    else (some (record { id = id; channel = channel; sends = 0; payload = payload }), r4)

-- The loop over the messages of a packet: whether it ends well, the reader and the buffer.
unfoldable pub read_messages :
    ℕ → ℕ → BitReader → List (ℕ × ReliableMessage) → Bool × BitReader × List (ℕ × ReliableMessage)
read_messages zero expected r buffer = (true, r, buffer)
read_messages (suc left) expected r buffer =
    let (message, r') = read_message r in
    elim message [
      | none ↦ (false, r', buffer)
      | some m ↦ read_messages left expected r' (buffer_message expected m buffer)
    ]

-- `deliver_in_order`: the messages delivered, the next id expected, and what stays buffered. Each
-- round takes one entry out, so as many rounds as there are entries are enough.
unfoldable pub deliver_loop :
    ℕ → ℕ → List (ℕ × ReliableMessage) → List ReliableMessage × ℕ × List (ℕ × ReliableMessage)
deliver_loop zero expected buffer = ([], expected, buffer)
deliver_loop (suc fuel) expected buffer = elim (find_message expected buffer) [
  | none ↦ ([], expected, buffer)
  | some m ↦
      let (ms, expected', buffer') =
        deliver_loop fuel (u16 (expected + 1)) (erase_message expected buffer) in
      (m ∷ ms, expected', buffer')
]

-- The erasing loop of `on_packet_acked`: the first message with the id.
unfoldable pub erase_unacked : ℕ → List ReliableMessage → List ReliableMessage
erase_unacked id [] = []
erase_unacked id (m ∷ ms) = if m.id == id then ms else m ∷ erase_unacked id ms

unfoldable pub erase_all : List ℕ → List ReliableMessage → List ReliableMessage
erase_all [] messages = messages
erase_all (id ∷ ids) messages = erase_all ids (erase_unacked id messages)

-- What `read_packet` returns, puts out and leaves behind. The caller's `PayloadView` starts null
-- and its list of messages empty.
pub record ReadResult (F : F32) : Type 0 where
  pub accepted : Bool
  pub unreliable : Option (List ℕ)
  pub messages : List ReliableMessage
  pub endpoint : Endpoint F

abbrev pub rejected : {F : F32} → Endpoint F → ReadResult F
rejected e = record { accepted = false; unreliable = none; messages = []; endpoint = e }

module _ {F : F32} where
  open F use {add, sub, mul, div, abs, lt, of_u64, decimal}

  -- A round-trip sample.
  unfoldable pub sample_rtt : Estimates F → ℕ → Estimates F
  sample_rtt s elapsed_us =
      let sample_ms = div (of_u64 elapsed_us) (decimal 1000 0) in
      let smoothing = decimal 10 2 in
      let jitter =
        (if s.rtt_initialized
          then add s.jitter_ewma_ms
              (mul (sub (abs (sub sample_ms s.rtt_ewma_ms)) s.jitter_ewma_ms) smoothing)
          else s.jitter_ewma_ms) in
      let rtt =
        (if s.rtt_initialized
          then add s.rtt_ewma_ms (mul (sub sample_ms s.rtt_ewma_ms) smoothing)
          else sample_ms) in
      let least =
        (if s.rtt_initialized
          then (if lt sample_ms s.rtt_min_ms then sample_ms else s.rtt_min_ms)
          else sample_ms) in
      record s {
        rtt_ewma_ms = rtt;
        rtt_min_ms = least;
        jitter_ewma_ms = jitter;
        rtt_initialized = true;
        stats_rtt_ms = rtt;
        stats_rtt_jitter_ms = jitter;
        stats_rtt_min_ms = least;
      }

  -- The rest of `on_packet_acked`, for the record of a packet that is not acked yet.
  unfoldable pub acked_first : Endpoint F → ℕ → SentPacket → ℕ → Endpoint F
  acked_first e sequence p now_us = record e {
    sent = store e.sent sequence (record p { acked = true });
    counters = record (e.counters) { packets_acked = u64 (e.counters.packets_acked + 1) };
    window = record (e.window) { packets_acked = u64 (e.window.packets_acked + 1) };
    estimates = sample_rtt e.estimates (sub64 now_us p.send_time_us);
    unacked = erase_all p.message_ids e.unacked;
  }

  unfoldable pub on_packet_acked : Endpoint F → ℕ → ℕ → Endpoint F
  on_packet_acked e sequence now_us = elim (find sent_initial e.sent sequence) [
    | none ↦ e
    | some p ↦ if p.acked then e else acked_first e sequence p now_us
  ]

  -- `for (u32 i = 0; i < 32; ++i)`: `left` rounds are left.
  unfoldable pub ack_loop : ℕ → Endpoint F → ℕ → ℕ → ℕ → Endpoint F
  ack_loop zero e ack ack_bits now_us = e
  ack_loop (suc left) e ack ack_bits now_us =
      let i = 32 - suc left in
      let acked = not (bit_and ack_bits (1 <<< i) == 0) in
      ack_loop left (if acked then on_packet_acked e (sub16 ack (i + 1)) now_us else e) ack ack_bits
        now_us

  unfoldable pub process_acks : Endpoint F → ℕ → ℕ → ℕ → Endpoint F
  process_acks e ack ack_bits now_us =
      ack_loop 32 (on_packet_acked e ack now_us) ack ack_bits now_us

  -- The part of `read_packet` between the duplicate test and `process_acks`.
  unfoldable pub note_received : Endpoint F → SequenceBuffer ReceivedPacket → ℕ → ℕ → ℕ → Endpoint F
  note_received e received sequence size now_us =
      let newer = sequence_greater sequence e.highest_received in
      let expected =
        (if not e.has_received
          then 1
          else if newer
          then sub16 sequence e.highest_received
          else 0) in
      record e {
        received = store received sequence (record { recv_time_us = now_us; size = size });
        highest_received = if not e.has_received || newer then sequence else e.highest_received;
        has_received = true;
        counters = record (e.counters) { packets_received = u64 (e.counters.packets_received + 1) };
        window = record (e.window) {
          packets_expected = u64 (e.window.packets_expected + expected);
          packets_recv = u64 (e.window.packets_recv + 1);
          bytes_recv = u64 (e.window.bytes_recv + size);
        };
      }

  unfoldable pub deliver_in_order : Endpoint F → List ReliableMessage × Endpoint F
  deliver_in_order e =
      let (ms, expected, buffer) =
        deliver_loop (length e.reorder_buffer) e.expected_message_id e.reorder_buffer in
      (ms, record e { expected_message_id = expected; reorder_buffer = buffer })

  -- The end of `read_packet`, after its messages.
  unfoldable pub read_payload : Endpoint F → List ℕ → BitReader → ReadResult F
  read_payload e body r =
      let (unreliable_size, r') = read_u16 r in
      let (ms, e') = deliver_in_order e in
      if r'.overflow || ltb (length body) (bytes_read r' + unreliable_size)
      then rejected e
      else record {
        accepted = true;
        unreliable =
            if ltb 0 unreliable_size
            then some (take unreliable_size (drop (bytes_read r') body))
            else none;
        messages = ms;
        endpoint = e';
      }

  -- From the message count on.
  unfoldable pub read_body : Endpoint F → List ℕ → BitReader → ReadResult F
  read_body e body r =
      let (count, r') = read_u8 r in
      let (well, r'', buffer) = read_messages count e.expected_message_id r' e.reorder_buffer in
      let e' = record e { reorder_buffer = buffer } in
      if ltb max_reliable_per_packet count
      then rejected e
      else if not well
      then rejected e'
      else read_payload e' body r''

  unfoldable pub read_packet : Endpoint F → List ℕ → ℕ → ReadResult F
  read_packet e body now_us =
      let (sequence, r1) = read_u16 (new_reader body) in
      let (ack, r2) = read_u16 r1 in
      let (ack_bits, r3) = read_u32 r2 in
      if r3.overflow
      then rejected e
      else if exists e.received sequence
      then rejected e
      else elim (insert received_initial e.received sequence) [
        | none ↦ rejected e
        | some received ↦
            read_body
              (process_acks (note_received e received sequence (length body) now_us) ack ack_bits
                now_us)
              body r3
      ]
