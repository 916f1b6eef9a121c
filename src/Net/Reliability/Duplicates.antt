-- ===== src/Net/Reliability/Duplicates.antt =====
-- `read_packet` of src/net/reliability.cpp and the history of the packets received.
pub mod Later
use morton.Base.{
  ℕ, zero, suc, ◌+◌, ◌-◌, ◌^◌, ◌<◌, ◌≡◌, refl, ap, ◌∙◌, Bool, true, false, not, ◌||◌, ◌&&◌, ltb,
  List, some, if◌then◌else◌, ◌==◌, ==_refl, inl, inr, length, Option-cases, Bool-cases, bit_and,
  sub16, ◌<<<◌, arith, sym, ◌≤◌, ◌⊎◌, [], ◌∷◌, All,
}
use mathlib.Core.Path.{subst}
use morton.Core.Float.{F32}
use morton.Proto.Bitstream.Reader.{BitReader, new_reader, read_u8, read_u16, read_u32, bytes_read}
use morton.Net.SequenceBuffer.{SequenceBuffer, insert, find, exists, store, ack_window_size}
use morton.Net.SequenceBuffer.Window.{IsValid, insert-IsValid, store-IsValid}
use morton.Net.SequenceBuffer.Recorded.{
  Near, Recorded, exists-Recorded, insert-Recorded, store-Recorded, insert_refused,
}
use morton.Net.SequenceBuffer.Lookup.{exists-insert}
use morton.Net.Reliability.{Endpoint, ReceivedPacket, sent_initial, received_initial}
use morton.Net.Reliability.Acks.{on_packet_acked-some, on_packet_acked-none}
use morton.Net.Reliability.{max_reliable_per_packet}
use morton.Net.Reliability.Receive.{
  on_packet_acked, acked_first, ack_loop, process_acks, note_received, read_body, read_payload,
  read_packet, read_messages, deliver_in_order, rejected,
}

exists-store_self :
    (b : SequenceBuffer ReceivedPacket) (s t : ℕ) (x : ReceivedPacket)
    → exists (store b s x) t ≡ exists b t
unfolding exists store
exists-store_self b s t x = refl

pub read_u16-lt : (r : BitReader) → (read_u16 r).0 < 2 ^ 16
unfolding read_u16
read_u16-lt r = omega arith

-- The sequence in the header of a packet.
abbrev pub sequence_of : List ℕ → ℕ
sequence_of body = (read_u16 (new_reader body)).0

module _ {F : F32} where
  on_packet_acked-received :
      (e : Endpoint F) (s now : ℕ) → (on_packet_acked e s now).received ≡ e.received
  on_packet_acked-received e s now = elim (Option-cases (find sent_initial e.sent s)) [
    | inl none_sent ↦ ap (λ (d : Endpoint F). d.received) (on_packet_acked-none e s now none_sent)
    | inr (p, sent) ↦
        ap (λ (d : Endpoint F). d.received) (on_packet_acked-some e s now p sent)
        ∙ elim (Bool-cases p.acked) [
          | inl old ↦ rw old refl
          | inr new ↦ rw new (unfold acked_first in refl)
        ]
  ]

  ack_loop-received :
      (left : ℕ) (e : Endpoint F) (ack bits now : ℕ)
      → (ack_loop left e ack bits now).received ≡ e.received
  unfolding ack_loop
  ack_loop-received zero e ack bits now = refl
  ack_loop-received (suc left) e ack bits now =
      ack_loop-received left (if acked then on_packet_acked e back now else e) ack bits now
      ∙ choice acked
    where
      back : ℕ
      back = sub16 ack (32 - suc left + 1)

      acked : Bool
      acked = not (bit_and bits (1 <<< (32 - suc left)) == 0)

      choice : (b : Bool) → (if b then on_packet_acked e back now else e).received ≡ e.received
      choice true = on_packet_acked-received e back now
      choice false = refl

  process_acks-received :
      (e : Endpoint F) (ack bits now : ℕ) → (process_acks e ack bits now).received ≡ e.received
  unfolding process_acks
  process_acks-received e ack bits now =
      ack_loop-received 32 (on_packet_acked e ack now) ack bits now
      ∙ on_packet_acked-received e ack now

  read_payload-received :
      (e : Endpoint F) (body : List ℕ) (r : BitReader)
      → (read_payload e body r).endpoint.received ≡ e.received
  unfolding read_payload deliver_in_order
  read_payload-received e body r =
      elim (Bool-cases (
        (read_u16 r).1.overflow
        || ltb (length body) (bytes_read (read_u16 r).1 + (read_u16 r).0))) [
          | inl short ↦ rw short refl
          | inr long ↦ rw long refl
        ]

  read_body-received :
      (e : Endpoint F) (body : List ℕ) (r : BitReader)
      → (read_body e body r).endpoint.received ≡ e.received
  unfolding read_body
  read_body-received e body r =
      let count : ℕ = (read_u8 r).0 in
      let walk = read_messages count e.expected_message_id (read_u8 r).1 e.reorder_buffer in
      elim (Bool-cases (ltb max_reliable_per_packet count)) [
        | inl many ↦ rw many refl
        | inr few ↦ elim (Bool-cases walk.0) [
          | inl well ↦
              rw (few, well)
                (read_payload-received (record e { reorder_buffer = walk.2 }) body walk.1)
          | inr bad ↦ rw (few, bad) refl
        ]
      ]

  -- A packet whose sequence is in the history is turned away, and the endpoint is as it was.
  pub read_packet_seen :
      (e : Endpoint F) (body : List ℕ) (now : ℕ)
      → exists e.received (read_u16 (new_reader body)).0 ≡ true
      → read_packet e body now ≡ rejected e
  unfolding read_packet
  read_packet_seen e body now seen =
      elim (Bool-cases ((read_u32 (read_u16 (read_u16 (new_reader body)).1).1).1.overflow)) [
        | inl short ↦ rw short refl
        | inr long ↦ rw (long, seen) refl
      ]

  -- A packet that is accepted enters the history.
  pub read_packet_enters :
      (e : Endpoint F) (body : List ℕ) (now : ℕ)
      → IsValid e.received
      → (read_packet e body now).accepted ≡ true
      → exists (read_packet e body now).endpoint.received (read_u16 (new_reader body)).0 ≡ true
  unfolding read_packet note_received
  read_packet_enters e body now v =
      let sequence : ℕ = (read_u16 (new_reader body)).0 in
      elim (Bool-cases ((read_u32 (read_u16 (read_u16 (new_reader body)).1).1).1.overflow)) [
        | inl short ↦ rw short (λ no. cc)
        | inr long ↦ elim (Bool-cases (exists e.received sequence)) [
          | inl seen ↦ rw (long, seen) (λ no. cc)
          | inr new ↦ elim (Option-cases (insert received_initial e.received sequence)) [
            | inl out ↦ rw (long, new, out) (λ no. cc)
            | inr (received, room) ↦
                rw (long, new, room)
                  (λ taken.
                    ap (λ (b : SequenceBuffer ReceivedPacket). exists b sequence)
                      (read_body-received _ body _ ∙ process_acks-received _ _ _ now)
                    ∙ entered received room)
          ]
        ]
      ]
    where
      entered :
          (received : SequenceBuffer ReceivedPacket)
          → insert received_initial e.received (read_u16 (new_reader body)).0 ≡ some received
          → exists
              (note_received e received (read_u16 (new_reader body)).0 (length body) now).received
              (read_u16 (new_reader body)).0
            ≡ true
      entered received room =
          let s : ℕ = (read_u16 (new_reader body)).0 in
          exists-store_self received s s (record { recv_time_us = now; size = length body })
          ∙ exists-insert received_initial e.received received s s v (read_u16-lt _) (read_u16-lt _)
              room
          ∙ ap (λ b. b || exists e.received s && ltb (sub16 received.latest s) ack_window_size)
              (==_refl s)

  -- A packet leaves the history as it was, or it enters it.
  pub read_packet-received :
      (e : Endpoint F) (body : List ℕ) (now : ℕ)
      → ((read_packet e body now).endpoint.received ≡ e.received)
        ⊎ ((b : SequenceBuffer ReceivedPacket) × (x : ReceivedPacket) × (insert received_initial
                e.received
                (sequence_of body)
              ≡ some b)
            × ((read_packet e body now).endpoint.received ≡ store b (sequence_of body) x))
  unfolding read_packet note_received
  read_packet-received e body now =
      let sequence : ℕ = sequence_of body in
      elim (Bool-cases ((read_u32 (read_u16 (read_u16 (new_reader body)).1).1).1.overflow)) [
        | inl short ↦ inl (rw short refl)
        | inr long ↦ elim (Bool-cases (exists e.received sequence)) [
          | inl seen ↦ inl (rw (long, seen) refl)
          | inr new ↦ elim (Option-cases (insert received_initial e.received sequence)) [
            | inl out ↦ inl (rw (long, new, out) refl)
            | inr (b, room) ↦ inr (
              b,
              record { recv_time_us = now; size = length body },
              room,
              rw (long, new, room) (read_body-received _ body _ ∙ process_acks-received _ _ _ now),
            )
          ]
        ]
      ]
