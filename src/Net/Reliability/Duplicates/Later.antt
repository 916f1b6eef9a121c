-- ===== src/Net/Reliability/Duplicates/Later.antt =====
-- `read_packet` of src/net/reliability.cpp when a packet comes again, at once or after others.
use morton.Base.{ℕ, ◌^◌, ◌<◌, ◌≡◌, refl, true, List, inl, inr, Bool-cases, sym, ◌≤◌, [], ◌∷◌, All}
use mathlib.Core.Path.{subst}
use morton.Core.Float.{F32}
use morton.Proto.Bitstream.Reader.{new_reader, read_u16, read_u32}
use morton.Net.SequenceBuffer.{exists}
use morton.Net.SequenceBuffer.Window.{IsValid, insert-IsValid, store-IsValid}
use morton.Net.SequenceBuffer.Recorded.{
  Near, Recorded, exists-Recorded, insert-Recorded, store-Recorded, insert_refused,
}
use morton.Net.Reliability.{Endpoint, received_initial}
use morton.Net.Reliability.Receive.{read_packet, rejected}
use morton.Net.Reliability.Duplicates.{
  read_u16-lt, sequence_of, read_packet_seen, read_packet_enters, read_packet-received,
}

module _ {F : F32} where
  -- The endpoint after packets, each with the time at which it comes.
  abbrev pub receive_all : Endpoint F → List (List ℕ × ℕ) → Endpoint F
  receive_all e [] = e
  receive_all e (p ∷ packets) = receive_all (read_packet e p.0 p.1).endpoint packets

  read_packet-Recorded :
      (e : Endpoint F) (body : List ℕ) (now s ahead : ℕ)
      → s < 2 ^ 16
      → ahead ≤ 32767
      → Near ahead s (sequence_of body)
      → Recorded e.received s ahead
      → Recorded (read_packet e body now).endpoint.received s ahead
  read_packet-Recorded e body now s ahead hs small near r = elim (read_packet-received e body now) [
    | inl same ↦ subst (λ b. Recorded b s ahead) (sym same) r
    | inr (b, x, room, stored) ↦
        subst (λ c. Recorded c s ahead) (sym stored)
          (store-Recorded b s ahead (sequence_of body) x (
            insert-Recorded received_initial e.received b s ahead (sequence_of body) hs
              (read_u16-lt _) small near r room))
  ]

  read_packet-IsValid :
      (e : Endpoint F) (body : List ℕ) (now : ℕ)
      → IsValid e.received
      → IsValid (read_packet e body now).endpoint.received
  read_packet-IsValid e body now v = elim (read_packet-received e body now) [
    | inl same ↦ subst IsValid (sym same) v
    | inr (b, x, room, stored) ↦ subst IsValid (sym stored) (
        store-IsValid b (sequence_of body) x
          (insert-IsValid received_initial e.received b (sequence_of body) v (read_u16-lt _) room))
  ]

  receive_all-Recorded :
      (e : Endpoint F) (packets : List (List ℕ × ℕ)) (s ahead : ℕ)
      → s < 2 ^ 16
      → ahead ≤ 32767
      → All (λ p. Near ahead s (sequence_of p.0)) packets
      → Recorded e.received s ahead
      → Recorded (receive_all e packets).received s ahead
  receive_all-Recorded e [] s ahead hs small near r = r
  receive_all-Recorded e (p ∷ packets) s ahead hs small near r =
      receive_all-Recorded (read_packet e p.0 p.1).endpoint packets s ahead hs small near.1
        (read_packet-Recorded e p.0 p.1 s ahead hs small near.0 r)

  -- A packet whose sequence is recorded is turned away, and the endpoint is as it was.
  read_packet_refused :
      (e : Endpoint F) (body : List ℕ) (now ahead : ℕ)
      → ahead ≤ 32767
      → Recorded e.received (sequence_of body) ahead
      → read_packet e body now ≡ rejected e
  unfolding read_packet
  read_packet_refused e body now ahead small r =
      elim (Bool-cases (exists e.received (sequence_of body))) [
        | inl seen ↦ read_packet_seen e body now seen
        | inr new ↦
            let out =
              insert_refused received_initial e.received (sequence_of body) ahead (read_u16-lt _)
                small r new in
            elim (Bool-cases ((read_u32 (read_u16 (read_u16 (new_reader body)).1).1).1.overflow)) [
              | inl short ↦ rw short refl
              | inr long ↦ rw (long, new, out) refl
            ]
      ]

  -- From a well-formed history, a packet that was accepted comes again after any further packets,
  -- accepted or not, none of them numbered more than `ahead` after it or more than 32767 - `ahead`
  -- before it, with any `ahead` from 1023 to 32767: it is turned away, and the endpoint stays as
  -- those packets left it.
  pub read_packet_again :
      (e : Endpoint F) (body : List ℕ) (packets : List (List ℕ × ℕ)) (now later ahead : ℕ)
      → IsValid e.received
      → (read_packet e body now).accepted ≡ true
      → 1023 ≤ ahead
      → ahead ≤ 32767
      → All (λ p. Near ahead (sequence_of body) (sequence_of p.0)) packets
      → let e' = receive_all (read_packet e body now).endpoint packets in
        read_packet e' body later ≡ rejected e'
  read_packet_again e body packets now later ahead v taken wide small near =
      let e' : Endpoint F = (read_packet e body now).endpoint in
      read_packet_refused (receive_all e' packets) body later ahead small (
        receive_all-Recorded e' packets (sequence_of body) ahead (read_u16-lt _) small near (
          exists-Recorded e'.received (sequence_of body) ahead (read_packet-IsValid e body now v)
            (read_u16-lt _) wide (read_packet_enters e body now v taken)))
