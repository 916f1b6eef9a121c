-- ===== src/Net/Reliability/Acks.antt =====
-- `on_packet_acked` and `process_acks` of src/net/reliability.cpp.
use mathlib.Core.Path.{subst}
use morton.Base.{
  List, [], ◌∷◌, All, ◌≢◌, ◌==◌, ◌||◌, Bool, ==_iff, ne→==, sym, ℕ, zero, suc, ◌-◌, ◌^◌, ◌<◌, ◌≡◌,
  refl, ap, ◌∙◌, true, false, none, some, if◌then◌else◌, ==_refl, inl, inr, Option-cases,
  Bool-cases, bit_and, ◌<<<◌, arith,
}
use Prim.Native.Nat.{bit_and-bitwise}
use morton.Core.Float.{F32}
use morton.Net.SequenceBuffer.{SequenceBuffer, find, exists}
use morton.Net.SequenceBuffer.Window.{IsValid}
use morton.Net.SequenceBuffer.Lookup.{find-store}
use morton.Net.Reliability.{Endpoint, ReliableMessage, SentPacket, sent_initial}
use morton.Net.Reliability.Send.{ack_field, ack_bits_field}
use morton.Net.Reliability.Receive.{
  on_packet_acked, acked_first, erase_unacked, erase_all, ack_loop, process_acks,
}

zero-bit_and : (b : ℕ) → bit_and 0 b ≡ 0
zero-bit_and b = simp bit_and-bitwise refl

find-some :
    (b : SequenceBuffer SentPacket) (s : ℕ) (p : SentPacket)
    → find sent_initial b s ≡ some p
    → exists b s ≡ true
unfolding find
find-some b s p e = ground arith

-- No two messages with one id.
abbrev pub DistinctIds : List ReliableMessage → Type 0
DistinctIds [] = Unit
DistinctIds (m ∷ ms) = All (λ (n : ReliableMessage). m.id ≢ n.id) ms × DistinctIds ms

is_listed : ℕ → List ℕ → Bool
is_listed id [] = false
is_listed id (x ∷ xs) = x == id || is_listed id xs

-- The messages whose id is not in a list.
unfoldable pub not_carried : List ℕ → List ReliableMessage → List ReliableMessage
unfolding is_listed
not_carried ids [] = []
not_carried ids (m ∷ ms) =
    let rest = not_carried ids ms in if is_listed m.id ids then rest else m ∷ rest

not_carried-nil : (ms : List ReliableMessage) → not_carried [] ms ≡ ms
unfolding not_carried is_listed
not_carried-nil [] = refl
not_carried-nil (m ∷ ms) = ap (◌∷◌ m) (not_carried-nil ms)

not_carried-other :
    (id : ℕ) (ids : List ℕ) (ms : List ReliableMessage)
    → All (λ (n : ReliableMessage). id ≢ n.id) ms
    → not_carried (id ∷ ids) ms ≡ not_carried ids ms
unfolding not_carried is_listed
not_carried-other id ids [] h = refl
not_carried-other id ids (m ∷ ms) h = rw (ne→== id m.id h.0, not_carried-other id ids ms h.1) refl

-- Where ids are distinct, the erasing of the first message is that of all messages.
erase_unacked-All :
    (P : ReliableMessage → Type 0) (id : ℕ) (ms : List ReliableMessage)
    → All P ms
    → All P (erase_unacked id ms)
unfolding erase_unacked
erase_unacked-All P id [] h = tt
erase_unacked-All P id (m ∷ ms) h = elim (Bool-cases (m.id == id)) [
  | inl here ↦ rw here h.1
  | inr there ↦ rw there (h.0, erase_unacked-All P id ms h.1)
]

erase_unacked-DistinctIds :
    (id : ℕ) (ms : List ReliableMessage) → DistinctIds ms → DistinctIds (erase_unacked id ms)
unfolding erase_unacked
erase_unacked-DistinctIds id [] h = tt
erase_unacked-DistinctIds id (m ∷ ms) h = elim (Bool-cases (m.id == id)) [
  | inl here ↦ rw here h.1
  | inr there ↦ rw there (erase_unacked-All _ id ms h.0, erase_unacked-DistinctIds id ms h.1)
]

not_carried-erase_unacked :
    (id : ℕ) (ids : List ℕ) (ms : List ReliableMessage)
    → DistinctIds ms
    → not_carried ids (erase_unacked id ms) ≡ not_carried (id ∷ ids) ms
unfolding not_carried is_listed erase_unacked
not_carried-erase_unacked id ids [] h = refl
not_carried-erase_unacked id ids (m ∷ ms) h = elim (Bool-cases (m.id == id)) [
  | inl here ↦
      let same : m.id ≡ id = (==_iff m.id id).0 here in
      let carried : (id == m.id) ≡ true = (==_iff id m.id).1 (sym same) in
      let others : All (λ (n : ReliableMessage). id ≢ n.id) ms =
        subst (λ k. All (λ (n : ReliableMessage). k ≢ n.id) ms) same h.0 in
      rw (here, carried) (sym (not_carried-other id ids ms others))
  | inr there ↦
      let not_carried_now : (id == m.id) ≡ false = ground (arith, there) in
      rw (there, not_carried_now, not_carried-erase_unacked id ids ms h.1) refl
]

erase_all-not_carried :
    (ids : List ℕ) (ms : List ReliableMessage)
    → DistinctIds ms
    → erase_all ids ms ≡ not_carried ids ms
unfolding erase_all
erase_all-not_carried [] ms h = sym (not_carried-nil ms)
erase_all-not_carried (id ∷ ids) ms h =
    erase_all-not_carried ids (erase_unacked id ms) (erase_unacked-DistinctIds id ms h)
    ∙ not_carried-erase_unacked id ids ms h

module _ {F : F32} where
  -- The two outcomes of an acknowledgement.
  pub on_packet_acked-some :
      (e : Endpoint F) (s now : ℕ) (p : SentPacket)
      → find sent_initial e.sent s ≡ some p
      → on_packet_acked e s now ≡ (if p.acked then e else acked_first e s p now)
  unfolding on_packet_acked
  on_packet_acked-some e s now p h = rw (h, on_packet_acked)

  pub on_packet_acked-none :
      (e : Endpoint F) (s now : ℕ) → find sent_initial e.sent s ≡ none → on_packet_acked e s now ≡ e
  unfolding on_packet_acked
  on_packet_acked-none e s now h = rw (h, on_packet_acked)

  marked :
      (e : Endpoint F) (s now : ℕ) (p : SentPacket)
      → IsValid e.sent
      → s < 2 ^ 16
      → find sent_initial e.sent s ≡ some p
      → find sent_initial (acked_first e s p now).sent s ≡ some (record p { acked = true })
  unfolding acked_first
  marked e s now p v hs h =
      find-store sent_initial e.sent s s (record p { acked = true }) v hs hs
        (find-some e.sent s p h)
      ∙ ap (λ b. if b then some (record p { acked = true }) else find sent_initial e.sent s)
          (==_refl s)

  -- An acknowledgement counts once: repeated, at any other time, it changes nothing, no statistic,
  -- estimate or queue.
  pub on_packet_acked_twice :
      (e : Endpoint F) (s now later : ℕ)
      → IsValid e.sent
      → s < 2 ^ 16
      → on_packet_acked (on_packet_acked e s now) s later ≡ on_packet_acked e s now
  on_packet_acked_twice e s now later v hs = elim (Option-cases (find sent_initial e.sent s)) [
    | inl none_sent ↦
        let same = on_packet_acked-none e s now none_sent in
        rw (same, on_packet_acked-none e s later none_sent)
    | inr (p, sent) ↦ elim (Bool-cases p.acked) [
      | inl old ↦
          let same : on_packet_acked e s now ≡ e =
            on_packet_acked-some e s now p sent
            ∙ ap (λ b. if b then e else acked_first e s p now) old in
          let again : on_packet_acked e s later ≡ e =
            on_packet_acked-some e s later p sent
            ∙ ap (λ b. if b then e else acked_first e s p later) old in
          rw (same, again)
      | inr new ↦
          let first : on_packet_acked e s now ≡ acked_first e s p now =
            on_packet_acked-some e s now p sent
            ∙ ap (λ b. if b then e else acked_first e s p now) new in
          rw first (
            on_packet_acked-some (acked_first e s p now) s later (record p { acked = true })
              (marked e s now p v hs sent))
    ]
  ]

  ack_loop_clear : (left : ℕ) (e : Endpoint F) (ack now : ℕ) → ack_loop left e ack 0 now ≡ e
  unfolding ack_loop
  ack_loop_clear zero e ack now = refl
  ack_loop_clear (suc left) e ack now =
      rw (zero-bit_and (1 <<< (32 - suc left))) (ack_loop_clear left e ack now)

  -- The acknowledgement fields of a peer that has received nothing acknowledge packet 0: a sender
  -- with distinct message ids whose packet 0 is in its history and not acknowledged yet is left with
  -- exactly those messages that packet 0 did not carry.
  pub process_acks_unseen :
      (peer e : Endpoint F) (now : ℕ) (p : SentPacket)
      → peer.has_received ≡ false
      → find sent_initial e.sent 0 ≡ some p
      → p.acked ≡ false
      → DistinctIds e.unacked
      → (process_acks e (ack_field peer) (ack_bits_field peer) now).unacked
        ≡ not_carried p.message_ids e.unacked
  unfolding process_acks ack_field ack_bits_field
  process_acks_unseen peer e now p unseen sent new distinct =
      rw
        (
          unseen,
          ack_loop_clear 32 (on_packet_acked e 0 now) 0 now,
          on_packet_acked-some e 0 now p sent,
          new,
        )
        (unfold acked_first in erase_all-not_carried p.message_ids e.unacked distinct)
