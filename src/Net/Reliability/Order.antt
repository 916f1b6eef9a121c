-- ===== src/Net/Reliability/Order.antt =====
-- What the reorder buffer of reliability.cpp holds and what `deliver_in_order` takes out of it, when
-- the messages of one stream arrive in any order, more than once or late.
pub mod Stream
use mathlib.Core.Path.{subst}
use mathlib.Core.Option.{some-injective}
use native.Mathlib.Decide.{ℕ_discrete}
use morton.Base.{
  ℕ, zero, suc, ◌+◌, ◌%◌, ◌^◌, ◌≤◌, ◌<◌, ◌≡◌, refl, sym, ap, ◌∙◌, ◌≢◌, Bool, true, false, not, ◌&&◌,
  List, [], ◌∷◌, ◌++◌, Option, none, some, if◌then◌else◌, ◌==◌, ==_iff, ne→==, ==_refl, inl, inr,
  length, u16, Option-cases, Bool-cases, arith,
}
use morton.Core.Sequence.{sequence_greater}
use morton.Net.Reliability.{ReliableMessage}
use morton.Net.Reliability.Receive.{find_message, erase_message, buffer_message, deliver_loop}

find_head :
    (id : ℕ) (m : ReliableMessage) (rest : List (ℕ × ReliableMessage))
    → find_message id ((id, m) ∷ rest) ≡ some m
unfolding find_message
find_head id m rest = rw (==_refl id) refl

find_tail :
    (id key : ℕ) (m : ReliableMessage) (rest : List (ℕ × ReliableMessage))
    → key ≢ id
    → find_message id ((key, m) ∷ rest) ≡ find_message id rest
unfolding find_message
find_tail id key m rest ne = rw (ne→== key id ne) refl

erase_head :
    (id : ℕ) (m : ReliableMessage) (rest : List (ℕ × ReliableMessage))
    → erase_message id ((id, m) ∷ rest) ≡ rest
unfolding erase_message
erase_head id m rest = rw (==_refl id) refl

erase_tail :
    (id key : ℕ) (m : ReliableMessage) (rest : List (ℕ × ReliableMessage))
    → key ≢ id
    → erase_message id ((key, m) ∷ rest) ≡ (key, m) ∷ erase_message id rest
unfolding erase_message
erase_tail id key m rest ne = rw (ne→== key id ne) refl

-- An erasure leaves every other key as it is.
pub find-erase_ne :
    (id other : ℕ) (b : List (ℕ × ReliableMessage))
    → other ≢ id
    → find_message other (erase_message id b) ≡ find_message other b
find-erase_ne id other [] ne = unfold erase_message in refl
find-erase_ne id other ((key, m) ∷ rest) ne = elim (ℕ_discrete key id) [
  | yes e ↦ rw (e, erase_head id m rest) (sym (find_tail other id m rest (λ same. ne (sym same))))
  | no differs ↦ rw (erase_tail id key m rest differs) (elim (ℕ_discrete key other) [
    | yes e ↦ rw (e, find_head other m (erase_message id rest)) (sym (find_head other m rest))
    | no apart ↦
        find_tail other key m (erase_message id rest) apart
        ∙ find-erase_ne id other rest ne
        ∙ sym (find_tail other key m rest apart)
  ])
]

pub length-erase_found :
    (id : ℕ) (b : List (ℕ × ReliableMessage)) (m : ReliableMessage)
    → find_message id b ≡ some m
    → suc (length (erase_message id b)) ≡ length b
unfolding find_message erase_message
length-erase_found id [] m there = absurd (cc there)
length-erase_found id ((key, m') ∷ rest) m there = ground (arith, length-erase_found id rest m)

found_head :
    (id key : ℕ) (m : ReliableMessage) (rest : List (ℕ × ReliableMessage))
    → key ≡ id
    → find_message id ((key, m) ∷ rest) ≡ some m
found_head id key m rest e = rw e (find_head id m rest)

find-erase_none :
    (id other : ℕ) (b : List (ℕ × ReliableMessage))
    → find_message other b ≡ none
    → find_message other (erase_message id b) ≡ none
unfolding find_message erase_message
find-erase_none id other [] missing = refl
find-erase_none id other ((key, m) ∷ rest) missing = ground (arith, find-erase_none id other rest)

-- The test of `read_packet` that a message is one of the past.
abbrev pub dropped : ReliableMessage → ℕ → Bool
dropped m expected = not (sequence_greater m.id (u16 expected)) && not (m.id == u16 expected)

past_dropped :
    (expected n : ℕ)
    → n < expected
    → expected ≤ n + 32767
    → (not (sequence_greater (u16 n) (u16 expected)) && not (u16 n == u16 expected)) ≡ true
unfolding sequence_greater
past_dropped expected n past near = ground arith

buffer_message-dropped :
    (m : ReliableMessage) (expected : ℕ) (b : List (ℕ × ReliableMessage))
    → dropped m expected ≡ true
    → buffer_message (u16 expected) m b ≡ b
unfolding buffer_message
buffer_message-dropped m expected b old = rw old refl

buffer_message_new :
    (m : ReliableMessage) (expected : ℕ) (b : List (ℕ × ReliableMessage))
    → dropped m expected ≡ false
    → find_message m.id b ≡ none
    → buffer_message (u16 expected) m b ≡ (m.id, m) ∷ b
unfolding buffer_message
buffer_message_new m expected b new missing = rw (new, missing) refl

buffer_message_there :
    (m other : ReliableMessage) (expected : ℕ) (b : List (ℕ × ReliableMessage))
    → dropped m expected ≡ false
    → find_message m.id b ≡ some other
    → buffer_message (u16 expected) m b ≡ b
unfolding buffer_message
buffer_message_there m other expected b new there = rw (new, there) refl

module _ (f : ℕ → ReliableMessage) where
  -- An entry of the buffer, when the message `expected` is the next to deliver: the message `n` of
  -- the stream `f`, fewer than 32768 ahead.
  abbrev pub Early : ℕ → ℕ → ReliableMessage → Type 0
  Early expected key m =
      (n : ℕ) × (key ≡ u16 n) × (m ≡ f n) × (expected ≤ n) × (n < expected + 32768)

  -- All entries are such, and no two have one key.
  unfoldable pub Buffered : ℕ → List (ℕ × ReliableMessage) → Type 0
  Buffered expected [] = Unit
  Buffered expected ((key, m) ∷ rest) =
      Early expected key m × (find_message key rest ≡ none) × Buffered expected rest

  -- The messages `n`, `n + 1`, ... of the stream, `count` of them.
  unfoldable pub stream : ℕ → ℕ → List ReliableMessage
  stream n zero = []
  stream n (suc count) = f n ∷ stream (suc n) count

  next_alone :
      (expected n : ℕ) → expected ≤ n → n < expected + 32768 → u16 n ≡ u16 expected → n ≡ expected
  next_alone expected n low high e = omega arith

  -- The message found under the next id is the next one of the stream.
  pub find-next :
      (expected : ℕ) (b : List (ℕ × ReliableMessage)) (m : ReliableMessage)
      → Buffered expected b
      → find_message (u16 expected) b ≡ some m
      → m ≡ f expected
  unfolding Buffered
  find-next expected [] m v found = absurd (unfold find_message in cc)
  find-next expected ((key, m') ∷ rest) m ((n, ek, em, low, high), alone, more) found =
      elim (ℕ_discrete key (u16 expected)) [
        | yes e ↦
            let here = found_head (u16 expected) key m' rest e in
            let same = next_alone expected n low high (sym ek ∙ e) in
            some-injective _ _ (sym found ∙ here) ∙ em ∙ ap f same
        | no differs ↦
            find-next expected rest m more
              (sym (find_tail (u16 expected) key m' rest differs) ∙ found)
      ]

  step_past :
      (expected key : ℕ) (m : ReliableMessage)
      → Early expected key m
      → key ≢ u16 expected
      → Early (suc expected) key m
  step_past expected key m (n, ek, em, low, high) differs = elim (ℕ_discrete n expected) [
    | yes e ↦ absurd (differs (ek ∙ ap u16 e))
    | no ne ↦ (n, ek, em, omega arith, omega arith)
  ]

  later :
      (expected : ℕ) (b : List (ℕ × ReliableMessage))
      → Buffered expected b
      → find_message (u16 expected) b ≡ none
      → Buffered (suc expected) b
  unfolding Buffered
  later expected [] v missing = tt
  later expected ((key, m) ∷ rest) (early, alone, more) missing =
      elim (ℕ_discrete key (u16 expected)) [
        | yes e ↦ absurd (let here = found_head (u16 expected) key m rest e in cc)
        | no differs ↦ (
          step_past expected key m early differs,
          alone,
          later expected rest more (sym (find_tail (u16 expected) key m rest differs) ∙ missing),
        )
      ]

  pub erase-Buffered :
      (expected : ℕ) (b : List (ℕ × ReliableMessage))
      → Buffered expected b
      → Buffered (suc expected) (erase_message (u16 expected) b)
  unfolding Buffered
  erase-Buffered expected [] v = unfold erase_message in tt
  erase-Buffered expected ((key, m) ∷ rest) (early, alone, more) =
      elim (ℕ_discrete key (u16 expected)) [
        | yes e ↦
            subst (Buffered (suc expected))
              (sym (
                ap (λ k. erase_message (u16 expected) ((k, m) ∷ rest)) e
                ∙ erase_head (u16 expected) m rest))
              (later expected rest more (ap (λ k. find_message k rest) (sym e) ∙ alone))
        | no differs ↦
            subst (Buffered (suc expected)) (sym (erase_tail (u16 expected) key m rest differs)) (
              step_past expected key m early differs,
              find-erase_none (u16 expected) key rest alone,
              erase-Buffered expected rest more,
            )
      ]

  -- A message that arrives: one of the 32767 before the next is dropped, as is one that is there.
  pub buffer_message-Buffered :
      (ids : (n : ℕ) → (f n).id ≡ u16 n) (expected n : ℕ) (b : List (ℕ × ReliableMessage))
      → Buffered expected b
      → expected ≤ n + 32767
      → n < expected + 32768
      → Buffered expected (buffer_message (u16 expected) (f n) b)
  buffer_message-Buffered ids expected n b v low high = elim (Bool-cases (dropped (f n) expected)) [
    | inl old ↦ subst (Buffered expected) (sym (buffer_message-dropped (f n) expected b old)) v
    | inr new ↦ elim (Option-cases (find_message (f n).id b)) [
      | inl missing ↦
          subst (Buffered expected) (sym (buffer_message_new (f n) expected b new missing))
            (unfold Buffered in ((n, ids n, refl, ahead new, high), missing, v))
      | inr (m, there) ↦
          subst (Buffered expected) (sym (buffer_message_there (f n) m expected b new there)) v
    ]
  ]
    where
      ahead : dropped (f n) expected ≡ false → expected ≤ n
      ahead new = ground (
        arith,
        past_dropped expected n,
        ap (λ k. not (sequence_greater k (u16 expected)) && not (k == u16 expected)) (ids n),
      )
