-- ===== src/Net/Reliability/Order/Stream.antt =====
-- The delivery loop over the reorder buffer, and the runs of a receiver that reads one stream.
use mathlib.Core.Path.{subst, ap₂}
use morton.Base.{
  ℕ, zero, suc, ◌+◌, ◌≤◌, ◌<◌, ◌≡◌, refl, sym, ap, ◌∙◌, ◌≢◌, false, List, [], ◌∷◌, ◌++◌, none, some,
  inl, inr, length, length-append, u16, Option-cases, Bool-cases, ltb, ltb→lt, arith,
}
use morton.Net.Reliability.{ReliableMessage}
use morton.Net.Reliability.Receive.{find_message, erase_message, buffer_message, deliver_loop}
use morton.Net.Reliability.Order.{
  Buffered, stream, find-next, erase-Buffered, buffer_message-Buffered, find-erase_ne,
  length-erase_found,
}

deliver_stop :
    (fuel expected : ℕ) (b : List (ℕ × ReliableMessage))
    → find_message expected b ≡ none
    → deliver_loop fuel expected b ≡ ([], expected, b)
unfolding deliver_loop
deliver_stop zero expected b missing = refl
deliver_stop (suc fuel) expected b missing = rw (missing, deliver_loop) refl

module _ (f : ℕ → ReliableMessage) where
  -- The outcome of the loop, when it has delivered `count` messages from `expected` on.
  pub record Delivers (expected : ℕ) (b : List (ℕ × ReliableMessage)) (count : ℕ)
      (p : List ReliableMessage × ℕ × List (ℕ × ReliableMessage)) : Type 0 where
    pub in_order : p.0 ≡ stream f expected count
    pub next : p.1 ≡ u16 (expected + count)
    pub kept : Buffered f (expected + count) p.2
    pub no_more : find_message p.1 p.2 ≡ none
    pub rest_stays :
        (n : ℕ)
        → expected + count ≤ n
        → n < expected + 32768
        → find_message (u16 n) p.2 ≡ find_message (u16 n) b

  deliver_first :
      (fuel expected : ℕ) (b : List (ℕ × ReliableMessage)) (m : ReliableMessage)
      → find_message (u16 expected) b ≡ some m
      → let rest = deliver_loop fuel (u16 (suc expected)) (erase_message (u16 expected) b) in
        deliver_loop (suc fuel) (u16 expected) b ≡ (m ∷ rest.0, rest.1, rest.2)
  unfolding deliver_loop
  deliver_first fuel expected b m there =
      let wrap : u16 (u16 expected + 1) ≡ u16 (suc expected) = omega arith in
      rw (deliver_loop, there, wrap) refl

  nothing_due :
      (fuel expected : ℕ) (b : List (ℕ × ReliableMessage))
      → Buffered f expected b
      → find_message (u16 expected) b ≡ none
      → Delivers expected b 0 (deliver_loop fuel (u16 expected) b)
  nothing_due fuel expected b v missing =
      let same : expected ≡ expected + 0 = omega arith in
      subst (Delivers expected b 0) (sym (deliver_stop fuel (u16 expected) b missing)) (record {
        in_order = unfold stream in refl;
        next = ap u16 same;
        kept = subst (λ k. Buffered f k b) same v;
        no_more = missing;
        rest_stays = λ n low high. refl;
      })

  -- A round, and what the loop does after it.
  one_more :
      (expected count : ℕ) (b : List (ℕ × ReliableMessage)) (m : ReliableMessage)
      (p : List ReliableMessage × ℕ × List (ℕ × ReliableMessage))
      → m ≡ f expected
      → Delivers (suc expected) (erase_message (u16 expected) b) count p
      → Delivers expected b (suc count) (m ∷ p.0, p.1, p.2)
  one_more expected count b m p first d =
      let shift : suc expected + count ≡ expected + suc count = omega arith in
      record {
        in_order = unfold stream in ap₂ ◌∷◌ first d.in_order;
        next = d.next ∙ ap u16 shift;
        kept = subst (λ k. Buffered f k p.2) shift d.kept;
        no_more = d.no_more;
        rest_stays = λ n low high.
            d.rest_stays n (omega arith) (omega arith)
            ∙ find-erase_ne (u16 expected) (u16 n) b (apart n low high);
      }
    where
      apart : (n : ℕ) → expected + suc count ≤ n → n < expected + 32768 → u16 n ≢ u16 expected
      apart n low high same = omega arith

  -- With a round for each entry, the loop delivers the run of messages that is there.
  pub deliver_loop-Delivers :
      (fuel expected : ℕ) (b : List (ℕ × ReliableMessage))
      → Buffered f expected b
      → length b ≤ fuel
      → (count : ℕ) × Delivers expected b count (deliver_loop fuel (u16 expected) b)
  deliver_loop-Delivers zero expected [] v enough =
      (0, nothing_due 0 expected [] v (unfold find_message in refl))
  deliver_loop-Delivers zero expected (x ∷ b) v enough = absurd (omega arith)
  deliver_loop-Delivers (suc fuel) expected b v enough =
      elim (Option-cases (find_message (u16 expected) b)) [
        | inl missing ↦ (0, nothing_due (suc fuel) expected b v missing)
        | inr (m, there) ↦
            let short = length-erase_found (u16 expected) b m there in
            let (count, d) =
              deliver_loop-Delivers fuel (suc expected) (erase_message (u16 expected) b)
                (erase-Buffered f expected b v) (omega arith) in
            (
              suc count,
              subst (Delivers expected b (suc count)) (sym (deliver_first fuel expected b m there))
                  (one_more expected count b m
                    (deliver_loop fuel (u16 (suc expected)) (erase_message (u16 expected) b))
                    (find-next f expected b m v there) d),
            )
      ]

  stream-add : (n a b : ℕ) → stream f n (a + b) ≡ stream f n a ++ stream f (n + a) b
  unfolding stream
  stream-add n zero b =
      let here : 0 + b ≡ b = omega arith in
      let there : n ≡ n + 0 = omega arith in ap₂ (stream f) there here
  stream-add n (suc a) b =
      let here : suc a + b ≡ suc (a + b) = omega arith in
      let there : suc n + a ≡ n + suc a = omega arith in
      ap (stream f n) here
      ∙ ap (◌∷◌ (f n)) (stream-add (suc n) a b ∙ ap (λ k. stream f (suc n) a ++ stream f k b) there)

  length-stream : (n count : ℕ) → length (stream f n count) ≡ count
  unfolding stream
  length-stream n zero = refl
  length-stream n (suc count) = ap suc (length-stream (suc n) count)

-- The receiver's part of the state, with all that it has delivered so far.
pub record Receiver : Type 0 where
  pub expected : ℕ
  pub buffer : List (ℕ × ReliableMessage)
  pub delivered : List ReliableMessage

abbrev pub idle : Receiver
idle = record { expected = 0; buffer = []; delivered = [] }

unfoldable pub take_in : ReliableMessage → Receiver → Receiver
take_in m r = record r { buffer = buffer_message r.expected m r.buffer }

unfoldable pub hand_out : Receiver → Receiver
hand_out r =
    let (ms, expected, buffer) = deliver_loop (length r.buffer) r.expected r.buffer in
    record { expected = expected; buffer = buffer; delivered = r.delivered ++ ms }

-- What can happen to a receiver of the stream `f`: a message arrives, in any order, again or late,
-- but fewer than 32768 from the next one; or the run that is there is delivered.
pub data Run (f : ℕ → ReliableMessage) : Receiver → Type 0 where
  start : Run f idle
  arrive :
      (r : Receiver) (n : ℕ)
      → Run f r
      → length r.delivered ≤ n + 32767
      → n < length r.delivered + 32768
      → Run f (take_in (f n) r)
  deliver : (r : Receiver) → Run f r → Run f (hand_out r)

record Good (f : ℕ → ReliableMessage) (r : Receiver) : Type 0 where
  in_order : r.delivered ≡ stream f 0 (length r.delivered)
  next : r.expected ≡ u16 (length r.delivered)
  kept : Buffered f (length r.delivered) r.buffer

le_of_ltb : (a b : ℕ) → ltb a b ≡ false → b ≤ a
le_of_ltb a b h = ground arith

module _ (f : ℕ → ReliableMessage) where
  take_in-Good :
      (r : Receiver) (n : ℕ)
      → ((n : ℕ) → (f n).id ≡ u16 n)
      → Good f r
      → length r.delivered ≤ n + 32767
      → n < length r.delivered + 32768
      → Good f (take_in (f n) r)
  unfolding take_in
  take_in-Good r n ids g low high = record {
    in_order = g.in_order;
    next = g.next;
    kept =
        subst (λ x. Buffered f (length r.delivered) (buffer_message x (f n) r.buffer)) (sym g.next)
          (buffer_message-Buffered f ids (length r.delivered) n r.buffer g.kept low high);
  }

  -- What one delivery does to the messages delivered and to the buffer.
  hand_out-Delivers :
      (r : Receiver)
      → Good f r
      → (count : ℕ) × Delivers f
          (length r.delivered)
          r.buffer
          count
          (deliver_loop (length r.buffer) r.expected r.buffer)
  hand_out-Delivers r g =
      let k : ℕ = length r.delivered in
      let (count, d) = deliver_loop-Delivers f (length r.buffer) k r.buffer g.kept (omega arith) in
      (
        count,
        subst (λ x. Delivers f k r.buffer count (deliver_loop (length r.buffer) x r.buffer))
            (sym g.next) d,
      )

  hand_out-Good : (r : Receiver) → Good f r → Good f (hand_out r)
  unfolding hand_out
  hand_out-Good r g =
      let k : ℕ = length r.delivered in
      let p = deliver_loop (length r.buffer) r.expected r.buffer in
      let (count, d) = hand_out-Delivers r g in
      let total : length (r.delivered ++ p.0) ≡ k + count =
        length-append r.delivered p.0
        ∙ ap (λ j. k + j) (ap length d.in_order ∙ length-stream f k count) in
      let base : k ≡ 0 + k = omega arith in
      record {
        in_order =
            ap₂ ◌++◌ g.in_order d.in_order
            ∙ ap (λ j. stream f 0 k ++ stream f j count) base
            ∙ sym (stream-add f 0 k count)
            ∙ ap (stream f 0) (sym total);
        next = d.next ∙ ap u16 (sym total);
        kept = subst (λ j. Buffered f j p.2) (sym total) d.kept;
      }

  Run-Good : ((n : ℕ) → (f n).id ≡ u16 n) → (r : Receiver) → Run f r → Good f r
  Run-Good ids r start = record {
    in_order = unfold stream in refl;
    next = refl;
    kept = unfold Buffered in tt;
  }
  Run-Good ids r' (arrive r n run low high) = take_in-Good r n ids (Run-Good ids r run) low high
  Run-Good ids r' (deliver r run) = hand_out-Good r (Run-Good ids r run)

  -- Whatever the order in which the messages of a stream arrive, repeated or late, as long as each
  -- is fewer than 32768 from the next one expected: what has been delivered is exactly the first
  -- messages of the stream, in their order, each once.
  pub delivered_prefix :
      (ids : (n : ℕ) → (f n).id ≡ u16 n) (r : Receiver) (run : Run f r)
      → r.delivered ≡ stream f 0 (length r.delivered)
  delivered_prefix ids r run = (Run-Good ids r run).in_order

  -- A delivery is complete: when the messages from the next one on are buffered, `count` of them,
  -- at least as many are delivered.
  pub hand_out_complete :
      (ids : (n : ℕ) → (f n).id ≡ u16 n) (r : Receiver) (run : Run f r) (count : ℕ)
      → count ≤ 32768
      → ((n : ℕ)
          → length r.delivered ≤ n
          → n < length r.delivered + count
          → find_message (u16 n) r.buffer ≢ none)
      → length r.delivered + count ≤ length (hand_out r).delivered
  unfolding hand_out
  hand_out_complete ids r run count small there = elim (Bool-cases (ltb given.0 count)) [
    | inl few ↦
        let lack = ltb→lt given.0 count few in
        absurd (
          there (length r.delivered + given.0) (omega arith) (omega arith) (
            sym (given.1.rest_stays (length r.delivered + given.0) (omega arith) (omega arith))
            ∙ ap (λ k. find_message k (deliver_loop (length r.buffer) r.expected r.buffer).2)
                (sym given.1.next)
            ∙ given.1.no_more))
    | inr enough ↦ omega (
      arith,
      length-append r.delivered (deliver_loop (length r.buffer) r.expected r.buffer).0,
      ap length given.1.in_order,
      length-stream f (length r.delivered) given.0,
      le_of_ltb given.0 count enough,
    )
  ]
    where
      given :
          (c : ℕ) × Delivers f
            (length r.delivered)
            r.buffer
            c
            (deliver_loop (length r.buffer) r.expected r.buffer)
      given = hand_out-Delivers r (Run-Good ids r run)
