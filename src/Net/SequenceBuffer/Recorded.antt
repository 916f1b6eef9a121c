-- ===== src/Net/SequenceBuffer/Recorded.antt =====
-- What `SequenceBuffer<T, kAckWindowSize>` of src/net/sequence_buffer.h remembers of one sequence
-- while further sequences are inserted: the entry, and after it the distance to the latest.
use morton.Base.{
  ℕ, ◌-◌, ◌^◌, ◌≤◌, ◌<◌, ◌≡◌, ◌⊎◌, inl, sym, ap, ◌∙◌, true, false, some, none, sub16, arith,
  if◌then◌else◌,
}
use morton.Core.Sequence.{sequence_greater}
use morton.Net.SequenceBuffer.{SequenceBuffer, slot, place, insert, exists, store, too_old}
use morton.Net.SequenceBuffer.Window.{
  IsValid, moves, advance_latest, insert_young, insert-IsValid, store-IsValid,
}
use morton.Net.SequenceBuffer.Lookup.{exists-insert}

-- The sequence `t` is numbered at most `ahead` after `s`, or at most 32767 - `ahead` before it.
abbrev pub Near : ℕ → ℕ → ℕ → Type 0
Near ahead s t = (sub16 t s ≤ ahead) ⊎ (sub16 s t ≤ 32767 - ahead)

module _ {ℓ} {T : Type ℓ} where
  -- The buffer has seen `s`: it holds it, or its latest is 1024 or more after it, and never more
  -- than `ahead`.
  pub record Recorded (b : SequenceBuffer T) (s ahead : ℕ) : Type 0 where
    pub valid : IsValid b
    pub has : b.has_latest ≡ true
    pub distance : sub16 b.latest s ≤ ahead
    pub kept : (exists b s ≡ true) ⊎ (1024 ≤ sub16 b.latest s)

  pub exists-Recorded :
      (b : SequenceBuffer T) (s ahead : ℕ)
      → IsValid b
      → s < 2 ^ 16
      → 1023 ≤ ahead
      → exists b s ≡ true
      → Recorded b s ahead
  unfolding exists
  exists-Recorded b s ahead v hs wide e = record {
    valid = v;
    has = ground (arith, v.held (slot s));
    distance = ground (arith, v.held (slot s));
    kept = inl e;
  }

  -- After an insertion the latest is the new sequence, where that moved the window.
  insert_latest :
      (initial : T) (b b' : SequenceBuffer T) (s : ℕ)
      → insert initial b s ≡ some b'
      → (b'.latest ≡ (if moves b s then s else b.latest))
        × (b'.has_latest ≡ (if moves b s then true else b.has_latest))
  insert_latest initial b b' s e =
      let made = (insert_young initial b b' s e).1 in
      (
        ap (λ (c : SequenceBuffer T). c.latest) (sym made) ∙ unfold place in (advance_latest b s).0,
        ap (λ (c : SequenceBuffer T). c.has_latest) (sym made)
            ∙ unfold place in (advance_latest b s).1,
      )

  pub insert-Recorded :
      (initial : T) (b b' : SequenceBuffer T) (s ahead t : ℕ)
      → s < 2 ^ 16
      → t < 2 ^ 16
      → ahead ≤ 32767
      → Near ahead s t
      → Recorded b s ahead
      → insert initial b t ≡ some b'
      → Recorded b' s ahead
  unfolding sequence_greater
  insert-Recorded initial b b' s ahead t hs ht small near r e =
      let now = insert_latest initial b b' t e in
      let there = exists-insert initial b b' t s r.valid ht hs e in
      record {
        valid = insert-IsValid initial b b' t r.valid ht e;
        has = ground (arith, now.1, r.has);
        distance = ground (arith, now.0, near, r.has, r.distance, r.valid.latest_fits);
        kept = ground (arith, now.0, there, near, r.has, r.distance, r.kept, r.valid.latest_fits);
      }

  pub store-Recorded :
      (b : SequenceBuffer T) (s ahead t : ℕ) (x : T)
      → Recorded b s ahead
      → Recorded (store b t x) s ahead
  unfolding store exists
  store-Recorded b s ahead t x r = record {
    valid = store-IsValid b t x r.valid;
    has = r.has;
    distance = r.distance;
    kept = r.kept;
  }

  -- A sequence that was recorded is not inserted again.
  pub insert_refused :
      (initial : T) (b : SequenceBuffer T) (s ahead : ℕ)
      → s < 2 ^ 16
      → ahead ≤ 32767
      → Recorded b s ahead
      → exists b s ≡ false
      → insert initial b s ≡ none
  unfolding insert too_old sequence_greater
  insert_refused initial b s ahead hs small r gone =
      ground (arith, r.has, r.distance, r.kept, r.valid.latest_fits)
