-- ===== src/Net/SequenceBuffer/Lookup.antt =====
-- `exists` and `find` of src/net/sequence_buffer.h after an insertion and after a write.
use mathlib.Core.Path.{subst}
use morton.Base.{
  ℕ, ◌^◌, ◌≤◌, ◌<◌, ◌≡◌, refl, sym, ap, ◌∙◌, ◌↔◌, ◌⊎◌, true, not, ◌&&◌, ◌||◌, none, some, ltb, ◌==◌,
  if◌then◌else◌, get_or, sub16, Bool-cases, inl, inr, List, arith,
}
use morton.Core.Sequence.{sequence_greater, sequence_greater_ahead}
use morton.Net.SequenceBuffer.{
  SequenceBuffer, ack_window_size, empty_key, slot, too_old, advance, place, insert, exists, find,
  store,
}
use morton.Net.SequenceBuffer.Window.{
  IsValid, get_or-set, moves, advance-get, advance_latest, advance-IsValid, in_window, insert_young,
}

module _ {ℓ} {T : Type ℓ} where
  -- In a well-formed buffer a 16-bit sequence is refused exactly when the buffer holds a latest one
  -- and the sequence lies 1024 to 32767 behind it, counted with the wrap, or 32768 away from it and
  -- numerically below it.
  pub insert-eq-none_iff :
      (initial : T) (b : SequenceBuffer T) (s : ℕ)
      → IsValid b
      → s < 2 ^ 16
      → (insert initial b s ≡ none) ↔ (
          (b.has_latest ≡ true)
          × (1024 ≤ sub16 b.latest s)
          × ((sub16 b.latest s < 32768) ⊎ ((sub16 b.latest s ≡ 32768) × (s < b.latest))))
  unfolding insert too_old sequence_greater
  insert-eq-none_iff initial b s v hs =
      (λ e. ground (arith, v.latest_fits), λ h. ground (arith, v.latest_fits))

  -- The keys after the window has moved: what leaves the window is gone, the rest stays.
  exists-advance :
      (b : SequenceBuffer T) (s t : ℕ)
      → IsValid b
      → s < 2 ^ 16
      → t < 2 ^ 16
      → exists (advance b s) t ≡ (exists b t && ltb (sub16 (advance b s).latest t) ack_window_size)
  unfolding exists
  exists-advance b s t v hs ht = ground (
    arith,
    advance-get b s (slot t) v hs,
    advance_latest b s,
    v.held (slot t),
    v.latest_fits,
    (sequence_greater_ahead s b.latest hs v.latest_fits).0,
  )

  exists-place :
      (initial : T) (b : SequenceBuffer T) (s t : ℕ)
      → IsValid b
      → s < 2 ^ 16
      → t < 2 ^ 16
      → sub16 b.latest s < ack_window_size
      → exists (place initial b s) t ≡ (t == s || exists b t && not (slot t == slot s))
  unfolding exists place
  exists-place initial b s t v hs ht near =
      ground (arith, get_or-set b.keys (slot s) (slot t) s empty_key (omega (arith, v.keys_length)))

  -- In one window no two sequences share a slot.
  exists-near :
      (b : SequenceBuffer T) (t : ℕ)
      → IsValid b
      → t < 2 ^ 16
      → exists b t ≡ true
      → sub16 b.latest t < ack_window_size
  unfolding exists
  exists-near b t v ht e = ground (arith, v.held (slot t))

  -- After a successful insertion of `s` the buffer holds `s` and, of what it held before, the
  -- sequences fewer than 1024 behind the new latest.
  pub exists-insert :
      (initial : T) (b b' : SequenceBuffer T) (s t : ℕ)
      → IsValid b
      → s < 2 ^ 16
      → t < 2 ^ 16
      → insert initial b s ≡ some b'
      → exists b' t ≡ (t == s || exists b t && ltb (sub16 b'.latest t) ack_window_size)
  exists-insert initial b b' s t v hs ht e =
      let young = insert_young initial b b' s e in
      let near = in_window b s v hs young.0 in
      let moved = advance-IsValid b s v hs in
      subst (λ c. exists c t ≡ (t == s || exists b t && ltb (sub16 c.latest t) ack_window_size))
        young.1 (joined moved near.1)
    where
      joined :
          IsValid (advance b s)
          → sub16 (advance b s).latest s < ack_window_size
          → exists (place initial (advance b s) s) t ≡ (
              t == s
              || exists b t && ltb (sub16 (place initial (advance b s) s).latest t) ack_window_size)
      joined moved near =
          unfold place in
          ground (
            arith,
            exists-place initial (advance b s) s t moved hs ht near,
            exists-advance b s t v hs ht,
            exists-near (advance b s) t moved ht,
            moved.latest_fits,
          )

module _ {T : Type 0} where
  find_cases :
      (initial : T) (b : SequenceBuffer T) (t : ℕ)
      → find initial b t ≡ (if exists b t then some (get_or b.values (slot t) initial) else none)
  unfolding find
  find_cases initial b t = refl

  place-value :
      (initial : T) (b : SequenceBuffer T) (s t : ℕ)
      → IsValid b
      → get_or (place initial b s).values (slot t) initial
        ≡ (if slot s == slot t then initial else get_or b.values (slot t) initial)
  unfolding place
  place-value initial b s t v =
      get_or-set b.values (slot s) (slot t) initial initial (omega (arith, v.values_length))

  advance-values : (b : SequenceBuffer T) (s : ℕ) → (advance b s).values ≡ b.values
  unfolding advance
  advance-values b s = elim (Bool-cases (moves b s)) [
    | inl yes_moves ↦ rw yes_moves
    | inr no_moves ↦ rw no_moves
  ]

  -- A successful insertion makes the entry of `s` fresh, forgets what leaves the window, and keeps
  -- every other entry with its value.
  pub find-insert :
      (initial : T) (b b' : SequenceBuffer T) (s t : ℕ)
      → IsValid b
      → s < 2 ^ 16
      → t < 2 ^ 16
      → insert initial b s ≡ some b'
      → find initial b' t ≡ (
          if t == s
          then some initial
          else if ltb (sub16 b'.latest t) ack_window_size
          then find initial b t
          else none)
  find-insert initial b b' s t v hs ht e =
      let young = insert_young initial b b' s e in
      let near = in_window b s v hs young.0 in
      let moved = advance-IsValid b s v hs in
      let there = exists-insert initial b b' s t v hs ht e in
      let c : SequenceBuffer T = place initial (advance b s) s in
      let value : get_or b'.values (slot t) initial
          ≡ (if slot s == slot t then initial else get_or b.values (slot t) initial) =
        ap (λ (d : SequenceBuffer T). get_or d.values (slot t) initial) (sym young.1)
        ∙ place-value initial (advance b s) s t moved
        ∙ ap (λ (vs : List T). if slot s == slot t then initial else get_or vs (slot t) initial)
            (advance-values b s) in
      let latest : b'.latest ≡ (advance b s).latest =
        ap (λ (d : SequenceBuffer T). d.latest) (sym young.1) ∙ (unfold place in refl) in
      ground (
        arith,
        there,
        value,
        latest,
        near,
        moved.latest_fits,
        find_cases initial b' t,
        find_cases initial b t,
      )

  exists-store : (b : SequenceBuffer T) (s t : ℕ) (x : T) → exists (store b s x) t ≡ exists b t
  unfolding exists store
  exists-store b s t x = refl

  -- A write through the pointer to an entry that exists changes that entry alone.
  pub find-store :
      (initial : T) (b : SequenceBuffer T) (s t : ℕ) (x : T)
      → IsValid b
      → s < 2 ^ 16
      → t < 2 ^ 16
      → exists b s ≡ true
      → find initial (store b s x) t ≡ (if t == s then some x else find initial b t)
  unfolding find store
  find-store initial b s t x v hs ht e = ground (
    arith,
    exists-store b s t x,
    exists-near b s v hs e,
    exists-near b t v ht,
    v.latest_fits,
    get_or-set b.values (slot s) (slot t) x initial (omega (arith, v.values_length)),
  )
