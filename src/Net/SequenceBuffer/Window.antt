-- ===== src/Net/SequenceBuffer/Window.antt =====
-- The invariant of the buffer: a slot is empty or holds a sequence of the window that ends at
-- `latest`, in the slot that belongs to it.
use morton.Base.{
  ℕ, zero, suc, ◌+◌, ◌-◌, ◌%◌, ◌^◌, ◌<◌, ◌≡◌, ◌∙◌, ◌⊎◌, inl, inr, Bool, true, false, not, ◌&&◌,
  ◌||◌, List, some, leb, ◌==◌, if◌then◌else◌, get_or, set, length, length-set, get_or-set_self,
  get_or-set_ne, length-replicate, get_or-replicate, u16, sub16, Bool-cases, ==_iff, ne→==, arith,
}
use mathlib.Core.Path.{subst}
use mathlib.Core.Option.{some-injective}
use native.Mathlib.Decide.{ℕ_discrete}
use morton.Core.Sequence.{sequence_greater, sequence_greater_ahead, sequence_greater_swap}
use morton.Net.SequenceBuffer.{
  SequenceBuffer, ack_window_size, empty_key, slot, clear_loop, remove_range, new_buffer, reset,
  too_old, advance, place, insert, remove, store,
}

module _ {ℓ} {A : Type ℓ} where
  pub get_or-set :
      (xs : List A) (i j : ℕ) (v d : A)
      → i < length xs
      → get_or (set xs i v) j d ≡ (if i == j then v else get_or xs j d)
  get_or-set xs i j v d h = elim (ℕ_discrete i j) [
    | yes e ↦ rw ((==_iff i j).1 e, ← e) (get_or-set_self xs i v d h)
    | no ne ↦ rw (ne→== i j ne) (get_or-set_ne xs i j v d ne)
  ]

-- How far the slot `i` lies ahead of the slot of `s`.
abbrev pub slots_ahead : ℕ → ℕ → ℕ
slots_ahead i s = (i + 2 ^ 16 - s) % ack_window_size

-- The loop empties the slots from `s` to `end` and no other.
clear_loop-get :
    (left s end i : ℕ) (keys : List ℕ)
    → length keys ≡ ack_window_size
    → s < 2 ^ 16
    → i < ack_window_size
    → sub16 end s ≡ left
    → left < ack_window_size
    → end < 2 ^ 16
    → get_or (clear_loop left s end keys) i empty_key
      ≡ (if leb (slots_ahead i s) left then empty_key else get_or keys i empty_key)
unfolding clear_loop
clear_loop-get zero s end i keys len hs hi d small he =
    ground (arith, get_or-set keys (slot s) i empty_key empty_key)
clear_loop-get (suc left) s end i keys len hs hi d small he =
    let keys' : List ℕ = set keys (slot s) empty_key in
    ground (
      arith,
      get_or-set keys (slot s) i empty_key empty_key,
      length-set keys (slot s) empty_key,
      clear_loop-get left (u16 (s + 1)) end i keys',
    )

clear_loop-length :
    (left s end : ℕ) (keys : List ℕ) → length (clear_loop left s end keys) ≡ length keys
unfolding clear_loop
clear_loop-length zero s end keys = length-set keys (slot s) empty_key
clear_loop-length (suc left) s end keys = ground (
  arith,
  clear_loop-length left (u16 (s + 1)) end (set keys (slot s) empty_key),
  length-set keys (slot s) empty_key,
)

pub remove_range-length :
    (begin end : ℕ) (keys : List ℕ)
    → length keys ≡ ack_window_size
    → length (remove_range begin end keys) ≡ ack_window_size
unfolding remove_range
remove_range-length begin end keys len = ground (
  arith,
  length-replicate ack_window_size empty_key,
  clear_loop-length (sub16 end begin) begin end keys,
)

-- A jump from `begin` to `end` empties every slot that it passes.
pub remove_range-get :
    (begin end i : ℕ) (keys : List ℕ)
    → length keys ≡ ack_window_size
    → begin < 2 ^ 16
    → end < 2 ^ 16
    → i < ack_window_size
    → get_or (remove_range begin end keys) i empty_key
      ≡ (if leb (slots_ahead i begin) (sub16 end begin) then empty_key else get_or keys i empty_key)
unfolding remove_range
remove_range-get begin end i keys len hb he hi = ground (
  arith,
  get_or-replicate ack_window_size i empty_key empty_key,
  clear_loop-get (sub16 end begin) begin end i keys len hb hi,
)

-- What a slot `i` may hold.
abbrev pub Held {ℓ} : {T : Type ℓ} → SequenceBuffer T → ℕ → Type 0
Held b i =
    let key = get_or b.keys i empty_key in
    (key ≡ empty_key)
    ⊎ ((b.has_latest ≡ true)
        × (key < 2 ^ 16)
        × (slot key ≡ i)
        × (sub16 b.latest key < ack_window_size))

pub record IsValid {ℓ} {T : Type ℓ} (b : SequenceBuffer T) : Type 0 where
  pub keys_length : length b.keys ≡ ack_window_size
  pub values_length : length b.values ≡ ack_window_size
  pub latest_fits : b.latest < 2 ^ 16
  pub held : (i : ℕ) → i < ack_window_size → Held b i

module _ {ℓ} {T : Type ℓ} where
  pub new_buffer-IsValid : (initial : T) → IsValid (new_buffer initial)
  unfolding new_buffer
  new_buffer-IsValid initial = record {
    keys_length = length-replicate ack_window_size empty_key;
    values_length = length-replicate ack_window_size initial;
    latest_fits = omega arith;
    held = λ i h. inl (get_or-replicate ack_window_size i empty_key empty_key h);
  }

  pub reset-IsValid : (b : SequenceBuffer T) → IsValid b → IsValid (reset b)
  unfolding reset
  reset-IsValid b v = record {
    keys_length = length-replicate ack_window_size empty_key;
    values_length = v.values_length;
    latest_fits = omega arith;
    held = λ i h. inl (get_or-replicate ack_window_size i empty_key empty_key h);
  }

  pub remove-IsValid : (b : SequenceBuffer T) (s : ℕ) → IsValid b → IsValid (remove b s)
  unfolding remove
  remove-IsValid b s v = record {
    keys_length = length-set b.keys (slot s) empty_key ∙ v.keys_length;
    values_length = v.values_length;
    latest_fits = v.latest_fits;
    held = λ i h. ground (
      arith,
      get_or-set b.keys (slot s) i empty_key empty_key (omega (arith, v.keys_length)),
      v.held i h,
    );
  }

  pub store-IsValid : (b : SequenceBuffer T) (s : ℕ) (x : T) → IsValid b → IsValid (store b s x)
  unfolding store
  store-IsValid b s x v = record {
    keys_length = v.keys_length;
    values_length = length-set b.values (slot s) x ∙ v.values_length;
    latest_fits = v.latest_fits;
    held = v.held;
  }

  -- Whether an insertion of `s` moves the window.
  abbrev pub moves : SequenceBuffer T → ℕ → Bool
  moves b s = not b.has_latest || sequence_greater s b.latest

  -- A slot after the window has moved up to `s`.
  pub advance-get :
      (b : SequenceBuffer T) (s i : ℕ)
      → IsValid b
      → s < 2 ^ 16
      → i < ack_window_size
      → let begin = (if b.has_latest then u16 (b.latest + 1) else s) in
        get_or (advance b s).keys i empty_key ≡ (
          if moves b s && leb (slots_ahead i begin) (sub16 s begin)
          then empty_key
          else get_or b.keys i empty_key)
  unfolding advance
  advance-get b s i v hs hi =
      let begin : ℕ = (if b.has_latest then u16 (b.latest + 1) else s) in
      ground (arith, remove_range-get begin s i b.keys v.keys_length)

  pub advance_latest :
      (b : SequenceBuffer T) (s : ℕ)
      → ((advance b s).latest ≡ (if moves b s then s else b.latest))
        × ((advance b s).has_latest ≡ (if moves b s then true else b.has_latest))
  unfolding advance
  advance_latest b s = ground arith

  pub advance-IsValid :
      (b : SequenceBuffer T) (s : ℕ) → IsValid b → s < 2 ^ 16 → IsValid (advance b s)
  advance-IsValid b s v hs = record {
    keys_length =
        unfold advance in
        ground (
          arith,
          v.keys_length,
          remove_range-length (if b.has_latest then u16 (b.latest + 1) else s) s b.keys,
        );
    values_length = unfold advance in ground (arith, v.values_length);
    latest_fits = unfold advance in ground (arith, v.latest_fits);
    held = λ i h.
        let begin : ℕ = (if b.has_latest then u16 (b.latest + 1) else s) in
        let now = advance-get b s i v hs h in
        ground (
          arith,
          now,
          advance_latest b s,
          v.held i h,
          v.latest_fits,
          (sequence_greater_ahead s b.latest hs v.latest_fits).0,
        );
  }

  -- The slot of a sequence that is let in lies in the window.
  pub in_window :
      (b : SequenceBuffer T) (s : ℕ)
      → IsValid b
      → s < 2 ^ 16
      → too_old b s ≡ false
      → ((advance b s).has_latest ≡ true) × (sub16 (advance b s).latest s < ack_window_size)
  unfolding too_old
  in_window b s v hs young =
      ground (
        arith,
        advance_latest b s,
        v.latest_fits,
        sequence_greater_swap s b.latest hs v.latest_fits,
      )

  place-IsValid :
      (initial : T) (b : SequenceBuffer T) (s : ℕ)
      → IsValid b
      → s < 2 ^ 16
      → b.has_latest ≡ true
      → sub16 b.latest s < ack_window_size
      → IsValid (place initial b s)
  unfolding place
  place-IsValid initial b s v hs has near = record {
    keys_length = length-set b.keys (slot s) s ∙ v.keys_length;
    values_length = length-set b.values (slot s) initial ∙ v.values_length;
    latest_fits = v.latest_fits;
    held = λ i h. ground (
      arith,
      get_or-set b.keys (slot s) i s empty_key (omega (arith, v.keys_length)),
      v.held i h,
    );
  }

  pub insert_young :
      (initial : T) (b b' : SequenceBuffer T) (s : ℕ)
      → insert initial b s ≡ some b'
      → (too_old b s ≡ false) × (place initial (advance b s) s ≡ b')
  unfolding insert
  insert_young initial b b' s e = elim (Bool-cases (too_old b s)) [
    | inl old ↦ let e' = rw old at e in cc
    | inr young ↦ let e' = rw young at e in (young, some-injective _ _ e')
  ]

  -- A successful insertion keeps the invariant: after it, too, every slot is empty or holds, in its
  -- own slot, a sequence fewer than 1024 behind the latest.
  pub insert-IsValid :
      (initial : T) (b b' : SequenceBuffer T) (s : ℕ)
      → IsValid b
      → s < 2 ^ 16
      → insert initial b s ≡ some b'
      → IsValid b'
  insert-IsValid initial b b' s v hs e =
      let young = insert_young initial b b' s e in
      let near = in_window b s v hs young.0 in
      subst IsValid young.1
        (place-IsValid initial (advance b s) s (advance-IsValid b s v hs) hs near.0 near.1)
