-- ===== src/Net/SequenceBuffer.antt =====
-- `SequenceBuffer<T, kAckWindowSize>` of src/net/sequence_buffer.h, at the one capacity that the
-- program uses. A pointer that `insert` or `find` hands out is the slot's index, `sequence %
-- Capacity`; what the caller writes through it is `store`.
pub mod Window
pub mod Lookup
pub mod Recorded
use morton.Base.{
  ℕ, zero, suc, ◌+◌, ◌-◌, ◌%◌, Bool, true, false, not, ◌&&◌, ◌||◌, List, [], ◌∷◌, Option, none,
  some, ltb, leb, ◌==◌, if◌then◌else◌, get_or, set, replicate, u16, sub16,
}
use morton.Core.Sequence.{sequence_greater}

abbrev pub ack_window_size : ℕ
ack_window_size = 1024

abbrev pub empty_key : ℕ
empty_key = 0xffff_ffff

pub record SequenceBuffer {ℓ} (T : Type ℓ) : Type ℓ where
  pub keys : List ℕ
  pub values : List T
  pub latest : ℕ
  pub has_latest : Bool

abbrev pub slot : ℕ → ℕ
slot sequence = sequence % ack_window_size

-- `for (u16 s = begin;; ++s)` up to `end`, which is `left` steps ahead.
unfoldable pub clear_loop : ℕ → ℕ → ℕ → List ℕ → List ℕ
clear_loop zero s end keys = set keys (slot s) empty_key
clear_loop (suc left) s end keys =
    let keys' = set keys (slot s) empty_key in
    let rest = clear_loop left (u16 (s + 1)) end keys' in if s == end then keys' else rest

unfoldable pub remove_range : ℕ → ℕ → List ℕ → List ℕ
remove_range begin end keys =
    let span = sub16 end begin in
    if leb ack_window_size span
    then replicate ack_window_size empty_key
    else clear_loop span begin end keys

module _ {ℓ} {T : Type ℓ} where
  -- A buffer as constructed: `initial` is `T{}`.
  unfoldable pub new_buffer : T → SequenceBuffer T
  new_buffer initial = record {
    keys = replicate ack_window_size empty_key;
    values = replicate ack_window_size initial;
    latest = 0;
    has_latest = false;
  }

  unfoldable pub reset : SequenceBuffer T → SequenceBuffer T
  reset b = record b { keys = replicate ack_window_size empty_key; latest = 0; has_latest = false }

  -- The test under which `insert` returns null.
  unfoldable pub too_old : SequenceBuffer T → ℕ → Bool
  too_old b sequence =
      b.has_latest
      && sequence_greater b.latest sequence
      && leb ack_window_size (sub16 b.latest sequence)

  -- The second `if` of `insert`.
  unfoldable pub advance : SequenceBuffer T → ℕ → SequenceBuffer T
  advance b sequence =
      if not b.has_latest || sequence_greater sequence b.latest
      then record b {
        keys = remove_range (if b.has_latest then u16 (b.latest + 1) else sequence) sequence b.keys;
        latest = sequence;
        has_latest = true;
      }
      else b

  -- The end of `insert`: the slot is taken over.
  unfoldable pub place : T → SequenceBuffer T → ℕ → SequenceBuffer T
  place initial b sequence = record b {
    keys = set b.keys (slot sequence) sequence;
    values = set b.values (slot sequence) initial;
  }

  -- `none` is the null pointer.
  unfoldable pub insert : T → SequenceBuffer T → ℕ → Option (SequenceBuffer T)
  insert initial b sequence =
      if too_old b sequence then none else some (place initial (advance b sequence) sequence)

  unfoldable pub exists : SequenceBuffer T → ℕ → Bool
  exists b sequence = get_or b.keys (slot sequence) empty_key == sequence

  unfoldable pub find : T → SequenceBuffer T → ℕ → Option T
  unfolding exists
  find initial b sequence =
      if exists b sequence then some (get_or b.values (slot sequence) initial) else none

  unfoldable pub remove : SequenceBuffer T → ℕ → SequenceBuffer T
  remove b sequence = record b { keys = set b.keys (slot sequence) empty_key }

  -- A write through the pointer to the slot of `sequence`.
  unfoldable pub store : SequenceBuffer T → ℕ → T → SequenceBuffer T
  store b sequence value = record b { values = set b.values (slot sequence) value }
