-- ===== src/Proto/Snapshot/Decode.antt =====
-- `decode_snapshot` and `peek_snapshot_header` of src/proto/snapshot.cpp. `none` is the result
-- false.
use morton.Base.{
  ℕ, zero, suc, Bool, true, false, not, ◌&&◌, ◌||◌, List, [], ◌∷◌, Option, none, some, ltb, ◌==◌,
  if◌then◌else◌,
}
use morton.Proto.Bitstream.Reader.{
  BitReader, new_reader, read_bool, read_u16, read_u32, read_varint,
}
use morton.Proto.Snapshot.{EntityWireState, SnapshotFrame, find_state}
use morton.Proto.Snapshot.Update.{read_entity_id, read_new, read_changes}

pub record DecodedSnapshot : Type 0 where
  pub tick : ℕ
  pub baseline_tick : ℕ
  pub full : Bool
  pub last_input_sequence : ℕ
  pub viewer : ℕ
  pub states : List EntityWireState
  pub removed : List ℕ

-- The fields up to the removed entities.
pub record SnapshotHeader : Type 0 where
  pub tick : ℕ
  pub baseline_tick : ℕ
  pub full : Bool
  pub last_input_sequence : ℕ
  pub viewer : ℕ

-- `*existing = state` or `insert(existing, state)` at the lower bound of the id.
unfoldable pub put_state : EntityWireState → List EntityWireState → List EntityWireState
put_state state [] = state ∷ []
put_state state (s ∷ rest) =
    let later = put_state state rest in
    if ltb s.id state.id
    then s ∷ later
    else if s.id == state.id
    then state ∷ rest
    else state ∷ s ∷ rest

unfoldable pub is_in : ℕ → List ℕ → Bool
is_in id [] = false
is_in id (x ∷ xs) = x == id || is_in id xs

-- The baseline's states that are not removed.
unfoldable pub without : List ℕ → List EntityWireState → List EntityWireState
without removed [] = []
without removed (s ∷ rest) =
    let later = without removed rest in if is_in s.id removed then later else s ∷ later

unfoldable pub read_removed : ℕ → BitReader → ℕ → List ℕ × BitReader
read_removed zero r previous_id = ([], r)
read_removed (suc left) r previous_id =
    let (id, r1) = read_entity_id r previous_id in
    let (rest, r2) = read_removed left r1 id in (id ∷ rest, r2)

-- The part of a round that follows the id and the flag: the new state, unless the round fails.
unfoldable pub read_state :
    ℕ → Bool → Option EntityWireState → BitReader → Option EntityWireState × BitReader
read_state id true previous r =
    let blank : EntityWireState = record { id = id; px = 0; py = 0; vx = 0; vy = 0; kind = 0 } in
    let (state, r') = read_new r (elim previous [ none ↦ blank | some old ↦ old ]) in
    if r'.overflow then (none, r') else (some state, r')
read_state id false none r = (none, r)
read_state id false (some old) r =
    let (state, r') = read_changes r old in if r'.overflow then (none, r') else (some state, r')

-- One round of the loop over the updates: the id, and the states after it.
unfoldable pub read_update :
    BitReader → ℕ → List EntityWireState → Option (ℕ × List EntityWireState × BitReader)
read_update r previous_id states =
    let (id, r1) = read_entity_id r previous_id in
    let (is_new, r2) = read_bool r1 in
    let (state, r3) = read_state id is_new (find_state id states) r2 in
    if r2.overflow
    then none
    else elim state [ none ↦ none | some s ↦ some (id, put_state s states, r3) ]

unfoldable pub read_updates :
    ℕ → BitReader → ℕ → List EntityWireState → Option (List EntityWireState)
read_updates zero r previous_id states = some states
read_updates (suc left) r previous_id states = elim (read_update r previous_id states) [
  | none ↦ none
  | some (id, states', r') ↦ read_updates left r' id states'
]

unfoldable pub read_header : BitReader → SnapshotHeader × BitReader
read_header r =
    let (tick, r1) = read_u32 r in
    let (full, r2) = read_bool r1 in
    let (baseline_tick, r3) = (if full then (0, r2) else read_u32 r2) in
    let (last_input_sequence, r4) = read_u32 r3 in
    let (viewer, r5) = read_varint r4 in
    (
      record {
        tick = tick;
        baseline_tick = baseline_tick;
        full = full;
        last_input_sequence = last_input_sequence;
        viewer = viewer;
      },
      r5,
    )

-- Whether the caller holds the baseline that the header asks for.
unfoldable pub holds_baseline : SnapshotHeader → Option SnapshotFrame → Bool
holds_baseline header none = header.full
holds_baseline header (some frame) =
    header.full || (frame.valid && frame.tick == header.baseline_tick)

abbrev pub base_states : SnapshotHeader → Option SnapshotFrame → List EntityWireState
base_states header none = []
base_states header (some frame) = if header.full then [] else frame.states

-- From the count of the updates on.
unfoldable pub read_states : BitReader → List EntityWireState → Option (List EntityWireState)
read_states r states =
    let (updated_count, r') = read_u16 r in
    if r'.overflow then none else read_updates updated_count r' 0 states

unfoldable pub decode_snapshot : List ℕ → Option SnapshotFrame → Option DecodedSnapshot
decode_snapshot bytes baseline =
    let (header, r1) = read_header (new_reader bytes) in
    let (removed_count, r2) = read_varint r1 in
    if r1.overflow
    then none
    else if not (holds_baseline header baseline)
    then none
    else if r2.overflow || ltb 65535 removed_count
    then none
    else let (removed, r3) = read_removed removed_count r2 0 in
      if r3.overflow
      then none
      else elim (read_states r3 (without removed (base_states header baseline))) [
        | none ↦ none
        | some states ↦ some (record {
          tick = header.tick;
          baseline_tick = header.baseline_tick;
          full = header.full;
          last_input_sequence = header.last_input_sequence;
          viewer = header.viewer;
          states = states;
          removed = removed;
        })
      ]

-- The tick, the baseline's tick and whether the snapshot is full.
unfoldable pub peek_snapshot_header : List ℕ → Option (ℕ × ℕ × Bool)
peek_snapshot_header bytes =
    let (tick, r1) = read_u32 (new_reader bytes) in
    let (full, r2) = read_bool r1 in
    let (baseline_tick, r3) = (if full then (0, r2) else read_u32 r2) in
    if r3.overflow then none else some (tick, baseline_tick, full)
