-- ===== src/Proto/Snapshot/Merge.antt =====
-- What `encode` of src/proto/snapshot.cpp does with the current entities and the baseline: the merge
-- of the two, the writing loops, and the frame that it keeps. `scratch_current_` and `previous_`
-- are one list of pairs, as they have one length.
pub mod Baseline
use morton.Base.{
  ℕ, zero, suc, Bool, true, false, List, [], ◌∷◌, ◌++◌, map, Option, none, some, ltb, if◌then◌else◌,
  get_or, set,
}
use morton.Proto.Bitstream.Writer.{BitWriter}
use morton.Proto.Snapshot.{EntityWireState}
use morton.Proto.Snapshot.Update.{write_entity_id, write_update}

-- A current entity, and what the baseline has of it.
abbrev pub Row : Type 0
Row = EntityWireState × Option EntityWireState

abbrev pub blank_row : Row
blank_row = (record { id = 0; px = 0; py = 0; vx = 0; vy = 0; kind = 0 }, none)

unfoldable pub all_new : List EntityWireState → List Row
all_new current = map (λ c. (c, none)) current

unfoldable pub ids_of : List EntityWireState → List ℕ
ids_of states = map (λ s. s.id) states

-- The merge of the baseline with the current entities, both sorted by id: the rows, and the ids
-- removed. A round takes an entity off one of the lists, so as many rounds as there are entities
-- are enough.
unfoldable pub merge : ℕ → List EntityWireState → List EntityWireState → List Row × List ℕ
merge zero base current = (all_new current, ids_of base)
merge (suc left) [] current = (all_new current, [])
merge (suc left) (b ∷ base) [] = ([], ids_of (b ∷ base))
merge (suc left) (b ∷ base) (c ∷ current) = elim (ltb b.id c.id) [
  | true ↦ let (rows, removed) = merge left base (c ∷ current) in (rows, b.id ∷ removed)
  | false ↦ elim (ltb c.id b.id) [
    | true ↦ let (rows, removed) = merge left (b ∷ base) current in ((c, none) ∷ rows, removed)
    | false ↦ let (rows, removed) = merge left base current in ((c, some b) ∷ rows, removed)
  ]
]

unfoldable pub write_removed : BitWriter → ℕ → List ℕ → BitWriter
write_removed w previous_id [] = w
write_removed w previous_id (id ∷ ids) = write_removed (write_entity_id w id previous_id) id ids

unfoldable pub write_updates : BitWriter → ℕ → List Row → List ℕ → BitWriter
write_updates w previous_id rows [] = w
write_updates w previous_id rows (index ∷ selected) =
    let (current, previous) = get_or rows index blank_row in
    write_updates (write_update w previous_id current previous) current.id rows selected

-- `for (u32 index : selected_) sent_flags_[index] = true`.
unfoldable pub mark : List ℕ → List Bool → List Bool
mark [] flags = flags
mark (index ∷ selected) flags = mark selected (set flags index true)

-- The states of the new frame: what was sent, and what the baseline has of the rest.
unfoldable pub keep : List Row → List Bool → List EntityWireState
keep [] flags = []
keep ((c, p) ∷ rows) [] = []
keep ((c, p) ∷ rows) (true ∷ flags) = c ∷ keep rows flags
keep ((c, none) ∷ rows) (false ∷ flags) = keep rows flags
keep ((c, some b) ∷ rows) (false ∷ flags) = b ∷ keep rows flags
