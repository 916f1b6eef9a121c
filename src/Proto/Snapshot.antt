-- ===== src/Proto/Snapshot.antt =====
-- The data of src/proto/snapshot.h: an entity as it is on the wire, a frame of them, and the ring of
-- recent frames. A pointer to a frame is its slot, and a write through it is `put`.
pub mod Merge
pub mod Update
pub mod Decode
pub mod Frame
pub mod Updates
pub mod History
pub mod Encode
use morton.Base.{
  ℕ, ◌%◌, Bool, true, false, not, ◌&&◌, ◌||◌, List, [], ◌∷◌, map, Option, none, some, ltb, ◌==◌,
  if◌then◌else◌, length, get_or, set, replicate,
}

pub record EntityWireState : Type 0 where
  pub id : ℕ
  pub px : ℕ
  pub py : ℕ
  pub vx : ℕ
  pub vy : ℕ
  pub kind : ℕ

unfoldable pub same_state_as : EntityWireState → EntityWireState → Bool
same_state_as s o = s.px == o.px && s.py == o.py && s.vx == o.vx && s.vy == o.vy && s.kind == o.kind

pub record SnapshotFrame : Type 0 where
  pub tick : ℕ
  pub valid : Bool
  pub states : List EntityWireState

abbrev pub empty_frame : SnapshotFrame
empty_frame = record { tick = 0; valid = false; states = [] }

-- `std::lower_bound` by id, and the test that follows it: the entity with the id, if it is there.
-- The states of a frame are sorted by id.
unfoldable pub find_state : ℕ → List EntityWireState → Option EntityWireState
find_state id [] = none
find_state id (s ∷ rest) =
    let later = find_state id rest in
    if ltb s.id id then later else if s.id == id then some s else none

unfoldable pub find : ℕ → SnapshotFrame → Option EntityWireState
unfolding find_state
find id frame = find_state id frame.states

-- The ring of frames: `frames_`.
abbrev pub SnapshotHistory : Type 0
SnapshotHistory = List SnapshotFrame

unfoldable pub configure : ℕ → SnapshotHistory
configure capacity = replicate capacity empty_frame

-- The index of the frame for a tick, where there are frames.
unfoldable pub slot : SnapshotHistory → ℕ → Option ℕ
slot frames tick = if length frames == 0 then none else some (tick % length frames)

unfoldable pub get : SnapshotHistory → ℕ → Option SnapshotFrame
get frames tick =
    let frame = get_or frames (tick % length frames) empty_frame in
    if length frames == 0
    then none
    else if not frame.valid || not (frame.tick == tick)
    then none
    else some frame

unfoldable pub reset : SnapshotHistory → SnapshotHistory
reset frames = map (λ frame. empty_frame) frames

unfoldable pub put : SnapshotHistory → ℕ → SnapshotFrame → SnapshotHistory
put frames tick frame =
    if length frames == 0 then frames else set frames (tick % length frames) frame
