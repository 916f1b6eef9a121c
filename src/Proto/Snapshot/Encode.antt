-- ===== src/Proto/Snapshot/Encode.antt =====
-- `ReplicationState` of src/proto/snapshot.h and snapshot.cpp. The scratch vectors live through one
-- call of `encode`. The grid's callbacks are the list `nearby` of their indices, and the order in
-- which `std::nth_element` leaves its range is the parameter `nth_element`.
pub mod Candidates
pub mod Front
pub mod Selection
pub mod Round
pub mod Frames
pub mod Agreement
pub mod Budget
use morton.Base.{
  ℕ, zero, suc, ◌+◌, ◌-◌, ◌*◌, ◌/◌, ◌^◌, Bool, true, false, not, ◌&&◌, ◌||◌, List, [], ◌∷◌, ◌++◌,
  map, Option, none, some, ltb, leb, ◌==◌, if◌then◌else◌, length, get_or, take, replicate, min, u16,
  u32,
}
use morton.Core.Float.{F32}
use morton.Core.Sequence.{tick_greater}
use morton.Sim.Movement.{WorldParams}
use morton.Sim.Entities.{EntityStore, find, no_entity}
use morton.Proto.Bitstream.Writer.{
  BitWriter, new_writer, write_bool, write_u16, write_u32, write_varint, bits_remaining, finished,
  bytes_written,
}
use morton.Proto.Snapshot.{
  EntityWireState, SnapshotFrame, SnapshotHistory, configure, slot, get, reset, put,
}
use morton.Proto.Snapshot.Merge.{Row, all_new, merge, write_removed, write_updates, mark, keep}
use morton.Proto.Snapshot.Update.Size.{worst_case_entity_bits}
use morton.Proto.Snapshot.Encode.Candidates.{
  ReplicationQuantizers, quantizers_from, Scene, Carried, gather, sort_ascending, candidates_of,
  next_carried,
}

pub record InterestConfig (F : F32) : Type 0 where
  pub aoi_radius : F.Carrier
  pub max_snapshot_bytes : ℕ
  pub baseline_history : ℕ
  pub distance_priority_falloff : F.Carrier

pub record ReplicationStats : Type 0 where
  pub relevant_entities : ℕ
  pub entities_sent : ℕ
  pub entities_removed : ℕ
  pub entities_deferred : ℕ
  pub snapshot_bytes : ℕ
  pub was_full_snapshot : Bool

abbrev pub no_stats : ReplicationStats
no_stats = record {
  relevant_entities = 0;
  entities_sent = 0;
  entities_removed = 0;
  entities_deferred = 0;
  snapshot_bytes = 0;
  was_full_snapshot = false;
}

pub record ReplicationState (F : F32) : Type 0 where
  pub config : InterestConfig F
  pub quantizers : ReplicationQuantizers F
  pub params : WorldParams F
  pub history : SnapshotHistory
  pub last_acked_tick : ℕ
  pub has_acked : Bool
  pub priority : List (Carried F)
  pub stats : ReplicationStats

abbrev pub update_count_bits : ℕ
update_count_bits = 16

-- The fields of a snapshot's header.
pub record HeaderFields : Type 0 where
  pub tick : ℕ
  pub baseline : Option ℕ
  pub last_input_sequence : ℕ
  pub viewer : ℕ

unfoldable pub write_baseline : BitWriter → Option ℕ → BitWriter
write_baseline w none = write_bool w true
write_baseline w (some tick) = write_u32 (write_bool w false) tick

unfoldable pub write_header : BitWriter → HeaderFields → BitWriter
write_header w h =
    let w1 = write_baseline (write_u32 w h.tick) h.baseline in
    write_varint (write_u32 w1 h.last_input_sequence) h.viewer

-- Up to the removed entities.
unfoldable pub write_front : BitWriter → HeaderFields → List ℕ → BitWriter
write_front w h removed =
    write_removed (write_varint (write_header w h) (u32 (length removed))) 0 removed

-- The number of updates that the rest of the packet has room for.
unfoldable pub fits_of : BitWriter → ℕ
fits_of w =
    let available_bits = bits_remaining w in
    if leb available_bits update_count_bits
    then 0
    else (available_bits - update_count_bits) / worst_case_entity_bits

-- The rows that are sent: all candidates, or the best of them in the order of their ids.
unfoldable pub select {ℓ} :
    {A : Type ℓ} → (ℕ → List (ℕ × A) → List (ℕ × A)) → ℕ → List (ℕ × A) → List ℕ
select nth_element fits candidates =
    if leb (length candidates) fits
    then map (λ c. c.0) candidates
    else sort_ascending (map (λ c. c.0) (take fits (nth_element fits candidates)))

-- Whether two frames, where they exist, are one.
unfoldable pub same_slot : Option ℕ → Option ℕ → Bool
same_slot none j = false
same_slot (some i) none = false
same_slot (some i) (some j) = i == j

unfoldable pub write_back : BitWriter → List Row → List ℕ → BitWriter
write_back w rows selected = write_updates (write_u16 w (u16 (length selected))) 0 rows selected

-- The rows and the ids removed.
unfoldable pub rows_of : Option SnapshotFrame → List EntityWireState → List Row × List ℕ
rows_of none current = (all_new current, [])
rows_of (some frame) current = merge (length frame.states + length current) frame.states current

abbrev pub full_of : Option SnapshotFrame → Bool
full_of none = true
full_of (some frame) = false

abbrev pub tick_of : Option SnapshotFrame → Option ℕ
tick_of none = none
tick_of (some frame) = some frame.tick

-- What one call has built before it keeps a frame.
pub record Prepared (F : F32) : Type 0 where
  pub scene : Scene F
  pub current : List EntityWireState
  pub candidates : List (ℕ × F.Carrier)
  pub priorities : List F.Carrier
  pub header : HeaderFields
  pub front : BitWriter
  pub selected : List ℕ
  pub packet : BitWriter

module _ {F : F32} where
  unfoldable pub configure_state :
      ReplicationState F → InterestConfig F → WorldParams F → ReplicationState F
  configure_state s config params = record s {
    config = config;
    params = params;
    quantizers = quantizers_from params;
    history = configure config.baseline_history;
  }

  unfoldable pub reset_state : ReplicationState F → ReplicationState F
  reset_state s = record s {
    history = reset s.history;
    last_acked_tick = 0;
    has_acked = false;
    priority = [];
    stats = no_stats;
  }

  unfoldable pub baseline : ReplicationState F → Option SnapshotFrame
  baseline s = if s.has_acked then get s.history s.last_acked_tick else none

  unfoldable pub acknowledge : ReplicationState F → ℕ → ReplicationState F
  acknowledge s tick =
      if s.has_acked && not (tick_greater tick s.last_acked_tick)
      then s
      else record s { last_acked_tick = tick; has_acked = true }

  -- The baseline, unless its slot is the one of the frame about to be written.
  unfoldable pub usable_baseline : ReplicationState F → ℕ → Option SnapshotFrame
  usable_baseline s tick = elim (baseline s) [
    | none ↦ none
    | some frame ↦
        if same_slot (slot s.history s.last_acked_tick) (slot s.history tick)
        then none
        else some frame
  ]

  -- The state after a snapshot of `size` bytes has been written.
  unfoldable pub keep_frame :
      ReplicationState F
      → ℕ
      → List Row
      → List ℕ
      → List (F.Carrier)
      → ReplicationStats
      → ReplicationState F
  keep_frame s tick rows selected priorities stats =
      let flags = mark selected (replicate (length rows) false) in
      record s {
        history =
            put s.history tick (record { tick = tick; valid = true; states = keep rows flags });
        priority = next_carried rows flags priorities;
        stats = stats;
      }

  -- Everything up to the last write.
  unfoldable pub prepare :
      (ℕ → List (ℕ × F.Carrier) → List (ℕ × F.Carrier))
      → ReplicationState F
      → EntityStore F
      → List ℕ
      → ℕ
      → ℕ
      → ℕ
      → ℕ
      → ℕ
      → Prepared F
  prepare nth_element s entities nearby tick viewer viewer_index last_input_sequence capacity =
      let scene : Scene F = record {
        quantizers = s.quantizers;
        eye = (get_or entities.rows viewer_index (no_entity F)).position;
        aoi_radius = s.config.aoi_radius;
        falloff = s.config.distance_priority_falloff;
        viewer = viewer;
      } in
      let current = gather scene entities.rows nearby in
      let base = usable_baseline s tick in
      let (rows, removed) = rows_of base current in
      let (candidates, priorities) = candidates_of scene 0 rows s.priority in
      let header : HeaderFields = record {
        tick = tick;
        baseline = tick_of base;
        last_input_sequence = last_input_sequence;
        viewer = viewer;
      } in
      let front =
        write_front (new_writer (min capacity s.config.max_snapshot_bytes)) header removed in
      let selected = select nth_element (fits_of front) candidates in
      record {
        scene = scene;
        current = current;
        candidates = candidates;
        priorities = priorities;
        header = header;
        front = front;
        selected = selected;
        packet = write_back front rows selected;
      }

  unfoldable pub encode :
      (ℕ → List (ℕ × F.Carrier) → List (ℕ × F.Carrier))
      → ReplicationState F
      → EntityStore F
      → List ℕ
      → ℕ
      → ℕ
      → ℕ
      → ℕ
      → Option (List ℕ) × ReplicationState F
  encode nth_element s entities nearby tick viewer last_input_sequence capacity =
      elim (find entities viewer) [
        | none ↦ (none, record s { stats = no_stats })
        | some viewer_index ↦
            let p =
              prepare nth_element s entities nearby tick viewer viewer_index last_input_sequence
                capacity in
            let base = usable_baseline s tick in
            let (rows, removed) = rows_of base p.current in
            let early : ReplicationStats = record {
              relevant_entities = length p.current;
              entities_sent = 0;
              entities_removed = length removed;
              entities_deferred = 0;
              snapshot_bytes = 0;
              was_full_snapshot = full_of base;
            } in
            if p.front.overflow || p.packet.overflow then (none, record s { stats = early }) else (
              some (finished p.packet),
              keep_frame s tick rows p.selected p.priorities (record early {
                entities_sent = length p.selected;
                entities_deferred = length p.candidates - length p.selected;
                snapshot_bytes = bytes_written p.packet;
              }),
            )
      ]
