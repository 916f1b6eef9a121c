-- ===== src/Proto/Snapshot/Update.antt =====
-- One entity of a snapshot on the wire: what `encode` of src/proto/snapshot.cpp writes for it, and
-- what `decode_snapshot` reads.
pub mod Wire
pub mod Size
pub mod Arrival
use morton.Base.{
  ℕ, ◌+◌, Bool, true, false, not, ◌&&◌, ◌||◌, Option, none, some, ◌==◌, if◌then◌else◌, u8, u16, u32,
  sub32, arith,
}
use morton.Proto.Bitstream.Writer.{BitWriter, write_bits, write_bool, write_u16, write_varint}
use morton.Proto.Bitstream.Reader.{BitReader, read_bits, read_bool, read_u16, read_varint}
use morton.Proto.Bitstream.Ranged.{
  signed_ltb, IsRange, bits_required, count_bits, write_ranged, read_ranged,
}
use morton.Proto.Snapshot.{EntityWireState}

-- -2048 as an `i32`.
abbrev pub small_delta_min : ℕ
small_delta_min = 4294965248

abbrev pub small_delta_max : ℕ
small_delta_max = 2047

abbrev pub velocity_bits : ℕ
velocity_bits = 12

abbrev pub kind_bits : ℕ
kind_bits = 2

unfoldable pub write_entity_id : BitWriter → ℕ → ℕ → BitWriter
write_entity_id w id previous = write_varint w (sub32 id previous)

unfoldable pub read_entity_id : BitReader → ℕ → ℕ × BitReader
read_entity_id r previous = let (gap, r') = read_varint r in (u32 (previous + gap), r')

pub small_delta-IsRange : IsRange small_delta_min small_delta_max
unfolding bits_required count_bits
small_delta-IsRange = record {
  min_fits = omega arith;
  max_fits = omega arith;
  ordered = omega arith;
  narrow = omega arith;
  safe = omega arith;
}

abbrev pub write_small : BitWriter → ℕ → BitWriter
write_small w d = write_ranged w d small_delta_min small_delta_max small_delta-IsRange

abbrev pub read_small : BitReader → ℕ × BitReader
read_small r = read_ranged r small_delta_min small_delta_max small_delta-IsRange

unfoldable pub is_small : ℕ → Bool
is_small d = not (signed_ltb d small_delta_min) && not (signed_ltb small_delta_max d)

unfoldable pub write_new : BitWriter → EntityWireState → BitWriter
write_new w current =
    let w1 = write_u16 w current.px in
    let w2 = write_u16 w1 current.py in
    let w3 = write_bits w2 current.vx velocity_bits in
    let w4 = write_bits w3 current.vy velocity_bits in write_bits w4 current.kind kind_bits

unfoldable pub write_position : BitWriter → EntityWireState → EntityWireState → BitWriter
write_position w current previous =
    let dx = sub32 current.px previous.px in
    let dy = sub32 current.py previous.py in
    let small = is_small dx && is_small dy in
    let w1 = write_bool w small in
    if small
    then write_small (write_small w1 dx) dy
    else write_u16 (write_u16 w1 current.px) current.py

unfoldable pub write_velocity : BitWriter → EntityWireState → BitWriter
write_velocity w current =
    write_bits (write_bits w current.vx velocity_bits) current.vy velocity_bits

unfoldable pub write_changes : BitWriter → EntityWireState → EntityWireState → BitWriter
write_changes w current previous =
    let position_changed = not (current.px == previous.px) || not (current.py == previous.py) in
    let velocity_changed = not (current.vx == previous.vx) || not (current.vy == previous.vy) in
    let w1 = write_bool w position_changed in
    let w2 = (if position_changed then write_position w1 current previous else w1) in
    let w3 = write_bool w2 velocity_changed in
    if velocity_changed then write_velocity w3 current else w3

-- One round of the writing loop; `previous` is the entity in the baseline.
unfoldable pub write_update : BitWriter → ℕ → EntityWireState → Option EntityWireState → BitWriter
write_update w previous_id current previous =
    let w1 = write_entity_id w current.id previous_id in
    elim previous [
      | none ↦ write_new (write_bool w1 true) current
      | some old ↦ write_changes (write_bool w1 false) current old
    ]

unfoldable pub read_new : BitReader → EntityWireState → EntityWireState × BitReader
read_new r state =
    let (px, r1) = read_u16 r in
    let (py, r2) = read_u16 r1 in
    let (vx, r3) = read_bits r2 velocity_bits in
    let (vy, r4) = read_bits r3 velocity_bits in
    let (kind, r5) = read_bits r4 kind_bits in
    (record state { px = px; py = py; vx = u16 vx; vy = u16 vy; kind = u8 kind }, r5)

unfoldable pub read_position : BitReader → EntityWireState → EntityWireState × BitReader
read_position r state =
    let (small, r1) = read_bool r in
    let (dx, r2) = read_small r1 in
    let (dy, r3) = read_small r2 in
    let (px, q2) = read_u16 r1 in
    let (py, q3) = read_u16 q2 in
    if small
    then (record state { px = u16 (state.px + dx); py = u16 (state.py + dy) }, r3)
    else (record state { px = px; py = py }, q3)

unfoldable pub read_velocity : BitReader → EntityWireState → EntityWireState × BitReader
read_velocity r state =
    let (vx, r1) = read_bits r velocity_bits in
    let (vy, r2) = read_bits r1 velocity_bits in (record state { vx = u16 vx; vy = u16 vy }, r2)

unfoldable pub read_changes : BitReader → EntityWireState → EntityWireState × BitReader
read_changes r state =
    let (position_changed, r1) = read_bool r in
    let (moved, r2) = (if position_changed then read_position r1 state else (state, r1)) in
    let (velocity_changed, r3) = read_bool r2 in
    if velocity_changed then read_velocity r3 moved else (moved, r3)
