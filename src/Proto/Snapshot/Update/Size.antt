-- ===== src/Proto/Snapshot/Update/Size.antt =====
-- The size of one entity's update, against `kWorstCaseEntityBits` of src/proto/snapshot.cpp.
use morton.Base.{
  ℕ, zero, suc, ◌+◌, ◌/◌, ◌≤◌, ◌≡◌, refl, Bool, true, false, List, [], ◌++◌, Option, none, some,
  inl, inr, if◌then◌else◌, length, length-append, sub32, Bool-cases, arith,
}
use morton.Base.BitList.{bits, length-bits}
use morton.Proto.Bitstream.Bytes.{flat, length-flat}
use morton.Proto.Bitstream.Writer.Emit.{varint_bytes, varint_groups}
use morton.Proto.Bitstream.Ranged.{bits_required, count_bits}
use morton.Proto.Snapshot.{EntityWireState}
use morton.Proto.Snapshot.Update.{small_delta_min, small_delta_max}
use morton.Proto.Snapshot.Update.Wire.{
  flag, new_bits, is_small_move, moved, turned, position_bits, velocity_pair, changes_bits,
  state_bits, update_bits,
}

-- `kWorstCaseEntityBits`.
abbrev pub worst_case_entity_bits : ℕ
worst_case_entity_bits = 101

pub length-varint_groups : (more v : ℕ) → length (varint_groups more v) ≤ suc more
unfolding varint_groups
length-varint_groups zero v = omega arith
length-varint_groups (suc more) v = ground (arith, length-varint_groups more (v / 128))

length-if : (b : Bool) (xs : List ℕ) (n : ℕ) → length xs ≤ n → length (if b then xs else []) ≤ n
length-if true xs n h = h
length-if false xs n h = omega arith

length-pair : (n v m w : ℕ) → length (bits n v ++ bits m w) ≡ n + m
length-pair n v m w =
    omega (arith, length-append (bits n v) (bits m w), length-bits n v, length-bits m w)

small_delta_bits : bits_required small_delta_min small_delta_max ≡ 12
unfolding bits_required count_bits
small_delta_bits = refl

length-position_bits : (s old : EntityWireState) → length (position_bits s old) ≤ 33
length-position_bits s old = elim (Bool-cases (is_small_move s old)) [
  | inl small ↦
      let dx : ℕ = sub32 (sub32 s.px old.px) small_delta_min in
      let dy : ℕ = sub32 (sub32 s.py old.py) small_delta_min in
      rw (small, small_delta_bits)
        (omega (
          arith,
          length-append (bits 1 1) (bits 12 dx ++ bits 12 dy),
          length-bits 1 1,
          length-pair 12 dx 12 dy,
        ))
  | inr large ↦ rw large (
      omega (
        arith,
        length-append (bits 1 0) (bits 16 s.px ++ bits 16 s.py),
        length-bits 1 0,
        length-pair 16 s.px 16 s.py,
      ))
]

length-changes_bits : (s old : EntityWireState) → length (changes_bits s old) ≤ 59
length-changes_bits s old =
    let position : List ℕ = (if moved s old then position_bits s old else []) in
    let velocity : List ℕ = (if turned s old then velocity_pair s else []) in
    let p : length position ≤ 33 =
      length-if (moved s old) (position_bits s old) 33 (length-position_bits s old) in
    let v : length velocity ≤ 24 =
      length-if (turned s old) (velocity_pair s) 24 (omega (arith, length-pair 12 s.vx 12 s.vy)) in
    omega (
      arith,
      p,
      v,
      length-append (flag (moved s old)) (position ++ (flag (turned s old) ++ velocity)),
      length-append position (flag (turned s old) ++ velocity),
      length-append (flag (turned s old)) velocity,
      length-bits 1 (if moved s old then 1 else 0),
      length-bits 1 (if turned s old then 1 else 0),
    )

length-new_bits : (s : EntityWireState) → length (new_bits s) ≡ 58
length-new_bits s = omega (
  arith,
  length-append (bits 16 s.px) (bits 16 s.py ++ (bits 12 s.vx ++ (bits 12 s.vy ++ bits 2 s.kind))),
  length-append (bits 16 s.py) (bits 12 s.vx ++ (bits 12 s.vy ++ bits 2 s.kind)),
  length-append (bits 12 s.vx) (bits 12 s.vy ++ bits 2 s.kind),
  length-bits 16 s.px,
  length-bits 16 s.py,
  length-bits 12 s.vx,
  length-pair 12 s.vy 2 s.kind,
)

length-id_bits : (gap : ℕ) → length (flat (varint_bytes gap)) ≤ 40
length-id_bits gap = omega (arith, length-flat (varint_bytes gap), length-varint_groups 4 gap)

-- The update of an entity, whatever changed, takes at most the bits that the encoder budgets for
-- it.
pub length-update_bits :
    (previous_id : ℕ) (s : EntityWireState) (previous : Option EntityWireState)
    → length (update_bits previous_id s previous) ≤ worst_case_entity_bits
unfolding state_bits
length-update_bits previous_id s none =
    let gap : ℕ = sub32 s.id previous_id in
    omega (
      arith,
      length-append (flat (varint_bytes gap)) (flag true ++ new_bits s),
      length-append (flag true) (new_bits s),
      length-bits 1 1,
      length-id_bits gap,
      length-new_bits s,
    )
length-update_bits previous_id s (some old) =
    let gap : ℕ = sub32 s.id previous_id in
    omega (
      arith,
      length-append (flat (varint_bytes gap)) (flag false ++ changes_bits s old),
      length-append (flag false) (changes_bits s old),
      length-bits 1 0,
      length-id_bits gap,
      length-changes_bits s old,
    )
