-- ===== src/Proto/Snapshot/Update/Arrival.antt =====
-- What the decoder of src/proto/snapshot.cpp makes of the bits of one entity's update.
use morton.Base.{
  ℕ, ◌+◌, ◌^◌, ◌<◌, ◌≡◌, refl, sym, ◌∙◌, Bool, true, false, List, [], ◌++◌, inl, inr, if◌then◌else◌,
  sub32, u8, u16, u32, Bool-cases, arith,
}
use morton.Base.BitList.{bits}
use morton.Proto.Bitstream.Bytes.{flat}
use morton.Proto.Bitstream.Writer.Emit.{varint_bytes}
use morton.Proto.Bitstream.Reader.{BitReader, read_bits, read_bool, read_u16, read_varint}
use morton.Proto.Bitstream.Reader.Take.{Reads, remaining, then_rest}
use morton.Proto.Bitstream.Reader.Fields.{
  read_value-Reads, read_u16-Reads, read_bool-Reads, read_varint-Reads,
}
use morton.Proto.Bitstream.Reader.Chain.{Reads-bind, Reads-map, Reads-nothing, Reads-eq}
use morton.Proto.Bitstream.Ranged.{read_ranged-Reads}
use morton.Proto.Snapshot.{EntityWireState}
use morton.Proto.Snapshot.Update.{
  small_delta_min, small_delta_max, small_delta-IsRange, read_small, read_entity_id, read_new,
  read_position, read_velocity, read_changes,
}
use morton.Proto.Snapshot.Update.Wire.{
  IsWireState, flag, new_bits, delta_bits, is_small_move, small_move, moved, turned, position_bits,
  velocity_pair, changes_bits,
}

-- `old` with the fields of `s` that an update transmits.
abbrev pub updated : EntityWireState → EntityWireState → EntityWireState
updated s old = record old { px = s.px; py = s.py; vx = s.vx; vy = s.vy }

pub read_entity_id-Reads :
    (id previous_id : ℕ)
    → id < 2 ^ 32
    → previous_id < 2 ^ 32
    → Reads (λ r. read_entity_id r previous_id) (flat (varint_bytes (sub32 id previous_id))) id
unfolding read_entity_id
read_entity_id-Reads id previous_id h hp =
    let back : u32 (previous_id + sub32 id previous_id) ≡ id = omega arith in
    Reads-eq _ _ _ _ _ refl back (
      Reads-map read_varint (λ (gap : ℕ). u32 (previous_id + gap)) _ (sub32 id previous_id)
        (read_varint-Reads (sub32 id previous_id) (omega arith)))

-- A new entity's state comes back whole.
pub read_new-Reads :
    (s old : EntityWireState)
    → IsWireState s
    → Reads (λ r. read_new r old) (new_bits s) (record s { id = old.id })
unfolding read_new
read_new-Reads s old v r rest k e =
    let b4 = bits 12 s.vy ++ bits 2 s.kind in
    let b3 = bits 12 s.vx ++ b4 in
    let b2 = bits 16 s.py ++ b3 in
    let s1 = read_u16-Reads s.px v.px_fits r (b2 ++ rest) k (then_rest (bits 16 s.px) b2 rest e) in
    let r1 : BitReader = (read_u16 r).1 in
    let s2 =
      read_u16-Reads s.py v.py_fits r1 (b3 ++ rest) s1.valid
        (then_rest (bits 16 s.py) b3 rest s1.left) in
    let r2 : BitReader = (read_u16 r1).1 in
    let s3 =
      read_value-Reads 12 s.vx (omega arith) v.vx_fits r2 (b4 ++ rest) s2.valid
        (then_rest (bits 12 s.vx) b4 rest s2.left) in
    let r3 : BitReader = (read_bits r2 12).1 in
    let s4 =
      read_value-Reads 12 s.vy (omega arith) v.vy_fits r3 (bits 2 s.kind ++ rest) s3.valid
        (then_rest (bits 12 s.vy) (bits 2 s.kind) rest s3.left) in
    let r4 : BitReader = (read_bits r3 12).1 in
    let s5 = read_value-Reads 2 s.kind (omega arith) v.kind_fits r4 rest s4.valid s4.left in
    let vx_back : u16 (read_bits r2 12).0 ≡ s.vx = omega (arith, s3.value, v.vx_fits) in
    let vy_back : u16 (read_bits r3 12).0 ≡ s.vy = omega (arith, s4.value, v.vy_fits) in
    let kind_back : u8 (read_bits r4 2).0 ≡ s.kind = omega (arith, s5.value, v.kind_fits) in
    record {
      value = λ i. record {
        id = old.id;
        px = s1.value i;
        py = s2.value i;
        vx = vx_back i;
        vy = vy_back i;
        kind = kind_back i;
      };
      valid = s5.valid;
      left = s5.left;
      latch = s5.latch ∙ s4.latch ∙ s3.latch ∙ s2.latch ∙ s1.latch;
    }

read_velocity-Reads :
    (s old : EntityWireState)
    → IsWireState s
    → Reads (λ r. read_velocity r old) (velocity_pair s) (record old { vx = s.vx; vy = s.vy })
unfolding read_velocity
read_velocity-Reads s old v r rest k e =
    let s1 =
      read_value-Reads 12 s.vx (omega arith) v.vx_fits r (bits 12 s.vy ++ rest) k
        (then_rest (bits 12 s.vx) (bits 12 s.vy) rest e) in
    let r1 : BitReader = (read_bits r 12).1 in
    let s2 = read_value-Reads 12 s.vy (omega arith) v.vy_fits r1 rest s1.valid s1.left in
    let vx_back : u16 (read_bits r 12).0 ≡ s.vx = omega (arith, s1.value, v.vx_fits) in
    let vy_back : u16 (read_bits r1 12).0 ≡ s.vy = omega (arith, s2.value, v.vy_fits) in
    record {
      value = λ i. record old { vx = vx_back i; vy = vy_back i };
      valid = s2.valid;
      left = s2.left;
      latch = s2.latch ∙ s1.latch;
    }

read_position-Reads :
    (s old : EntityWireState)
    → IsWireState s
    → IsWireState old
    → Reads (λ r. read_position r old) (position_bits s old) (record old { px = s.px; py = s.py })
unfolding read_position
read_position-Reads s old v vo r rest k e = elim (Bool-cases (is_small_move s old)) [
  | inl small ↦
      let ranges = small_move s old small in
      let dx : ℕ = sub32 s.px old.px in
      let dy : ℕ = sub32 s.py old.py in
      let bx = delta_bits dx in
      let by = delta_bits dy in
      let e' : remaining r ≡ (flag true ++ (bx ++ by)) ++ rest = rw small at e in
      let s1 =
        read_bool-Reads true r ((bx ++ by) ++ rest) k (then_rest (flag true) (bx ++ by) rest e') in
      let r1 : BitReader = (read_bool r).1 in
      let s2 =
        read_ranged-Reads dx small_delta_min small_delta_max small_delta-IsRange ranges.0 r1
          (by ++ rest) s1.valid (then_rest bx by rest s1.left) in
      let r2 : BitReader = (read_small r1).1 in
      let s3 =
        read_ranged-Reads dy small_delta_min small_delta_max small_delta-IsRange ranges.1 r2 rest
          s2.valid s2.left in
      let px_back : u16 (old.px + dx) ≡ s.px = omega (arith, v.px_fits, vo.px_fits) in
      let py_back : u16 (old.py + dy) ≡ s.py = omega (arith, v.py_fits, vo.py_fits) in
      rw (s1.value, s2.value, s3.value)
        (record {
          value = λ i. record old { px = px_back i; py = py_back i };
          valid = s3.valid;
          left = s3.left;
          latch = s3.latch ∙ s2.latch ∙ s1.latch;
        })
  | inr large ↦
      let bx = bits 16 s.px in
      let by = bits 16 s.py in
      let e' : remaining r ≡ (flag false ++ (bx ++ by)) ++ rest = rw large at e in
      let s1 =
        read_bool-Reads false r ((bx ++ by) ++ rest) k
          (then_rest (flag false) (bx ++ by) rest e') in
      let r1 : BitReader = (read_bool r).1 in
      let s2 =
        read_u16-Reads s.px v.px_fits r1 (by ++ rest) s1.valid (then_rest bx by rest s1.left) in
      let s3 = read_u16-Reads s.py v.py_fits (read_u16 r1).1 rest s2.valid s2.left in
      rw s1.value (record {
        value = λ i. record old { px = s2.value i; py = s3.value i };
        valid = s3.valid;
        left = s3.left;
        latch = s3.latch ∙ s2.latch ∙ s1.latch;
      })
]

-- A part that is read only under a test, where the state stays as it is otherwise.
Reads-if :
    (b : Bool) (f : BitReader → EntityWireState × BitReader) (xs : List ℕ) (a d : EntityWireState)
    → Reads f xs a
    → (b ≡ false → a ≡ d)
    → Reads (λ r. if b then f r else (d, r)) (if b then xs else []) a
Reads-if true f xs a d h same = h
Reads-if false f xs a d h same = Reads-eq _ [] [] d a refl (sym (same refl)) (Reads-nothing d)

unmoved :
    (s old : EntityWireState) → moved s old ≡ false → record old { px = s.px; py = s.py } ≡ old
unmoved s old e =
    let px_same : s.px ≡ old.px = ground (arith, e) in
    let py_same : s.py ≡ old.py = ground (arith, e) in
    λ i. record old { px = px_same i; py = py_same i }

unturned :
    (s old : EntityWireState)
    → turned s old ≡ false
    → updated s old ≡ record old { px = s.px; py = s.py }
unturned s old e =
    let vx_same : s.vx ≡ old.vx = ground (arith, e) in
    let vy_same : s.vy ≡ old.vy = ground (arith, e) in
    λ i. record old { px = s.px; py = s.py; vx = vx_same i; vy = vy_same i }

-- A state of the baseline becomes the new one, but for its kind, which is not on the wire.
pub read_changes-Reads :
    (s old : EntityWireState)
    → IsWireState s
    → IsWireState old
    → Reads (λ r. read_changes r old) (changes_bits s old) (updated s old)
unfolding read_changes
read_changes-Reads s old v vo =
    let mid : EntityWireState = record old { px = s.px; py = s.py } in
    let finish : Bool → EntityWireState → BitReader → EntityWireState × BitReader =
      λ (b : Bool) (m : EntityWireState) (q : BitReader). if b then read_velocity q m else (m, q) in
    let go_on : EntityWireState → BitReader → EntityWireState × BitReader =
      λ (m : EntityWireState) (q : BitReader). finish (read_bool q).0 m (read_bool q).1 in
    let turn : Reads (finish (turned s old) mid) (if turned s old then velocity_pair s else [])
        (updated s old) =
      Reads-if (turned s old) (λ q. read_velocity q mid) (velocity_pair s) (updated s old) mid
        (read_velocity-Reads s mid v) (unturned s old) in
    let rest_of : Reads (go_on mid)
        (flag (turned s old) ++ (if turned s old then velocity_pair s else [])) (updated s old) =
      Reads-bind read_bool (λ b q. finish b mid q) (flag (turned s old)) _ (turned s old)
        (updated s old) (read_bool-Reads (turned s old)) turn in
    let move : Reads (λ q. if moved s old then read_position q old else (old, q))
        (if moved s old then position_bits s old else []) mid =
      Reads-if (moved s old) (λ q. read_position q old) (position_bits s old) mid old
        (read_position-Reads s old v vo) (unmoved s old) in
    Reads-bind read_bool
      (λ b q. let (m, q') = (if b then read_position q old else (old, q)) in go_on m q')
      (flag (moved s old)) _ (moved s old) (updated s old) (read_bool-Reads (moved s old))
      (Reads-bind (λ q. if moved s old then read_position q old else (old, q)) go_on _ _ mid
        (updated s old) move rest_of)
