-- ===== src/Proto/Snapshot/Update/Wire.antt =====
-- The bits of one entity's update, as the encoder of src/proto/snapshot.cpp writes them.
use morton.Base.{
  ℕ, ◌^◌, ◌<◌, ◌≡◌, Bool, true, false, not, ◌&&◌, ◌||◌, List, [], ◌++◌, Option, none, some, inl,
  inr, ◌==◌, if◌then◌else◌, sub32, Bool-cases, arith,
}
use morton.Base.BitList.{bits}
use morton.Proto.Bitstream.Bytes.{flat}
use morton.Proto.Bitstream.Writer.{BitWriter}
use morton.Proto.Bitstream.Writer.Emit.{
  Emits, Emits-trans, Emits-nil, write_bits-Emits, write_bool-Emits, write_u16-Emits,
  write_varint-Emits, varint_bytes,
}
use morton.Proto.Bitstream.Ranged.{bits_required, write_ranged-Emits, InRange}
use morton.Proto.Snapshot.{EntityWireState}
use morton.Proto.Snapshot.Update.{
  small_delta_min, small_delta_max, small_delta-IsRange, is_small, write_entity_id, write_new,
  write_position, write_velocity, write_changes, write_update,
}

-- A state in which every field fits its width on the wire.
pub record IsWireState (s : EntityWireState) : Type 0 where
  pub id_fits : s.id < 2 ^ 32
  pub px_fits : s.px < 2 ^ 16
  pub py_fits : s.py < 2 ^ 16
  pub vx_fits : s.vx < 2 ^ 12
  pub vy_fits : s.vy < 2 ^ 12
  pub kind_fits : s.kind < 2 ^ 2

abbrev pub flag : Bool → List ℕ
flag b = bits 1 (if b then 1 else 0)

abbrev pub new_bits : EntityWireState → List ℕ
new_bits s = bits 16 s.px ++ (bits 16 s.py ++ (bits 12 s.vx ++ (bits 12 s.vy ++ bits 2 s.kind)))

abbrev pub delta_bits : ℕ → List ℕ
delta_bits d = bits (bits_required small_delta_min small_delta_max) (sub32 d small_delta_min)

abbrev pub is_small_move : EntityWireState → EntityWireState → Bool
is_small_move s old = is_small (sub32 s.px old.px) && is_small (sub32 s.py old.py)

abbrev pub moved : EntityWireState → EntityWireState → Bool
moved s old = not (s.px == old.px) || not (s.py == old.py)

abbrev pub turned : EntityWireState → EntityWireState → Bool
turned s old = not (s.vx == old.vx) || not (s.vy == old.vy)

abbrev pub position_bits : EntityWireState → EntityWireState → List ℕ
position_bits s old =
    flag (is_small_move s old)
    ++ (if is_small_move s old
        then delta_bits (sub32 s.px old.px) ++ delta_bits (sub32 s.py old.py)
        else bits 16 s.px ++ bits 16 s.py)

abbrev pub velocity_pair : EntityWireState → List ℕ
velocity_pair s = bits 12 s.vx ++ bits 12 s.vy

abbrev pub changes_bits : EntityWireState → EntityWireState → List ℕ
changes_bits s old =
    flag (moved s old)
    ++ ((if moved s old then position_bits s old else [])
        ++ (flag (turned s old) ++ (if turned s old then velocity_pair s else [])))

unfoldable pub state_bits : EntityWireState → Option EntityWireState → List ℕ
state_bits s none = flag true ++ new_bits s
state_bits s (some old) = flag false ++ changes_bits s old

abbrev pub update_bits : ℕ → EntityWireState → Option EntityWireState → List ℕ
update_bits previous_id s previous =
    flat (varint_bytes (sub32 s.id previous_id)) ++ state_bits s previous

small_fits : (d : ℕ) → d < 2 ^ 32 → is_small d ≡ true → InRange d small_delta_min small_delta_max
unfolding is_small
small_fits d h small = ground arith

pub small_move :
    (s old : EntityWireState)
    → is_small_move s old ≡ true
    → InRange (sub32 s.px old.px) small_delta_min small_delta_max
      × InRange (sub32 s.py old.py) small_delta_min small_delta_max
small_move s old small = (
  small_fits (sub32 s.px old.px) (omega arith) (ground arith),
  small_fits (sub32 s.py old.py) (omega arith) (ground arith),
)

write_new-Emits :
    (w : BitWriter) (s : EntityWireState) → IsWireState s → Emits w (new_bits s) (write_new w s)
unfolding write_new
write_new-Emits w s v = Emits-trans _ _ (write_u16-Emits w s.px v.px_fits) (
    Emits-trans _ _ (write_u16-Emits _ s.py v.py_fits) (
      Emits-trans _ _ (write_bits-Emits _ s.vx 12 (omega arith) (omega (arith, v.vx_fits))) (
        Emits-trans _ _ (write_bits-Emits _ s.vy 12 (omega arith) (omega (arith, v.vy_fits)))
          (write_bits-Emits _ s.kind 2 (omega arith) (omega (arith, v.kind_fits))))))

write_velocity-Emits :
    (w : BitWriter) (s : EntityWireState)
    → IsWireState s
    → Emits w (velocity_pair s) (write_velocity w s)
unfolding write_velocity
write_velocity-Emits w s v =
    Emits-trans _ _ (write_bits-Emits w s.vx 12 (omega arith) (omega (arith, v.vx_fits)))
      (write_bits-Emits _ s.vy 12 (omega arith) (omega (arith, v.vy_fits)))

write_position-Emits :
    (w : BitWriter) (s old : EntityWireState)
    → IsWireState s
    → Emits w (position_bits s old) (write_position w s old)
unfolding write_position
write_position-Emits w s old v = elim (Bool-cases (is_small_move s old)) [
  | inl small ↦
      let ranges = small_move s old small in
      rw small (
        Emits-trans (flag true) _ (write_bool-Emits w true) (
          Emits-trans _ _ (write_ranged-Emits _ _ _ _ small_delta-IsRange ranges.0)
            (write_ranged-Emits _ _ _ _ small_delta-IsRange ranges.1)))
  | inr large ↦ rw large (
      Emits-trans (flag false) _ (write_bool-Emits w false)
        (Emits-trans _ _ (write_u16-Emits _ s.px v.px_fits) (write_u16-Emits _ s.py v.py_fits)))
]

-- A part that is written only under a test.
Emits-if :
    (b : Bool) (w w' : BitWriter) (xs : List ℕ)
    → Emits w xs w'
    → Emits w (if b then xs else []) (if b then w' else w)
Emits-if true w w' xs h = h
Emits-if false w w' xs h = Emits-nil w

write_changes-Emits :
    (w : BitWriter) (s old : EntityWireState)
    → IsWireState s
    → Emits w (changes_bits s old) (write_changes w s old)
unfolding write_changes
write_changes-Emits w s old v = Emits-trans _ _ (write_bool-Emits w (moved s old)) (
    Emits-trans _ _ (Emits-if (moved s old) _ _ _ (write_position-Emits _ s old v)) (
      Emits-trans _ _ (write_bool-Emits _ (turned s old))
        (Emits-if (turned s old) _ _ _ (write_velocity-Emits _ s v))))

pub write_update-Emits :
    (w : BitWriter) (previous_id : ℕ) (s : EntityWireState) (previous : Option EntityWireState)
    → IsWireState s
    → Emits w (update_bits previous_id s previous) (write_update w previous_id s previous)
unfolding write_update write_entity_id state_bits
write_update-Emits w previous_id s none v =
    Emits-trans _ _ (write_varint-Emits w (sub32 s.id previous_id))
      (Emits-trans (flag true) _ (write_bool-Emits _ true) (write_new-Emits _ s v))
write_update-Emits w previous_id s (some old) v =
    Emits-trans _ _ (write_varint-Emits w (sub32 s.id previous_id))
      (Emits-trans (flag false) _ (write_bool-Emits _ false) (write_changes-Emits _ s old v))
