-- ===== src/Tests/Replication.antt =====
-- Snapshots on concrete inputs.
use mathlib.Core.List.Permᴰ as Permᴰ
use mathlib.Core.List.{Permᴰ}
use morton.Base.{
  ℕ, ◌≤◌, ◌<◌, ◌^◌, ◌≡◌, refl, sym, true, false, List, [], ◌∷◌, some, if◌then◌else◌, ◌==◌, arith,
}
use morton.Core.Vector.{clampf, distance_sq}
use morton.Sim.Entities.{find}
use morton.Proto.Bitstream.Writer.{
  BitWriter, finished, bits_remaining, new_writer, write_u16, write_u32, write_bool, write_bits,
  push_bits, mask_value, flush_bytes, write_varint, write_varint_loop,
}
use morton.Proto.Snapshot.Merge.{merge, ids_of, write_removed, write_updates, keep, mark}
use morton.Proto.Snapshot.Update.Wire.{IsWireState}
use morton.Proto.Snapshot.Update.{
  write_entity_id, write_update, write_new, write_changes, write_position, write_velocity, is_small,
}
use morton.Proto.Bitstream.Ranged.{write_ranged, clamp_ranged, bits_required, count_bits}
use morton.Proto.Snapshot.Decode.{decode_snapshot}
use morton.Proto.Snapshot.Encode.Round.{IsSelection, decode_snapshot-write_back}
use morton.Proto.Snapshot.{EntityWireState, SnapshotFrame, empty_frame, slot, get}
use morton.Proto.Snapshot.Encode.{
  InterestConfig, ReplicationState, Prepared, no_stats, prepare, encode, usable_baseline, baseline,
  same_slot, write_front, write_header, write_baseline, write_back, rows_of, HeaderFields,
}
use morton.Proto.Snapshot.Encode.Candidates.{
  gather, gather_keys, wire_state, sort_ascending, insert_ascending,
}
use morton.Proto.Snapshot.Encode.Frames.{IsHistory, IsFrame, empty_frame-IsFrame}
use morton.Proto.Snapshot.Merge.Baseline.{IsStates}
use morton.Proto.Quantizer.{levels}
use mathlib.Core.Path.{subst}
use morton.Base.Map.{lookup}
use morton.Proto.Snapshot.Encode.Agreement.{IsCall, Agrees, encode-IsHistory, encode-Agrees}
use morton.Proto.Snapshot.Encode.Budget.{encode-sends}
use morton.Tests.Numbers.{whole}
use morton.Tests.Simulation.{params, entities}

abbrev interest : InterestConfig whole
interest = record {
  aoi_radius = 10;
  max_snapshot_bytes = 1000;
  baseline_history = 2;
  distance_priority_falloff = 1;
}

abbrev fresh : ReplicationState whole
fresh = record {
  config = interest;
  quantizers = record {
    position = record { min = 0; max = 100; bits = 16 };
    velocity = record { min = 0; max = 0; bits = 12 };
  };
  params = params;
  history = empty_frame ∷ empty_frame ∷ [];
  last_acked_tick = 0;
  has_acked = false;
  priority = [];
  stats = no_stats;
}

abbrev in_place : ℕ → List (ℕ × ℕ) → List (ℕ × ℕ)
in_place n xs = xs

in_place-Perm : (n : ℕ) (xs : List (ℕ × ℕ)) → Permᴰ xs (in_place n xs)
in_place-Perm n xs = Permᴰ.refl xs

abbrev kinds : ℕ → ℕ
kinds id = if id == 2 then 1 else 0

abbrev nearby : List ℕ
nearby = 1 ∷ 0 ∷ []

abbrev first : Prepared whole
first = prepare in_place fresh entities nearby 4 1 0 3 1200

abbrev in_sight : List EntityWireState
in_sight =
    (record { id = 1; px = 4; py = 4; vx = 5; vy = 5; kind = 0 })
    ∷ (record { id = 2; px = 4; py = 4; vx = 5; vy = 5; kind = 1 })
    ∷ []

first-current : first.current ≡ in_sight
unfolding prepare gather gather_keys wire_state sort_ascending insert_ascending
    morton.Proto.Quantizer.encode clampf levels distance_sq
first-current = refl

in_sight-IsStates : IsStates kinds 0 in_sight
in_sight-IsStates = (
  omega arith,
  record {
    id_fits = omega arith;
    px_fits = omega arith;
    py_fits = omega arith;
    vx_fits = omega arith;
    vy_fits = omega arith;
    kind_fits = omega arith;
  },
  refl,
  (
    omega arith,
    record {
      id_fits = omega arith;
      px_fits = omega arith;
      py_fits = omega arith;
      vx_fits = omega arith;
      vy_fits = omega arith;
      kind_fits = omega arith;
    },
    refl,
    tt,
  ),
)

first-IsCall : IsCall in_place kinds fresh entities nearby 4 1 0 3 1200
unfolding find lookup
first-IsCall = record {
  permutes = in_place-Perm;
  found = refl;
  frames = (empty_frame-IsFrame kinds, (empty_frame-IsFrame kinds, tt));
  ordered = subst (λ xs. IsStates kinds 0 xs) (sym first-current) in_sight-IsStates;
  counted = rw first-current (omega arith);
  tick_fits = omega arith;
  viewer_fits = omega arith;
  input_fits = omega arith;
  capacity_fits = omega arith;
}

encode-IsHistory_example :
    IsHistory kinds (encode in_place fresh entities nearby 4 1 3 1200).1.history
encode-IsHistory_example =
    encode-IsHistory in_place kinds fresh entities nearby 4 1 0 3 1200 first-IsCall

-- The frame that the client has acknowledged: the first entity has moved since, and the last one
-- has gone.
abbrev acked : SnapshotFrame
acked = record {
  tick = 4;
  valid = true;
  states =
      (record { id = 1; px = 3; py = 4; vx = 5; vy = 5; kind = 0 })
      ∷ (record { id = 9; px = 4; py = 4; vx = 5; vy = 5; kind = 0 })
      ∷ [];
}

acked-IsFrame : IsFrame kinds acked
acked-IsFrame = record {
  tick_fits = omega arith;
  ordered = (
    omega arith,
    fits 1 3 (omega arith) (omega arith),
    refl,
    (omega arith, fits 9 4 (omega arith) (omega arith), refl, tt),
  );
  counted = omega arith;
}
  where
    fits :
        (id px : ℕ)
        → id < 2 ^ 32
        → px < 2 ^ 16
        → IsWireState (record { id = id; px = px; py = 4; vx = 5; vy = 5; kind = 0 })
    fits id px small near = record {
      id_fits = small;
      px_fits = near;
      py_fits = omega arith;
      vx_fits = omega arith;
      vy_fits = omega arith;
      kind_fits = omega arith;
    }

abbrev acknowledged : ReplicationState whole
acknowledged = record fresh {
  history = acked ∷ empty_frame ∷ [];
  last_acked_tick = 4;
  has_acked = true;
}

abbrev second : Prepared whole
second = prepare in_place acknowledged entities nearby 5 1 0 3 1200

second-current : second.current ≡ in_sight
unfolding prepare gather gather_keys wire_state sort_ascending insert_ascending
    morton.Proto.Quantizer.encode clampf levels distance_sq
second-current = refl

second-IsCall : IsCall in_place kinds acknowledged entities nearby 5 1 0 3 1200
unfolding find lookup
second-IsCall = record {
  permutes = in_place-Perm;
  found = refl;
  frames = (acked-IsFrame, (empty_frame-IsFrame kinds, tt));
  ordered = subst (λ xs. IsStates kinds 0 xs) (sym second-current) in_sight-IsStates;
  counted = rw second-current (omega arith);
  tick_fits = omega arith;
  viewer_fits = omega arith;
  input_fits = omega arith;
  capacity_fits = omega arith;
}

second-clear : second.front.overflow ≡ false
unfolding prepare write_front write_header write_baseline write_removed write_entity_id rows_of
    merge ids_of usable_baseline baseline same_slot slot get new_writer write_u32 write_bool
    write_bits push_bits mask_value flush_bytes write_varint write_varint_loop gather sort_ascending
    gather_keys distance_sq insert_ascending wire_state
second-clear = refl

second-room : 16 ≤ bits_remaining second.front
unfolding prepare write_front write_header write_baseline write_removed write_entity_id rows_of
    merge ids_of usable_baseline baseline same_slot slot get new_writer write_u32 write_bool
    write_bits push_bits mask_value flush_bytes write_varint write_varint_loop gather sort_ascending
    gather_keys distance_sq insert_ascending wire_state bits_remaining
second-room = omega arith

second_sent :
    (encode in_place acknowledged entities nearby 5 1 3 1200).0 ≡ some (finished second.packet)
second_sent =
    encode-sends in_place kinds acknowledged entities nearby 5 1 0 3 1200 second-IsCall second-clear
      second-room

encode-sends_example :
    (encode in_place acknowledged entities nearby 5 1 3 1200).0 ≡ some (finished second.packet)
encode-sends_example =
    encode-sends in_place kinds acknowledged entities nearby 5 1 0 3 1200 second-IsCall second-clear
      second-room

encode-Agrees_example :
    Agrees
      (encode in_place acknowledged entities nearby 5 1 3 1200).1.history
      5
      1
      3
      (usable_baseline acknowledged 5)
      (finished second.packet)
encode-Agrees_example =
    encode-Agrees in_place kinds acknowledged entities nearby 5 1 0 3 1200 (finished second.packet)
      second-IsCall (omega arith) second_sent

-- Both rows of the merge, sent against the frame above.
abbrev delta_header : HeaderFields
delta_header = record { tick = 5; baseline = some 4; last_input_sequence = 3; viewer = 1 }

abbrev delta : BitWriter
delta =
    write_back (write_front (new_writer 1000) delta_header (rows_of (some acked) in_sight).1)
      (rows_of (some acked) in_sight).0 (0 ∷ 1 ∷ [])

both-IsSelection : IsSelection (rows_of (some acked) in_sight).0 (0 ∷ 1 ∷ [])
unfolding rows_of merge ids_of
both-IsSelection = record {
  bounded = (omega arith, (omega arith, tt));
  distinct = (((λ e. omega (arith, e)), tt), (tt, tt));
  counted = omega arith;
}

delta-clear : delta.overflow ≡ false
unfolding write_back write_updates write_update write_new write_changes write_position
    write_velocity is_small write_ranged clamp_ranged bits_required count_bits write_u16 write_front
    write_header write_baseline write_removed write_entity_id rows_of merge ids_of new_writer
    write_u32 write_bool write_bits push_bits mask_value flush_bytes write_varint write_varint_loop
delta-clear = refl

decode_snapshot-write_back_example :
    decode_snapshot (finished delta) (some acked)
    ≡ some (record {
      tick = 5;
      baseline_tick = 4;
      full = false;
      last_input_sequence = 3;
      viewer = 1;
      states = in_sight;
      removed = 9 ∷ [];
    })
unfolding rows_of merge ids_of keep mark
decode_snapshot-write_back_example =
    decode_snapshot-write_back kinds 1000 delta_header (some acked) in_sight (0 ∷ 1 ∷ [])
      (omega arith)
      (record {
        tick_fits = omega arith;
        baseline_fits = omega arith;
        input_fits = omega arith;
        viewer_fits = omega arith;
      })
      refl refl acked-IsFrame.ordered in_sight-IsStates (omega arith) both-IsSelection delta-clear
