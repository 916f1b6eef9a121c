-- ===== src/Sim/World/Tick.antt =====
-- One tick of `World` of src/sim/world.cpp. The players are visited in the order of the association
-- list, and the times that `step` measures are left out.
use morton.Base.{
  ℕ, ◌+◌, ◌/◌, Bool, true, false, ◌&&◌, List, [], ◌∷◌, map, Option, none, some, leb, ◌==◌,
  if◌then◌else◌, length, get_or, set, bit_and, bit_xor, u32, sub32, ◌<<<◌,
}
use morton.Core.Float.{F32}
use morton.Core.Vector.{Vec2, plus, minus, times, length_sq, clampf}
use morton.Spatial.Grid.{build, for_each_pair, peak_cell_occupancy}
use morton.Sim.Movement.{WorldParams, MoveInput, MoveState, tick_dt, quantize_input, step_movement}
use morton.Sim.Entities.{Entity, EntityStore, no_entity, hash_u32, drifter_kind, find}
use morton.Sim.World.{
  World, WorldStats, PlayerSlot, no_input, input_repeat_ticks, drifter_heading_ticks,
}

-- The heading that a hash stands for.
unfoldable pub angle_of : (F : F32) → ℕ → F.Carrier
angle_of F noise =
    F.mul (F.div (F.of_u64 (bit_and noise 0xffff)) (F.decimal 65535 0)) (F.decimal 62831853 7)

module _ {F : F32} where
  open F use {add, sub, mul, div, cos, sin, sqrt, lt, le, of_u64, decimal}

  -- The input of a player for this tick, the slot after it, and whether it is one that was queued.
  unfoldable pub next_input : ℕ → PlayerSlot F → MoveInput F × PlayerSlot F × Bool
  next_input tick slot = elim slot.pending [
    | input ∷ rest ↦ (
      input,
      record slot {
        pending = rest;
        last_applied = input;
        last_applied_sequence = input.sequence;
        has_applied = true;
      },
      true,
    )
    | [] ↦ (
      if slot.has_applied && leb (sub32 tick slot.last_applied.tick) input_repeat_ticks
          then slot.last_applied
          else record (no_input F) { sequence = slot.last_applied_sequence },
      slot,
      false,
    )
  ]

  unfoldable pub move_entity : WorldParams F → EntityStore F → ℕ → MoveInput F → EntityStore F
  move_entity params s index input =
      let entity = get_or s.rows index (no_entity F) in
      let state : MoveState F = record { position = entity.position; velocity = entity.velocity } in
      let moved = step_movement state input params (tick_dt params) in
      record s {
        rows =
            set s.rows index
              (record entity { position = moved.position; velocity = moved.velocity });
      }

  unfoldable pub acknowledge_input : EntityStore F → ℕ → ℕ → EntityStore F
  acknowledge_input s index sequence = record s {
    rows =
        set s.rows index
          (record (get_or s.rows index (no_entity F)) { last_input_sequence = sequence });
  }

  -- One player of `apply_inputs`: the slot, the entities, and the counts.
  unfoldable pub apply_input :
      WorldParams F
      → ℕ
      → PlayerSlot F
      → EntityStore F
      → WorldStats
      → PlayerSlot F × EntityStore F × WorldStats
  apply_input params tick slot s stats = elim (find s slot.entity) [
    | none ↦ (slot, s, stats)
    | some index ↦
        let (input, slot', queued) = next_input tick slot in
        (
          slot',
          acknowledge_input (move_entity params s index input) index slot'.last_applied_sequence,
          if queued
              then record stats { inputs_applied = u32 (stats.inputs_applied + 1) }
              else record stats { inputs_starved = u32 (stats.inputs_starved + 1) },
        )
  ]

  unfoldable pub apply_each :
      WorldParams F
      → ℕ
      → List (ℕ × PlayerSlot F)
      → EntityStore F
      → WorldStats
      → List (ℕ × PlayerSlot F) × EntityStore F × WorldStats
  apply_each params tick [] s stats = ([], s, stats)
  apply_each params tick ((client, slot) ∷ players) s stats =
      let (slot', s', stats') = apply_input params tick slot s stats in
      let (players', s'', stats'') = apply_each params tick players s' stats' in
      ((client, slot') ∷ players', s'', stats'')

  unfoldable pub apply_inputs : World F → World F
  apply_inputs w =
      let (players, entities, stats) = apply_each w.params w.tick w.players w.entities w.stats in
      record w { players = players; entities = entities; stats = stats }

  unfoldable pub drive : WorldParams F → ℕ → Entity F → Entity F
  drive params tick entity =
      let epoch = tick / drifter_heading_ticks in
      let angle = angle_of F (hash_u32 (bit_xor entity.ai_seed (hash_u32 epoch))) in
      let input = quantize_input (record (no_input F) { move_x = cos angle; move_y = sin angle }) in
      let state : MoveState F = record { position = entity.position; velocity = entity.velocity } in
      let moved = step_movement state input params (tick_dt params) in
      if entity.kind == drifter_kind
      then record entity { position = moved.position; velocity = moved.velocity }
      else entity

  unfoldable pub drive_drifters : World F → World F
  drive_drifters w = record w {
    entities = record (w.entities) { rows = map (drive w.params w.tick) w.entities.rows };
  }

  unfoldable pub integrate : World F → World F
  integrate w = drive_drifters (apply_inputs w)

  unfoldable pub shift : EntityStore F → ℕ → Vec2 F → EntityStore F
  shift s index position = record s {
    rows = set s.rows index (record (get_or s.rows index (no_entity F)) { position = position });
  }

  -- The callback of `resolve_collisions`: the two entities are moved apart.
  unfoldable pub separate : F.Carrier → EntityStore F × ℕ → ℕ → ℕ → EntityStore F × ℕ
  separate diameter (s, pairs) a b =
      let ea = get_or s.rows a (no_entity F) in
      let eb = get_or s.rows b (no_entity F) in
      let delta = minus eb.position ea.position in
      let far = sqrt (length_sq delta) in
      let together = lt far (decimal 1 4) in
      let angle = angle_of F (hash_u32 (bit_xor ea.id (u32 (eb.id <<< 16)))) in
      let apart : Vec2 F = record { x = cos angle; y = sin angle } in
      let axis = (if together then apart else times delta (div (decimal 1 0) far)) in
      let distance = (if together then decimal 0 0 else far) in
      let overlap = sub diameter distance in
      let correction = times axis (mul overlap (decimal 5 1)) in
      let s1 = shift s a (minus ea.position correction) in
      if le overlap (decimal 0 0)
      then (s, pairs)
      else (shift s1 b (plus (get_or s1.rows b (no_entity F)).position correction), u32 (pairs + 1))

  unfoldable pub confine : F.Carrier → F.Carrier → Entity F → Entity F
  confine low high entity = record entity {
    position = record {
      x = clampf F entity.position.x low high;
      y = clampf F entity.position.y low high;
    };
  }

  abbrev pub position_in : EntityStore F × ℕ → ℕ → Vec2 F
  position_in s i = (get_or s.0.rows i (no_entity F)).position

  -- The world after the pairs: everything is held inside the walls.
  abbrev pub resolved : World F → EntityStore F × ℕ → World F
  resolved w (entities, pairs) =
      let low = w.params.player_radius in
      let high = sub w.params.size w.params.player_radius in
      record w {
        entities = record entities { rows = map (confine low high) entities.rows };
        stats = record (w.stats) { collision_pairs = pairs };
      }

  unfoldable pub resolve_collisions : World F → Option (World F)
  resolve_collisions w =
      let diameter = mul w.params.player_radius (decimal 2 0) in
      elim (for_each_pair w.grid position_in diameter (separate diameter) (w.entities, 0)) [
        | none ↦ none
        | some result ↦ some (resolved w result)
      ]

  unfoldable pub finish_step : World F → World F
  finish_step w = record w {
    stats = record (w.stats) {
      entity_count = length w.entities.rows;
      player_count = length w.players;
      peak_occupancy = peak_cell_occupancy w.grid;
    };
    tick = u32 (w.tick + 1);
  }

  abbrev pub clear_counts : World F → World F
  clear_counts w = record w { stats = record (w.stats) { inputs_applied = 0; inputs_starved = 0 } }

  abbrev pub rebuild_grid : World F → World F
  rebuild_grid w = record w { grid = build w.grid (map (λ e. e.position) w.entities.rows) }

  unfoldable pub step : World F → Option (World F)
  step w = elim (resolve_collisions (rebuild_grid (integrate (clear_counts w)))) [
    | none ↦ none
    | some w' ↦ some (finish_step w')
  ]
