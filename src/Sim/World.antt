-- ===== src/Sim/World.antt =====
-- `World` of src/sim/world.h and world.cpp. A map's players are visited in the order of the
-- association list, and the times that `step` measures are left out.
pub mod Tick
pub mod Inputs
pub mod Keeps
pub mod Store
pub mod Step
use morton.Base.{
  ℕ, zero, suc, ◌+◌, ◌*◌, ◌/◌, ◌≤◌, Bool, true, false, not, ◌&&◌, ◌||◌, List, [], ◌∷◌, ◌++◌, map,
  Option, none, some, ltb, leb, ◌==◌, if◌then◌else◌, length, get_or, set, drop, bit_and, bit_xor,
  u8, u32, sub32, ◌<<<◌,
}
use morton.Base.Map.{lookup, assign, erase}
use morton.Core.Float.{F32}
use morton.Core.Vector.{Vec2, plus, minus, times, length_sq, clampf}
use morton.Spatial.Grid.{SpatialGrid, build, for_each_pair, peak_cell_occupancy}
use morton.Spatial.Grid as Grid
use morton.Sim.Movement.{WorldParams, MoveInput, MoveState, tick_dt, quantize_input, step_movement}
use morton.Sim.Entities.{add as add_entity}
use morton.Sim.Entities.{
  Entity, EntityStore, no_entity, hash_u32, player_kind, drifter_kind, find, remove,
}

abbrev pub input_repeat_ticks : ℕ
input_repeat_ticks = 6

abbrev pub max_queued_inputs : ℕ
max_queued_inputs = 32

abbrev pub drifter_heading_ticks : ℕ
drifter_heading_ticks = 45

pub record WorldStats : Type 0 where
  pub entity_count : ℕ
  pub player_count : ℕ
  pub inputs_applied : ℕ
  pub inputs_starved : ℕ
  pub collision_pairs : ℕ
  pub peak_occupancy : ℕ

module _ (F : F32) where
  abbrev pub no_input : MoveInput F
  no_input = record {
    sequence = 0;
    tick = 0;
    move_x = F.decimal 0 0;
    move_y = F.decimal 0 0;
    sprint = false;
  }

pub record PlayerSlot (F : F32) : Type 0 where
  pub entity : ℕ
  pub client : ℕ
  pub pending : List (MoveInput F)
  pub last_applied : MoveInput F
  pub last_applied_sequence : ℕ
  pub highest_received_sequence : ℕ
  pub dropped_stale_inputs : ℕ
  pub has_applied : Bool

pub record World (F : F32) : Type 0 where
  pub params : WorldParams F
  pub entities : EntityStore F
  pub grid : SpatialGrid F
  pub players : List (ℕ × PlayerSlot F)
  pub stats : WorldStats
  pub tick : ℕ
  pub next_entity : ℕ

module _ {F : F32} where
  open F use {add, sub, mul, div, cos, sin, sqrt, lt, le, of_u64, decimal}

  abbrev pub new_slot : ℕ → ℕ → ℕ → PlayerSlot F
  new_slot entity client sequence = record {
    entity = entity;
    client = client;
    pending = [];
    last_applied = no_input F;
    last_applied_sequence = sequence;
    highest_received_sequence = sequence;
    dropped_stale_inputs = 0;
    has_applied = false;
  }

  unfoldable pub configure : World F → WorldParams F → ℕ → Option (World F)
  configure w params cells_per_axis = elim (Grid.configure {F = F} params.size cells_per_axis) [
    | none ↦ none
    | some grid ↦
        if le (mul params.player_radius (decimal 2 0)) grid.cell_size
        then some (record w { params = params; grid = grid })
        else none
  ]

  unfoldable pub spawn_player : World F → ℕ → Vec2 F → ℕ × World F
  spawn_player w client position =
      let entity = w.next_entity in
      (
        entity,
        record w {
          next_entity = u32 (entity + 1);
          entities = add_entity w.entities entity player_kind position client;
          players = assign client (new_slot entity client 0) w.players;
        },
      )

  unfoldable pub spawn_drifter : World F → Vec2 F → ℕ × World F
  spawn_drifter w position =
      let entity = w.next_entity in
      (
        entity,
        record w {
          next_entity = u32 (entity + 1);
          entities = add_entity w.entities entity drifter_kind position 0;
        },
      )

  unfoldable pub despawn : World F → ℕ → World F
  despawn w entity = elim (find w.entities entity) [
    | none ↦ w
    | some index ↦
        let client = (get_or w.entities.rows index (no_entity F)).owner in
        record w {
          entities = (remove w.entities entity).1;
          players = if client == 0 then w.players else erase client w.players;
        }
  ]

  -- What `adopt_entity` writes into an entity that is there.
  unfoldable pub install : EntityStore F → ℕ → ℕ → Vec2 F → Vec2 F → ℕ → EntityStore F
  install s index client position velocity sequence = record s {
    rows = set s.rows index (record (get_or s.rows index (no_entity F)) {
      position = position;
      velocity = velocity;
      owner = client;
      last_input_sequence = sequence;
    });
  }

  unfoldable pub adopt_entity : World F → ℕ → ℕ → Vec2 F → Vec2 F → ℕ → World F
  adopt_entity w entity client position velocity sequence =
      let players = assign client (new_slot entity client sequence) w.players in
      elim (find w.entities entity) [
        | none ↦ record w {
          entities =
              install (add_entity w.entities entity player_kind position client)
                (length w.entities.rows) client position velocity sequence;
          players = players;
          next_entity = if leb w.next_entity entity then u32 (entity + 1) else w.next_entity;
        }
        | some index ↦ record w {
          entities = install w.entities index client position velocity sequence;
          players = players;
        }
      ]

  -- `queue_input` with the player's slot at hand.
  unfoldable pub queue : PlayerSlot F → MoveInput F → PlayerSlot F
  queue slot input =
      let kept =
        if leb max_queued_inputs (length slot.pending) then drop 1 slot.pending else slot.pending in
      if leb input.sequence slot.highest_received_sequence
        && not (slot.highest_received_sequence == 0)
      then record slot { dropped_stale_inputs = u32 (slot.dropped_stale_inputs + 1) }
      else record slot {
        highest_received_sequence = input.sequence;
        pending = kept ++ (quantize_input input ∷ []);
      }

  unfoldable pub queue_input : World F → ℕ → MoveInput F → World F
  queue_input w client input = elim (lookup client w.players) [
    | none ↦ w
    | some slot ↦ record w { players = assign client (queue slot input) w.players }
  ]

  unfoldable pub player_of : World F → ℕ → Option (PlayerSlot F)
  player_of w client = lookup client w.players

  unfoldable pub set_tick : World F → ℕ → World F
  set_tick w tick = record w { tick = tick }
