-- ===== src/Tests/Simulation.antt =====
-- The simulation on concrete inputs.
use mathlib.Core.Option.{none-ne-some}
use morton.Base.{
  inl, not, ◌||◌, ◌==◌, ltb, leb, if◌then◌else◌, ◌+◌, ◌*◌, ℕ, ◌<◌, ◌≡◌, refl, [], ◌∷◌, none, arith,
  List, false, some, get_or,
}
use morton.Base.Map.{lookup}
use morton.Core.Vector.{Vec2}
use morton.Spatial.Grid.{SpatialGrid}
use morton.Sim.Movement.{WorldParams, MoveInput}
use morton.Sim.Region.{RegionMap, region_of, region_count, handoff_target, invalid_region}
use morton.Sim.Region.Handoff.{region_of-lt-region_count, handoff_target_hysteresis, within_margin}
use morton.Sim.Entities.{EntityStore, empty_store, find, remove}
use morton.Sim.Entities.Index.{IsIndexed, empty_store-IsIndexed}
use morton.Sim.Entities.Removal.{remove-IsIndexed}
use morton.Sim.Entities.Contents.{entity_of, remove-entity_of}
use morton.Sim.World.{
  World, WorldStats, PlayerSlot, no_input, new_slot, queue, spawn_player, spawn_drifter,
}
use morton.Sim.World.Tick.{next_input, step}
use morton.Sim.World.Inputs.{IsSlot, Advances, queue-IsSlot, next_input-Advances}
use morton.Sim.World.Step.{Stepped, step-Stepped}
use morton.Sim.World.Store.{IsWorld, spawn_player-IsWorld, spawn_drifter-IsWorld}
use morton.Proto.Messages.Inputs.{InputPacket, decode_input_packet, read_inputs, read_input}
use morton.Proto.Messages.Inputs.Starved.{next_input-starved}
use morton.Proto.Quantizer.{levels}
use morton.Proto.Bitstream.Ranged.{read_ranged, bits_required, count_bits}
use morton.Proto.Bitstream.Reader.{new_reader, read_u8, read_u32, read_bits, read_loop, read_bool}
use morton.Tests.Numbers.{whole}

abbrev pub params : WorldParams whole
params = record {
  size = 100;
  acceleration = 1;
  max_speed = 0;
  friction = 0;
  player_radius = 1;
  tick_rate = 1;
}

abbrev grid : SpatialGrid whole
grid = record {
  world_size = 100;
  cell_size = 100;
  inv_cell_size = 1;
  cells_per_axis = 1;
  cell_start = 0 ∷ 0 ∷ [];
  sorted = [];
}

abbrev stats : WorldStats
stats = record {
  entity_count = 0;
  player_count = 0;
  inputs_applied = 0;
  inputs_starved = 0;
  collision_pairs = 0;
  peak_occupancy = 0;
}

abbrev empty_world : World whole
empty_world = record {
  params = params;
  entities = empty_store whole;
  grid = grid;
  players = [];
  stats = stats;
  tick = 4;
  next_entity = 1;
}

empty_world-IsWorld : IsWorld empty_world
unfolding find lookup
empty_world-IsWorld = record {
  indexed = empty_store-IsIndexed;
  below = λ id i e. absurd (none-ne-some i e);
  small = omega arith;
  diameter = refl;
}

abbrev corner : Vec2 whole
corner = record { x = 1; y = 1 }

-- A player with the id 1, and a drifter with the id 2.
abbrev pub world : World whole
unfolding spawn_player spawn_drifter
world = (spawn_drifter (spawn_player empty_world 7 corner).1 corner).1

world-IsWorld : IsWorld world
unfolding spawn_player spawn_drifter
world-IsWorld =
    (spawn_drifter-IsWorld (spawn_player empty_world 7 corner).1 corner
      (spawn_player-IsWorld empty_world 7 corner empty_world-IsWorld (omega arith)).1
      (omega arith)).1

step-Stepped_example : Stepped world (step world)
step-Stepped_example = step-Stepped world world-IsWorld

spawn_player-IsWorld_example :
    (find world.entities (spawn_player world 9 corner).0 ≡ none)
    × IsWorld (spawn_player world 9 corner).1
unfolding world
spawn_player-IsWorld_example = spawn_player-IsWorld world 9 corner world-IsWorld (omega arith)

remove-IsIndexed_example : IsIndexed (remove world.entities 1).1
remove-IsIndexed_example = remove-IsIndexed world.entities 1 world-IsWorld.indexed

remove-entity_of_example : entity_of (remove world.entities 1).1 2 ≡ entity_of world.entities 2
remove-entity_of_example = remove-entity_of world.entities 1 2 world-IsWorld.indexed

abbrev third : MoveInput whole
third = record (no_input whole) { sequence = 3; move_x = 1 }

abbrev waiting : PlayerSlot whole
waiting = record (new_slot 1 7 2) { highest_received_sequence = 3; pending = third ∷ [] }

waiting-IsSlot : IsSlot waiting
waiting-IsSlot = record { bounded = omega arith; ordered = (inl (omega arith), omega arith) }

queue-IsSlot_example : IsSlot (queue waiting (record third { sequence = 5 }))
queue-IsSlot_example = queue-IsSlot waiting (record third { sequence = 5 }) waiting-IsSlot

next_input-Advances_example :
    Advances waiting (next_input 4 waiting).0 (next_input 4 waiting).1 (next_input 4 waiting).2
next_input-Advances_example = next_input-Advances 4 waiting waiting-IsSlot

abbrev regions : RegionMap whole
regions = record { world_size = 100; regions_per_axis = 4; margin = 2 }

region_of-lt-region_count_example : region_of regions 30 2 < region_count regions
region_of-lt-region_count_example =
    region_of-lt-region_count regions 30 2 (omega arith) (omega arith)

whole_total : (a b : ℕ) → ltb a b ≡ not (leb b a)
whole_total a b = ground arith

handoff_target_hysteresis_example : handoff_target regions (0 * 4 + 1) 30 2 ≡ (
    if region_of regions 30 2 == 0 * 4 + 1 || within_margin regions 1 0 30 2
    then invalid_region
    else region_of regions 30 2)
handoff_target_hysteresis_example =
    handoff_target_hysteresis regions 1 0 30 2 whole_total (omega arith)

-- The same two entities, written out.
abbrev pub entities : EntityStore whole
entities = record {
  rows =
      (record {
        id = 1;
        position = corner;
        velocity = record { x = 0; y = 0 };
        kind = 0;
        owner = 7;
        last_input_sequence = 0;
        ai_seed = 0;
      })
      ∷ (record {
        id = 2;
        position = corner;
        velocity = record { x = 0; y = 0 };
        kind = 1;
        owner = 0;
        last_input_sequence = 0;
        ai_seed = 0;
      })
      ∷ [];
  index_of = (2, 1) ∷ (1, 0) ∷ [];
}

abbrev datagram : List ℕ
datagram = 1 ∷ 7 ∷ 0 ∷ 0 ∷ 0 ∷ 0 ∷ 0 ∷ 0 ∷ 0 ∷ 97 ∷ 0 ∷ 0 ∷ 0 ∷ 0 ∷ 0 ∷ 0 ∷ []

abbrev packet : InputPacket whole
packet = record {
  client_tick = 7;
  acked_snapshot_tick = 0;
  inputs = (record { sequence = 3; tick = 0; move_x = 1; move_y = 1; sprint = false }) ∷ [];
}

datagram-decodes : decode_input_packet datagram ≡ some packet
unfolding decode_input_packet new_reader read_u8 read_u32 read_bits read_loop read_ranged
    bits_required count_bits read_inputs read_input read_bool levels morton.Proto.Quantizer.decode
datagram-decodes = refl

next_input-starved_example :
    (next_input 8
      (next_input 7
        (queue (new_slot {F = whole} 1 7 2) (get_or packet.inputs 0 (no_input whole)))).1).0
    ≡ record (no_input whole) { sequence = 3 }
next_input-starved_example =
    next_input-starved datagram packet 0 7 (new_slot 1 7 2) datagram-decodes (omega arith)
      (omega arith) (omega arith)
