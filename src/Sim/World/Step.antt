-- ===== src/Sim/World/Step.antt =====
-- `step` of src/sim/world.cpp: a tick of a well-formed world.
use morton.Base.{
  ℕ, ◌+◌, ◌≡◌, refl, sym, ap, ◌∙◌, List, map, Option, some, inl, inr, ◌==◌, u32, Bool-cases, arith,
}
use morton.Base.Map.{lookup}
use morton.Core.Float.{F32}
use morton.Core.Vector.{Vec2}
use morton.Spatial.Grid.{SpatialGrid, build, for_each_pair, visit_pairs, neighbour_pairs}
use morton.Sim.Movement.{WorldParams}
use morton.Sim.Entities.{EntityStore, find}
use morton.Sim.World.{World}
use morton.Sim.World.Tick.{
  apply_each, apply_inputs, drive_drifters, integrate, separate, position_in, resolved,
  clear_counts, rebuild_grid, resolve_collisions, finish_step, step,
}
use morton.Sim.World.Keeps.{
  Keeps, Keeps-refl, Keeps-trans, Keeps-IsIndexed, apply_each-Keeps, drive-Keeps, visit_pairs-Keeps,
  confine-Keeps,
}
use morton.Sim.World.Store.{IsWorld}

module _ {F : F32} where
  -- Changes that keep ids and places keep the world well formed.
  Keeps-IsWorld :
      (w w' : World F)
      → IsWorld w
      → Keeps w.entities w'.entities
      → w'.next_entity ≡ w.next_entity
      → w'.params ≡ w.params
      → w'.grid.cell_size ≡ w.grid.cell_size
      → IsWorld w'
  unfolding find
  Keeps-IsWorld w w' v k next params cell = record {
    indexed = Keeps-IsIndexed w.entities w'.entities k v.indexed;
    below = λ id i e.
        omega
          (arith, next, v.below id i (ap (λ (m : List (ℕ × ℕ)). lookup id m) (sym k.index) ∙ e));
    small = omega (arith, next, v.small);
    diameter =
        ap (λ (p : WorldParams F). F.le (F.mul p.player_radius (F.decimal 2 0)) w'.grid.cell_size)
          params
        ∙ ap (λ (c : F.Carrier). F.le (F.mul w.params.player_radius (F.decimal 2 0)) c) cell
        ∙ v.diameter;
  }

  build-cell_size :
      (grid : SpatialGrid F) (positions : List (Vec2 F))
      → (build grid positions).cell_size ≡ grid.cell_size
  unfolding build
  build-cell_size grid positions = elim (Bool-cases (grid.cells_per_axis == 0)) [
    | inl nothing ↦ rw nothing refl
    | inr cells ↦ rw cells refl
  ]

  -- What a tick yields: a world again, well formed, one tick on.
  pub record Stepped (w : World F) (result : Option (World F)) : Type 0 where
    pub next : World F
    pub total : result ≡ some next
    pub keeps : Keeps w.entities next.entities
    pub valid : IsWorld next
    pub tick_on : next.tick ≡ u32 (w.tick + 1)

  integrate-Keeps : (w : World F) → Keeps w.entities (integrate w).entities
  unfolding integrate apply_inputs drive_drifters
  integrate-Keeps w =
      Keeps-trans (apply_each-Keeps w.params w.tick w.players w.entities w.stats)
        (drive-Keeps w.params w.tick (apply_each w.params w.tick w.players w.entities w.stats).1)

  abbrev collision_diameter : World F → F.Carrier
  collision_diameter w = F.mul w.params.player_radius (F.decimal 2 0)

  pairs_visited :
      (w : World F)
      → IsWorld w
      → (result : EntityStore F × ℕ) × (for_each_pair w.grid position_in
            (collision_diameter w)
            (separate (collision_diameter w))
            (w.entities, 0)
          ≡ some result)
        × Keeps w.entities result.0
  unfolding for_each_pair
  pairs_visited w v = elim (Bool-cases (w.grid.cells_per_axis == 0)) [
    | inl nothing ↦ ((w.entities, 0), rw nothing refl, Keeps-refl w.entities)
    | inr cells ↦ (
      visit_pairs position_in (F.mul (collision_diameter w) (collision_diameter w))
          (separate (collision_diameter w)) (neighbour_pairs w.grid) (w.entities, 0),
      rw (cells, v.diameter) refl,
      visit_pairs-Keeps position_in (F.mul (collision_diameter w) (collision_diameter w))
          (collision_diameter w) (neighbour_pairs w.grid) (w.entities, 0),
    )
  ]

  resolve_collisions-Keeps :
      (w : World F)
      → IsWorld w
      → (w' : World F) × (resolve_collisions w ≡ some w')
        × Keeps w.entities w'.entities
        × IsWorld w'
        × (w'.tick ≡ w.tick)
  unfolding resolve_collisions
  resolve_collisions-Keeps w v =
      let (result, done, kept) = pairs_visited w v in
      let confined =
        confine-Keeps w.params.player_radius (F.sub w.params.size w.params.player_radius)
          result.0 in
      let keeps = Keeps-trans kept confined in
      (
        resolved w result,
        rw (resolve_collisions, done) refl,
        keeps,
        Keeps-IsWorld w (resolved w result) v keeps refl refl refl,
        refl,
      )

  moved-IsWorld : (w : World F) → IsWorld w → IsWorld (rebuild_grid (integrate (clear_counts w)))
  unfolding integrate apply_inputs drive_drifters
  moved-IsWorld w v =
      let moved : World F = integrate (clear_counts w) in
      Keeps-IsWorld w (rebuild_grid moved) v (integrate-Keeps (clear_counts w)) refl refl
        (build-cell_size moved.grid (map (λ e. e.position) moved.entities.rows))

  moved_tick : (w : World F) → (rebuild_grid (integrate (clear_counts w))).tick ≡ w.tick
  unfolding integrate apply_inputs drive_drifters
  moved_tick w = refl

  -- A tick of a well-formed world does not abort in the pair check, neither adds, removes nor
  -- renames an entity, yields a well-formed world, and advances the tick by one.
  pub step-Stepped : (w : World F) → IsWorld w → Stepped w (step w)
  unfolding step finish_step
  step-Stepped w v =
      let moved : World F = rebuild_grid (integrate (clear_counts w)) in
      let first : Keeps w.entities moved.entities = integrate-Keeps (clear_counts w) in
      let (w', done, kept, valid, same) = resolve_collisions-Keeps moved (moved-IsWorld w v) in
      record {
        next = finish_step w';
        total = rw (step, done) refl;
        keeps = Keeps-trans first kept;
        valid = Keeps-IsWorld w' (finish_step w') valid (Keeps-refl w'.entities) refl refl refl;
        tick_on = ap (λ (t : ℕ). u32 (t + 1)) (same ∙ moved_tick w);
      }
