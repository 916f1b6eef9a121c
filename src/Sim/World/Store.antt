-- ===== src/Sim/World/Store.antt =====
-- The entities and the identifiers of `World` of src/sim/world.cpp.
use mathlib.Core.Option.{none-ne-some}
use morton.Base.{
  ℕ, suc, ◌+◌, ◌^◌, ◌≤◌, ◌<◌, ◌≡◌, refl, sym, ap, ◌∙◌, Bool, true, false, List, none, some, inl,
  inr, ◌⊎◌, ==_iff, ◌==◌, leb, if◌then◌else◌, length, u32, Bool-cases, Option-cases, arith,
}
use morton.Base.Map.{lookup, lookup-assign}
use morton.Core.Float.{F32}
use morton.Core.Vector.{Vec2}
use morton.Sim.Movement.{MoveInput}
use morton.Sim.Entities.{EntityStore, find, remove}
use morton.Sim.Entities.{add as add_entity}
use morton.Sim.Entities.Index.{IsIndexed, add-IsIndexed}
use morton.Sim.Entities.Removal.{remove-IsIndexed}
use morton.Sim.Entities.Contents.{entity_of, entity_of-none, entity_of-some, remove-entity_of}
use morton.Sim.World.{
  World, spawn_player, spawn_drifter, despawn, adopt_entity, install, queue_input,
}
use morton.Sim.World.Keeps.{Keeps, Keeps-IsIndexed, set-Keeps}

module _ {F : F32} where
  -- The index is right, every id is below the next, and the collision diameter fits a cell.
  pub record IsWorld (w : World F) : Type 0 where
    pub indexed : IsIndexed w.entities
    pub below : (id i : ℕ) → find w.entities id ≡ some i → id < w.next_entity
    pub small : w.next_entity < 2 ^ 32
    pub diameter : F.le (F.mul w.params.player_radius (F.decimal 2 0)) w.grid.cell_size ≡ true

  fresh_id : (w : World F) → IsWorld w → find w.entities w.next_entity ≡ none
  fresh_id w v = elim (Option-cases (find w.entities w.next_entity)) [
    | inl absent ↦ absent
    | inr (i, found) ↦ absurd (omega (arith, v.below w.next_entity i found))
  ]

  add_found :
      (s : EntityStore F) (entity kind : ℕ) (start : Vec2 F) (client id i : ℕ)
      → find (add_entity s entity kind start client) id ≡ some i
      → (entity ≡ id) ⊎ (find s id ≡ some i)
  unfolding find add_entity
  add_found s entity kind start client id i e =
      let e' = sym (lookup-assign entity id (length s.rows) s.index_of) ∙ e in
      elim (Bool-cases (entity == id)) [
        | inl here ↦ inl ((==_iff entity id).0 here)
        | inr there ↦ inr (rw there at e')
      ]

  remove_found :
      (s : EntityStore F) (entity id i : ℕ)
      → IsIndexed s
      → find (remove s entity).1 id ≡ some i
      → (j : ℕ) × (find s id ≡ some j)
  remove_found s entity id i v e =
      let there =
        sym (entity_of-some (remove s entity).1 id i e) ∙ remove-entity_of s entity id v in
      elim (Option-cases (find s id)) [
        | inl absent ↦
            absurd
              (none-ne-some _ (sym (there ∙ nothing (entity == id) (entity_of-none s id absent))))
        | inr found ↦ found
      ]
    where
      nothing : (b : Bool) → entity_of s id ≡ none → (if b then none else entity_of s id) ≡ none
      nothing true h = refl
      nothing false h = h

  -- While ids are left, a new player gets an id that no entity has, and the world stays well
  -- formed.
  pub spawn_player-IsWorld :
      (w : World F) (client : ℕ) (position : Vec2 F)
      → IsWorld w
      → suc w.next_entity < 2 ^ 32
      → (find w.entities (spawn_player w client position).0 ≡ none)
        × IsWorld (spawn_player w client position).1
  unfolding spawn_player
  spawn_player-IsWorld w client position v room =
      let fresh = fresh_id w v in
      (
        fresh,
        record {
          indexed = add-IsIndexed w.entities w.next_entity 0 position client v.indexed fresh;
          below = λ id i e. elim (add_found w.entities w.next_entity 0 position client id i e) [
            | inl new ↦ omega (arith, new, room)
            | inr old ↦ omega (arith, v.below id i old, room)
          ];
          small = omega (arith, room);
          diameter = v.diameter;
        },
      )

  pub spawn_drifter-IsWorld :
      (w : World F) (position : Vec2 F)
      → IsWorld w
      → suc w.next_entity < 2 ^ 32
      → (find w.entities (spawn_drifter w position).0 ≡ none) × IsWorld (spawn_drifter w position).1
  unfolding spawn_drifter
  spawn_drifter-IsWorld w position v room =
      let fresh = fresh_id w v in
      (
        fresh,
        record {
          indexed = add-IsIndexed w.entities w.next_entity 1 position 0 v.indexed fresh;
          below = λ id i e. elim (add_found w.entities w.next_entity 1 position 0 id i e) [
            | inl new ↦ omega (arith, new, room)
            | inr old ↦ omega (arith, v.below id i old, room)
          ];
          small = omega (arith, room);
          diameter = v.diameter;
        },
      )

  pub despawn-IsWorld : (w : World F) (entity : ℕ) → IsWorld w → IsWorld (despawn w entity)
  unfolding despawn
  despawn-IsWorld w entity v = elim (Option-cases (find w.entities entity)) [
    | inl absent ↦ rw (despawn, absent) v
    | inr (index, found) ↦
        rw (despawn, found)
          (record {
            indexed = remove-IsIndexed w.entities entity v.indexed;
            below = λ id i e.
                let old = remove_found w.entities entity id i v.indexed e in v.below id old.0 old.1;
            small = v.small;
            diameter = v.diameter;
          })
  ]

  queue_input-IsWorld :
      (w : World F) (client : ℕ) (input : MoveInput F)
      → IsWorld w
      → IsWorld (queue_input w client input)
  unfolding queue_input
  queue_input-IsWorld w client input v = elim (Option-cases (lookup client w.players)) [
    | inl absent ↦ rw (queue_input, absent) v
    | inr (slot, found) ↦
        rw (queue_input, found)
          (record { indexed = v.indexed; below = v.below; small = v.small; diameter = v.diameter })
  ]

  install-Keeps :
      (s : EntityStore F) (index client : ℕ) (position velocity : Vec2 F) (sequence : ℕ)
      → Keeps s (install s index client position velocity sequence)
  unfolding install
  install-Keeps s index client position velocity sequence = set-Keeps s index _ refl

  -- An entity that arrives from another shard, new here or not, leaves the world well formed.
  pub adopt_entity-IsWorld :
      (w : World F) (entity client : ℕ) (position velocity : Vec2 F) (sequence : ℕ)
      → IsWorld w
      → suc entity < 2 ^ 32
      → IsWorld (adopt_entity w entity client position velocity sequence)
  unfolding adopt_entity find
  adopt_entity-IsWorld w entity client position velocity sequence v room =
      elim (Option-cases (find w.entities entity)) [
        | inl absent ↦
            let added : EntityStore F = add_entity w.entities entity 0 position client in
            let kept =
              install-Keeps added (length w.entities.rows) client position velocity sequence in
            let next : ℕ = (if leb w.next_entity entity then u32 (entity + 1) else w.next_entity) in
            let above : (entity < next) × (w.next_entity ≤ next) × (next < 2 ^ 32) =
              ground (arith, room, v.small) in
            rw (adopt_entity, absent)
              (record {
                indexed =
                    Keeps-IsIndexed added _ kept
                      (add-IsIndexed w.entities entity 0 position client v.indexed absent);
                below = λ id i e.
                    elim (add_found w.entities entity 0 position client id i
                      (ap (λ (m : List (ℕ × ℕ)). lookup id m) (sym kept.index) ∙ e)) [
                        | inl new ↦ omega (arith, new, above.0)
                        | inr old ↦ omega (arith, v.below id i old, above.1)
                      ];
                small = above.2;
                diameter = v.diameter;
              })
        | inr (index, found) ↦
            rw (adopt_entity, found)
              (record {
                indexed =
                    Keeps-IsIndexed w.entities _
                      (install-Keeps w.entities index client position velocity sequence) v.indexed;
                below = λ id i e. v.below id i (
                    ap (λ (m : List (ℕ × ℕ)). lookup id m)
                      (sym (install-Keeps w.entities index client position velocity sequence).index)
                    ∙ e);
                small = v.small;
                diameter = v.diameter;
              })
      ]
