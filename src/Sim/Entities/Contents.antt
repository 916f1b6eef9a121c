-- ===== src/Sim/Entities/Contents.antt =====
-- `EntityStore` of src/sim/world.h as a map from ids to entities, which forgets the places.
use mathlib.Core.Bool.{true≢false}
use morton.Base.{
  ℕ, ◌-◌, ◌≡◌, ◌≢◌, refl, sym, ap, ◌∙◌, List, [], ◌∷◌, Option, none, some, inl, inr, if◌then◌else◌,
  ◌==◌, ==_iff, length, get_or, Bool-cases, Option-cases, u32, ◌*◌,
}
use morton.Base.Map.{lookup, lookup-assign, lookup-erase}
use morton.Core.Float.{F32}
use morton.Core.Vector.{Vec2}
use morton.Sim.Entities.{
  Entity, EntityStore, no_entity, add, remove_at, remove, find, no_vector, hash_u32,
}
use morton.Sim.Entities.Index.{IsIndexed, get_or-append_left, get_or-append_last}
use morton.Sim.Entities.Removal.{
  moved, mover, moved_here, moved_else, moved_lookup, mover_found, moved_found, cut, cut_old,
  cut_found,
}

module _ {F : F32} where
  abbrev at_place : List (Entity F) → Option ℕ → Option (Entity F)
  at_place rows none = none
  at_place rows (some i) = some (get_or rows i (no_entity F))

  -- The entity with an id.
  unfoldable pub entity_of : EntityStore F → ℕ → Option (Entity F)
  unfolding find
  entity_of s id = at_place s.rows (lookup id s.index_of)

  pub entity_of-none : (s : EntityStore F) (id : ℕ) → find s id ≡ none → entity_of s id ≡ none
  unfolding entity_of find
  entity_of-none s id e = ap (at_place s.rows) e

  pub entity_of-some :
      (s : EntityStore F) (id i : ℕ)
      → find s id ≡ some i
      → entity_of s id ≡ some (get_or s.rows i (no_entity F))
  unfolding entity_of find
  entity_of-some s id i e = ap (at_place s.rows) e

  abbrev pub new_entity : ℕ → ℕ → Vec2 F → ℕ → Entity F
  new_entity entity kind start client = record {
    id = entity;
    position = start;
    velocity = no_vector F;
    kind = kind;
    owner = client;
    last_input_sequence = 0;
    ai_seed = hash_u32 (u32 (entity * 2654435761));
  }

  -- What is added is found under its id, and nothing else changes.
  pub add-entity_of :
      (s : EntityStore F) (entity kind : ℕ) (start : Vec2 F) (client k : ℕ)
      → IsIndexed s
      → entity_of (add s entity kind start client) k
        ≡ (if entity == k then some (new_entity entity kind start client) else entity_of s k)
  unfolding entity_of add
  add-entity_of s entity kind start client k v =
      let new : Entity F = new_entity entity kind start client in
      elim (Bool-cases (entity == k)) [
        | inl here ↦
            rw (lookup-assign entity k (length s.rows) s.index_of, here)
              (ap some (get_or-append_last s.rows new (no_entity F)))
        | inr there ↦ elim (Option-cases (lookup k s.index_of)) [
          | inl absent ↦ rw (lookup-assign entity k (length s.rows) s.index_of, there, absent) refl
          | inr (i, found) ↦
              rw (lookup-assign entity k (length s.rows) s.index_of, there, found)
                (ap some
                  (get_or-append_left s.rows (new ∷ []) i (no_entity F) (v.bounded k i found)))
        ]
      ]

  cut-entity_of :
      (s : EntityStore F) (entity index k : ℕ) (v : IsIndexed s)
      (found : lookup entity s.index_of ≡ some index) (at_end : index ≡ length s.rows - 1)
      → entity_of (cut s entity index v found at_end) k
        ≡ (if entity == k then none else entity_of s k)
  unfolding entity_of
  cut-entity_of s entity index k v found at_end =
      let erased = lookup-erase entity k s.index_of in
      elim (Bool-cases (entity == k)) [
        | inl here ↦ rw (erased, here) refl
        | inr there ↦ elim (Option-cases (lookup k s.index_of)) [
          | inl absent ↦ rw (erased, there, absent) refl
          | inr (i, old) ↦
              let below =
                (cut_found s entity index v found at_end k i (rw (erased, there) old)).1 in
              rw (erased, there, old) (ap some (cut_old s entity index v found at_end i below))
        ]
      ]

  moved-entity_of :
      (s : EntityStore F) (entity index k : ℕ) (v : IsIndexed s)
      (found : lookup entity s.index_of ≡ some index) (moves : index ≢ length s.rows - 1)
      → entity_of (moved s entity index v found moves) k
        ≡ (if entity == k then none else entity_of s k)
  unfolding entity_of
  moved-entity_of s entity index k v found moves =
      let m = moved_lookup s entity index v found moves k in
      let id : ℕ = (mover s entity index v found moves).id in
      elim (Bool-cases (entity == k)) [
        | inl here ↦ rw (m, here) refl
        | inr there ↦ elim (Bool-cases (id == k)) [
          | inl last ↦
              let at_last =
                ap (λ (x : ℕ). lookup x s.index_of) (sym ((==_iff id k).0 last))
                ∙ mover_found s entity index v found moves in
              rw (m, there, last, at_last) (ap some (moved_here s entity index v found moves))
          | inr other ↦ elim (Option-cases (lookup k s.index_of)) [
            | inl absent ↦ rw (m, there, other, absent) refl
            | inr (i, old) ↦
                elim (moved_found s entity index v found moves k i (rw (m, there, other) old)) [
                  | inl same ↦ absurd (true≢false (sym ((==_iff id k).1 same.0) ∙ other))
                  | inr place ↦
                      rw (m, there, other, old)
                        (ap some (moved_else s entity index v found moves i place.1 place.2))
                ]
          ]
        ]
      ]

  -- In a store whose index is right, a removal takes away exactly the entity with the id: every
  -- other id yields the same entity as before, though the last one moves.
  pub remove-entity_of :
      (s : EntityStore F) (entity k : ℕ)
      → IsIndexed s
      → entity_of (remove s entity).1 k ≡ (if entity == k then none else entity_of s k)
  unfolding remove remove_at entity_of
  remove-entity_of s entity k v = elim (Option-cases (lookup entity s.index_of)) [
    | inl absent ↦ elim (Bool-cases (entity == k)) [
      | inl here ↦
          let nothing =
            ap (λ (x : ℕ). lookup x s.index_of) (sym ((==_iff entity k).0 here)) ∙ absent in
          rw (remove, absent, here) (ap (at_place s.rows) nothing)
      | inr there ↦ rw (remove, absent, there) refl
    ]
    | inr (index, found) ↦ elim (Bool-cases (index == length s.rows - 1)) [
      | inl at_end ↦
          rw (remove, found, at_end)
            (cut-entity_of s entity index k v found ((==_iff index (length s.rows - 1)).0 at_end))
      | inr moves ↦
          rw (remove, found, moves)
            (moved-entity_of s entity index k v found
              (λ e. true≢false (sym ((==_iff index (length s.rows - 1)).1 e) ∙ moves)))
    ]
  ]
