-- ===== src/Sim/Entities.antt =====
-- `EntityStore` of src/sim/world.h. Its parallel arrays have one length, so they are one list of
-- records; `index_of` is an association list.
pub mod Index
pub mod Removal
pub mod Contents
use morton.Base.{
  ℕ, ◌-◌, ◌*◌, Bool, true, false, not, List, [], ◌∷◌, ◌++◌, Option, none, some, if◌then◌else◌, ◌==◌,
  length, get_or, set, take, bit_xor, u32, ◌>>>◌,
}
use morton.Base.Map.{lookup, assign, erase}
use morton.Core.Float.{F32}
use morton.Core.Vector.{Vec2}

abbrev pub player_kind : ℕ
player_kind = 0

abbrev pub drifter_kind : ℕ
drifter_kind = 1

pub record Entity (F : F32) : Type 0 where
  pub id : ℕ
  pub position : Vec2 F
  pub velocity : Vec2 F
  pub kind : ℕ
  pub owner : ℕ
  pub last_input_sequence : ℕ
  pub ai_seed : ℕ

pub record EntityStore (F : F32) : Type 0 where
  pub rows : List (Entity F)
  pub index_of : List (ℕ × ℕ)

unfoldable pub hash_u32 : ℕ → ℕ
hash_u32 x0 =
    let x1 = bit_xor x0 (x0 >>> 16) in
    let x2 = u32 (x1 * 0x7feb352d) in
    let x3 = bit_xor x2 (x2 >>> 15) in let x4 = u32 (x3 * 0x846ca68b) in bit_xor x4 (x4 >>> 16)

module _ (F : F32) where
  abbrev pub no_vector : Vec2 F
  no_vector = record { x = F.decimal 0 0; y = F.decimal 0 0 }

  abbrev pub no_entity : Entity F
  no_entity = record {
    id = 0;
    position = no_vector;
    velocity = no_vector;
    kind = 0;
    owner = 0;
    last_input_sequence = 0;
    ai_seed = 0;
  }

  abbrev pub empty_store : EntityStore F
  empty_store = record { rows = []; index_of = [] }

module _ {F : F32} where
  unfoldable pub add : EntityStore F → ℕ → ℕ → Vec2 F → ℕ → EntityStore F
  add s entity entity_kind start client = record {
    rows =
        s.rows
        ++ (record {
          id = entity;
          position = start;
          velocity = no_vector F;
          kind = entity_kind;
          owner = client;
          last_input_sequence = 0;
          ai_seed = hash_u32 (u32 (entity * 2654435761));
        }
            ∷ []);
    index_of = assign entity (length s.rows) s.index_of;
  }

  -- The last entity moves into the place of the one that goes.
  unfoldable pub remove_at : EntityStore F → ℕ → ℕ → EntityStore F
  remove_at s entity index =
      let last = length s.rows - 1 in
      let mover = get_or s.rows last (no_entity F) in
      if index == last
      then record { rows = take last s.rows; index_of = erase entity s.index_of }
      else record {
        rows = take last (set s.rows index mover);
        index_of = erase entity (assign mover.id index s.index_of);
      }

  unfoldable pub remove : EntityStore F → ℕ → Bool × EntityStore F
  remove s entity = elim (lookup entity s.index_of) [
    | none ↦ (false, s)
    | some index ↦ (true, remove_at s entity index)
  ]

  -- `none` is the result -1.
  unfoldable pub find : EntityStore F → ℕ → Option ℕ
  find s entity = lookup entity s.index_of

  unfoldable pub clear : EntityStore F → EntityStore F
  clear s = empty_store F
