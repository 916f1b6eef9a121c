-- ===== src/Proto/Snapshot/Encode/Candidates.antt =====
-- The first half of `encode` of src/proto/snapshot.cpp: the entities that the viewer can see, as
-- they are on the wire, and the priority of each that differs from the baseline.
use morton.Base.{
  ℕ, suc, ◌+◌, ◌*◌, ◌/◌, ◌%◌, ◌^◌, Bool, true, false, ◌||◌, List, [], ◌∷◌, map, none, some, ltb,
  ◌==◌, if◌then◌else◌, get_or, u16,
}
use morton.Core.Float.{F32}
use morton.Core.Vector.{Vec2, clampf, distance_sq}
use morton.Proto.Quantizer.{Quantizer, encode, decode}
use morton.Sim.Movement.{WorldParams}
use morton.Sim.Entities.{Entity, no_entity}
use morton.Proto.Snapshot.{EntityWireState, same_state_as}
use morton.Proto.Snapshot.Merge.{Row}

pub record ReplicationQuantizers (F : F32) : Type 0 where
  pub position : Quantizer F
  pub velocity : Quantizer F

-- What the loops read and do not change.
pub record Scene (F : F32) : Type 0 where
  pub quantizers : ReplicationQuantizers F
  pub eye : Vec2 F
  pub aoi_radius : F.Carrier
  pub falloff : F.Carrier
  pub viewer : ℕ

pub record Carried (F : F32) : Type 0 where
  pub id : ℕ
  pub priority : F.Carrier

unfoldable pub insert_ascending : ℕ → List ℕ → List ℕ
insert_ascending i [] = i ∷ []
insert_ascending i (j ∷ js) =
    let later = insert_ascending i js in if ltb j i then j ∷ later else i ∷ j ∷ js

-- `std::sort` of integers.
unfoldable pub sort_ascending : List ℕ → List ℕ
sort_ascending [] = []
sort_ascending (i ∷ is) = insert_ascending i (sort_ascending is)

unfoldable pub is_unchanged : Row → Bool
is_unchanged (c, none) = false
is_unchanged (c, some b) = same_state_as c b

module _ {F : F32} where
  open F use {add, sub, mul, div, neg, sqrt, lt, decimal}

  unfoldable pub quantizers_from : WorldParams F → ReplicationQuantizers F
  quantizers_from params = record {
    position = record { min = decimal 0 0; max = params.size; bits = 16 };
    velocity = record {
      min = mul (neg params.max_speed) (decimal 2 0);
      max = mul params.max_speed (decimal 2 0);
      bits = 12;
    };
  }

  -- The keys id:index of what lies inside the radius.
  unfoldable pub gather_keys : Scene F → List (Entity F) → List ℕ → List ℕ
  gather_keys scene entities [] = []
  gather_keys scene entities (index ∷ nearby) =
      let rest = gather_keys scene entities nearby in
      let entity = get_or entities index (no_entity F) in
      if lt (mul scene.aoi_radius scene.aoi_radius) (distance_sq entity.position scene.eye)
      then rest
      else (entity.id * 2 ^ 32 + index) ∷ rest

  unfoldable pub wire_state : ReplicationQuantizers F → List (Entity F) → ℕ → EntityWireState
  wire_state quantizers entities key =
      let entity = get_or entities (key % 2 ^ 32) (no_entity F) in
      record {
        id = key / 2 ^ 32;
        px = u16 (encode quantizers.position entity.position.x);
        py = u16 (encode quantizers.position entity.position.y);
        vx = u16 (encode quantizers.velocity entity.velocity.x);
        vy = u16 (encode quantizers.velocity entity.velocity.y);
        kind = entity.kind;
      }

  unfoldable pub gather : Scene F → List (Entity F) → List ℕ → List EntityWireState
  gather scene entities nearby =
      map (wire_state scene.quantizers entities)
        (sort_ascending (gather_keys scene entities nearby))

  -- The cursor `carried_at`, as what is left of the list.
  unfoldable pub skip_carried : ℕ → List (Carried F) → List (Carried F)
  skip_carried id [] = []
  skip_carried id (c ∷ carried) = elim (ltb c.id id) [
    | true ↦ skip_carried id carried
    | false ↦ c ∷ carried
  ]

  unfoldable pub carried_priority : ℕ → List (Carried F) → F.Carrier
  carried_priority id [] = decimal 0 0
  carried_priority id (c ∷ carried) = if c.id == id then c.priority else decimal 0 0

  unfoldable pub priority_of : Scene F → EntityWireState → F.Carrier → F.Carrier
  priority_of scene current carried =
      let position = scene.quantizers.position in
      let decoded : Vec2 F = record {
        x = decode position current.px;
        y = decode position current.py;
      } in
      let distance = div (sqrt (distance_sq decoded scene.eye)) scene.aoi_radius in
      let closeness = sub (decimal 1 0) (clampf F distance (decimal 0 0) (decimal 1 0)) in
      let priority = add (add carried (mul closeness scene.falloff)) (decimal 1 2) in
      if current.id == scene.viewer then add priority (decimal 1000000 0) else priority

  -- The candidates of the rows from `index` on, with `candidate_priority_` for each row.
  unfoldable pub candidates_of :
      Scene F → ℕ → List Row → List (Carried F) → List (ℕ × F.Carrier) × List F.Carrier
  candidates_of scene index [] carried = ([], [])
  candidates_of scene index (row ∷ rows) carried =
      let left = skip_carried row.0.id carried in
      let (candidates, priorities) = candidates_of scene (suc index) rows left in
      let priority = priority_of scene row.0 (carried_priority row.0.id left) in
      if is_unchanged row
      then (candidates, neg (decimal 1 0) ∷ priorities)
      else ((index, priority) ∷ candidates, priority ∷ priorities)

  -- What the entities that were not sent carry into the next snapshot.
  unfoldable pub next_carried : List Row → List Bool → List F.Carrier → List (Carried F)
  next_carried [] flags priorities = []
  next_carried (row ∷ rows) [] priorities = []
  next_carried (row ∷ rows) (sent ∷ flags) [] = []
  next_carried (row ∷ rows) (sent ∷ flags) (p ∷ priorities) =
      let rest = next_carried rows flags priorities in
      if sent || lt p (decimal 0 0) then rest else (record { id = row.0.id; priority = p }) ∷ rest
