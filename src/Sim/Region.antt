-- ===== src/Sim/Region.antt =====
-- src/sim/region.h: the regions of the world, the handoff between them and their owners.
pub mod Handoff
use morton.Base.{
  ℕ, zero, suc, ◌+◌, ◌-◌, ◌*◌, ◌/◌, ◌%◌, Bool, ◌||◌, List, [], ◌∷◌, ◌++◌, if◌then◌else◌, ◌==◌, leb,
  u32, length, get_or, replicate,
}
use morton.Core.Float.{F32}
use morton.Proto.Bitstream.Ranged.{signed_ltb}

abbrev pub invalid_region : ℕ
invalid_region = 0xffff_ffff

pub record RegionMap (F : F32) : Type 0 where
  pub world_size : F.Carrier
  pub regions_per_axis : ℕ
  pub margin : F.Carrier

pub record Bounds (F : F32) : Type 0 where
  pub min_x : F.Carrier
  pub min_y : F.Carrier
  pub max_x : F.Carrier
  pub max_y : F.Carrier

-- An `i32` brought between 0 and `count` - 1.
unfoldable pub clamp_index : ℕ → ℕ → ℕ
clamp_index count index =
    let raised = (if signed_ltb index 0 then 0 else index) in
    if signed_ltb raised count then raised else u32 (count - 1)

module _ {F : F32} where
  open F use {add, sub, mul, div, lt, of_u64, to_i32, decimal}

  unfoldable pub region_count : RegionMap F → ℕ
  region_count m = u32 (m.regions_per_axis * m.regions_per_axis)

  unfoldable pub region_size : RegionMap F → F.Carrier
  region_size m = div m.world_size (of_u64 m.regions_per_axis)

  unfoldable pub axis_index : RegionMap F → F.Carrier → ℕ
  axis_index m value = clamp_index m.regions_per_axis (u32 (to_i32 (div value (region_size m))))

  unfoldable pub region_of : RegionMap F → F.Carrier → F.Carrier → ℕ
  region_of m x y = u32 (axis_index m y * m.regions_per_axis + axis_index m x)

  unfoldable pub bounds_of : RegionMap F → ℕ → Bounds F
  bounds_of m region =
      let size = region_size m in
      let min_x = mul (of_u64 (region % m.regions_per_axis)) size in
      let min_y = mul (of_u64 (region / m.regions_per_axis)) size in
      record { min_x = min_x; min_y = min_y; max_x = add min_x size; max_y = add min_y size }

  -- Whether a position lies more than the margin outside a region.
  unfoldable pub is_past : RegionMap F → Bounds F → F.Carrier → F.Carrier → Bool
  is_past m b x y =
      let past_x = lt x (sub b.min_x m.margin) || lt (add b.max_x m.margin) x in
      let past_y = lt y (sub b.min_y m.margin) || lt (add b.max_y m.margin) y in past_x || past_y

  unfoldable pub handoff_target : RegionMap F → ℕ → F.Carrier → F.Carrier → ℕ
  handoff_target m current_region x y =
      let raw = region_of m x y in
      if raw == current_region
      then invalid_region
      else if is_past m (bounds_of m current_region) x y
      then raw
      else invalid_region

  unfoldable pub center_of : RegionMap F → ℕ → F.Carrier × F.Carrier
  center_of m region =
      let b = bounds_of m region in
      (mul (add b.min_x b.max_x) (decimal 5 1), mul (add b.min_y b.max_y) (decimal 5 1))

-- The owners of `left` regions from `region` on; a shard id is a text.
unfoldable pub owners_from : ℕ → ℕ → List (List ℕ) → List (List ℕ)
owners_from zero region ids = []
owners_from (suc left) region ids =
    get_or ids (region % length ids) [] ∷ owners_from left (suc region) ids

unfoldable pub assign_regions : List (List ℕ) → ℕ → List (List ℕ)
assign_regions sorted_shard_ids region_count =
    if length sorted_shard_ids == 0
    then replicate region_count []
    else owners_from region_count 0 sorted_shard_ids
