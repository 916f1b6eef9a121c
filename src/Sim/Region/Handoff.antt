-- ===== src/Sim/Region/Handoff.antt =====
-- `region_of`, `handoff_target` and `assign_regions` of src/sim/region.h.
use native.Mathlib.Nat.{
  mul-le-mul, mul-add-mod_self_right, mul-add-div_right, mod-eq_of_lt, div-eq_of_lt, add-zero,
}
use morton.Base.{
  ℕ, zero, suc, ◌+◌, ◌*◌, ◌%◌, ◌^◌, ◌≤◌, ◌<◌, ◌≡◌, ap, ◌∙◌, false, List, [], ◌==◌, length, get_or,
  u32, arith, if◌then◌else◌, Bool, not, ◌&&◌, ◌||◌, ◌/◌,
}
use morton.Core.Float.{F32}
use morton.Sim.Region.{
  RegionMap, invalid_region, clamp_index, region_count, region_size, axis_index, region_of,
  bounds_of, is_past, handoff_target, owners_from, assign_regions,
}

clamp_index-lt :
    (count index : ℕ)
    → 1 ≤ count
    → count < 2 ^ 31
    → index < 2 ^ 32
    → clamp_index count index < count
unfolding clamp_index
clamp_index-lt count index some_regions small fits = ground arith

get_or-owners_from :
    (left region i : ℕ) (ids : List (List ℕ))
    → i < left
    → get_or (owners_from left region ids) i [] ≡ get_or ids ((region + i) % length ids) []
unfolding owners_from
get_or-owners_from zero region i ids h = absurd (omega arith)
get_or-owners_from (suc left) region zero ids h =
    ap (λ k. get_or ids (k % length ids) []) (omega arith)
get_or-owners_from (suc left) region (suc i) ids h =
    let next : suc region + i ≡ region + suc i = omega arith in
    get_or-owners_from left (suc region) i ids (omega arith)
    ∙ ap (λ k. get_or ids (k % length ids) []) next

-- With shards, every region has an owner: the shards take the regions in turn, in their order.
pub assign_regions_owner :
    (ids : List (List ℕ)) (count region : ℕ)
    → 1 ≤ length ids
    → region < count
    → get_or (assign_regions ids count) region [] ≡ get_or ids (region % length ids) []
unfolding assign_regions
assign_regions_owner ids count region some_ids h =
    let there : (length ids == 0) ≡ false = ground arith in
    let here : 0 + region ≡ region = omega arith in
    rw there
      (get_or-owners_from count 0 region ids h ∙ ap (λ k. get_or ids (k % length ids) []) here)

module _ {F : F32} where
  -- With 1 to 65535 regions per axis, every position, whatever the float arithmetic makes of it,
  -- lies in a region of the map.
  pub region_of-lt-region_count :
      (m : RegionMap F) (x y : F.Carrier)
      → 1 ≤ m.regions_per_axis
      → m.regions_per_axis ≤ 65535
      → region_of m x y < region_count m
  unfolding region_of region_count axis_index
  region_of-lt-region_count m x y some_regions few =
      let n : ℕ = m.regions_per_axis in
      let a : ℕ = axis_index m y in
      let b : ℕ = axis_index m x in
      let ha : a < n =
        clamp_index-lt n (u32 (F.to_i32 (F.div y (region_size m)))) some_regions (omega arith)
          (omega arith) in
      let hb : b < n =
        clamp_index-lt n (u32 (F.to_i32 (F.div x (region_size m)))) some_regions (omega arith)
          (omega arith) in
      inside n a b few ha hb
    where
      inside : (n a b : ℕ) → n ≤ 65535 → a < n → b < n → u32 (a * n + b) < u32 (n * n)
      inside n a b few ha hb =
          let rows : suc a * n ≤ n * n = mul-le-mul ha (omega arith) in
          let all : n * n ≤ 65535 * 65535 = mul-le-mul few few in omega (arith, rows, all)

  -- Whether a position lies in the rectangle of the region in a column and a row, widened by the
  -- margin on every side, the borders included.
  abbrev pub within_margin : RegionMap F → ℕ → ℕ → F.Carrier → F.Carrier → Bool
  within_margin m column row x y =
      let left = F.mul (F.of_u64 column) (region_size m) in
      let bottom = F.mul (F.of_u64 row) (region_size m) in
      (F.le (F.sub left m.margin) x && F.le x (F.add (F.add left (region_size m)) m.margin))
      && (F.le (F.sub bottom m.margin) y && F.le y (F.add (F.add bottom (region_size m)) m.margin))

  -- Where the float order is total (a < b exactly when not b <= a, which leaves out NaN), the
  -- handoff from the region in a column and a row of the map names the region of the position,
  -- unless that is the same region or the position lies within the margin around the current one:
  -- then it names no region.
  pub handoff_target_hysteresis :
      (m : RegionMap F) (column row : ℕ) (x y : F.Carrier)
      → ((a b : F.Carrier) → F.lt a b ≡ not (F.le b a))
      → column < m.regions_per_axis
      → handoff_target m (row * m.regions_per_axis + column) x y ≡ (
          if region_of m x y == row * m.regions_per_axis + column || within_margin m column row x y
          then invalid_region
          else region_of m x y)
  unfolding handoff_target is_past bounds_of
  handoff_target_hysteresis m column row x y total inside =
      let n : ℕ = m.regions_per_axis in
      let column_of : (row * n + column) % n ≡ column =
        mul-add-mod_self_right row n column ∙ mod-eq_of_lt inside in
      let row_of : (row * n + column) / n ≡ row =
        mul-add-div_right (omega (arith, inside)) row column
        ∙ ap (λ k. row + k) (div-eq_of_lt inside)
        ∙ add-zero row in
      let left : F.Carrier = F.mul (F.of_u64 column) (region_size m) in
      let bottom : F.Carrier = F.mul (F.of_u64 row) (region_size m) in
      rw (column_of, row_of)
        (ground (
          arith,
          total x (F.sub left m.margin),
          total (F.add (F.add left (region_size m)) m.margin) x,
          total y (F.sub bottom m.margin),
          total (F.add (F.add bottom (region_size m)) m.margin) y,
        ))
