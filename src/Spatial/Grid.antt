-- ===== src/Spatial/Grid.antt =====
-- `SpatialGrid` of src/spatial/grid.h and grid.cpp. A callback of a query is the list of what it is
-- called with, in order; that of `for_each_pair` is a function of the state that it changes.
-- `none` is a `MORTON_CHECK` that fails.
use morton.Base.{
  ℕ, zero, suc, ◌+◌, ◌-◌, ◌*◌, ◌^◌, not, ◌&&◌, List, [], ◌∷◌, ◌++◌, map, Option, none, some, ltb,
  leb, ◌==◌, if◌then◌else◌, length, get_or, set, take, drop, replicate, max, bit_and, bit_or, u16,
  u32, sub32, ◌<<<◌,
}
use morton.Core.Float.{F32}
use morton.Core.Vector.{Vec2, distance_sq}
use morton.Spatial.Morton.{spread_bits, morton_encode}

pub record SpatialGrid (F : F32) : Type 0 where
  pub world_size : F.Carrier
  pub cell_size : F.Carrier
  pub inv_cell_size : F.Carrier
  pub cells_per_axis : ℕ
  pub cell_start : List ℕ
  pub sorted : List ℕ

-- `++starts[code + 1]` for each code.
unfoldable pub count_codes : List ℕ → List ℕ → List ℕ
count_codes [] starts = starts
count_codes (code ∷ codes) starts =
    count_codes codes (set starts (suc code) (u32 (get_or starts (suc code) 0 + 1)))

-- Each element becomes the sum of those up to it.
unfoldable pub prefix_sums : ℕ → List ℕ → List ℕ
prefix_sums sum [] = []
prefix_sums sum (n ∷ ns) = let total = u32 (n + sum) in total ∷ prefix_sums total ns

-- `sorted[cursor[codes[i]]++] = i` for each i.
unfoldable pub scatter : ℕ → List ℕ → List ℕ → List ℕ → List ℕ
scatter i [] cursor sorted = sorted
scatter i (code ∷ codes) cursor sorted =
    let at = get_or cursor code 0 in
    scatter (suc i) codes (set cursor code (u32 (at + 1))) (set sorted at i)

-- The numbers from the first up to the second.
unfoldable pub counting : ℕ → ℕ → List ℕ
counting low zero = []
counting low (suc n) = low ∷ counting (suc low) n

abbrev pub up_to : ℕ → ℕ → List ℕ
up_to low high = counting low (suc high - low)

unfoldable pub flat_map {ℓ κ} : {A : Type ℓ} {B : Type κ} → (A → List B) → List A → List B
flat_map f [] = []
flat_map f (x ∷ xs) = f x ++ flat_map f xs

unfoldable pub occupancies : List ℕ → List ℕ
occupancies [] = []
occupancies (begin ∷ []) = []
occupancies (begin ∷ end ∷ starts) = sub32 end begin ∷ occupancies (end ∷ starts)

unfoldable pub maximum : List ℕ → ℕ
maximum [] = 0
maximum (n ∷ ns) = max n (maximum ns)

-- Each element with each later one.
unfoldable pub pairs_within : List ℕ → List (ℕ × ℕ)
pairs_within [] = []
pairs_within (a ∷ rest) = map (λ b. (a, b)) rest ++ pairs_within rest

unfoldable pub pairs_between : List ℕ → List ℕ → List (ℕ × ℕ)
pairs_between xs ys = flat_map (λ a. map (λ b. (a, b)) ys) xs

-- The neighbours that a cell looks at: right, and the three above, where they exist.
unfoldable pub forward_cells : ℕ → ℕ → ℕ → List (ℕ × ℕ)
forward_cells cells x y =
    let right = if ltb (suc x) cells then (suc x, y) ∷ [] else [] in
    let above_right = if ltb (suc x) cells then (suc x, suc y) ∷ [] else [] in
    right
    ++ (if ltb (suc y) cells
        then (if x == 0 then [] else (x - 1, suc y) ∷ []) ++ ((x, suc y) ∷ above_right)
        else [])

module _ {F : F32} where
  open F use {add, sub, mul, div, le, of_u64, to_i32, decimal}

  unfoldable pub cell_count : SpatialGrid F → ℕ
  cell_count grid = u32 (grid.cells_per_axis * grid.cells_per_axis)

  unfoldable pub configure : F.Carrier → ℕ → Option (SpatialGrid F)
  configure world_size cells_per_axis =
      let cell_size = div world_size (of_u64 cells_per_axis) in
      if ltb 0 cells_per_axis
        && bit_and cells_per_axis (cells_per_axis - 1) == 0
        && leb cells_per_axis 1024
      then some (record {
        world_size = world_size;
        cell_size = cell_size;
        inv_cell_size = div (decimal 1 0) cell_size;
        cells_per_axis = cells_per_axis;
        cell_start = replicate (suc (cells_per_axis * cells_per_axis)) 0;
        sorted = [];
      })
      else none

  unfoldable pub clear : SpatialGrid F → SpatialGrid F
  clear grid = record grid { cell_start = map (λ n. 0) grid.cell_start; sorted = [] }

  unfoldable pub cell_x_of : SpatialGrid F → F.Carrier → ℕ
  cell_x_of grid x =
      let cell = to_i32 (mul x grid.inv_cell_size) in
      if leb (2 ^ 31) cell
      then 0
      else if leb grid.cells_per_axis cell
      then u16 (grid.cells_per_axis - 1)
      else u16 cell

  unfoldable pub cell_of : SpatialGrid F → Vec2 F → ℕ
  cell_of grid position = morton_encode (cell_x_of grid position.x) (cell_x_of grid position.y)

  unfoldable pub build : SpatialGrid F → List (Vec2 F) → SpatialGrid F
  build grid positions =
      let codes = map (cell_of grid) positions in
      let counts = count_codes codes (replicate (suc (cell_count grid)) 0) in
      let starts = prefix_sums 0 counts in
      if grid.cells_per_axis == 0 then grid else record grid {
        cell_start = starts;
        sorted = scatter 0 codes (take (cell_count grid) starts) (replicate (length positions) 0);
      }

  -- The entities in a cell.
  unfoldable pub cell_members : SpatialGrid F → ℕ → List ℕ
  cell_members grid code =
      let begin = get_or grid.cell_start code 0 in
      let end = get_or grid.cell_start (suc code) 0 in take (end - begin) (drop begin grid.sorted)

  unfoldable pub query_radius : SpatialGrid F → Vec2 F → F.Carrier → List ℕ
  query_radius grid center radius =
      let columns =
        up_to (cell_x_of grid (sub center.x radius)) (cell_x_of grid (add center.x radius)) in
      let rows =
        up_to (cell_x_of grid (sub center.y radius)) (cell_x_of grid (add center.y radius)) in
      if grid.cells_per_axis == 0
      then []
      else flat_map
          (λ y.
            let row = u32 (spread_bits y <<< 1) in
            flat_map (λ x. cell_members grid (bit_or row (spread_bits x))) columns)
          rows

  -- The pairs of neighbours, before their distance is looked at.
  unfoldable pub neighbour_pairs : SpatialGrid F → List (ℕ × ℕ)
  neighbour_pairs grid =
      let axis = counting 0 grid.cells_per_axis in
      flat_map
        (λ y.
          flat_map
            (λ x.
              let here = cell_members grid (morton_encode x y) in
              pairs_within here
              ++ flat_map
                  (λ cell. pairs_between here (cell_members grid (morton_encode cell.0 cell.1)))
                  (forward_cells grid.cells_per_axis x y))
            axis)
        axis

  -- The callback changes the positions that the later distances are taken from.
  unfoldable pub visit_pairs {ℓ} :
      {S : Type ℓ} → (S → ℕ → Vec2 F) → F.Carrier → (S → ℕ → ℕ → S) → List (ℕ × ℕ) → S → S
  visit_pairs position radius_sq fn [] s = s
  visit_pairs position radius_sq fn (pair ∷ pairs) s =
      let s' =
        (if le (distance_sq (position s pair.0) (position s pair.1)) radius_sq
          then fn s pair.0 pair.1
          else s) in
      visit_pairs position radius_sq fn pairs s'

  unfoldable pub for_each_pair {ℓ} :
      {S : Type ℓ} → SpatialGrid F → (S → ℕ → Vec2 F) → F.Carrier → (S → ℕ → ℕ → S) → S → Option S
  for_each_pair grid position radius fn s =
      if grid.cells_per_axis == 0
      then some s
      else if not (le radius grid.cell_size)
      then none
      else some (visit_pairs position (mul radius radius) fn (neighbour_pairs grid) s)

  unfoldable pub occupancy : SpatialGrid F → ℕ → ℕ
  occupancy grid code = sub32 (get_or grid.cell_start (suc code) 0) (get_or grid.cell_start code 0)

  unfoldable pub peak_cell_occupancy : SpatialGrid F → ℕ
  peak_cell_occupancy grid = maximum (occupancies grid.cell_start)
