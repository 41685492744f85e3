-- ===== src/Pathing/Polygons/Lines.antt =====
-- Random points, and the ends of the lines over the airdrop zone (src/pathing/environment.cpp).
use obcpp.Base.{
  ℕ, List, zero, suc, ◌+◌, ◌*◌, Bool, Option, none, some, [], ◌∷◌, if◌then◌else◌, get_elem?,
}
use obcpp.Base.Int.{ℤ, pos, negsuc, ◌*ℤ◌}
use obcpp.Pathing.Environment.{Environment, is_point_in_bounds}
use obcpp.Pathing.Polygons.{Double, XyzCoord, is_point_in_polygon, find_bounds, find_intersections}

-- What the search for points reads of the environment.
pub record Airspace (R : Type 0) : Type 0 where
  pub regions : Environment (List (XyzCoord R))
  pub airdrop_zone : List (XyzCoord R)
  pub mapping_region : List (XyzCoord R)
  pub goals : List (XyzCoord R)
  pub goals_found : ℕ

-- TRIES_FOR_RANDOM_POINT.
abbrev pub tries_for_random_point : ℕ
tries_for_random_point = 64

module _ {R : Type 0} (d : Double R) where
  -- `random k` is what call k of the generator draws from between its two arguments.
  module _ (random : ℕ → R → R → R) where
    abbrev pub generated_point : (R × R) × (R × R) → ℕ → XyzCoord R
    generated_point ((x_min, x_max), (y_min, y_max)) i = record {
      x = random (2 * i) x_min x_max;
      y = random (2 * i + 1) y_min y_max;
      z = d.of_int (pos 0);
    }

    unfoldable pub is_valid_sample : Airspace R → (use_mapping_region : Bool) → XyzCoord R → Bool
    is_valid_sample env use_mapping_region point =
        if use_mapping_region
        then is_point_in_polygon d env.mapping_region point
        else is_point_in_bounds (is_point_in_polygon d) env.regions point

    -- The tries from `i` on; `k` are left.
    unfoldable pub sampled : Airspace R → Bool → (R × R) × (R × R) → (i k : ℕ) → Option (XyzCoord R)
    unfolding is_valid_sample
    sampled env use_mapping_region polygon_bounds i zero = get_elem? env.goals env.goals_found
    sampled env use_mapping_region polygon_bounds i (suc k) =
        let later = sampled env use_mapping_region polygon_bounds (i + 1) k in
        if is_valid_sample env use_mapping_region (generated_point polygon_bounds i)
        then some (generated_point polygon_bounds i)
        else later

    unfoldable pub get_random_point : Airspace R → (use_mapping_region : Bool) → Option (XyzCoord R)
    unfolding sampled
    get_random_point env use_mapping_region =
        let polygon_bounds =
          find_bounds d
            (if use_mapping_region then env.mapping_region else env.regions.valid_region) in
        sampled env use_mapping_region polygon_bounds 0 tries_for_random_point

  -- The first two intersections of a line, a vertical one from above, a horizontal one from the left.
  unfoldable pub line_ends : Bool → List (XyzCoord R) → Option (XyzCoord R × XyzCoord R)
  line_ends vertical [] = none
  line_ends vertical (a ∷ []) = none
  line_ends vertical (a ∷ b ∷ rest) = some (
      if vertical
      then (if d.less a.y b.y then (b, a) else (a, b))
      else (if d.less a.x b.x then (a, b) else (b, a)))

  module _ (airdrop_zone : List (XyzCoord R)) (vertical : Bool) where
    -- The start of the ray: the top of the zone, or its left.
    abbrev pub ray_at : (R × R) × (R × R) → R → XyzCoord R
    ray_at ((x_min, x_max), (y_min, y_max)) coordinate =
        if vertical then record { x = coordinate; y = y_max; z = d.of_int (pos 0) } else record {
          x = x_min;
          y = d.times (d.of_int (negsuc 0)) coordinate;
          z = d.of_int (pos 0);
        }

    abbrev pub line_at : R → List (XyzCoord R)
    line_at coordinate =
        find_intersections d airdrop_zone (ray_at (find_bounds d airdrop_zone) coordinate) vertical

    -- The lines from a coordinate up to the end, on fuel.
    unfoldable pub scan_lines :
        (fuel : ℕ) (coordinate end iteration : R) → Option (List (XyzCoord R))
    unfolding line_ends
    scan_lines zero coordinate end iteration = none
    scan_lines (suc f) coordinate end iteration =
        let later = scan_lines f (d.plus coordinate iteration) end iteration in
        if d.at_most coordinate end
        then elim (line_ends vertical (line_at coordinate)) [
          | none ↦ none
          | some (first, second) ↦ elim later [
            | none ↦ none
            | some endpoints ↦ some (first ∷ second ∷ endpoints)
          ]
        ]
        else some []

    abbrev pub first_line : (R × R) × (R × R) → (scan_radius : ℤ) → R
    first_line ((x_min, x_max), (y_min, y_max)) scan_radius =
        if vertical
        then d.plus x_min (d.of_int scan_radius)
        else d.times (d.of_int (negsuc 0)) (d.minus y_max (d.of_int scan_radius))

    abbrev pub last_line : (R × R) × (R × R) → (scan_radius : ℤ) → R
    last_line ((x_min, x_max), (y_min, y_max)) scan_radius =
        if vertical
        then d.minus x_max (d.of_int scan_radius)
        else d.times (d.of_int (negsuc 0)) (d.plus y_min (d.of_int scan_radius))

    unfoldable pub get_airdrop_endpoints : (fuel : ℕ) (scan_radius : ℤ) → Option (List (XyzCoord R))
    unfolding scan_lines
    get_airdrop_endpoints fuel scan_radius =
        let bounds = find_bounds d airdrop_zone in
        scan_lines fuel (first_line bounds scan_radius) (last_line bounds scan_radius)
          (d.of_int (scan_radius *ℤ pos 2))
