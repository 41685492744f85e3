-- ===== src/Pathing/Polygons/Examples.antt =====
-- A zone of 10 by 6 with whole coordinates, and the lines over it (src/pathing/environment.cpp).
use obcpp.Base.{
  ℕ, List, zero, suc, ◌+◌, ◌-◌, ◌/◌, ◌≤◌, ◌<◌, ◌≡◌, refl, true, false, some, [], ◌∷◌, arith, length,
}
use obcpp.Base.Int.{ℤ, pos, pos_part, ◌+ℤ◌, ◌-ℤ◌, ◌*ℤ◌}
use obcpp.Pathing.ForwardCoverage.{Planner, alternating}
use obcpp.Pathing.Polygons.Whole.{whole, at}
use obcpp.Pathing.Polygons.{
  XyzCoord, is_point_in_polygon, does_line_intersect_polygon, intersect, find_bounds,
  find_intersections,
}
use obcpp.Pathing.Polygons.Estimate.{estimate_area_covered_and_path_length}
use obcpp.Pathing.Polygons.Lines.{line_at, first_line, last_line, get_airdrop_endpoints}
use obcpp.Pathing.Polygons.Endpoints.Waypoints.{FliesEnds}
use obcpp.Pathing.Polygons.Endpoints.{HasLines, HoldsEnds, coordinate_of, get_airdrop_endpoints_lem}

abbrev zone : List (XyzCoord ℤ)
zone = at (pos 0) (pos 0) ∷ at (pos 10) (pos 0) ∷ at (pos 10) (pos 6) ∷ at (pos 0) (pos 6) ∷ []

-- Segments that cross, segments apart, and two that overlap on one line.
crossing :
    intersect whole
      (at (pos 0) (pos 0))
      (at (pos 4) (pos 4))
      (at (pos 0) (pos 4))
      (at (pos 4) (pos 0))
    ≡ true
unfolding intersect ◌+ℤ◌ ◌-ℤ◌ ◌*ℤ◌
crossing = refl

apart :
    intersect whole
      (at (pos 0) (pos 0))
      (at (pos 4) (pos 0))
      (at (pos 0) (pos 1))
      (at (pos 4) (pos 1))
    ≡ false
unfolding intersect ◌+ℤ◌ ◌-ℤ◌ ◌*ℤ◌
apart = refl

overlapping :
    intersect whole
      (at (pos 0) (pos 0))
      (at (pos 4) (pos 0))
      (at (pos 3) (pos 0))
      (at (pos 9) (pos 0))
    ≡ true
unfolding intersect ◌+ℤ◌ ◌-ℤ◌ ◌*ℤ◌
overlapping = refl

inside : is_point_in_polygon whole zone (at (pos 3) (pos 2)) ≡ true
unfolding is_point_in_polygon ◌+ℤ◌ ◌-ℤ◌ ◌*ℤ◌
inside = refl

outside : is_point_in_polygon whole zone (at (pos 12) (pos 2)) ≡ false
unfolding is_point_in_polygon ◌+ℤ◌ ◌-ℤ◌ ◌*ℤ◌
outside = refl

-- Two vertical lines, each from above.
two_columns :
    get_airdrop_endpoints whole zone true 3 (pos 2)
    ≡ some (at (pos 2) (pos 6) ∷ at (pos 2) (pos 0) ∷ at (pos 6) (pos 6) ∷ at (pos 6) (pos 0) ∷ [])
unfolding get_airdrop_endpoints find_bounds find_intersections ◌+ℤ◌ ◌-ℤ◌ ◌*ℤ◌
two_columns = refl

-- One horizontal line.
one_row :
    get_airdrop_endpoints whole zone false 3 (pos 2)
    ≡ some (at (pos 0) (pos 4) ∷ at (pos 10) (pos 4) ∷ [])
unfolding get_airdrop_endpoints find_bounds find_intersections ◌+ℤ◌ ◌-ℤ◌ ◌*ℤ◌
one_row = refl

two_columns-HasLines :
    HasLines whole zone true
      (first_line whole zone true (find_bounds whole zone) (pos 2))
      (last_line whole zone true (find_bounds whole zone) (pos 2))
      (pos 2 *ℤ pos 2)
      2
unfolding HasLines coordinate_of find_bounds find_intersections ◌+ℤ◌ ◌-ℤ◌ ◌*ℤ◌
two_columns-HasLines = (met, refl)
  where
    met :
        (k : ℕ)
        → k < 2
        → (whole.at_most (coordinate_of whole (pos 2) (pos 4) k) (pos 8) ≡ true)
          × (2 ≤ length (line_at whole zone true (coordinate_of whole (pos 2) (pos 4) k)))
    met zero l = (refl, omega arith)
    met (suc zero) l = (refl, omega arith)
    met (suc (suc k)) l = absurd (omega (arith, l))

-- A planner whose curves are straight.
abbrev planner : Planner (XyzCoord ℤ) (XyzCoord ℤ) ℕ ℕ ℕ
planner = record {
  endpoints = λ vertical. zone;
  rrt_point = λ coord angle. coord;
  first_angle = λ vertical. 0;
  turned = λ angle. angle + 1;
  best_option = λ from to. 0;
  generate_points = λ from to option. from ∷ to ∷ [];
  height = λ point. 0;
  at_height = λ height coord. coord;
  plus = λ a b. a + b;
  minus = λ a b. a - b;
  per_point = λ height n. height / n;
  altitude = 4;
  added = λ len option. len + 1;
  start = at (pos 0) (pos 0);
}

less_asym : (a b : ℤ) → whole.less a b ≡ true → whole.less b a ≡ false
less_asym a b h = grind (arith, h)

get_airdrop_endpoints_lem_example :
    (endpoints : List (XyzCoord ℤ)) × (waypoints : List (XyzCoord ℤ)) × (get_airdrop_endpoints whole
        zone true 3
        (pos 2)
      ≡ some endpoints)
    × (length endpoints ≡ 2 + 2)
    × HoldsEnds whole zone true
        (first_line whole zone true (find_bounds whole zone) (pos 2))
        (pos 2 *ℤ pos 2)
        2
        endpoints
    × (alternating planner true 0 endpoints ≡ some waypoints)
    × (length waypoints ≡ 2 + 2)
    × FliesEnds planner true 0 2 endpoints waypoints
get_airdrop_endpoints_lem_example =
    get_airdrop_endpoints_lem whole planner zone true (pos 2) 2 3 less_asym (omega arith)
      two_columns-HasLines

-- A tour of length 20 outside the zone counts as covered in full.
outside_counted :
    estimate_area_covered_and_path_length whole
      (λ a b. false)
      (λ a b. pos (pos_part (b.x -ℤ a.x) + pos_part (a.x -ℤ b.x)))
      zone
      (at (pos 20) (pos 0) ∷ at (pos 30) (pos 0) ∷ [])
    ≡ some (pos 40000, pos 20)
unfolding estimate_area_covered_and_path_length does_line_intersect_polygon ◌+ℤ◌ ◌-ℤ◌ ◌*ℤ◌
outside_counted = refl
