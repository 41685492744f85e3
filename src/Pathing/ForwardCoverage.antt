-- ===== src/Pathing/ForwardCoverage.antt =====
-- The path that covers the airdrop zone line by line (`ForwardCoveragePathing` of
-- src/pathing/static.cpp, `getAirdropWaypoints` of src/pathing/environment.cpp). The endpoints of the
-- lines and the curves are parameters; an index out of bounds is none.
pub mod Heights
pub mod Lengths
mod Examples
use obcpp.Base.{
  ℕ, ◌+◌, Bool, true, false, not, Option, none, some, List, [], ◌∷◌, ◌++◌, map, ltb, if◌then◌else◌,
  length, get_elem?, set,
}

-- The geometry: a point has a coordinate and an angle. `endpoints` are those of the vertical or the
-- horizontal lines, `per_point` divides a difference of heights, and `added` is the sum of a length and
-- that of a curve, cut to a whole number.
pub record Planner (Point Coord Curve Angle Height : Type 0) : Type 0 where
  pub endpoints : Bool → List Coord
  pub rrt_point : Coord → Angle → Point
  pub first_angle : Bool → Angle
  pub turned : Angle → Angle
  pub best_option : Point → Point → Curve
  pub generate_points : Point → Point → Curve → List Coord
  pub height : Point → Height
  pub at_height : Height → Coord → Coord
  pub plus : Height → Height → Height
  pub minus : Height → Height → Height
  pub per_point : Height → ℕ → Height
  pub altitude : Height
  pub added : ℕ → Curve → ℕ
  pub start : Point

-- Without the first; none where there is nothing.
abbrev pub after_first : {A : Type 0} → List A → Option (List A)
after_first [] = none
after_first (x ∷ xs) = some xs

module _ {Point Coord Curve Angle Height : Type 0}
    (p : Planner Point Coord Curve Angle Height) where
  -- The lines in turn down and up.
  unfoldable pub alternating : Bool → Angle → List Coord → Option (List Point)
  alternating fly_down angle [] = some []
  alternating fly_down angle (a ∷ []) = none
  alternating fly_down angle (a ∷ b ∷ rest) =
      let later = alternating (not fly_down) (p.turned angle) rest in
      let (first, second) : Coord × Coord = if fly_down then (a, b) else (b, a) in
      elim later [
        | none ↦ none
        | some waypoints ↦ some (p.rrt_point first angle ∷ p.rrt_point second angle ∷ waypoints)
      ]

  unfoldable pub get_airdrop_waypoints : (one_way vertical : Bool) → Option (List Point)
  unfolding alternating
  get_airdrop_waypoints one_way vertical =
      let angle = p.first_angle vertical in
      if one_way
      then some (map (λ e. p.rrt_point e angle) (p.endpoints vertical))
      else alternating true angle (p.endpoints vertical)

  -- The curves between the waypoints; the number of waypoints less one must not be below zero.
  unfoldable pub best_options : Point → List Point → List Curve
  best_options from [] = []
  best_options from (to ∷ rest) = p.best_option from to ∷ best_options to rest

  -- The heights along a path, from the first height on.
  unfoldable pub climbing : Height → Height → List Coord → List Coord
  climbing height increment [] = []
  climbing height increment (coord ∷ rest) =
      p.at_height height coord ∷ climbing (p.plus height increment) increment rest

  -- The main loop: each of the later curves at the altitude, without its first point.
  unfoldable pub level_path : Point → List Point → List Curve → Option (List Coord)
  level_path from waypoints [] = some []
  level_path from [] (option ∷ options) = none
  level_path from (to ∷ rest) (option ∷ options) =
      let later = level_path to rest options in
      elim (after_first (map (p.at_height p.altitude) (p.generate_points from to option))) [
        | none ↦ none
        | some coords ↦ elim later [ none ↦ none | some path ↦ some (coords ++ path) ]
      ]

  -- The first curve climbs from the height of the first waypoint.
  unfoldable pub generate_path : List Curve → List Point → Option (List Coord)
  unfolding climbing level_path
  generate_path (option ∷ options) (from ∷ to ∷ rest) =
      let coords = p.generate_points from to option in
      let increment = p.per_point (p.minus p.altitude (p.height from)) (length coords) in
      elim (after_first (climbing (p.height from) increment coords)) [
        | none ↦ none
        | some first ↦ elim (level_path to rest options) [
          | none ↦ none
          | some path ↦ some (first ++ path)
        ]
      ]
  generate_path [] waypoints = none
  generate_path (option ∷ options) (from ∷ []) = none
  generate_path (option ∷ options) [] = none

  unfoldable pub coverage_default : (one_way vertical : Bool) → Option (List Coord)
  unfolding get_airdrop_waypoints best_options generate_path
  coverage_default one_way vertical = elim (get_airdrop_waypoints one_way vertical) [
    | none ↦ none
    | some waypoints ↦ generate_path (best_options p.start waypoints) (p.start ∷ waypoints)
  ]

  -- `lengths[i] += length`; none out of bounds.
  unfoldable pub add_length : List ℕ → ℕ → Curve → Option (List ℕ)
  add_length lengths i option = elim (get_elem? lengths i) [
    | none ↦ none
    | some len ↦ some (set lengths i (p.added len option))
  ]

  -- The inner loop over the waypoints, whose index hides that of the configuration.
  unfoldable pub measure : (i : ℕ) → Point → List Point → List ℕ → Option (List ℕ)
  unfolding add_length
  measure i from [] lengths = some lengths
  measure i from (to ∷ rest) lengths =
      let later = measure (i + 1) to rest in
      elim (add_length lengths i (p.best_option from to)) [
        | none ↦ none
        | some lengths' ↦ later lengths'
      ]

  -- The loop over the configurations: the lengths, and the curves of each. None where there are no
  -- waypoints, whose number less one is no index.
  unfoldable pub measure_all : List (Bool × Bool) → List ℕ → Option (List ℕ × List (List Curve))
  unfolding measure get_airdrop_waypoints best_options
  measure_all [] lengths = some (lengths, [])
  measure_all ((one_way, vertical) ∷ rest) lengths =
      let later = measure_all rest in
      elim (get_airdrop_waypoints one_way vertical) [
        | none ↦ none
        | some waypoints ↦ elim waypoints [
          | [] ↦ none
          | from ∷ others ↦ elim (measure 0 from others lengths) [
            | none ↦ none
            | some lengths' ↦ elim (later lengths') [
              | none ↦ none
              | some (final, paths) ↦ some (final, best_options from others ∷ paths)
            ]
          ]
        ]
      ]

-- The index of the first of the shortest, of the lengths from an index on.
abbrev pub shortest : (i best_path_idx shortest_length : ℕ) → List ℕ → ℕ
shortest i best_path_idx shortest_length [] = best_path_idx
shortest i best_path_idx shortest_length (len ∷ rest) =
    let (best, least) : ℕ × ℕ =
      if ltb len shortest_length then (i, len) else (best_path_idx, shortest_length) in
    shortest (i + 1) best least rest

-- Alternating or one way, vertical or horizontal.
abbrev pub configs : List (Bool × Bool)
configs = (false, true) ∷ (false, false) ∷ (true, true) ∷ (true, false) ∷ []

module _ {Point Coord Curve Angle Height : Type 0}
    (p : Planner Point Coord Curve Angle Height) where
  -- The shortest of the four; the start comes before its waypoints, but has no curve of its own.
  pub coverage_optimal : Option (List Coord)
  unfolding measure_all generate_path
  coverage_optimal = elim (measure_all p configs (0 ∷ 0 ∷ 0 ∷ 0 ∷ [])) [
    | none ↦ none
    | some (lengths, paths) ↦
        let best : ℕ = elim lengths [ [] ↦ 0 | len ∷ rest ↦ shortest 1 0 len rest ] in
        elim (get_elem? configs best) [
          | none ↦ none
          | some (one_way, vertical) ↦ elim (get_airdrop_waypoints p one_way vertical) [
            | none ↦ none
            | some waypoints ↦ elim (get_elem? paths best) [
              | none ↦ none
              | some options ↦ generate_path p options (p.start ∷ waypoints)
            ]
          ]
        ]
  ]
