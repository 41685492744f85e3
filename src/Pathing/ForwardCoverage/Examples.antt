-- ===== src/Pathing/ForwardCoverage/Examples.antt =====
-- Lines over a small zone (src/pathing/static.cpp). Points, curves and heights are numbers; the vertical
-- lines have six endpoints, the horizontal lines two.
use obcpp.Base.{
  ℕ, ◌+◌, ◌-◌, ◌*◌, ◌/◌, ◌≡◌, refl, true, false, none, some, List, [], ◌∷◌, ◌++◌, arith,
  if◌then◌else◌, length, map, get_elem?, suc,
}
use mathlib.Core.Option as Option
use obcpp.Pathing.ForwardCoverage.{
  Planner, get_airdrop_waypoints, coverage_default, coverage_optimal,
}
use obcpp.Pathing.ForwardCoverage.Heights.{HasPoints, joined, climbed, coverage_default_lem}
use obcpp.Pathing.ForwardCoverage.Lengths.{coverage_optimal_outside}

abbrev planner : Planner ℕ ℕ ℕ ℕ ℕ
planner = record {
  endpoints = λ vertical. if vertical then 1 ∷ 2 ∷ 3 ∷ 4 ∷ 5 ∷ 6 ∷ [] else 7 ∷ 8 ∷ [];
  rrt_point = λ coord angle. coord;
  first_angle = λ vertical. 0;
  turned = λ angle. angle;
  best_option = λ from to. to;
  generate_points = λ from to option. from ∷ to ∷ [];
  height = λ point. 0;
  at_height = λ height coord. 100 * height + coord;
  plus = λ a b. a + b;
  minus = λ a b. a - b;
  per_point = λ height n. height / n;
  altitude = 4;
  added = λ len option. len + 1;
  start = 9;
}

planner-HasPoints : HasPoints planner
planner-HasPoints = λ from to option e. ground arith

down_and_up : get_airdrop_waypoints planner false true ≡ some (1 ∷ 2 ∷ 4 ∷ 3 ∷ 5 ∷ 6 ∷ [])
unfolding get_airdrop_waypoints
down_and_up = refl

across : get_airdrop_waypoints planner false false ≡ some (7 ∷ 8 ∷ [])
unfolding get_airdrop_waypoints
across = refl

path_across : coverage_default planner false false ≡ some (207 ∷ 408 ∷ [])
unfolding coverage_default
path_across = refl

coverage_default_lem_example :
    (◌≡◌ {A = List ℕ} (7 ∷ 8 ∷ []) [] → coverage_default planner false false ≡ none)
    × ((first : ℕ) (more : List ℕ)
        → 7 ∷ 8 ∷ [] ≡ first ∷ more
        → (climb : List ℕ) × (coverage_default planner false false
            ≡ some (climb ++ map (planner.at_height 4) (joined planner first more)))
          × (length climb + 1 ≡ 2)
          × ((j : ℕ)
              → get_elem? climb j
                ≡ Option.map
                    (planner.at_height (climbed planner 0 2 (suc j)))
                    (get_elem? (9 ∷ first ∷ []) (suc j))))
coverage_default_lem_example =
    coverage_default_lem planner false false (7 ∷ 8 ∷ []) planner-HasPoints across

coverage_optimal_outside_example : coverage_optimal planner ≡ none
coverage_optimal_outside_example =
    coverage_optimal_outside planner 0 (false, true) 1 (2 ∷ 4 ∷ 3 ∷ 5 ∷ 6 ∷ []) refl down_and_up
      (omega arith)
