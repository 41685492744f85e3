-- ===== src/Pathing/Plans/Examples.antt =====
-- The plans of a line where no path is in bounds but the empty one (src/pathing/static.cpp).
use obcpp.Base.{ℕ, ◌+◌, ◌-◌, ◌≡◌, refl, Bool, true, false, List, [], ◌∷◌, ltb, ◌==◌, length}
use obcpp.Base.Int.{pos}
use obcpp.Pathing.MissionPath.{Geo}
use obcpp.Pathing.RrtStore.{Curves}
use obcpp.Pathing.RrtStore.Search.{nearest}
use obcpp.Pathing.Rrt.Connect.{Problem}
use obcpp.Pathing.Plans.{
  faulted, unfinished, no_waypoints, generate_airdrop_approach, generate_initial_path,
}
use obcpp.Pathing.Plans.Approach.{approach_cut_off}

abbrev closed_line : Curves ℕ ℕ ℕ ℕ
closed_line = record {
  all_options = λ from to. to ∷ [];
  sorted_options = λ from to. to ∷ [];
  curve_length = λ o. o;
  is_useful = λ o. true;
  generate_points = λ from to o. from ∷ to ∷ [];
  is_path_in_bounds = λ path. length path == 0;
  zero_length = 0;
  add = λ a b. a + b;
  less = ltb;
  coord_distance_squared = λ a b. a + b;
  distance_squared = λ a b. a + b;
}

abbrev problem : List ℕ → Bool → Problem ℕ ℕ ℕ ℕ ℕ
problem goals skip = record {
  curves = closed_line;
  goals = goals;
  angles = 0 ∷ 1 ∷ [];
  rrt_point = λ goal angle. goal;
  height = λ g. 0;
  at_height = λ h g. g;
  start_height = 0;
  minus = λ a b. a - b;
  per_point = λ d n. 0;
  is_improvement = ltb;
  sample = λ n. n;
  picked = λ a b. true;
  point_fetch_method = nearest;
  iterations_per_waypoint = 2;
  optimize = true;
  allowed_to_skip_waypoints = skip;
  rewire_radius_squared = 1;
}

abbrev geo : Geo ℕ ℕ
geo = record {
  of_int = λ n. n;
  nan = 0;
  scaled_latitude = λ g. pos g;
  scaled_longitude = λ g. pos g;
  altitude = λ g. g;
}

-- The shipped configurations do not let goals be skipped.
approach_cut_off_example :
    (false ≡ true → generate_airdrop_approach geo (λ c. c) 4 (problem (6 ∷ []) false) 1 ≡ faulted)
    × (false ≡ false
        → generate_airdrop_approach geo (λ c. c) 3 (problem (6 ∷ []) false) 1 ≡ unfinished)
approach_cut_off_example =
    approach_cut_off (problem (6 ∷ []) false) geo (λ c. c) 3 6 1 refl
      ((λ from option. refl), ((λ from option. refl), tt))

nothing_to_plan :
    generate_initial_path geo
      (λ (c : ℕ). c)
      3
      (λ goals. problem goals false)
      1
      ltb
      length
      false
      []
      []
    ≡ no_waypoints
unfolding generate_initial_path
nothing_to_plan = refl
