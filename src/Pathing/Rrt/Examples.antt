-- ===== src/Pathing/Rrt/Examples.antt =====
-- Searches on a line (src/pathing/static.cpp, src/pathing/tree.cpp). Points, coordinates and lengths are
-- numbers, a curve is its length, and 13 is out of bounds.
use obcpp.Base.{
  ℕ, ◌+◌, ◌-◌, ◌≤◌, ◌≡◌, refl, Bool, true, false, not, ◌&&◌, none, some, List, [], ◌∷◌, arith, ltb,
  ◌==◌,
}
use obcpp.Pathing.RrtStore.{Node, Tree, Curves}
use obcpp.Pathing.RrtStore.Search.{
  nearest, get_path_segment, find_path_to_node, dfs, pathing_options, build_path_from_nodes,
  drop_first,
}
use obcpp.Pathing.RrtStore.Route.{
  Shape, branch, no_shapes, with_shape, IsLaid, route, get_path_segment_lem, size,
}
use obcpp.Pathing.Rrt.Connect.{connect_to_goal, Problem, Rrt, failed, get_options_to_goal}
use obcpp.Pathing.Rrt.{run, new_rrt, tries_from}
use obcpp.Pathing.Rrt.Edges.{IsGrown, run-IsGrown}
use obcpp.Pathing.Rrt.Tries.{tried, tries_from_lem}

abbrev distance : ℕ → ℕ → ℕ
distance a b = (a - b) + (b - a)

abbrev inside : List ℕ → Bool
inside [] = true
inside (a ∷ rest) = not (a == 13) && inside rest

abbrev line : Curves ℕ ℕ ℕ ℕ
line = record {
  all_options = λ from to. distance from to ∷ [];
  sorted_options = λ from to. distance from to ∷ [];
  curve_length = λ o. o;
  is_useful = λ o. true;
  generate_points = λ from to o. from ∷ to ∷ [];
  is_path_in_bounds = inside;
  zero_length = 0;
  add = λ a b. a + b;
  less = ltb;
  coord_distance_squared = distance;
  distance_squared = distance;
}

abbrev problem : List ℕ → Bool → Problem ℕ ℕ ℕ ℕ ℕ
problem goals skip = record {
  curves = line;
  goals = goals;
  angles = 0 ∷ [];
  rrt_point = λ goal angle. goal;
  height = λ g. 0;
  at_height = λ h g. g;
  start_height = 0;
  minus = λ a b. a - b;
  per_point = λ d n. 0;
  is_improvement = ltb;
  sample = λ n. n + 20;
  picked = λ a b. true;
  point_fetch_method = nearest;
  iterations_per_waypoint = 2;
  optimize = true;
  allowed_to_skip_waypoints = skip;
  rewire_radius_squared = 100;
}

goes_through :
    (run (problem (5 ∷ 9 ∷ []) false) 1 (new_rrt (problem [] false) 1)).0.flight_path ≡ 5 ∷ 9 ∷ []
unfolding run new_rrt get_options_to_goal pathing_options get_path_segment find_path_to_node
    connect_to_goal
goes_through = refl

run-IsGrown_example :
    IsGrown
      (problem (5 ∷ 13 ∷ []) true)
      (run (problem (5 ∷ 13 ∷ []) true) 3 (new_rrt (problem (5 ∷ 13 ∷ []) true) 1)).0
run-IsGrown_example = run-IsGrown (problem (5 ∷ 13 ∷ []) true) 3 1

abbrev started : Rrt ℕ ℕ ℕ
started = record {
  tree = record {
    nodes = record { point = 1; cost = 0; path_length = 0; path = []; reachable = [] } ∷ [];
    root = 0;
    current_head = 0;
    tree_size = 1;
  };
  flight_path = [];
  drawn = 0;
}

tries_from_lem_example :
    tries_from (problem (5 ∷ []) true) 7 0 1 1 0 5 none started
    ≡ (tried (problem (5 ∷ []) true) 7 started, failed)
tries_from_lem_example = tries_from_lem (problem (5 ∷ []) true) 7 0 1 1 0 5 started

abbrev node : ℕ → List ℕ → Node ℕ ℕ ℕ
node a kids = record {
  point = a;
  cost = 0;
  path_length = 0;
  path = a ∷ (a + 1) ∷ (a + 2) ∷ [];
  reachable = kids;
}

-- The head 1 with the nodes 2 and 3, and 0 below 3.
abbrev grown : Tree ℕ ℕ ℕ
grown = record {
  nodes = node 10 [] ∷ node 20 (2 ∷ 3 ∷ []) ∷ node 30 [] ∷ node 40 (0 ∷ []) ∷ [];
  root = 1;
  current_head = 1;
  tree_size = 4;
}

abbrev grown_shape : Shape
grown_shape = branch 1 (
    with_shape (branch 2 no_shapes)
      (with_shape (branch 3 (with_shape (branch 0 no_shapes) no_shapes)) no_shapes))

grown-IsLaid : IsLaid grown.nodes grown_shape
unfolding IsLaid
grown-IsLaid = (
  node 20 (2 ∷ 3 ∷ []),
  refl,
  refl,
  (
    (node 30 [], refl, refl, tt),
    ((node 40 (0 ∷ []), refl, refl, ((node 10 [], refl, refl, tt), tt)), tt),
  ),
)

grown_size : size grown_shape ≤ 4
unfolding size
grown_size = omega arith

get_path_segment_lem_example :
    get_path_segment grown 0
    ≡ some (elim (route 0 grown_shape) [
      | none ↦ []
      | some r ↦ build_path_from_nodes grown.nodes (drop_first r)
    ])
get_path_segment_lem_example =
    get_path_segment_lem grown 0 grown_shape grown-IsLaid refl (λ e. ground arith) grown_size

segment : get_path_segment grown 0 ≡ some (41 ∷ 42 ∷ 11 ∷ 12 ∷ [])
unfolding get_path_segment find_path_to_node dfs
segment = refl
