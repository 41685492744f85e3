-- ===== src/Pathing/Rrt/Connect.antt =====
-- A search for a path through goals and its attempts to connect a goal (`RRT` of
-- src/pathing/static.cpp).
use obcpp.Base.{
  ℕ, zero, suc, ◌/◌, Bool, false, Option, none, some, List, [], ◌∷◌, ◌++◌, map, if◌then◌else◌,
  length, get_elem?,
}
use obcpp.Pathing.RrtStore.{Node, Tree, Curves, add_node, generate_node, set_current_head}
use obcpp.Pathing.RrtStore.Search.{
  Choice, PointFetchMethod, none_set, pathing_options, sort_by, total_cost, get_path_segment,
}

-- src/utilities/constants.hpp
abbrev pub total_options_for_goal_connection : ℕ
total_options_for_goal_connection = 2048

-- `std::numeric_limits<int>::max()`
abbrev pub int_max : ℕ
int_max = 2147483647

-- The goals with their heights, the angles to come to them, and the options of the search. A height
-- is a length; `per_point` divides a difference of heights by a number of points.
pub record Problem (Point Coord Length Curve Angle : Type 0) : Type 0 where
  pub curves : Curves Point Coord Length Curve
  pub goals : List Coord
  pub angles : List Angle
  pub rrt_point : Coord → Angle → Point
  pub height : Coord → Length
  pub at_height : Length → Coord → Coord
  pub start_height : Length
  pub minus : Length → Length → Length
  pub per_point : Length → ℕ → Length
  -- less than EPOCH_TEST_MARGIN times the second
  pub is_improvement : Length → Length → Bool
  pub sample : ℕ → Point
  pub picked : ℕ → ℕ → Bool
  pub point_fetch_method : PointFetchMethod
  pub iterations_per_waypoint : ℕ
  pub optimize : Bool
  pub allowed_to_skip_waypoints : Bool
  pub rewire_radius_squared : Length

pub record Rrt (Point Coord Length : Type 0) : Type 0 where
  pub tree : Tree Point Coord Length
  pub flight_path : List Coord
  pub drawn : ℕ

-- A goal that is not there, and a search for a node that does not end, stop the program.
pub data Ended : Type 0 where
  connected failed out_of_time : Ended

module _ {Point Coord Length Curve Angle : Type 0}
    (p : Problem Point Coord Length Curve Angle) where
  abbrev pub choices_to :
      Tree Point Coord Length → ℕ → List Point → List (Point × Choice Point Coord Length Curve)
  choices_to t number_options_each [] = []
  choices_to t number_options_each (goal ∷ rest) =
      map (λ o. (goal, o))
        (pathing_options p.curves t goal none_set (λ a. false) number_options_each)
      ++ choices_to t number_options_each rest

  unfoldable pub get_options_to_goal :
      Tree Point Coord Length → Coord → ℕ → List (Point × Choice Point Coord Length Curve)
  unfolding sort_by
  get_options_to_goal t goal total_options =
      sort_by p.curves.less (λ o. total_cost p.curves o.1)
        (choices_to t (total_options / length p.angles) (map (p.rrt_point goal) p.angles))

  -- The first of the options with a path in bounds: the new node and the address of its parent.
  unfoldable pub first_valid :
      List (Point × Choice Point Coord Length Curve) → Option (Node Point Coord Length × ℕ)
  unfolding generate_node
  first_valid [] = none
  first_valid ((goal, (a, node, option)) ∷ rest) =
      let later = first_valid rest in
      elim (generate_node p.curves node goal option) [ none ↦ later | some new ↦ some (new, a) ]

  unfoldable pub sample_to_goal :
      Tree Point Coord Length → Coord → ℕ → Option (Node Point Coord Length × ℕ)
  unfolding first_valid
  sample_to_goal t goal total_options = first_valid (get_options_to_goal t goal total_options)

  -- The heights along a path, from the first height on.
  unfoldable pub raised : Length → Length → List Coord → List Coord
  raised start increment [] = []
  raised start increment (point ∷ rest) =
      p.at_height start point ∷ raised (p.curves.add start increment) increment rest

  -- The height of the goal before, or of the start.
  abbrev pub height_before : ℕ → Length
  height_before zero = p.start_height
  height_before (suc i) = elim (get_elem? p.goals i) [ none ↦ p.start_height | some g ↦ p.height g ]

  -- None where the search for the new node is out of fuel.
  unfoldable pub add_node_to_tree :
      Rrt Point Coord Length
      → Node Point Coord Length
      → (parent current_goal_index : ℕ) → Coord
      → Option (Rrt Point Coord Length)
  unfolding raised add_node set_current_head
  add_node_to_tree s goal_node parent current_goal_index goal =
      let t = add_node s.tree parent goal_node in
      let a = length s.tree.nodes in
      elim (get_path_segment t a) [
        | none ↦ none
        | some local_path ↦
            let start = height_before current_goal_index in
            let increment = p.per_point (p.minus (p.height goal) start) (length local_path) in
            some record s {
              tree = set_current_head t a;
              flight_path = s.flight_path ++ raised start increment local_path;
            }
      ]

  unfoldable pub connect_to_goal :
      Rrt Point Coord Length → (current_goal_index : ℕ) → Coord → ℕ → Rrt Point Coord Length × Ended
  unfolding add_node_to_tree sample_to_goal
  connect_to_goal s current_goal_index goal total_options =
      elim (sample_to_goal s.tree goal total_options) [
        | none ↦ (s, failed)
        | some (goal_node, parent) ↦
            elim (add_node_to_tree s goal_node parent current_goal_index goal) [
              | none ↦ (s, out_of_time)
              | some s' ↦ (s', connected)
            ]
      ]

  -- The node of the last epoch with the address of its parent, if there was one. The third result is
  -- what the function leaves in its own copies of the two.
  unfoldable pub epoch_evaluation :
      Rrt Point Coord Length
      → (goal_node : Option (Node Point Coord Length × ℕ)) → (current_goal_index : ℕ) → Coord
      → Rrt Point Coord Length × Ended × Option (Node Point Coord Length × ℕ)
  unfolding add_node_to_tree sample_to_goal
  epoch_evaluation s none current_goal_index goal =
      (s, failed, sample_to_goal s.tree goal total_options_for_goal_connection)
  epoch_evaluation s (some (goal_node, goal_parent)) current_goal_index goal =
      elim (sample_to_goal s.tree goal total_options_for_goal_connection) [
        | none ↦ (s, failed, some (goal_node, goal_parent))
        | some (new_node, new_parent) ↦
            if p.is_improvement new_node.cost goal_node.cost
            then (s, failed, some (new_node, new_parent))
            else elim (add_node_to_tree s new_node new_parent current_goal_index goal) [
              | none ↦ (s, out_of_time, none)
              | some s' ↦ (s', connected, none)
            ]
      ]

-- What a variable holds after a call that it was passed to by value, and that changed its copy.
unfoldable pub passed_by_value : {A : Type 0} → (variable copy : A) → A
passed_by_value variable copy = variable
