-- ===== src/Pathing/Rrt.antt =====
-- The search for a path through the goals (`RRT` of src/pathing/static.cpp) on the tree of
-- src/pathing/tree.cpp. The random samples come from a function of how many were drawn before.
pub mod Connect
pub mod Edges
pub mod Tries
pub mod Unreachable
mod Examples
use obcpp.Base.{
  ℕ, zero, suc, ◌+◌, ◌/◌, Bool, true, false, Option, none, some, List, [], ◌∷◌, ◌==◌, if◌then◌else◌,
}
use obcpp.Pathing.RrtStore.{Node, Tree, add_sample, new_tree}
use obcpp.Pathing.RrtStore.Search.{Choice, pathing_options}
use obcpp.Pathing.RrtStore.Optimize.{rrt_star}
use obcpp.Pathing.Rrt.Connect.{
  Problem, Rrt, Ended, connected, failed, out_of_time, connect_to_goal, epoch_evaluation,
  passed_by_value, total_options_for_goal_connection, int_max,
}

-- src/utilities/constants.hpp
abbrev pub num_epochs : ℕ
num_epochs = 5

abbrev pub max_dubins_options_to_parse : ℕ
max_dubins_options_to_parse = 16

module _ {Point Coord Length Curve Angle : Type 0}
    (p : Problem Point Coord Length Curve Angle) where
  -- The first option that can be added.
  unfoldable pub parse_options :
      List (Choice Point Coord Length Curve)
      → Point
      → Tree Point Coord Length
      → Tree Point Coord Length × Option ℕ
  unfolding add_sample
  parse_options [] sample t = (t, none)
  parse_options ((a, node, option) ∷ rest) sample t =
      let later = parse_options rest sample t in
      let (t', added) = add_sample p.curves t a node sample option in
      elim added [ none ↦ later | some new ↦ (t', some new) ]

  -- A try: a sample, the options to reach it, and the moves of RRT*.
  unfoldable pub one_try : Rrt Point Coord Length → Rrt Point Coord Length
  unfolding parse_options rrt_star
  one_try s =
      let sample = p.sample s.drawn in
      let options =
        pathing_options p.curves s.tree sample p.point_fetch_method (p.picked s.drawn)
          max_dubins_options_to_parse in
      let (t, added) = parse_options options sample s.tree in
      let optimized : Tree Point Coord Length = elim added [
        | none ↦ t
        | some new ↦ if p.optimize then rrt_star p.curves p.rewire_radius_squared t new else t
      ] in
      record s { tree = optimized; drawn = s.drawn + 1 }

  -- The loop of the tries: how many are left, the number of this one, and that of the next epoch; and
  -- the local variables for the node of the last epoch and its parent.
  unfoldable pub tries_from :
      (left i current_epoch epoch_interval current_goal_index : ℕ)
      → Coord
      → Option (Node Point Coord Length × ℕ)
      → Rrt Point Coord Length
      → Rrt Point Coord Length × Ended
  unfolding epoch_evaluation one_try
  tries_from zero i current_epoch epoch_interval current_goal_index goal goal_node s = (s, failed)
  tries_from (suc left) i current_epoch epoch_interval current_goal_index goal goal_node s =
      let later =
        λ (epoch : ℕ). tries_from left (i + 1) epoch epoch_interval current_goal_index goal in
      if i == current_epoch
      then (let (s', ended, copy) = epoch_evaluation p s goal_node current_goal_index goal in
          elim ended [
            | failed ↦
                later (current_epoch + epoch_interval) (passed_by_value goal_node copy) (one_try s')
            | other ↦ (s', other)
          ])
      else later current_epoch goal_node (one_try s)

  -- What comes after the last attempt to connect; `again` repeats the iteration.
  abbrev pub after_all_options :
      (Rrt Point Coord Length → Rrt Point Coord Length × Ended)
      → Rrt Point Coord Length × Ended
      → Rrt Point Coord Length × Ended
  after_all_options again (s, ended) = elim ended [
    | connected ↦ (s, failed)
    | failed ↦ again s
    | out_of_time ↦ (s, out_of_time)
  ]

  -- What comes after the attempt to connect at the end of the tries.
  abbrev pub after_connect :
      (Rrt Point Coord Length → Rrt Point Coord Length × Ended)
      → (current_goal_index : ℕ) → Coord
      → Rrt Point Coord Length × Ended
      → Rrt Point Coord Length × Ended
  after_connect again current_goal_index goal (s, ended) = elim ended [
    | connected ↦ (s, connected)
    | failed ↦
        if p.allowed_to_skip_waypoints
        then (s, failed)
        else after_all_options again (connect_to_goal p s current_goal_index goal int_max)
    | out_of_time ↦ (s, out_of_time)
  ]

  -- What comes after the tries.
  abbrev pub after_tries :
      (Rrt Point Coord Length → Rrt Point Coord Length × Ended)
      → (current_goal_index : ℕ) → Coord
      → Rrt Point Coord Length × Ended
      → Rrt Point Coord Length × Ended
  after_tries again current_goal_index goal (s, ended) = elim ended [
    | connected ↦ (s, connected)
    | failed ↦
        after_connect again current_goal_index goal
          (connect_to_goal p s current_goal_index goal total_options_for_goal_connection)
    | out_of_time ↦ (s, out_of_time)
  ]

  -- An iteration that has to be repeated is a recursive call, of which the fuel bounds the number.
  unfoldable pub rrt_iteration :
      (fuel tries current_goal_index : ℕ)
      → Coord
      → Rrt Point Coord Length
      → Rrt Point Coord Length × Ended
  rrt_iteration zero tries current_goal_index goal s = (s, out_of_time)
  rrt_iteration (suc fuel) tries current_goal_index goal s =
      let again = rrt_iteration fuel tries current_goal_index goal in
      let epoch_interval = tries / num_epochs in
      after_tries again current_goal_index goal
        (tries_from tries 0 epoch_interval epoch_interval current_goal_index goal none s)

  -- What comes after the iteration for a goal; `later` goes on with the goals after it.
  abbrev pub after_iteration :
      (Rrt Point Coord Length → Rrt Point Coord Length × Bool)
      → Rrt Point Coord Length × Ended
      → Rrt Point Coord Length × Bool
  after_iteration later (s, ended) = elim ended [
    | connected ↦ later s
    | failed ↦ later s
    | out_of_time ↦ (s, false)
  ]

  -- What comes after the attempt to connect a goal directly.
  abbrev pub after_direct :
      (fuel current_goal_index : ℕ)
      → Coord
      → (Rrt Point Coord Length → Rrt Point Coord Length × Bool)
      → Rrt Point Coord Length × Ended
      → Rrt Point Coord Length × Bool
  after_direct fuel current_goal_index goal later (s, ended) = elim ended [
    | connected ↦ later s
    | failed ↦
        after_iteration later
          (rrt_iteration fuel p.iterations_per_waypoint current_goal_index goal s)
    | out_of_time ↦ (s, false)
  ]

  -- The goals from one on; true where all have been gone through.
  unfoldable pub goals_from :
      (fuel current_goal_index : ℕ)
      → List Coord
      → Rrt Point Coord Length
      → Rrt Point Coord Length × Bool
  goals_from fuel current_goal_index [] s = (s, true)
  goals_from fuel current_goal_index (goal ∷ rest) s =
      let later = goals_from fuel (current_goal_index + 1) rest in
      after_direct fuel current_goal_index goal later
        (connect_to_goal p s current_goal_index goal total_options_for_goal_connection)

  unfoldable pub run : (fuel : ℕ) → Rrt Point Coord Length → Rrt Point Coord Length × Bool
  unfolding goals_from
  run fuel s = goals_from fuel 0 p.goals s

  unfoldable pub new_rrt : Point → Rrt Point Coord Length
  unfolding new_tree
  new_rrt start = record { tree = new_tree p.curves.zero_length start; flight_path = []; drawn = 0 }
