-- ===== src/Pathing/Plans.antt =====
-- The paths that the ticks ask for (`generateInitialPath`, `generateSearchPath` and
-- `generateAirdropApproach` of src/pathing/static.cpp). An empty optional or list that is used faults.
pub mod Approach
mod Examples
use obcpp.Base.{ℕ, Bool, true, false, Option, none, some, List, [], ◌∷◌, map, if◌then◌else◌}
use obcpp.Pathing.MissionPath.{Geo, MissionPath, forward, hover, mission_path}
use obcpp.Pathing.GoalLists.{generate_ranked_new_goals_list}
use obcpp.Pathing.ForwardCoverage.{Planner, coverage_default}
use obcpp.Pathing.Rrt.Connect.{Problem, Rrt}
use obcpp.Pathing.Rrt.{run, new_rrt}

-- The end of a generation; the search for a path may not end with the fuel it has.
pub data Plan (Gps Float : Type 0) : Type 0 where
  planned : MissionPath Gps Float → Plan Gps Float
  no_waypoints faulted unfinished : Plan Gps Float

abbrev plan_of : {Gps Float : Type 0} → Option (MissionPath Gps Float) → Plan Gps Float
plan_of none = faulted
plan_of (some path) = planned path

-- The default argument of the constructor of a path.
abbrev default_hover_wait_s : ℕ
default_hover_wait_s = 5

module _ {Gps Float Coord : Type 0} (geo : Geo Gps Float) (to_lat_lng : Coord → Gps) where
  -- The path of a search that ended.
  abbrev of_search :
      {Point Length : Type 0}
      → (List Coord → Plan Gps Float)
      → Rrt Point Coord Length × Bool
      → Plan Gps Float
  of_search continue (s, true) = continue s.flight_path
  of_search continue (s, false) = unfinished

  abbrev forward_plan : List Coord → Plan Gps Float
  forward_plan path = plan_of (mission_path geo forward (map to_lat_lng path) default_hover_wait_s)

  -- Without the first two points.
  abbrev pub approach_plan : List Coord → Plan Gps Float
  approach_plan [] = faulted
  approach_plan (a ∷ []) = faulted
  approach_plan (a ∷ b ∷ path) = forward_plan path

  module _ {Point Length Curve Angle : Type 0} where
    -- The problem has the drop location as its goal, and the angle from there to the target.
    pub generate_airdrop_approach :
        (fuel : ℕ) → Problem Point Coord Length Curve Angle → Point → Plan Gps Float
    generate_airdrop_approach fuel p start = of_search approach_plan (run p fuel (new_rrt p start))

    -- The goals are the waypoints, or the best list with one more goal.
    pub generate_initial_path :
        {Worth : Type 0}
        → (fuel : ℕ) → (List Coord → Problem Point Coord Length Curve Angle)
        → Point
        → (more : Worth → Worth → Bool) (worth : List Coord → Worth)
        → (generate_deviations : Bool) (deviation_points waypoints : List Coord) → Plan Gps Float
    unfolding generate_ranked_new_goals_list
    generate_initial_path fuel problem start more worth generate_deviations deviation_points [] =
        no_waypoints
    generate_initial_path fuel problem start more worth generate_deviations deviation_points
          (w ∷ ws) =
        let search = λ (goals : List Coord).
          of_search forward_plan (run (problem goals) fuel (new_rrt (problem goals) start)) in
        let varied : Plan Gps Float =
          elim (generate_ranked_new_goals_list more worth (w ∷ ws) deviation_points) [
            | [] ↦ faulted
            | goals ∷ others ↦ search goals
          ] in
        if generate_deviations then varied else search (w ∷ ws)

    -- The coverage of the zone in lines; the planner starts at the last waypoint.
    pub generate_forward_search_path :
        (Coord → Planner Point Coord Curve Angle Length)
        → (one_way vertical : Bool) (waypoints : List Coord) → Plan Gps Float
    unfolding coverage_default
    generate_forward_search_path planner one_way vertical [] = faulted
    generate_forward_search_path planner one_way vertical (w ∷ []) =
        elim (coverage_default (planner w) one_way vertical) [
          | none ↦ faulted
          | some path ↦ forward_plan path
        ]
    generate_forward_search_path planner one_way vertical (w ∷ v ∷ ws) =
        generate_forward_search_path planner one_way vertical (v ∷ ws)

  -- The points to hover at, each for a time.
  pub generate_hover_search_path : (hover_points : List Coord) (hover_time_s : ℕ) → Plan Gps Float
  generate_hover_search_path hover_points hover_time_s =
      plan_of (mission_path geo hover (map to_lat_lng hover_points) hover_time_s)
