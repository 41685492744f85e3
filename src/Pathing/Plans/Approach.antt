-- ===== src/Pathing/Plans/Approach.antt =====
-- What becomes of an approach whose drop location is cut off (src/pathing/static.cpp).
use obcpp.Base.{ℕ, zero, suc, ◌≡◌, refl, ap, ◌∙◌, Bool, true, false, [], ◌∷◌, map, arith, All}
use obcpp.Pathing.MissionPath.{Geo}
use obcpp.Pathing.Rrt.Connect.{
  Problem, Rrt, Ended, connected, failed, out_of_time, total_options_for_goal_connection,
}
use obcpp.Pathing.Rrt.{
  goals_from, run, new_rrt, one_try, after_direct, after_iteration, rrt_iteration,
}
use obcpp.Pathing.Rrt.Tries.{tried}
use obcpp.Pathing.Rrt.Unreachable.{IsCutOff, connect_to_goal_cut_off, rrt_iteration_cut_off}
use obcpp.Pathing.Plans.{faulted, unfinished, generate_airdrop_approach, approach_plan, of_search}

module _ {Point Coord Length Curve Angle : Type 0}
    (p : Problem Point Coord Length Curve Angle) where
  flight_path-tried :
      (left : ℕ) (s : Rrt Point Coord Length) → (tried p left s).flight_path ≡ s.flight_path
  unfolding tried one_try
  flight_path-tried zero s = refl
  flight_path-tried (suc left) s = flight_path-tried left (one_try p s)

  iteration_alone :
      (fuel : ℕ) (goal : Coord) (s : Rrt Point Coord Length)
      → All (IsCutOff p) (map (p.rrt_point goal) p.angles)
      → goals_from p fuel 0 (goal ∷ []) s
        ≡ after_iteration p
            (λ t. (t, true))
            (rrt_iteration p fuel p.iterations_per_waypoint 0 goal s)
  unfolding goals_from
  iteration_alone fuel goal s h =
      ap (after_direct p fuel 0 goal (λ t. (t, true)))
        (connect_to_goal_cut_off p s 0 goal total_options_for_goal_connection h)

  module _ {Gps Float : Type 0} (geo : Geo Gps Float) (to_lat_lng : Coord → Gps) where
    late :
        (r : Rrt Point Coord Length × Ended)
        → r.1 ≡ out_of_time
        → of_search geo to_lat_lng
            (approach_plan geo to_lat_lng)
            (after_iteration p (λ t. (t, true)) r)
          ≡ unfinished
    late (s, connected) e = ground arith
    late (s, failed) e = ground arith
    late (s, out_of_time) e = refl

    -- Where no curve to the drop location is in bounds, the generation of the approach faults if goals may
    -- be skipped, since the path that it drops two points of is empty, and it does not end if they may not,
    -- whatever time it is given.
    pub approach_cut_off :
        (fuel : ℕ) (goal : Coord) (start : Point)
        → p.goals ≡ goal ∷ []
        → All (IsCutOff p) (map (p.rrt_point goal) p.angles)
        → (p.allowed_to_skip_waypoints ≡ true
            → generate_airdrop_approach geo to_lat_lng (suc fuel) p start ≡ faulted)
          × (p.allowed_to_skip_waypoints ≡ false
              → generate_airdrop_approach geo to_lat_lng fuel p start ≡ unfinished)
    unfolding generate_airdrop_approach run new_rrt
    approach_cut_off fuel goal start only h =
        let s0 = new_rrt p start in
        let settled = λ (r : Rrt Point Coord Length × Bool).
          of_search geo to_lat_lng (approach_plan geo to_lat_lng) r in
        let alone =
          λ (n : ℕ). ap (λ goals. goals_from p n 0 goals s0) only ∙ iteration_alone n goal s0 h in
        let cut = λ (n : ℕ). rrt_iteration_cut_off p n p.iterations_per_waypoint 0 goal s0 h in
        (
          λ skip.
              ap settled
                (alone (suc fuel) ∙ ap (after_iteration p (λ t. (t, true))) ((cut fuel).0 skip))
              ∙ ap (approach_plan geo to_lat_lng) (flight_path-tried p.iterations_per_waypoint s0),
          λ stay.
              ap settled (alone fuel)
              ∙ late (rrt_iteration p fuel p.iterations_per_waypoint 0 goal s0) ((cut fuel).1 stay),
        )
