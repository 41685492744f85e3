-- ===== src/Pathing/Rrt/Unreachable.antt =====
-- Goals that no curve in bounds LeadsNowhere to (src/pathing/static.cpp).
use obcpp.Base.{
  ℕ, if_both, if_false, zero, suc, ◌/◌, ◌≡◌, refl, ap, ◌∙◌, Bool, true, false, none, List, [], ◌∷◌,
  ◌++◌, map, length, All,
}
use obcpp.Pathing.RrtStore.{Tree, generate_node}
use obcpp.Pathing.RrtStore.Search.{
  Choice, sort_by, insert_by, pathing_options, none_set, total_cost,
}
use obcpp.Pathing.Rrt.Connect.{
  Problem, Rrt, failed, out_of_time, first_valid, sample_to_goal, get_options_to_goal, choices_to,
  connect_to_goal, total_options_for_goal_connection, int_max,
}
use obcpp.Pathing.Rrt.{after_tries, after_connect, after_all_options, rrt_iteration, num_epochs}
use obcpp.Pathing.Rrt.Tries.{tried, tries_from_lem}

insert_by-All :
    {A Length : Type 0} (P : A → Type 0) (less : Length → Length → Bool) (key : A → Length) (x : A)
    (xs : List A)
    → P x
    → All P xs
    → All P (insert_by less key x xs)
insert_by-All P less key x [] h hs = (h, tt)
insert_by-All P less key x (y ∷ ys) h (k, hs) =
    if_both (All P) (less (key y) (key x)) (k, insert_by-All P less key x ys h hs) (h, (k, hs))

sort_by-All :
    {A Length : Type 0} (P : A → Type 0) (less : Length → Length → Bool) (key : A → Length)
    (xs : List A)
    → All P xs
    → All P (sort_by less key xs)
unfolding sort_by
sort_by-All P less key [] hs = tt
sort_by-All P less key (x ∷ xs) (h, hs) =
    insert_by-All P less key x (sort_by less key xs) h (sort_by-All P less key xs hs)

module _ {Point Coord Length Curve Angle : Type 0}
    (p : Problem Point Coord Length Curve Angle) where
  -- No curve to the point is in bounds.
  abbrev pub IsCutOff : Point → Type 0
  IsCutOff to =
      (from : Point) (option : Curve)
      → p.curves.is_path_in_bounds (p.curves.generate_points from to option) ≡ false

  abbrev LeadsNowhere : Point × Choice Point Coord Length Curve → Type 0
  LeadsNowhere o = IsCutOff o.0

  paired-LeadsNowhere :
      (goal : Point) (options : List (Choice Point Coord Length Curve))
      (rest : List (Point × Choice Point Coord Length Curve))
      → IsCutOff goal
      → All LeadsNowhere rest
      → All LeadsNowhere (map (λ o. (goal, o)) options ++ rest)
  paired-LeadsNowhere goal [] rest h hs = hs
  paired-LeadsNowhere goal (o ∷ options) rest h hs = (h, paired-LeadsNowhere goal options rest h hs)

  choices_to-LeadsNowhere :
      (t : Tree Point Coord Length) (each : ℕ) (points : List Point)
      → All IsCutOff points
      → All LeadsNowhere (choices_to p t each points)
  choices_to-LeadsNowhere t each [] h = tt
  choices_to-LeadsNowhere t each (goal ∷ rest) (h, hs) =
      paired-LeadsNowhere goal (pathing_options p.curves t goal none_set (λ a. false) each)
        (choices_to p t each rest) h (choices_to-LeadsNowhere t each rest hs)

  first_valid-LeadsNowhere :
      (options : List (Point × Choice Point Coord Length Curve))
      → All LeadsNowhere options
      → first_valid p options ≡ none
  unfolding first_valid generate_node
  first_valid-LeadsNowhere [] h = refl
  first_valid-LeadsNowhere ((goal, (a, node, option)) ∷ rest) (h, hs) =
      rw (h node.point option, generate_node, first_valid) (first_valid-LeadsNowhere rest hs)

  pub connect_to_goal_cut_off :
      (s : Rrt Point Coord Length) (index : ℕ) (goal : Coord) (total : ℕ)
      → All IsCutOff (map (p.rrt_point goal) p.angles)
      → connect_to_goal p s index goal total ≡ (s, failed)
  unfolding connect_to_goal sample_to_goal get_options_to_goal
  connect_to_goal_cut_off s index goal total h =
      let each = total / length p.angles in
      let points = map (p.rrt_point goal) p.angles in
      rw
        (
          first_valid-LeadsNowhere
              (sort_by p.curves.less (λ o. total_cost p.curves o.1)
                (choices_to p s.tree each points))
              (sort_by-All LeadsNowhere p.curves.less (λ o. total_cost p.curves o.1)
                (choices_to p s.tree each points) (choices_to-LeadsNowhere s.tree each points h)),
          connect_to_goal,
        )
        refl

  skipped :
      (fuel tries index : ℕ) (goal : Coord) (s : Rrt Point Coord Length)
      → All IsCutOff (map (p.rrt_point goal) p.angles)
      → p.allowed_to_skip_waypoints ≡ true
      → rrt_iteration p (suc fuel) tries index goal s ≡ (tried p tries s, failed)
  unfolding rrt_iteration
  skipped fuel tries index goal s h skip =
      let again = rrt_iteration p fuel tries index goal in
      let interval = tries / num_epochs in
      let c =
        connect_to_goal_cut_off (tried p tries s) index goal total_options_for_goal_connection h in
      ap (after_tries p again index goal) (tries_from_lem p tries 0 interval interval index goal s)
      ∙ ap (after_connect p again index goal) c
      ∙ rw skip refl

  repeated :
      (fuel tries index : ℕ) (goal : Coord) (s : Rrt Point Coord Length)
      → All IsCutOff (map (p.rrt_point goal) p.angles)
      → p.allowed_to_skip_waypoints ≡ false
      → (rrt_iteration p fuel tries index goal s).1 ≡ out_of_time
  unfolding rrt_iteration
  repeated zero tries index goal s h stay = refl
  repeated (suc fuel) tries index goal s h stay =
      let again = rrt_iteration p fuel tries index goal in
      let interval = tries / num_epochs in
      let s' = tried p tries s in
      let c = connect_to_goal_cut_off s' index goal total_options_for_goal_connection h in
      let c' = connect_to_goal_cut_off s' index goal int_max h in
      let waits : after_connect p again index goal (s', failed) ≡ again s' =
        if_false (λ r. r ≡ again s') p.allowed_to_skip_waypoints (s', failed)
          (after_all_options p again (connect_to_goal p s' index goal int_max)) stay
          (ap (after_all_options p again) c') in
      ap (λ r. r.1)
        (ap (after_tries p again index goal)
            (tries_from_lem p tries 0 interval interval index goal s)
          ∙ ap (after_connect p again index goal) c
          ∙ waits)
      ∙ repeated fuel tries index goal s' h stay

  -- Where no curve to a goal is in bounds, an iteration that may skip goals takes all its tries and
  -- fails, and one that may not is repeated for as long as it is given time.
  pub rrt_iteration_cut_off :
      (fuel tries index : ℕ) (goal : Coord) (s : Rrt Point Coord Length)
      → All IsCutOff (map (p.rrt_point goal) p.angles)
      → (p.allowed_to_skip_waypoints ≡ true
          → rrt_iteration p (suc fuel) tries index goal s ≡ (tried p tries s, failed))
        × (p.allowed_to_skip_waypoints ≡ false
            → (rrt_iteration p fuel tries index goal s).1 ≡ out_of_time)
  rrt_iteration_cut_off fuel tries index goal s h =
      (skipped fuel tries index goal s h, repeated fuel tries index goal s h)
