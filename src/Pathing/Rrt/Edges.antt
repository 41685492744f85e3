-- ===== src/Pathing/Rrt/Edges.antt =====
-- The edges of the tree throughout a search (src/pathing/static.cpp).
use obcpp.Base.{
  ℕ, if_both, sym, true, false, zero, suc, ◌+◌, ◌/◌, ◌≡◌, refl, ap, subst, inl, inr, Bool, none,
  some, List, [], ◌∷◌, map, All, arith, Option-cases, length,
}
use obcpp.Pathing.RrtStore.{
  Node, Tree, generate_node, add_sample, add_node, new_tree, set_current_head,
}
use obcpp.Pathing.RrtStore.Search.{Choice, none_set, total_cost, pathing_options, get_path_segment}
use obcpp.Pathing.RrtStore.Edges.{
  IsLinked, PointOf, add_node-IsLinked, generate_node_lem, add_sample-IsLinked,
}
use obcpp.Pathing.RrtStore.Edges.Options.{All-append, All-sort_by, IsAt, pathing_options-IsAt}
use obcpp.Pathing.RrtStore.Edges.Rewired.{rrt_star-IsLinked}
use obcpp.Pathing.Rrt.Tries.{tried, tries_from_lem}
use obcpp.Pathing.Rrt.Connect.{
  Problem, Rrt, Ended, connected, failed, out_of_time, choices_to, first_valid, sample_to_goal,
  get_options_to_goal, add_node_to_tree, connect_to_goal, total_options_for_goal_connection,
  int_max,
}
use obcpp.Pathing.Rrt.{
  parse_options, one_try, tries_from, rrt_iteration, goals_from, run, new_rrt,
  max_dubins_options_to_parse, num_epochs,
}

-- What holds of all ends.
ended_all :
    {A : Type 0} (P : A → Type 0) (e : Ended) {x y z : A}
    → P x
    → P y
    → P z
    → P (elim e [ connected ↦ x | failed ↦ y | out_of_time ↦ z ])
ended_all P connected h h' h'' = h
ended_all P failed h h' h'' = h'
ended_all P out_of_time h h' h'' = h''

module _ {Point Coord Length Curve Angle : Type 0}
    (p : Problem Point Coord Length Curve Angle) where
  -- Each node is the root with an empty path, or is reachable from a node with a curve between the two
  -- as its path, which is in bounds.
  abbrev pub IsGrown : Rrt Point Coord Length → Type 0
  IsGrown s = IsLinked p.curves s.tree.nodes

  All-choices :
      (t : Tree Point Coord Length) (goal : Point)
      (options : List (Choice Point Coord Length Curve))
      → All (IsAt p.curves t.nodes) options
      → All
          (λ (o : Point × Choice Point Coord Length Curve). IsAt p.curves t.nodes o.1)
          (map (λ o. (goal, o)) options)
  All-choices t goal [] h = tt
  All-choices t goal (o ∷ rest) (h, hs) = (h, All-choices t goal rest hs)

  choices_to-IsAt :
      (t : Tree Point Coord Length) (each : ℕ) (goals : List Point)
      → All
          (λ (o : Point × Choice Point Coord Length Curve). IsAt p.curves t.nodes o.1)
          (choices_to p t each goals)
  choices_to-IsAt t each [] = tt
  choices_to-IsAt t each (goal ∷ rest) =
      let options = pathing_options p.curves t goal none_set (λ a. false) each in
      All-append (λ (o : Point × Choice Point Coord Length Curve). IsAt p.curves t.nodes o.1)
        (map (λ o. (goal, o)) options) (choices_to p t each rest)
        (All-choices t goal options
          (pathing_options-IsAt p.curves t goal none_set (λ a. false) each))
        (choices_to-IsAt t each rest)

  get_options_to_goal-IsAt :
      (t : Tree Point Coord Length) (goal : Coord) (total : ℕ)
      → All
          (λ (o : Point × Choice Point Coord Length Curve). IsAt p.curves t.nodes o.1)
          (get_options_to_goal p t goal total)
  unfolding get_options_to_goal
  get_options_to_goal-IsAt t goal total =
      All-sort_by (λ (o : Point × Choice Point Coord Length Curve). IsAt p.curves t.nodes o.1)
        p.curves.less (λ o. total_cost p.curves o.1)
        (choices_to p t (total / length p.angles) (map (p.rrt_point goal) p.angles))
        (choices_to-IsAt t (total / length p.angles) (map (p.rrt_point goal) p.angles))

  -- A new node with the address of its parent: the path leads from there and is in bounds.
  abbrev Drawn : List (Node Point Coord Length) → Node Point Coord Length × ℕ → Type 0
  Drawn nodes r =
      (from : Point) × (option : Curve) × PointOf p.curves nodes r.1 from
      × ((r.0).path ≡ p.curves.generate_points from (r.0).point option)
      × (p.curves.is_path_in_bounds (r.0).path ≡ true)

  first_valid-Drawn :
      (nodes : List (Node Point Coord Length))
      (options : List (Point × Choice Point Coord Length Curve)) (r : Node Point Coord Length × ℕ)
      → All (λ (o : Point × Choice Point Coord Length Curve). IsAt p.curves nodes o.1) options
      → first_valid p options ≡ some r
      → Drawn nodes r
  unfolding first_valid
  first_valid-Drawn nodes [] r h e = ground arith
  first_valid-Drawn nodes ((goal, (a, node, option)) ∷ rest) r (at, h) e =
      elim (Option-cases (generate_node p.curves node goal option)) [
        | inl gone ↦ first_valid-Drawn nodes rest r h (ground (arith, gone, e))
        | inr (new, made) ↦
            let same : some (new, a) ≡ some r = ground (arith, made, e) in
            let (drawn, valid) = generate_node_lem p.curves node goal option new made in
            subst (Drawn nodes) (ap (λ o. elim o [ none ↦ (new, a) | some y ↦ y ]) same)
              (node.point, option, (node, at, refl), drawn, valid)
      ]

  add_node_to_tree-IsGrown :
      (s s' : Rrt Point Coord Length) (new : Node Point Coord Length) (parent i : ℕ) (goal : Coord)
      → IsGrown s
      → Drawn s.tree.nodes (new, parent)
      → add_node_to_tree p s new parent i goal ≡ some s'
      → IsGrown s'
  unfolding add_node_to_tree set_current_head
  add_node_to_tree-IsGrown s s' new parent i goal h (from, option, at, drawn, valid) e =
      let t = add_node s.tree parent new in
      elim (Option-cases (get_path_segment t (length s.tree.nodes))) [
        | inl stuck ↦ absurd (ground (arith, stuck, e))
        | inr (local_path, found) ↦
            let nodes : s'.tree.nodes ≡ t.nodes = ground (arith, found, e) in
            subst (IsLinked p.curves) (sym nodes)
              (add_node-IsLinked p.curves s.tree parent new from option h at drawn valid)
      ]

  connect_to_goal-IsGrown :
      (s : Rrt Point Coord Length) (i : ℕ) (goal : Coord) (total_options : ℕ)
      → IsGrown s
      → IsGrown (connect_to_goal p s i goal total_options).0
  unfolding connect_to_goal sample_to_goal
  connect_to_goal-IsGrown s i goal total h =
      elim (Option-cases (first_valid p (get_options_to_goal p s.tree goal total))) [
        | inl gone ↦ rw (gone, connect_to_goal, sample_to_goal) h
        | inr ((new, parent), e) ↦ elim (Option-cases (add_node_to_tree p s new parent i goal)) [
          | inl stuck ↦ rw (e, stuck, connect_to_goal, sample_to_goal) h
          | inr (s', e') ↦
              rw (e, e', connect_to_goal, sample_to_goal)
                (add_node_to_tree-IsGrown s s' new parent i goal h
                  (first_valid-Drawn s.tree.nodes (get_options_to_goal p s.tree goal total)
                    (new, parent) (get_options_to_goal-IsAt s.tree goal total) e)
                  e')
        ]
      ]

  parse_options-IsLinked :
      (options : List (Choice Point Coord Length Curve)) (sample : Point)
      (t : Tree Point Coord Length)
      → All (IsAt p.curves t.nodes) options
      → IsLinked p.curves t.nodes
      → IsLinked p.curves (parse_options p options sample t).0.nodes
  unfolding parse_options
  parse_options-IsLinked [] sample t at h = h
  parse_options-IsLinked ((a, node, option) ∷ rest) sample t (at, ats) h =
      elim (Option-cases (add_sample p.curves t a node sample option).1) [
        | inl gone ↦ rw (gone, parse_options) (parse_options-IsLinked rest sample t ats h)
        | inr (new, made) ↦
            rw (made, parse_options) (add_sample-IsLinked p.curves t a node sample option h at)
      ]

  one_try-IsGrown : (s : Rrt Point Coord Length) → IsGrown s → IsGrown (one_try p s)
  unfolding one_try
  one_try-IsGrown s h =
      let sample = p.sample s.drawn in
      let options =
        pathing_options p.curves s.tree sample p.point_fetch_method (p.picked s.drawn)
          max_dubins_options_to_parse in
      let parsed = parse_options p options sample s.tree in
      let h' : IsLinked p.curves parsed.0.nodes =
        parse_options-IsLinked options sample s.tree
          (pathing_options-IsAt p.curves s.tree sample p.point_fetch_method (p.picked s.drawn)
            max_dubins_options_to_parse)
          h in
      elim (Option-cases parsed.1) [
        | inl gone ↦ rw (gone, one_try) h'
        | inr (new, made) ↦
            rw (made, one_try)
              (if_both (λ (t : Tree Point Coord Length). IsLinked p.curves t.nodes) p.optimize
                (rrt_star-IsLinked p.curves p.rewire_radius_squared parsed.0 new h') h')
      ]

  tried-IsGrown : (left : ℕ) (s : Rrt Point Coord Length) → IsGrown s → IsGrown (tried p left s)
  unfolding tried
  tried-IsGrown zero s h = h
  tried-IsGrown (suc left) s h = tried-IsGrown left (one_try p s) (one_try-IsGrown s h)

  tries_from-IsGrown :
      (left i epoch interval index : ℕ) (goal : Coord) (s : Rrt Point Coord Length)
      → IsGrown s
      → IsGrown (tries_from p left i epoch interval index goal none s).0
  tries_from-IsGrown left i epoch interval index goal s h =
      rw (tries_from_lem p left i epoch interval index goal s) (tried-IsGrown left s h)

  rrt_iteration-IsGrown :
      (fuel tries index : ℕ) (goal : Coord) (s : Rrt Point Coord Length)
      → IsGrown s
      → IsGrown (rrt_iteration p fuel tries index goal s).0
  unfolding rrt_iteration
  rrt_iteration-IsGrown zero tries index goal s h = h
  rrt_iteration-IsGrown (suc fuel) tries index goal s h =
      let P = λ (r : Rrt Point Coord Length × Ended). IsGrown r.0 in
      let interval = tries / num_epochs in
      let r1 = tries_from p tries 0 interval interval index goal none s in
      let h1 : IsGrown r1.0 = tries_from-IsGrown tries 0 interval interval index goal s h in
      let r2 = connect_to_goal p r1.0 index goal total_options_for_goal_connection in
      let h2 : IsGrown r2.0 =
        connect_to_goal-IsGrown r1.0 index goal total_options_for_goal_connection h1 in
      let r3 = connect_to_goal p r2.0 index goal int_max in
      let h3 : IsGrown r3.0 = connect_to_goal-IsGrown r2.0 index goal int_max h2 in
      ended_all P r1.1 h1
        (ended_all P r2.1 h2
          (if_both P p.allowed_to_skip_waypoints h2
            (ended_all P r3.1 h3 (rrt_iteration-IsGrown fuel tries index goal r3.0 h3) h3))
          h2)
        h1

  goals_from-IsGrown :
      (fuel index : ℕ) (goals : List Coord) (s : Rrt Point Coord Length)
      → IsGrown s
      → IsGrown (goals_from p fuel index goals s).0
  unfolding goals_from
  goals_from-IsGrown fuel index [] s h = h
  goals_from-IsGrown fuel index (goal ∷ rest) s h =
      let P = λ (r : Rrt Point Coord Length × Bool). IsGrown r.0 in
      let r1 = connect_to_goal p s index goal total_options_for_goal_connection in
      let h1 : IsGrown r1.0 =
        connect_to_goal-IsGrown s index goal total_options_for_goal_connection h in
      let r2 = rrt_iteration p fuel p.iterations_per_waypoint index goal r1.0 in
      let h2 : IsGrown r2.0 =
        rrt_iteration-IsGrown fuel p.iterations_per_waypoint index goal r1.0 h1 in
      let later = λ (t : Rrt Point Coord Length) (k : IsGrown t).
        goals_from-IsGrown fuel (index + 1) rest t k in
      ended_all P r1.1 (later r1.0 h1) (ended_all P r2.1 (later r2.0 h2) (later r2.0 h2) h2) h1

  -- After a run from the root alone, whether it got through all goals and however many iterations were
  -- repeated, each node of the tree is the root, which is the first one and has an empty path, or it is
  -- reachable from a node of the tree, its parent, and its path is that of a curve from the parent's
  -- point to its own and in bounds.
  pub run-IsGrown : (fuel : ℕ) (start : Point) → IsGrown (run p fuel (new_rrt p start)).0
  unfolding run new_rrt new_tree
  run-IsGrown fuel start = goals_from-IsGrown fuel 0 p.goals (new_rrt p start) root
    where
      root : IsGrown (new_rrt p start)
      root zero n e = inl (refl, sym (ap (λ o. elim o [ none ↦ [] | some y ↦ y.path ]) e))
      root (suc b) n e = ground arith
