-- ===== src/Pathing/RrtStore/Optimize.antt =====
-- The step of RRT* that moves nodes under a new one (`RRTStar` of src/pathing/tree.cpp). The recursion
-- goes no deeper than there are nodes, which is its fuel.
use obcpp.Base.{
  ℕ, zero, suc, Bool, true, false, not, none, some, List, [], ◌∷◌, ◌==◌, if◌then◌else◌, length,
  get_elem?,
}
use obcpp.Pathing.RrtStore.{Node, Tree, Curves, modify, add_reachable, remove_reachable}

abbrev pub fold_from : {S : Type 0} → (S → ℕ → S) → S → List ℕ → S
fold_from f s [] = s
fold_from f s (a ∷ rest) = fold_from f (f s a) rest

module _ {Point Coord Length Curve : Type 0} (c : Curves Point Coord Length Curve) where
  abbrev pub cost_at : List (Node Point Coord Length) → ℕ → Length
  cost_at nodes a = elim (get_elem? nodes a) [ none ↦ c.zero_length | some node ↦ node.cost ]

  abbrev pub reachable_at : List (Node Point Coord Length) → ℕ → List ℕ
  reachable_at nodes a = elim (get_elem? nodes a) [ none ↦ [] | some node ↦ node.reachable ]

  -- `reassignCostsRecursive`
  unfoldable pub recost :
      (fuel : ℕ) → Length → List (Node Point Coord Length) → ℕ → List (Node Point Coord Length)
  unfolding modify
  recost zero path_cost nodes a = nodes
  recost (suc fuel) path_cost nodes a =
      let below = recost fuel in
      let nodes' = modify (λ n. record n { cost = c.add path_cost n.path_length }) nodes a in
      fold_from (below (cost_at nodes' a)) nodes' (reachable_at nodes' a)

  -- `reassignCosts`
  unfoldable pub recost_below : List (Node Point Coord Length) → ℕ → List (Node Point Coord Length)
  unfolding recost
  recost_below nodes a =
      fold_from (recost (length nodes) (cost_at nodes a)) nodes (reachable_at nodes a)

  unfoldable pub rewire_edge :
      List (Node Point Coord Length)
      → (current previous_parent new_parent : ℕ) (path : List Coord) (path_cost : Length)
      → List (Node Point Coord Length)
  unfolding recost_below add_reachable remove_reachable modify
  rewire_edge nodes current previous_parent new_parent path path_cost =
      let moved =
        add_reachable (remove_reachable nodes previous_parent current) new_parent current in
      let cost = c.add (cost_at moved new_parent) path_cost in
      recost_below
        (modify (λ n. record n { path = path; cost = cost; path_length = path_cost }) moved current)
        current

  -- The loop over the curves from the sample to a child.
  unfoldable pub rewire_options :
      (current sample child : ℕ) (sample_point child_point : Point)
      → List Curve
      → List (Node Point Coord Length)
      → List (Node Point Coord Length)
  unfolding rewire_edge
  rewire_options current sample child sample_point child_point [] nodes = nodes
  rewire_options current sample child sample_point child_point (option ∷ rest) nodes =
      let path = c.generate_points sample_point child_point option in
      let len = c.curve_length option in
      let later = rewire_options current sample child sample_point child_point rest in
      if not (c.is_useful len)
      then nodes
      else if not (c.less (c.add (cost_at nodes sample) len) (cost_at nodes child))
      then nodes
      else later (
          if c.is_path_in_bounds path
          then rewire_edge nodes child current sample path len
          else nodes)

  -- The loop over the children of a node; true where the sample is met.
  unfoldable pub rewire_children :
      (radius_squared : Length) (current sample : ℕ)
      → List ℕ
      → List (Node Point Coord Length)
      → List (Node Point Coord Length) × Bool
  unfolding rewire_options
  rewire_children radius_squared current sample [] nodes = (nodes, false)
  rewire_children radius_squared current sample (child ∷ rest) nodes =
      let later = rewire_children radius_squared current sample rest in
      elim (get_elem? nodes child) [
        | none ↦ (nodes, true)
        | some child_node ↦ elim (get_elem? nodes sample) [
          | none ↦ (nodes, true)
          | some sample_node ↦
              let distance = c.distance_squared child_node.point sample_node.point in
              if c.less radius_squared distance
              then later nodes
              else if child == sample
              then (nodes, true)
              else later (
                  rewire_options current sample child sample_node.point child_node.point
                    (c.sorted_options sample_node.point child_node.point) nodes)
        ]
      ]

  -- `RRTStarRecursive`
  unfoldable pub rrt_star_recursive :
      (fuel : ℕ) (radius_squared : Length) (sample : ℕ)
      → List (Node Point Coord Length)
      → ℕ
      → List (Node Point Coord Length)
  unfolding rewire_children
  rrt_star_recursive zero radius_squared sample nodes current = nodes
  rrt_star_recursive (suc fuel) radius_squared sample nodes current =
      let below = rrt_star_recursive fuel radius_squared sample in
      let (nodes', met) =
        rewire_children radius_squared current sample (reachable_at nodes current) nodes in
      if met then nodes' else fold_from below nodes' (reachable_at nodes' current)

  unfoldable pub rrt_star :
      (radius_squared : Length) → Tree Point Coord Length → ℕ → Tree Point Coord Length
  unfolding rrt_star_recursive
  rrt_star radius_squared t sample = record t {
    nodes = rrt_star_recursive (length t.nodes) radius_squared sample t.nodes t.current_head;
  }
