-- ===== src/Pathing/RrtStore/Search.antt =====
-- The traversals of the tree of the path search (src/pathing/tree.cpp): the options to connect a point
-- and the path to a node. A traversal goes no deeper than there are nodes, which is its fuel.
use obcpp.Base.{
  ℕ, zero, suc, ◌*◌, Bool, Option, none, some, [], ◌∷◌, ◌++◌, leb, ◌==◌, if◌then◌else◌, length,
  get_elem?, List, select,
}
use obcpp.Pathing.RrtStore.{Node, Tree, Curves}

pub data PointFetchMethod : Type 0 where
  random nearest none_set : PointFetchMethod

-- src/utilities/constants.hpp
abbrev pub k_closest_nodes : ℕ
k_closest_nodes = 50

-- A node with its address, and a curve from it.
abbrev pub Choice : (Point Coord Length Curve : Type 0) → Type 0
Choice Point Coord Length Curve = ℕ × Node Point Coord Length × Curve

abbrev pub gather_from : {A : Type 0} → (ℕ → List A) → List ℕ → List A
gather_from f [] = []
gather_from f (a ∷ rest) = f a ++ gather_from f rest

abbrev pub insert_by :
    {A Length : Type 0} → (Length → Length → Bool) → (A → Length) → A → List A → List A
insert_by less key x [] = x ∷ []
insert_by less key x (y ∷ ys) =
    let rest = insert_by less key x ys in if less (key y) (key x) then y ∷ rest else x ∷ y ∷ ys

-- `std::sort` by a key.
unfoldable pub sort_by :
    {A Length : Type 0} → (Length → Length → Bool) → (A → Length) → List A → List A
sort_by less key [] = []
sort_by less key (x ∷ xs) = insert_by less key x (sort_by less key xs)

-- The first elements, or all.
abbrev pub first_of : {A : Type 0} → ℕ → List A → List A
first_of zero xs = []
first_of (suc k) [] = []
first_of (suc k) (x ∷ xs) = x ∷ first_of k xs

module _ {Point Coord Length Curve : Type 0} (c : Curves Point Coord Length Curve) where
  -- The useful curves from a node.
  abbrev pub options_from :
      ℕ → Node Point Coord Length → List Curve → List (Choice Point Coord Length Curve)
  options_from a node [] = []
  options_from a node (option ∷ rest) =
      let later = options_from a node rest in
      if c.is_useful (c.curve_length option) then (a, node, option) ∷ later else later

  unfoldable pub fill_options :
      (fuel : ℕ)
      → List (Node Point Coord Length)
      → Point
      → ℕ
      → List (Choice Point Coord Length Curve)
  fill_options zero nodes end a = []
  fill_options (suc fuel) nodes end a =
      let below = fill_options fuel nodes end in
      elim (get_elem? nodes a) [
        | none ↦ []
        | some node ↦
            options_from a node (c.all_options node.point end) ++ gather_from below node.reachable
      ]

  -- `fillOptionsNodes`
  abbrev pub fill_options_nodes :
      List (ℕ × Node Point Coord Length) → Point → List (Choice Point Coord Length Curve)
  fill_options_nodes [] end = []
  fill_options_nodes ((a, node) ∷ rest) end =
      options_from a node (c.all_options node.point end) ++ fill_options_nodes rest end

  -- The nodes from a node on, each before those that are reachable from it.
  unfoldable pub nodes_below :
      (fuel : ℕ) → List (Node Point Coord Length) → ℕ → List (ℕ × Node Point Coord Length)
  nodes_below zero nodes a = []
  nodes_below (suc fuel) nodes a =
      let below = nodes_below fuel nodes in
      elim (get_elem? nodes a) [
        | none ↦ []
        | some node ↦ (a, node) ∷ gather_from below node.reachable
      ]

  unfoldable pub get_k_closest_nodes :
      Tree Point Coord Length → Point → ℕ → List (ℕ × Node Point Coord Length)
  unfolding nodes_below sort_by
  get_k_closest_nodes t sample k = first_of k (
      sort_by c.less (λ r. c.coord_distance_squared sample r.1.point)
        (nodes_below (length t.nodes) t.nodes t.current_head))

  -- The nodes whose random number is below the chance.
  unfoldable pub get_k_random_nodes :
      Tree Point Coord Length → (ℕ → Bool) → List (ℕ × Node Point Coord Length)
  unfolding nodes_below
  get_k_random_nodes t picked =
      select (λ r. picked r.0) (nodes_below (length t.nodes) t.nodes t.current_head)

  abbrev pub total_cost : Choice Point Coord Length Curve → Length
  total_cost (a, node, option) = c.add (c.curve_length option) node.cost

  unfoldable pub pathing_options :
      Tree Point Coord Length
      → (end : Point) → PointFetchMethod
      → (picked : ℕ → Bool) (quantity_options : ℕ) → List (Choice Point Coord Length Curve)
  unfolding fill_options get_k_closest_nodes get_k_random_nodes sort_by
  pathing_options t end method picked quantity_options =
      let options : List (Choice Point Coord Length Curve) = elim method [
        | random ↦ fill_options_nodes (get_k_random_nodes t picked) end
        | nearest ↦ fill_options_nodes (get_k_closest_nodes t end k_closest_nodes) end
        | none_set ↦ fill_options (length t.nodes) t.nodes end t.current_head
      ] in
      first_of quantity_options (sort_by c.less total_cost options)

-- The end of the search for a node.
pub data Found : Type 0 where
  path_found : List ℕ → Found
  not_found out_of_fuel : Found

abbrev pub drop_first : {A : Type 0} → List A → List A
drop_first [] = []
drop_first (x ∷ xs) = xs

abbrev pub reverse : {A : Type 0} → List A → List A
reverse [] = []
reverse (x ∷ xs) = reverse xs ++ x ∷ []

module _ {Point Coord Length : Type 0} where
  abbrev pub child_of : List (Node Point Coord Length) → ℕ → ℕ → Option ℕ
  child_of nodes a child_idx = elim (get_elem? nodes a) [
    | none ↦ none
    | some node ↦ get_elem? node.reachable child_idx
  ]

  -- The loop over the stack, whose top is the first element; the current path is kept last node first.
  unfoldable pub dfs :
      (fuel : ℕ) → List (Node Point Coord Length) → (target : ℕ) → List (ℕ × ℕ) → List ℕ → Found
  dfs zero nodes target stack current_path = out_of_fuel
  dfs (suc fuel) nodes target [] current_path = not_found
  dfs (suc fuel) nodes target ((a, child_idx) ∷ below) current_path =
      let again = dfs fuel nodes target in
      if a == target
      then (if leb (length current_path) 1
          then path_found (target ∷ target ∷ [])
          else path_found (drop_first (reverse current_path)))
      else elim (child_of nodes a child_idx) [
        | some next_child ↦
            again ((next_child, 0) ∷ (a, suc child_idx) ∷ below) (next_child ∷ current_path)
        | none ↦ again below (drop_first current_path)
      ]

  unfoldable pub find_path_to_node : (fuel : ℕ) → Tree Point Coord Length → ℕ → Found
  unfolding dfs
  find_path_to_node fuel t target =
      if target == t.current_head
      then path_found (target ∷ target ∷ [])
      else dfs fuel t.nodes target ((t.current_head, 0) ∷ []) (t.current_head ∷ [])

  -- The points of the edges, each without its first.
  abbrev pub build_path_from_nodes : List (Node Point Coord Length) → List ℕ → List Coord
  build_path_from_nodes nodes [] = []
  build_path_from_nodes nodes (a ∷ rest) =
      let later = build_path_from_nodes nodes rest in
      elim (get_elem? nodes a) [ none ↦ later | some node ↦ drop_first node.path ++ later ]

  -- None where the search for the node is out of fuel.
  unfoldable pub get_path_segment : Tree Point Coord Length → ℕ → Option (List Coord)
  get_path_segment t a =
      if a == t.current_head then some [] else elim (find_path_to_node (2 * length t.nodes) t a) [
        | path_found nodes ↦ some (build_path_from_nodes t.nodes nodes)
        | not_found ↦ some []
        | out_of_fuel ↦ none
      ]
