-- ===== src/Pathing/RrtStore/Edges/Options.antt =====
-- The options to connect a point come from nodes of the tree (src/pathing/tree.cpp).
use obcpp.Base.{
  ℕ, zero, suc, ◌≡◌, inl, inr, Bool, some, List, [], ◌∷◌, ◌++◌, select, All, if_both, length,
  get_elem?, Option-cases,
}
use obcpp.Pathing.RrtStore.{Node, Tree, Curves}
use obcpp.Pathing.RrtStore.Search.{
  Choice, PointFetchMethod, random, nearest, none_set, gather_from, insert_by, sort_by, first_of,
  options_from, fill_options, fill_options_nodes, nodes_below, get_k_closest_nodes,
  get_k_random_nodes, total_cost, pathing_options, k_closest_nodes,
}

module _ {A : Type 0} (P : A → Type 0) where
  pub All-append : (xs ys : List A) → All P xs → All P ys → All P (xs ++ ys)
  All-append [] ys h h' = h'
  All-append (x ∷ xs) ys (h, hs) h' = (h, All-append xs ys hs h')

  All-gather_from :
      (f : ℕ → List A) (xs : List ℕ) → ((a : ℕ) → All P (f a)) → All P (gather_from f xs)
  All-gather_from f [] h = tt
  All-gather_from f (a ∷ rest) h =
      All-append (f a) (gather_from f rest) (h a) (All-gather_from f rest h)

  module _ {Length : Type 0} (less : Length → Length → Bool) (key : A → Length) where
    All-insert_by : (x : A) (xs : List A) → P x → All P xs → All P (insert_by less key x xs)
    All-insert_by x [] h hs = (h, tt)
    All-insert_by x (y ∷ ys) h (h', hs) =
        if_both (All P) (less (key y) (key x)) (h', All-insert_by x ys h hs) (h, (h', hs))

    pub All-sort_by : (xs : List A) → All P xs → All P (sort_by less key xs)
    unfolding sort_by
    All-sort_by [] h = tt
    All-sort_by (x ∷ xs) (h, hs) = All-insert_by x (sort_by less key xs) h (All-sort_by xs hs)

  All-first_of : (k : ℕ) (xs : List A) → All P xs → All P (first_of k xs)
  All-first_of zero xs h = tt
  All-first_of (suc k) [] h = tt
  All-first_of (suc k) (x ∷ xs) (h, hs) = (h, All-first_of k xs hs)

  All-select : (test : A → Bool) (xs : List A) → All P xs → All P (select test xs)
  All-select test [] h = tt
  All-select test (x ∷ xs) (h, hs) =
      if_both (All P) (test x) (h, All-select test xs hs) (All-select test xs hs)

module _ {Point Coord Length Curve : Type 0} (c : Curves Point Coord Length Curve) where
  -- The node of a choice stands at its address.
  abbrev pub IsAt : List (Node Point Coord Length) → Choice Point Coord Length Curve → Type 0
  IsAt nodes choice = get_elem? nodes choice.0 ≡ some (choice.1)

  abbrev Stands : List (Node Point Coord Length) → ℕ × Node Point Coord Length → Type 0
  Stands nodes r = get_elem? nodes r.0 ≡ some r.1

  options_from-IsAt :
      (nodes : List (Node Point Coord Length)) (a : ℕ) (node : Node Point Coord Length)
      (options : List Curve)
      → get_elem? nodes a ≡ some node
      → All (IsAt nodes) (options_from c a node options)
  options_from-IsAt nodes a node [] e = tt
  options_from-IsAt nodes a node (option ∷ rest) e =
      if_both (All (IsAt nodes)) (c.is_useful (c.curve_length option))
        (e, options_from-IsAt nodes a node rest e) (options_from-IsAt nodes a node rest e)

  fill_options-IsAt :
      (fuel : ℕ) (nodes : List (Node Point Coord Length)) (end : Point) (a : ℕ)
      → All (IsAt nodes) (fill_options c fuel nodes end a)
  unfolding fill_options
  fill_options-IsAt zero nodes end a = tt
  fill_options-IsAt (suc fuel) nodes end a = elim (Option-cases (get_elem? nodes a)) [
    | inl gone ↦ rw (fill_options, gone) tt
    | inr (node, e) ↦
        rw (fill_options, e)
          (All-append (IsAt nodes) (options_from c a node (c.all_options node.point end)) _
            (options_from-IsAt nodes a node (c.all_options node.point end) e)
            (All-gather_from (IsAt nodes) (fill_options c fuel nodes end) node.reachable
              (fill_options-IsAt fuel nodes end)))
  ]

  fill_options_nodes-IsAt :
      (nodes : List (Node Point Coord Length)) (chosen : List (ℕ × Node Point Coord Length))
      (end : Point)
      → All (Stands nodes) chosen
      → All (IsAt nodes) (fill_options_nodes c chosen end)
  fill_options_nodes-IsAt nodes [] end h = tt
  fill_options_nodes-IsAt nodes ((a, node) ∷ rest) end (h, hs) =
      All-append (IsAt nodes) (options_from c a node (c.all_options node.point end)) _
        (options_from-IsAt nodes a node (c.all_options node.point end) h)
        (fill_options_nodes-IsAt nodes rest end hs)

  nodes_below-Stands :
      (fuel : ℕ) (nodes : List (Node Point Coord Length)) (a : ℕ)
      → All (Stands nodes) (nodes_below c fuel nodes a)
  unfolding nodes_below
  nodes_below-Stands zero nodes a = tt
  nodes_below-Stands (suc fuel) nodes a = elim (Option-cases (get_elem? nodes a)) [
    | inl gone ↦ rw (nodes_below, gone) tt
    | inr (node, e) ↦
        rw (nodes_below, e)
          (
            e,
            All-gather_from (Stands nodes) (nodes_below c fuel nodes) node.reachable
                (nodes_below-Stands fuel nodes),
          )
  ]

  pub pathing_options-IsAt :
      (t : Tree Point Coord Length) (end : Point) (method : PointFetchMethod) (picked : ℕ → Bool)
      (quantity : ℕ)
      → All (IsAt t.nodes) (pathing_options c t end method picked quantity)
  unfolding pathing_options get_k_closest_nodes get_k_random_nodes
  pathing_options-IsAt t end method picked quantity =
      All-first_of (IsAt t.nodes) quantity (sort_by c.less (total_cost c) (chosen method))
        (All-sort_by (IsAt t.nodes) c.less (total_cost c) (chosen method) (each method))
    where
      chosen : PointFetchMethod → List (Choice Point Coord Length Curve)
      chosen m = elim m [
        | random ↦ fill_options_nodes c (get_k_random_nodes c t picked) end
        | nearest ↦ fill_options_nodes c (get_k_closest_nodes c t end k_closest_nodes) end
        | none_set ↦ fill_options c (length t.nodes) t.nodes end t.current_head
      ]

      below : All (Stands t.nodes) (nodes_below c (length t.nodes) t.nodes t.current_head)
      below = nodes_below-Stands (length t.nodes) t.nodes t.current_head

      each : (m : PointFetchMethod) → All (IsAt t.nodes) (chosen m)
      each random =
          fill_options_nodes-IsAt t.nodes (get_k_random_nodes c t picked) end
            (All-select (Stands t.nodes) (λ r. picked r.0) _ below)
      each nearest =
          fill_options_nodes-IsAt t.nodes (get_k_closest_nodes c t end k_closest_nodes) end (
            All-first_of (Stands t.nodes) k_closest_nodes _
              (All-sort_by (Stands t.nodes) c.less _ _ below))
      each none_set = fill_options-IsAt (length t.nodes) t.nodes end t.current_head
