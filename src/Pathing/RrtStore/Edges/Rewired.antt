-- ===== src/Pathing/RrtStore/Edges/Rewired.antt =====
-- The moves of RRT* keep the edges of the tree (src/pathing/tree.cpp).
use obcpp.Base.{
  ℕ, zero, suc, ◌≡◌, ◌≢◌, refl, sym, ◌∙◌, ap, subst, ◌⊎◌, inl, inr, Bool, true, not, none, some,
  List, [], ◌∷◌, ◌++◌, arith, ◌==◌, if◌then◌else◌, length, get_elem?, if_both, if_cases,
  Option-cases, Bool-cases,
}
use obcpp.Pathing.RrtStore.{Node, Tree, Curves, modify, add_reachable, remove_reachable, remove}
use obcpp.Pathing.RrtStore.Optimize.{
  fold_from, recost, recost_below, rewire_edge, rewire_options, rewire_children, rrt_star_recursive,
  rrt_star, cost_at, reachable_at,
}
use obcpp.Pathing.RrtStore.Edges.{
  modified_from, modified_to, modified_at, has, has-append, has_last, LinkedOn, IsLinked,
  modify-LinkedOn,
}

same_or_not : (a b : ℕ) → (a ≡ b) ⊎ (a ≢ b)
same_or_not a b = elim (Bool-cases (a == b)) [
  | inl e ↦ inl (ground (arith, e))
  | inr e ↦ inr (λ h. ground (arith, e, h))
]

fold_from-kept :
    {S : Type 0} (P : S → Type 0) (f : S → ℕ → S) (s : S) (xs : List ℕ)
    → ((s : S) (a : ℕ) → P s → P (f s a))
    → P s
    → P (fold_from f s xs)
fold_from-kept P f s [] keeps h = h
fold_from-kept P f s (a ∷ rest) keeps h = fold_from-kept P f (f s a) rest keeps (keeps s a h)

has-remove : (b a : ℕ) (xs : List ℕ) → b ≢ a → has b xs ≡ true → has b (remove a xs) ≡ true
has-remove b a [] h e = ground arith
has-remove b a (x ∷ xs) h e = ground (arith, has-remove b a xs h)

module _ {Point Coord Length Curve : Type 0} (c : Curves Point Coord Length Curve) where
  -- The node at an address, with its point.
  abbrev PointAt : ℕ → Point → List (Node Point Coord Length) → Type 0
  PointAt a q nodes = (m : Node Point Coord Length) × (get_elem? nodes a ≡ some m) × (m.point ≡ q)

  modify-PointAt :
      (f : Node Point Coord Length → Node Point Coord Length)
      (nodes : List (Node Point Coord Length)) (a b : ℕ) (q : Point)
      → ((m : Node Point Coord Length) → (f m).point ≡ m.point)
      → PointAt b q nodes
      → PointAt b q (modify f nodes a)
  modify-PointAt f nodes a b q points (m, e, at) =
      let (m', e', which) = modified_to f nodes a b m e in
      (
        m',
        e',
        elim which [
          | inl same ↦ ap (λ x. x.point) same ∙ at
          | inr same ↦ ap (λ x. x.point) same ∙ points m ∙ at
        ],
      )

  -- What holds of the store while an edge from `from` to `to` is drawn anew.
  module _ (sample child : ℕ) (from to : Point) where
    abbrev Held : List (Node Point Coord Length) → Type 0
    Held nodes = IsLinked c nodes × PointAt sample from nodes × PointAt child to nodes

    recost-Held :
        (fuel : ℕ) (path_cost : Length) (nodes : List (Node Point Coord Length)) (a : ℕ)
        → Held nodes
        → Held (recost c fuel path_cost nodes a)
    unfolding recost
    recost-Held zero path_cost nodes a h = h
    recost-Held (suc fuel) path_cost nodes a (linked, at, at') =
        let f =
          λ (n : Node Point Coord Length). record n { cost = c.add path_cost n.path_length } in
        let nodes' = modify f nodes a in
        let linked' : IsLinked c nodes' = λ b n e.
          modify-LinkedOn c (λ x. Unit) f nodes a (λ m. refl) (inl (λ m. refl)) (λ m x q r. r)
            (λ x m q. linked x m) b n tt e in
        fold_from-kept Held (recost c fuel (cost_at c nodes' a)) nodes' (reachable_at c nodes' a)
          (recost-Held fuel (cost_at c nodes' a))
          (
            linked',
            modify-PointAt f nodes a sample from (λ m. refl) at,
            modify-PointAt f nodes a child to (λ m. refl) at',
          )

    rewire_edge-Held :
        (nodes : List (Node Point Coord Length)) (previous : ℕ) (option : Curve)
        (path_cost : Length)
        → c.is_path_in_bounds (c.generate_points from to option) ≡ true
        → Held nodes
        → Held
            (rewire_edge c nodes child previous sample (c.generate_points from to option) path_cost)
    unfolding rewire_edge recost_below add_reachable remove_reachable
    rewire_edge-Held nodes previous option path_cost valid (linked, at, at') =
        let path = c.generate_points from to option in
        let taken =
          λ (n : Node Point Coord Length). record n { reachable = remove child n.reachable } in
        let given =
          λ (n : Node Point Coord Length). record n { reachable = n.reachable ++ child ∷ [] } in
        let nodes1 = modify taken nodes previous in
        let moved = modify given nodes1 sample in
        let cost = c.add (cost_at c moved sample) path_cost in
        let changed = λ (n : Node Point Coord Length). record n {
          path = path;
          cost = cost;
          path_length = path_cost;
        } in
        let nodes' = modify changed moved child in
        let away = λ (b : ℕ). b ≢ child in
        let linked1 : LinkedOn c away nodes1 =
          modify-LinkedOn c away taken nodes previous (λ m. refl) (inl (λ m. refl))
            (λ m b q r. has-remove b child m.reachable q r) (λ b n q e. linked b n e) in
        let linked2 : LinkedOn c away moved =
          modify-LinkedOn c away given nodes1 sample (λ m. refl) (inl (λ m. refl))
            (λ m b q r. has-append b m.reachable (child ∷ []) r) linked1 in
        let linked3 : LinkedOn c away nodes' =
          modify-LinkedOn c away changed moved child (λ m. refl) (inr (λ b q. q)) (λ m b q r. r)
            linked2 in
        let at1 = modify-PointAt taken nodes previous sample from (λ m. refl) at in
        let at1' = modify-PointAt taken nodes previous child to (λ m. refl) at' in
        let at2' = modify-PointAt given nodes1 sample child to (λ m. refl) at1' in
        let (m1, e1, p1) = at1 in
        let (m, e, which) =
          modified_to changed moved child sample (given m1)
            (modified_at given nodes1 sample m1 e1) in
        let origin : m.point ≡ from = elim which [
          | inl same ↦ ap (λ x. x.point) same ∙ p1
          | inr same ↦ ap (λ x. x.point) same ∙ p1
        ] in
        let reached : has child m.reachable ≡ true = elim which [
          | inl same ↦ ap (λ x. has child x.reachable) same ∙ has_last child m1.reachable
          | inr same ↦ ap (λ x. has child x.reachable) same ∙ has_last child m1.reachable
        ] in
        let linked' : IsLinked c nodes' = λ b n g. elim (same_or_not b child) [
          | inr other ↦ linked3 b n other g
          | inl equal ↦
              let (n0, g0, moved_here) = modified_from changed moved child b n g in
              elim moved_here [
                | inl (apart, same) ↦ absurd (apart equal)
                | inr (here, same) ↦
                    let at_child : get_elem? moved child ≡ some n0 =
                      subst (λ x. get_elem? moved x ≡ some n0) here g0 in
                    let there : n0.point ≡ to =
                      ap (λ o. elim o [ none ↦ n0.point | some x ↦ x.point ])
                        (sym at_child ∙ at2'.1)
                      ∙ at2'.2 in
                    let target : n.point ≡ to = ap (λ x. x.point) same ∙ there in
                    let drawn : n.path ≡ path = ap (λ x. x.path) same in
                    inr (
                      sample,
                      m,
                      option,
                      e,
                      subst (λ x. has x m.reachable ≡ true) (sym here) reached,
                      drawn
                          ∙ sym (
                              ap (λ x. c.generate_points x n.point option) origin
                              ∙ ap (λ x. c.generate_points from x option) target),
                      ap c.is_path_in_bounds drawn ∙ valid,
                    )
              ]
        ] in
        fold_from-kept Held (recost c (length nodes') (cost_at c nodes' child)) nodes'
          (reachable_at c nodes' child) (recost-Held (length nodes') (cost_at c nodes' child))
          (
            linked',
            modify-PointAt changed moved child sample from (λ m. refl)
                (modify-PointAt given nodes1 sample sample from (λ m. refl) at1),
            modify-PointAt changed moved child child to (λ m. refl) at2',
          )

    rewire_options-Held :
        (current : ℕ) (options : List Curve) (nodes : List (Node Point Coord Length))
        → Held nodes
        → Held (rewire_options c current sample child from to options nodes)
    unfolding rewire_options
    rewire_options-Held current [] nodes h = h
    rewire_options-Held current (option ∷ rest) nodes h =
        let path = c.generate_points from to option in
        let len = c.curve_length option in
        if_both Held (not (c.is_useful len)) h (
          if_both Held (not (c.less (c.add (cost_at c nodes sample) len) (cost_at c nodes child))) h
            (rewire_options-Held current rest
              (if c.is_path_in_bounds path
                then rewire_edge c nodes child current sample path len
                else nodes)
              (if_cases Held (c.is_path_in_bounds path)
                (rewire_edge c nodes child current sample path len) nodes
                (λ valid. rewire_edge-Held nodes current option len valid h) (λ out. h))))

  rewire_children-IsLinked :
      (radius : Length) (current sample : ℕ) (children : List ℕ)
      (nodes : List (Node Point Coord Length))
      → IsLinked c nodes
      → IsLinked c (rewire_children c radius current sample children nodes).0
  unfolding rewire_children
  rewire_children-IsLinked radius current sample [] nodes h = h
  rewire_children-IsLinked radius current sample (child ∷ rest) nodes h =
      elim (Option-cases (get_elem? nodes child)) [
        | inl none_there ↦ rw (none_there, rewire_children) h
        | inr (n, e) ↦ elim (Option-cases (get_elem? nodes sample)) [
          | inl none_there ↦ rw (e, none_there, rewire_children) h
          | inr (m, e') ↦
              rw (e, e', rewire_children)
                (if_both (λ (r : List (Node Point Coord Length) × Bool). IsLinked c r.0)
                  (c.less radius (c.distance_squared n.point m.point))
                  (rewire_children-IsLinked radius current sample rest nodes h)
                  (if_both (λ (r : List (Node Point Coord Length) × Bool). IsLinked c r.0)
                    (child == sample) h
                    (rewire_children-IsLinked radius current sample rest
                      (rewire_options c current sample child m.point n.point
                        (c.sorted_options m.point n.point) nodes)
                      (rewire_options-Held sample child m.point n.point current
                        (c.sorted_options m.point n.point) nodes
                        (h, (m, e', refl), (n, e, refl))).0)))
        ]
      ]

  rrt_star_recursive-IsLinked :
      (fuel : ℕ) (radius : Length) (sample : ℕ) (nodes : List (Node Point Coord Length))
      (current : ℕ)
      → IsLinked c nodes
      → IsLinked c (rrt_star_recursive c fuel radius sample nodes current)
  unfolding rrt_star_recursive
  rrt_star_recursive-IsLinked zero radius sample nodes current h = h
  rrt_star_recursive-IsLinked (suc fuel) radius sample nodes current h =
      let done = rewire_children c radius current sample (reachable_at c nodes current) nodes in
      let h' : IsLinked c done.0 =
        rewire_children-IsLinked radius current sample (reachable_at c nodes current) nodes h in
      if_both (IsLinked c) done.1 h' (
        fold_from-kept (IsLinked c) (rrt_star_recursive c fuel radius sample) done.0
          (reachable_at c done.0 current) (rrt_star_recursive-IsLinked fuel radius sample) h')

  pub rrt_star-IsLinked :
      (radius : Length) (t : Tree Point Coord Length) (sample : ℕ)
      → IsLinked c t.nodes
      → IsLinked c (rrt_star c radius t sample).nodes
  unfolding rrt_star
  rrt_star-IsLinked radius t sample h =
      rrt_star_recursive-IsLinked (length t.nodes) radius sample t.nodes t.current_head h
