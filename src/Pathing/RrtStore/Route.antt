-- ===== src/Pathing/RrtStore/Route.antt =====
-- The search for the path to a node (`findPathToNode` of src/pathing/tree.cpp) against a recursive
-- search over the tree that the store lays out.
use obcpp.Base.{
  ℕ, zero, suc, ◌+◌, ◌-◌, ◌*◌, ◌≤◌, ◌≡◌, refl, sym, ap, subst, ◌∙◌, ◌≢◌, inl, inr, true, false,
  Option, none, some, List, [], ◌∷◌, ◌++◌, arith, leb, ◌==◌, if◌then◌else◌, Bool-cases,
  Option-cases, length, get_elem?, length-append,
}
use mathlib.Core.List.{append_assoc}
use obcpp.Pathing.RrtStore.{Node, Tree}
use obcpp.Pathing.RrtStore.Search.{
  Found, path_found, not_found, dfs, find_path_to_node, get_path_segment, build_path_from_nodes,
  drop_first, reverse, child_of,
}

-- A tree of addresses.
mutual
  pub data Shape : Type 0 where
    branch : ℕ → Shapes → Shape

  pub data Shapes : Type 0 where
    no_shapes : Shapes
    with_shape : Shape → Shapes → Shapes

abbrev pub root_of : Shape → ℕ
root_of (branch a kids) = a

abbrev pub roots_of : Shapes → List ℕ
roots_of no_shapes = []
roots_of (with_shape s rest) = root_of s ∷ roots_of rest

unfoldable mutual
  pub size : Shape → ℕ
  size (branch a kids) = suc (size_all kids)

  pub size_all : Shapes → ℕ
  size_all no_shapes = 0
  size_all (with_shape s rest) = size s + size_all rest

unfoldable mutual
  -- The addresses from the root to the first occurrence of the target.
  pub route : ℕ → Shape → Option (List ℕ)
  route target (branch a kids) =
      let below = route_all target kids in
      if a == target then some (a ∷ []) else elim below [ none ↦ none | some r ↦ some (a ∷ r) ]

  pub route_all : ℕ → Shapes → Option (List ℕ)
  route_all target no_shapes = none
  route_all target (with_shape s rest) =
      let later = route_all target rest in elim (route target s) [ none ↦ later | some r ↦ some r ]

mutual
  unfolding route

  route_long : (target : ℕ) (s : Shape) (r : List ℕ) → route target s ≡ some r → 1 ≤ length r
  route_long target (branch a kids) r e = elim (Bool-cases (a == target)) [
    | inl y ↦ let same : some (a ∷ []) ≡ some r = ground (arith, e, y) in ground (arith, same)
    | inr other ↦ elim (Option-cases (route_all target kids)) [
      | inl gone ↦ ground (arith, e, other, gone)
      | inr (q, found) ↦
          let same : some (a ∷ q) ≡ some r = ground (arith, e, other, found) in ground (arith, same)
    ]
  ]

  route_all_long :
      (target : ℕ) (kids : Shapes) (r : List ℕ) → route_all target kids ≡ some r → 1 ≤ length r
  route_all_long target no_shapes r e = ground arith
  route_all_long target (with_shape s rest) r e = elim (Option-cases (route target s)) [
    | inl gone ↦ route_all_long target rest r (ground (arith, e, gone))
    | inr (q, found) ↦ route_long target s r (ground (arith, e, found))
  ]

abbrev prefix : ℕ → Option (List ℕ) → Option (List ℕ)
prefix a none = none
prefix a (some r) = some (a ∷ r)

module _ (target : ℕ) where
  -- The answer when the path from the root on is known.
  abbrev answer : List ℕ → Found
  answer path =
      if leb (length path) 1
      then path_found (target ∷ target ∷ [])
      else path_found (drop_first path)

  -- The loop goes on where the target has not been found.
  abbrev settle : Option (List ℕ) → List ℕ → Found → Found
  settle none path rest = rest
  settle (some r) path rest = answer (reverse path ++ r)

  settle-prefix :
      (o later : Option (List ℕ)) (a : ℕ) (path : List ℕ) (rest : Found)
      → settle o (a ∷ path) (settle (prefix a later) path rest)
        ≡ settle (prefix a (elim o [ none ↦ later | some r ↦ some r ])) path rest
  settle-prefix none later a path rest = refl
  settle-prefix (some r) later a path rest = ap answer (append_assoc (reverse path) (a ∷ []) r)

module _ {Point Coord Length : Type 0} (nodes : List (Node Point Coord Length)) where
  unfoldable mutual
    -- The store lays out the tree.
    pub IsLaid : Shape → Type 0
    IsLaid (branch a kids) =
        (n : Node Point Coord Length) × (get_elem? nodes a ≡ some n)
        × (n.reachable ≡ roots_of kids)
        × IsLaidAll kids

    pub IsLaidAll : Shapes → Type 0
    IsLaidAll no_shapes = Unit
    IsLaidAll (with_shape s rest) = IsLaid s × IsLaidAll rest

  module _ (target : ℕ) where
    dfs_done : (g : ℕ) → 1 ≤ g → dfs g nodes target [] [] ≡ not_found
    unfolding dfs
    dfs_done zero h = absurd (omega (arith, h))
    dfs_done (suc g) h = refl

    dfs-found :
        (a k f : ℕ) (below : List (ℕ × ℕ)) (path : List ℕ)
        → (a == target) ≡ true
        → dfs (suc f) nodes target ((a, k) ∷ below) (a ∷ path)
          ≡ answer target (reverse path ++ a ∷ [])
    unfolding dfs
    dfs-found a k f below [] e = ground (arith, e)
    dfs-found a k f below (x ∷ path) e =
        let long : leb (length (reverse (x ∷ path) ++ a ∷ [])) 1 ≡ false = ground (
          arith,
          length-append (reverse (x ∷ path)) (a ∷ []),
          length-append (reverse path) (x ∷ []),
        ) in
        let long' : leb (length (a ∷ x ∷ path)) 1 ≡ false = ground arith in rw (e, long, long') refl

    dfs-pop :
        (a k f : ℕ) (below : List (ℕ × ℕ)) (path : List ℕ)
        → (a == target) ≡ false
        → child_of nodes a k ≡ none
        → dfs (suc f) nodes target ((a, k) ∷ below) (a ∷ path) ≡ dfs f nodes target below path
    unfolding dfs
    dfs-pop a k f below path other e = rw (other, e) refl

    dfs-push :
        (a k f b : ℕ) (below : List (ℕ × ℕ)) (path : List ℕ)
        → (a == target) ≡ false
        → child_of nodes a k ≡ some b
        → dfs (suc f) nodes target ((a, k) ∷ below) (a ∷ path)
          ≡ dfs f nodes target ((b, 0) ∷ (a, suc k) ∷ below) (b ∷ a ∷ path)
    unfolding dfs
    dfs-push a k f b below path other e = rw (other, e) refl

    mutual
      unfolding route size IsLaid

      dfs-branch :
          (s : Shape) (fuel g : ℕ) (below : List (ℕ × ℕ)) (path : List ℕ)
          → IsLaid s
          → fuel + 1 ≡ 2 * size s + g
          → dfs fuel nodes target ((root_of s, 0) ∷ below) (root_of s ∷ path)
            ≡ settle target (route target s) path (dfs g nodes target below path)
      dfs-branch (branch a kids) fuel g below path (n, there, reach, laid) e =
          let e' : fuel ≡ suc (2 * size_all kids + g) = omega (arith, e) in
          elim (Bool-cases (a == target)) [
            | inl y ↦ rw (e', y) (dfs-found a 0 (2 * size_all kids + g) below path y)
            | inr other ↦ rw other (
                dfs-kids kids a 0 n fuel g below path there
                  (λ j. let same : 0 + j ≡ j = omega arith in rw (reach, same) refl) other laid
                  (omega (arith, e')))
          ]

      dfs-kids :
          (kids : Shapes) (a k : ℕ) (n : Node Point Coord Length) (fuel g : ℕ)
          (below : List (ℕ × ℕ)) (path : List ℕ)
          → get_elem? nodes a ≡ some n
          → ((j : ℕ) → get_elem? n.reachable (k + j) ≡ get_elem? (roots_of kids) j)
          → (a == target) ≡ false
          → IsLaidAll kids
          → fuel ≡ 2 * size_all kids + 1 + g
          → dfs fuel nodes target ((a, k) ∷ below) (a ∷ path)
            ≡ settle target (prefix a (route_all target kids)) path (dfs g nodes target below path)
      dfs-kids no_shapes a k n fuel g below path there at other laid e =
          let e' : fuel ≡ suc g = omega (arith, e) in
          let last : child_of nodes a k ≡ none = ground (arith, there, at 0) in
          rw e' (dfs-pop a k g below path other last)
      dfs-kids (with_shape s rest) a k n fuel g below path there at other (h, hs) e =
          let f = 2 * size s + 2 * size_all rest + g in
          let e' : fuel ≡ suc f = omega (arith, e) in
          let g' = 2 * size_all rest + 1 + g in
          let next : child_of nodes a k ≡ some (root_of s) = ground (arith, there, at 0) in
          let later =
            dfs-kids rest a (suc k) n g' g below path there
              (λ j.
                subst (λ i. get_elem? n.reachable i ≡ get_elem? (roots_of rest) j) (omega arith)
                  (at (suc j)))
              other hs refl in
          rw e' (
            dfs-push a k f (root_of s) below path other next
            ∙ dfs-branch s f g' ((a, suc k) ∷ below) (a ∷ path) h (omega arith)
            ∙ ap (settle target (route target s) (a ∷ path)) later
            ∙ settle-prefix target (route target s) (route_all target rest) a path
                (dfs g nodes target below path))

module _ {Point Coord Length : Type 0} (t : Tree Point Coord Length) (target : ℕ) where
  -- The path below the root.
  abbrev pub below_root : Option (List ℕ) → Found
  below_root none = not_found
  below_root (some r) = path_found (drop_first r)

  answer-route :
      (s : Shape) (rest : Found)
      → root_of s ≢ target
      → rest ≡ not_found
      → settle target (route target s) [] rest ≡ below_root (route target s)
  unfolding route
  answer-route (branch a kids) rest other e =
      let no_match : (a == target) ≡ false = ground arith in
      elim (Option-cases (route_all target kids)) [
        | inl gone ↦ rw (no_match, gone) e
        | inr (r, found) ↦
            let long : leb (suc (length r)) 1 ≡ false =
              ground (arith, route_all_long target kids r found) in
            rw (no_match, found, long) refl
      ]

  pub find_path_to_node_lem :
      (fuel : ℕ) (s : Shape)
      → IsLaid t.nodes s
      → root_of s ≡ t.current_head
      → t.current_head ≢ target
      → 2 * size s ≤ fuel
      → find_path_to_node fuel t target ≡ below_root (route target s)
  unfolding find_path_to_node
  find_path_to_node_lem fuel s laid e other enough =
      let g = fuel + 1 - 2 * size s in
      let away : (target == t.current_head) ≡ false = ground (arith, other) in
      let search : dfs fuel t.nodes target ((t.current_head, 0) ∷ []) (t.current_head ∷ [])
          ≡ settle target (route target s) [] (dfs g t.nodes target [] []) =
        subst
          (λ a.
            dfs fuel t.nodes target ((a, 0) ∷ []) (a ∷ [])
            ≡ settle target (route target s) [] (dfs g t.nodes target [] []))
          e (dfs-branch t.nodes target s fuel g [] [] laid (omega (arith, enough))) in
      rw away (
        search
        ∙ answer-route s (dfs g t.nodes target [] []) (λ q. other (sym e ∙ q))
            (dfs_done t.nodes target g (omega (arith, enough))))

  -- Where the store lays out a tree with no more nodes than the store has, from the current head on,
  -- the search for another node ends: the segment is made of the edges on the way to the first
  -- occurrence of the node in a recursive search, and is empty where the node is not in the tree.
  pub get_path_segment_lem :
      (s : Shape)
      → IsLaid t.nodes s
      → root_of s ≡ t.current_head
      → t.current_head ≢ target
      → size s ≤ length t.nodes
      → get_path_segment t target
        ≡ some (elim (route target s) [
          | none ↦ []
          | some r ↦ build_path_from_nodes t.nodes (drop_first r)
        ])
  unfolding get_path_segment
  get_path_segment_lem s laid e other small =
      let away : (target == t.current_head) ≡ false = ground (arith, other) in
      let found =
        find_path_to_node_lem (2 * length t.nodes) s laid e other (omega (arith, small)) in
      elim (Option-cases (route target s)) [
        | inl gone ↦ rw (away, found, gone) refl
        | inr (r, there) ↦ rw (away, found, there) refl
      ]
