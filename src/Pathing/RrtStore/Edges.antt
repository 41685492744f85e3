-- ===== src/Pathing/RrtStore/Edges.antt =====
-- The edges of the tree lead from its nodes and stay in bounds (src/pathing/tree.cpp).
pub mod Rewired
pub mod Options
use obcpp.Base.{
  ℕ, zero, suc, ◌≡◌, ◌≢◌, refl, sym, ◌∙◌, ap, subst, ◌⊎◌, inl, inr, Bool, true, false, none, some,
  List, [], ◌∷◌, ◌++◌, arith, ◌==◌, if◌then◌else◌, length, get_elem?, Option-cases,
}
use obcpp.Pathing.RrtStore.{
  Node, Tree, Curves, modify, add_reachable, add_node, generate_node, add_sample,
}

module _ {A : Type 0} where
  some-injective : {a b : A} → some a ≡ some b → a ≡ b
  some-injective {a} e = ap (λ o. elim o [ none ↦ a | some y ↦ y ]) e

  -- An element after a change of one element, and before it.
  pub modified_from :
      (f : A → A) (xs : List A) (a b : ℕ) (x' : A)
      → get_elem? (modify f xs a) b ≡ some x'
      → (x : A) × (get_elem? xs b ≡ some x) × (((b ≢ a) × (x' ≡ x)) ⊎ ((b ≡ a) × (x' ≡ f x)))
  unfolding modify
  modified_from f [] a b x' e = ground arith
  modified_from f (x ∷ xs) zero zero x' e = (x, refl, inr (refl, sym (some-injective e)))
  modified_from f (x ∷ xs) zero (suc b) x' e = (x', e, inl (λ h. omega (arith, h), refl))
  modified_from f (x ∷ xs) (suc a) zero x' e =
      (x, refl, inl (λ h. omega (arith, h), sym (some-injective e)))
  modified_from f (x ∷ xs) (suc a) (suc b) x' e =
      let (y, g, which) = modified_from f xs a b x' e in
      (
        y,
        g,
        elim which [
          | inl (h, same) ↦ inl (λ k. h (omega (arith, k)), same)
          | inr (h, same) ↦ inr (ap suc h, same)
        ],
      )

  pub modified_to :
      (f : A → A) (xs : List A) (a b : ℕ) (x : A)
      → get_elem? xs b ≡ some x
      → (x' : A) × (get_elem? (modify f xs a) b ≡ some x') × ((x' ≡ x) ⊎ (x' ≡ f x))
  unfolding modify
  modified_to f [] a b x e = ground arith
  modified_to f (y ∷ xs) zero zero x e = (f x, ap some (ap f (some-injective e)), inr refl)
  modified_to f (y ∷ xs) zero (suc b) x e = (x, e, inl refl)
  modified_to f (y ∷ xs) (suc a) zero x e = (x, e, inl refl)
  modified_to f (y ∷ xs) (suc a) (suc b) x e = modified_to f xs a b x e

  pub modified_at :
      (f : A → A) (xs : List A) (a : ℕ) (x : A)
      → get_elem? xs a ≡ some x
      → get_elem? (modify f xs a) a ≡ some (f x)
  unfolding modify
  modified_at f [] a x e = ground arith
  modified_at f (y ∷ xs) zero x e = ap some (ap f (some-injective e))
  modified_at f (y ∷ xs) (suc a) x e = modified_at f xs a x e

  appended_to :
      (xs ys : List A) (b : ℕ) (x : A) → get_elem? xs b ≡ some x → get_elem? (xs ++ ys) b ≡ some x
  appended_to [] ys b x e = ground arith
  appended_to (y ∷ xs) ys zero x e = e
  appended_to (y ∷ xs) ys (suc b) x e = appended_to xs ys b x e

  appended_from :
      (xs : List A) (new : A) (b : ℕ) (x : A)
      → get_elem? (xs ++ new ∷ []) b ≡ some x
      → (get_elem? xs b ≡ some x) ⊎ ((b ≡ length xs) × (x ≡ new))
  appended_from [] new zero x e = inr (refl, sym (some-injective e))
  appended_from [] new (suc b) x e = ground arith
  appended_from (y ∷ xs) new zero x e = inl e
  appended_from (y ∷ xs) new (suc b) x e = elim (appended_from xs new b x e) [
    | inl g ↦ inl g
    | inr (h, same) ↦ inr (ap suc h, same)
  ]

  length-modify : (f : A → A) (xs : List A) (a : ℕ) → length (modify f xs a) ≡ length xs
  unfolding modify
  length-modify f [] a = refl
  length-modify f (x ∷ xs) zero = refl
  length-modify f (x ∷ xs) (suc a) = ap suc (length-modify f xs a)

kept_some :
    {A : Type 0} (P : A → Type 0) (b : Bool) {x new : A}
    → (b ≡ true → P x)
    → (if b then some x else none) ≡ some new
    → P new
kept_some P true {x} h e = subst P (some-injective e) (h refl)
kept_some P false h e = ground arith

abbrev pub has : ℕ → List ℕ → Bool
has b [] = false
has b (a ∷ rest) = let later = has b rest in if a == b then true else later

pub has-append : (b : ℕ) (xs ys : List ℕ) → has b xs ≡ true → has b (xs ++ ys) ≡ true
has-append b [] ys h = ground arith
has-append b (x ∷ xs) ys h = ground (arith, has-append b xs ys)

pub has_last : (b : ℕ) (xs : List ℕ) → has b (xs ++ b ∷ []) ≡ true
has_last b [] = ground arith
has_last b (x ∷ xs) = ground (arith, has_last b xs)

module _ {Point Coord Length Curve : Type 0} (c : Curves Point Coord Length Curve) where
  abbrev pub Nodes : Type 0
  Nodes = List (Node Point Coord Length)

  -- The path of the node at an address is that of a curve from a node from which it is reachable, its
  -- parent, and is in bounds.
  abbrev pub HasParent : List (Node Point Coord Length) → ℕ → Node Point Coord Length → Type 0
  HasParent nodes b n =
      (a : ℕ) × (m : Node Point Coord Length) × (option : Curve) × (get_elem? nodes a ≡ some m)
      × (has b m.reachable ≡ true)
      × (n.path ≡ c.generate_points m.point n.point option)
      × (c.is_path_in_bounds n.path ≡ true)

  -- The nodes at some of the addresses have parents, but the root, whose path is empty.
  abbrev pub LinkedOn : (ℕ → Type 0) → List (Node Point Coord Length) → Type 0
  LinkedOn Q nodes =
      (b : ℕ) (n : Node Point Coord Length)
      → Q b
      → get_elem? nodes b ≡ some n
      → ((b ≡ 0) × (n.path ≡ [])) ⊎ HasParent nodes b n

  -- All nodes have parents, but the root, whose path is empty.
  abbrev pub IsLinked : List (Node Point Coord Length) → Type 0
  IsLinked nodes =
      (b : ℕ) (n : Node Point Coord Length)
      → get_elem? nodes b ≡ some n
      → ((b ≡ 0) × (n.path ≡ [])) ⊎ HasParent nodes b n

  -- A change of one node that keeps its point and the nodes reachable from it that count, and its path
  -- if it counts itself.
  pub modify-LinkedOn :
      (Q : ℕ → Type 0) (f : Node Point Coord Length → Node Point Coord Length)
      (nodes : List (Node Point Coord Length)) (a : ℕ)
      → ((m : Node Point Coord Length) → (f m).point ≡ m.point)
      → (((m : Node Point Coord Length) → (f m).path ≡ m.path) ⊎ ((b : ℕ) → Q b → b ≢ a))
      → ((m : Node Point Coord Length) (b : ℕ)
          → Q b
          → has b m.reachable ≡ true
          → has b (f m).reachable ≡ true)
      → LinkedOn Q nodes
      → LinkedOn Q (modify f nodes a)
  modify-LinkedOn Q f nodes a points paths reach h b n' q e =
      let (n, g, which) = modified_from f nodes a b n' e in
      let path : n'.path ≡ n.path = elim which [
        | inl (other, same) ↦ ap (λ x. x.path) same
        | inr (here, same) ↦ elim paths [
          | inl kept ↦ ap (λ x. x.path) same ∙ kept n
          | inr away ↦ absurd (away b q here)
        ]
      ] in
      let point : n'.point ≡ n.point = elim which [
        | inl (other, same) ↦ ap (λ x. x.point) same
        | inr (here, same) ↦ ap (λ x. x.point) same ∙ points n
      ] in
      elim (h b n q g) [
        | inl (first, empty) ↦ inl (first, path ∙ empty)
        | inr (p, m, option, at, child, drawn, valid) ↦
            let (m', at', which') = modified_to f nodes a p m at in
            let origin : m'.point ≡ m.point = elim which' [
              | inl same ↦ ap (λ x. x.point) same
              | inr same ↦ ap (λ x. x.point) same ∙ points m
            ] in
            let child' : has b m'.reachable ≡ true = elim which' [
              | inl same ↦ ap (λ x. has b x.reachable) same ∙ child
              | inr same ↦ ap (λ x. has b x.reachable) same ∙ reach m b q child
            ] in
            inr (
              p,
              m',
              option,
              at',
              child',
              path
                  ∙ drawn
                  ∙ sym (
                      ap (λ x. c.generate_points x n'.point option) origin
                      ∙ ap (λ x. c.generate_points m.point x option) point),
              ap c.is_path_in_bounds path ∙ valid,
            )
      ]

  -- The node at an address has this point.
  abbrev pub PointOf : List (Node Point Coord Length) → ℕ → Point → Type 0
  PointOf nodes a q = (m : Node Point Coord Length) × (get_elem? nodes a ≡ some m) × (m.point ≡ q)

  -- A new node whose path is that of a curve from the node at the given address.
  pub add_node-IsLinked :
      (t : Tree Point Coord Length) (anchor : ℕ) (new : Node Point Coord Length) (from : Point)
      (option : Curve)
      → IsLinked t.nodes
      → PointOf t.nodes anchor from
      → new.path ≡ c.generate_points from new.point option
      → c.is_path_in_bounds new.path ≡ true
      → IsLinked (add_node t anchor new).nodes
  unfolding add_node add_reachable
  add_node-IsLinked t anchor new from option h (m, e, at) drawn valid b n g =
      let a = length t.nodes in
      let f = λ (x : Node Point Coord Length). record x { reachable = x.reachable ++ a ∷ [] } in
      let nodes1 = modify f t.nodes anchor in
      let linked1 : LinkedOn (λ x. Unit) nodes1 =
        modify-LinkedOn (λ x. Unit) f t.nodes anchor (λ x. refl) (inl (λ x. refl))
          (λ x y q r. has-append y x.reachable (a ∷ []) r) (λ x y q. h x y) in
      elim (appended_from nodes1 new b n g) [
        | inl g' ↦ elim (linked1 b n tt g') [
          | inl root ↦ inl root
          | inr (p, m', o, at', child, drawn', valid') ↦
              inr (p, m', o, appended_to nodes1 (new ∷ []) p m' at', child, drawn', valid')
        ]
        | inr (last, same) ↦
            let address : b ≡ a = last ∙ length-modify f t.nodes anchor in
            inr (
              anchor,
              f m,
              option,
              appended_to nodes1 (new ∷ []) anchor (f m) (modified_at f t.nodes anchor m e),
              subst (λ x. has x (m.reachable ++ a ∷ []) ≡ true) (sym address)
                  (has_last a m.reachable),
              ap (λ x. x.path) same
                  ∙ drawn
                  ∙ sym (
                      ap (λ x. c.generate_points x n.point option) at
                      ∙ ap (λ x. c.generate_points from x.point option) same),
              ap (λ x. c.is_path_in_bounds x.path) same ∙ valid,
            )
      ]

  -- What a generated node is.
  pub generate_node_lem :
      (anchor : Node Point Coord Length) (point : Point) (option : Curve)
      (new : Node Point Coord Length)
      → generate_node c anchor point option ≡ some new
      → (new.path ≡ c.generate_points anchor.point new.point option)
        × (c.is_path_in_bounds new.path ≡ true)
  unfolding generate_node
  generate_node_lem anchor point option new e =
      kept_some
        (λ n.
          (n.path ≡ c.generate_points anchor.point n.point option)
          × (c.is_path_in_bounds n.path ≡ true))
        (c.is_path_in_bounds (c.generate_points anchor.point point option)) (λ valid. (refl, valid))
        e

  pub add_sample-IsLinked :
      (t : Tree Point Coord Length) (a : ℕ) (node : Node Point Coord Length) (point : Point)
      (option : Curve)
      → IsLinked t.nodes
      → get_elem? t.nodes a ≡ some node
      → IsLinked (add_sample c t a node point option).0.nodes
  unfolding add_sample
  add_sample-IsLinked t a node point option h at =
      elim (Option-cases (generate_node c node point option)) [
        | inl gone ↦ rw (gone, add_sample) h
        | inr (new, made) ↦
            let (drawn, valid) = generate_node_lem node point option new made in
            rw (made, add_sample)
              (add_node-IsLinked t a new node.point option h (node, at, refl) drawn valid)
      ]
