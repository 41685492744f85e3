-- ===== src/Pathing/RrtStore.antt =====
-- The tree of the path search as a store of shared nodes (src/pathing/tree.cpp): a node's address is
-- its place in the store. Points, coordinates, lengths and curves are parameters, with the curves of
-- src/pathing/dubins.cpp and the airspace's check of a path.
pub mod Search
pub mod Optimize
pub mod Edges
pub mod Route
use obcpp.Base.{
  ℕ, zero, suc, ◌+◌, Bool, Option, none, some, [], ◌∷◌, ◌++◌, ◌==◌, if◌then◌else◌, length, List,
}

pub record Node (Point Coord Length : Type 0) : Type 0 where
  pub point : Point
  pub cost : Length
  pub path_length : Length
  pub path : List Coord
  pub reachable : List ℕ

pub record Tree (Point Coord Length : Type 0) : Type 0 where
  pub nodes : List (Node Point Coord Length)
  pub root : ℕ
  pub current_head : ℕ
  pub tree_size : ℕ

-- The curves between points, shortest first in `sorted_options`; a length that is not a number or is
-- infinite is of no use.
pub record Curves (Point Coord Length Curve : Type 0) : Type 0 where
  pub all_options : Point → Point → List Curve
  pub sorted_options : Point → Point → List Curve
  pub curve_length : Curve → Length
  pub is_useful : Length → Bool
  pub generate_points : Point → Point → Curve → List Coord
  pub is_path_in_bounds : List Coord → Bool
  pub zero_length : Length
  pub add : Length → Length → Length
  pub less : Length → Length → Bool
  pub coord_distance_squared : Point → Point → Length
  pub distance_squared : Point → Point → Length

-- What a node becomes; an address that is not in the store changes nothing.
unfoldable pub modify : {A : Type 0} → (A → A) → List A → ℕ → List A
modify f [] a = []
modify f (x ∷ xs) zero = f x ∷ xs
modify f (x ∷ xs) (suc a) = x ∷ modify f xs a

-- The first of the same addresses is taken out.
abbrev remove : ℕ → List ℕ → List ℕ
remove a [] = []
remove a (b ∷ bs) = let rest = remove a bs in if b == a then bs else b ∷ rest

module _ {Point Coord Length : Type 0} where
  unfoldable pub add_reachable :
      List (Node Point Coord Length) → ℕ → ℕ → List (Node Point Coord Length)
  unfolding modify
  add_reachable nodes a new = modify (λ n. record n { reachable = n.reachable ++ new ∷ [] }) nodes a

  unfoldable pub remove_reachable :
      List (Node Point Coord Length) → ℕ → ℕ → List (Node Point Coord Length)
  unfolding modify
  remove_reachable nodes a old =
      modify (λ n. record n { reachable = remove old n.reachable }) nodes a

  -- The constructor: the root alone.
  unfoldable pub new_tree : Length → Point → Tree Point Coord Length
  new_tree zero_length point = record {
    nodes =
        record {
          point = point;
          cost = zero_length;
          path_length = zero_length;
          path = [];
          reachable = [];
        }
        ∷ [];
    root = 0;
    current_head = 0;
    tree_size = 1;
  }

  -- The new node gets the next address.
  unfoldable pub add_node :
      Tree Point Coord Length → ℕ → Node Point Coord Length → Tree Point Coord Length
  unfolding add_reachable
  add_node t anchor new = record t {
    nodes = add_reachable t.nodes anchor (length t.nodes) ++ new ∷ [];
    tree_size = t.tree_size + 1;
  }

  unfoldable pub set_current_head : Tree Point Coord Length → ℕ → Tree Point Coord Length
  set_current_head t goal = record t { tree_size = 1; current_head = goal }

module _ {Point Coord Length Curve : Type 0} (c : Curves Point Coord Length Curve) where
  -- None where the path leaves the bounds.
  unfoldable pub generate_node :
      Node Point Coord Length → Point → Curve → Option (Node Point Coord Length)
  generate_node anchor new_point option =
      let path = c.generate_points anchor.point new_point option in
      if c.is_path_in_bounds path
      then some record {
        point = new_point;
        cost = c.add anchor.cost (c.curve_length option);
        path_length = c.curve_length option;
        path = path;
        reachable = [];
      }
      else none

  -- The tree and the address of the new node, if it has been added.
  unfoldable pub add_sample :
      Tree Point Coord Length
      → (anchor : ℕ) → Node Point Coord Length
      → Point
      → Curve
      → Tree Point Coord Length × Option ℕ
  unfolding generate_node add_node
  add_sample t anchor anchor_node new_point option =
      elim (generate_node anchor_node new_point option) [
        | none ↦ (t, none)
        | some new ↦ (add_node t anchor new, some (length t.nodes))
      ]
