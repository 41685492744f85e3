-- ===== src/Pathing/Polygons/Crossings.antt =====
-- The edges of a polygon and the tests that walk along them (src/pathing/environment.cpp).
use obcpp.Base.{
  List, ◌≡◌, refl, ◌∙◌, ◌↔◌, Bool, true, false, not, ◌&&◌, [], ◌∷◌, arith, ◌==◌, if◌then◌else◌, All,
}
use obcpp.Pathing.Environment.{Environment}
use obcpp.Pathing.Polygons.{
  Double, XyzCoord, last_of, differ, crosses, toggled, is_point_in_polygon, orientation, on_segment,
  intersect, intersects_from, does_line_intersect_polygon, misses, is_line_in_bounds,
}

module _ {R : Type 0} where
  -- Each point with the one before it.
  unfoldable pub edges_from : XyzCoord R → List (XyzCoord R) → List (XyzCoord R × XyzCoord R)
  edges_from j [] = []
  edges_from j (i ∷ rest) = (i, j) ∷ edges_from i rest

  -- The edges of a closed polygon.
  unfoldable pub edges : List (XyzCoord R) → List (XyzCoord R × XyzCoord R)
  unfolding edges_from
  edges [] = []
  edges (p ∷ ps) = edges_from (last_of p ps) (p ∷ ps)

-- Whether a test holds for an odd number of elements.
unfoldable odd_of : {A : Type 0} → (A → Bool) → List A → Bool
odd_of test [] = false
odd_of test (a ∷ rest) = differ (test a) (odd_of test rest)

-- A test and the tests after it.
either_false :
    (a later : Bool) → ((if a then true else later) ≡ false) ↔ ((a ≡ false) × (later ≡ false))
either_false a later = (λ h. (ground arith, ground arith), λ h. ground (arith, h.0, h.1))

neither_true :
    (a later : Bool) → ((if a then false else later) ≡ true) ↔ ((a ≡ false) × (later ≡ true))
neither_true a later = (λ h. (ground arith, ground arith), λ h. ground (arith, h.0, h.1))

module _ {R : Type 0} (d : Double R) where
  toggled_lem :
      (point j : XyzCoord R) (is_inside : Bool) (ps : List (XyzCoord R))
      → toggled d point j is_inside ps
        ≡ differ is_inside (odd_of (λ e. crosses d point e.0 e.1) (edges_from j ps))
  unfolding toggled odd_of edges_from
  toggled_lem point j true [] = refl
  toggled_lem point j false [] = refl
  toggled_lem point j is_inside (i ∷ rest) =
      toggled_lem point i (if crosses d point i j then not is_inside else is_inside) rest
      ∙ differ_assoc is_inside (crosses d point i j)
          (odd_of (λ e. crosses d point e.0 e.1) (edges_from i rest))
    where
      differ_assoc : (a b c : Bool) → differ (if b then not a else a) c ≡ differ a (differ b c)
      differ_assoc true true true = refl
      differ_assoc true true false = refl
      differ_assoc true false c = refl
      differ_assoc false true c = refl
      differ_assoc false false c = refl

  -- A point is inside just when the ray from it crosses an odd number of edges.
  is_point_in_polygon_lem :
      (polygon : List (XyzCoord R)) (point : XyzCoord R)
      → is_point_in_polygon d polygon point ≡ odd_of (λ e. crosses d point e.0 e.1) (edges polygon)
  unfolding is_point_in_polygon edges odd_of
  is_point_in_polygon_lem [] point = refl
  is_point_in_polygon_lem (p ∷ ps) point = toggled_lem point (last_of p ps) false (p ∷ ps)

  -- Which of two segments comes first makes no difference.
  intersect_comm : (p1 q1 p2 q2 : XyzCoord R) → intersect d p1 q1 p2 q2 ≡ intersect d p2 q2 p1 q1
  unfolding intersect
  intersect_comm p1 q1 p2 q2 =
      swapped (not (orientation d p1 q1 p2 == orientation d p1 q1 q2))
        (not (orientation d p2 q2 p1 == orientation d p2 q2 q1))
        ((orientation d p1 q1 p2 == 0) && on_segment d p1 p2 q1)
        ((orientation d p1 q1 q2 == 0) && on_segment d p1 q2 q1)
        ((orientation d p2 q2 p1 == 0) && on_segment d p2 p1 q2)
        ((orientation d p2 q2 q1 == 0) && on_segment d p2 q1 q2)
    where
      swapped :
          (g g' a b c e : Bool)
          → (if g && g'
              then true
              else (if a
                  then true
                  else (if b then true else (if c then true else (if e then true else false)))))
            ≡ (if g' && g
                then true
                else (if c
                    then true
                    else (if e then true else (if a then true else (if b then true else false)))))
      swapped g g' a b c e = ground arith

  intersects_from_lem :
      (s e j : XyzCoord R) (ps : List (XyzCoord R))
      → (intersects_from d s e j ps ≡ false)
        ↔ All (λ edge. intersect d s e edge.0 edge.1 ≡ false) (edges_from j ps)
  unfolding intersects_from edges_from
  intersects_from_lem s e j [] = (λ h. tt, λ h. refl)
  intersects_from_lem s e j (i ∷ rest) =
      let (to, from) = intersects_from_lem s e i rest in
      let (split, joined) = either_false (intersect d s e i j) (intersects_from d s e i rest) in
      (λ h. let both = split h in (both.0, to both.1), λ h. joined (h.0, from h.1))

  does_line_intersect_polygon_lem :
      (s e : XyzCoord R) (polygon : List (XyzCoord R))
      → (does_line_intersect_polygon d s e polygon ≡ false)
        ↔ All (λ edge. intersect d s e edge.0 edge.1 ≡ false) (edges polygon)
  unfolding does_line_intersect_polygon edges
  does_line_intersect_polygon_lem s e [] = (λ h. tt, λ h. refl)
  does_line_intersect_polygon_lem s e (p ∷ ps) = intersects_from_lem s e (last_of p ps) (p ∷ ps)

  misses_lem :
      (s e : XyzCoord R) (obstacles : List (List (XyzCoord R)))
      → (misses d s e obstacles ≡ true)
        ↔ All
            (λ polygon. All (λ edge. intersect d s e edge.0 edge.1 ≡ false) (edges polygon))
            obstacles
  unfolding misses
  misses_lem s e [] = (λ h. tt, λ h. refl)
  misses_lem s e (o ∷ rest) =
      let (to, from) = misses_lem s e rest in
      let (to', from') = does_line_intersect_polygon_lem s e o in
      let (split, joined) =
        neither_true (does_line_intersect_polygon d s e o) (misses d s e rest) in
      (λ h. let both = split h in (to' both.0, to both.1), λ h. joined (from' h.0, from h.1))

  -- A segment is in bounds just when it meets no edge, neither of the region nor of an obstacle.
  pub is_line_in_bounds_lem :
      (env : Environment (List (XyzCoord R))) (s e : XyzCoord R)
      → (is_line_in_bounds d env s e ≡ true)
        ↔ All
            (λ polygon. All (λ edge. intersect d s e edge.0 edge.1 ≡ false) (edges polygon))
            (env.valid_region ∷ env.obstacles)
  unfolding is_line_in_bounds
  is_line_in_bounds_lem env s e =
      let (to, from) = misses_lem s e env.obstacles in
      let (to', from') = does_line_intersect_polygon_lem s e env.valid_region in
      let (split, joined) =
        neither_true (does_line_intersect_polygon d s e env.valid_region)
          (misses d s e env.obstacles) in
      (λ h. let both = split h in (to' both.0, to both.1), λ h. joined (from' h.0, from h.1))
