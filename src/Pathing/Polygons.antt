-- ===== src/Pathing/Polygons.antt =====
-- Polygons, segments and boxes (src/pathing/environment.cpp). The doubles and
-- their operations are a parameter.
pub mod Crossings
pub mod Lines
pub mod Endpoints
pub mod Estimate
pub mod Whole
mod Examples
use obcpp.Base.{
  ℕ, List, zero, suc, Bool, true, false, not, ◌&&◌, ◌||◌, Option, none, some, [], ◌∷◌, ◌==◌,
  if◌then◌else◌,
}
use obcpp.Base.Int.{ℤ, pos, negsuc}
use obcpp.Pathing.Environment.{Environment}

-- `truncated` is the conversion of a double to an int.
pub record Double (R : Type 0) : Type 0 where
  pub plus : R → R → R
  pub minus : R → R → R
  pub times : R → R → R
  pub over : R → R → R
  pub less : R → R → Bool
  pub at_most : R → R → Bool
  pub of_int : ℤ → R
  pub truncated : R → ℤ

pub record XyzCoord (R : Type 0) : Type 0 where
  pub x : R
  pub y : R
  pub z : R

-- The element before the first: the last, or the given one where there is no other.
unfoldable pub last_of : {A : Type 0} → A → List A → A
last_of a [] = a
last_of a (b ∷ rest) = last_of b rest

abbrev pub differ : Bool → Bool → Bool
differ a b = if a then not b else b

module _ {R : Type 0} (d : Double R) where
  unfoldable pub max_of : R → R → R
  max_of a b = if d.less a b then b else a

  unfoldable pub min_of : R → R → R
  min_of a b = if d.less b a then b else a

  -- Whether the ray from the point crosses the edge from `i` to `j`.
  unfoldable pub crosses : XyzCoord R → (i j : XyzCoord R) → Bool
  crosses point i j =
      differ (d.less point.y i.y) (d.less point.y j.y)
      && d.less point.x
          (d.plus (d.over (d.times (d.minus j.x i.x) (d.minus point.y i.y)) (d.minus j.y i.y)) i.x)

  unfoldable pub toggled : XyzCoord R → XyzCoord R → Bool → List (XyzCoord R) → Bool
  unfolding crosses
  toggled point j is_inside [] = is_inside
  toggled point j is_inside (i ∷ rest) =
      toggled point i (if crosses point i j then not is_inside else is_inside) rest

  unfoldable pub is_point_in_polygon : List (XyzCoord R) → XyzCoord R → Bool
  unfolding toggled last_of
  is_point_in_polygon [] point = false
  is_point_in_polygon (p ∷ ps) point = toggled point (last_of p ps) false (p ∷ ps)

  unfoldable pub on_segment : (p q r : XyzCoord R) → Bool
  unfolding max_of min_of
  on_segment p q r =
      d.at_most q.x (max_of p.x r.x)
      && (d.at_most (min_of p.x r.x) q.x
          && (d.at_most q.y (max_of p.y r.y) && d.at_most (min_of p.y r.y) q.y))

  -- The cross product is cut to a whole number: 0 colinear, 1 clockwise, 2 counterclockwise.
  unfoldable pub orientation : (p q r : XyzCoord R) → ℕ
  orientation p q r =
      let val = d.truncated (
        d.minus (d.times (d.minus q.y p.y) (d.minus r.x q.x))
          (d.times (d.minus q.x p.x) (d.minus r.y q.y))) in
      elim val [ pos n ↦ elim n [ zero ↦ 0 | suc m ↦ 1 ] | negsuc n ↦ 2 ]

  unfoldable pub intersect : (p1 q1 p2 q2 : XyzCoord R) → Bool
  unfolding orientation on_segment
  intersect p1 q1 p2 q2 =
      let o1 = orientation p1 q1 p2 in
      let o2 = orientation p1 q1 q2 in
      let o3 = orientation p2 q2 p1 in
      let o4 = orientation p2 q2 q1 in
      if not (o1 == o2) && not (o3 == o4)
      then true
      else (if (o1 == 0) && on_segment p1 p2 q1
          then true
          else (if (o2 == 0) && on_segment p1 q2 q1
              then true
              else (if (o3 == 0) && on_segment p2 p1 q2
                  then true
                  else (if (o4 == 0) && on_segment p2 q1 q2 then true else false))))

  unfoldable pub intersects_from : (start_point end_point j : XyzCoord R) → List (XyzCoord R) → Bool
  unfolding intersect
  intersects_from start_point end_point j [] = false
  intersects_from start_point end_point j (i ∷ rest) =
      let later = intersects_from start_point end_point i rest in
      if intersect start_point end_point i j then true else later

  unfoldable pub does_line_intersect_polygon :
      (start_point end_point : XyzCoord R) → List (XyzCoord R) → Bool
  unfolding intersects_from last_of
  does_line_intersect_polygon start_point end_point [] = false
  does_line_intersect_polygon start_point end_point (p ∷ ps) =
      intersects_from start_point end_point (last_of p ps) (p ∷ ps)

  -- No obstacle is met.
  unfoldable pub misses : (start_point end_point : XyzCoord R) → List (List (XyzCoord R)) → Bool
  unfolding does_line_intersect_polygon
  misses start_point end_point [] = true
  misses start_point end_point (obstacle ∷ rest) =
      let later = misses start_point end_point rest in
      if does_line_intersect_polygon start_point end_point obstacle then false else later

  unfoldable pub is_line_in_bounds :
      Environment (List (XyzCoord R)) → (start_point end_point : XyzCoord R) → Bool
  unfolding misses does_line_intersect_polygon
  is_line_in_bounds env start_point end_point =
      if does_line_intersect_polygon start_point end_point env.valid_region
      then false
      else misses start_point end_point env.obstacles

  -- The least and the greatest x, and those of y.
  unfoldable pub widened : (R × R) × (R × R) → List (XyzCoord R) → (R × R) × (R × R)
  unfolding max_of min_of
  widened box [] = box
  widened ((min_x, max_x), (min_y, max_y)) (point ∷ rest) =
      widened
        ((min_of min_x point.x, max_of max_x point.x), (min_of min_y point.y, max_of max_y point.y))
        rest

  unfoldable pub find_bounds : List (XyzCoord R) → (R × R) × (R × R)
  unfolding widened
  find_bounds [] = ((d.of_int (pos 0), d.of_int (pos 0)), (d.of_int (pos 0), d.of_int (pos 0)))
  find_bounds (p ∷ ps) = widened ((p.x, p.x), (p.y, p.y)) (p ∷ ps)

  -- Where a vertical line meets the edge from `p1` to `p2`.
  unfoldable pub vertical_ray_intersects_edge : (p1 p2 ray_start : XyzCoord R) → Option (XyzCoord R)
  vertical_ray_intersects_edge p1 p2 ray_start =
      if (d.at_most p2.x ray_start.x && d.at_most ray_start.x p1.x)
        || (d.at_most p1.x ray_start.x && d.at_most ray_start.x p2.x)
      then (let slope = d.over (d.minus p2.y p1.y) (d.minus p2.x p1.x) in
          some (record {
            x = ray_start.x;
            y = d.plus (d.times slope (d.minus ray_start.x p1.x)) p1.y;
            z = d.of_int (pos 0);
          }))
      else none

  unfoldable pub horizontal_ray_intersects_edge :
      (p1 p2 ray_start : XyzCoord R) → Option (XyzCoord R)
  horizontal_ray_intersects_edge p1 p2 ray_start =
      if (d.at_most p2.y ray_start.y && d.at_most ray_start.y p1.y)
        || (d.at_most p1.y ray_start.y && d.at_most ray_start.y p2.y)
      then (let inverse_slope = d.over (d.minus p2.x p1.x) (d.minus p2.y p1.y) in
          some (record {
            x = d.plus (d.times inverse_slope (d.minus ray_start.y p1.y)) p1.x;
            y = ray_start.y;
            z = d.of_int (pos 0);
          }))
      else none

  -- The edges from the first of the list on; the last edge leads to `first`.
  unfoldable pub intersections_from :
      Bool → (ray_start first : XyzCoord R) → List (XyzCoord R) → List (XyzCoord R)
  unfolding vertical_ray_intersects_edge horizontal_ray_intersects_edge
  intersections_from vertical ray_start first [] = []
  intersections_from vertical ray_start first (p1 ∷ rest) =
      let later = intersections_from vertical ray_start first rest in
      let p2 : XyzCoord R = elim rest [ [] ↦ first | next ∷ others ↦ next ] in
      let found : Option (XyzCoord R) =
        if vertical
        then vertical_ray_intersects_edge p1 p2 ray_start
        else horizontal_ray_intersects_edge p1 p2 ray_start in
      elim found [ none ↦ later | some intersection ↦ intersection ∷ later ]

  unfoldable pub find_intersections :
      List (XyzCoord R) → (ray_start : XyzCoord R) → Bool → List (XyzCoord R)
  unfolding intersections_from
  find_intersections [] ray_start vertical = []
  find_intersections (p ∷ ps) ray_start vertical = intersections_from vertical ray_start p (p ∷ ps)
