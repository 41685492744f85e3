-- ===== src/Pathing/HoverCoverage.antt =====
-- The stops of a search that hovers over the airdrop zone (`HoverCoveragePathing` of
-- src/pathing/static.cpp). Loops over doubles run on fuel; without enough of it, or with a zone that
-- has no four corners, there is none.
pub mod Grid
mod Examples
use obcpp.Base.{
  ℕ, List, zero, suc, Bool, true, not, Option, none, some, [], ◌∷◌, ◌++◌, map, if◌then◌else◌,
  length,
}
use mathlib.Core.List.{reverse}
use obcpp.Base.Int.{pos}
use obcpp.Pathing.Polygons.{Double, XyzCoord, max_of, min_of, is_point_in_polygon}

module _ {R : Type 0} (d : Double R) where
  abbrev summed : (XyzCoord R → R) → R → List (XyzCoord R) → R
  summed f total [] = total
  summed f total (point ∷ rest) = summed f (d.plus total (f point)) rest

  unfoldable pub calculate_center : List (XyzCoord R) → XyzCoord R
  calculate_center polygon =
      let count = d.of_int (pos (length polygon)) in
      record {
        x = d.over (summed (λ p. p.x) (d.of_int (pos 0)) polygon) count;
        y = d.over (summed (λ p. p.y) (d.of_int (pos 0)) polygon) count;
        z = d.of_int (pos 0);
      }

  -- The three loops treat each point by itself.
  unfoldable pub scale_polygon : List (XyzCoord R) → R → List (XyzCoord R)
  unfolding calculate_center
  scale_polygon polygon scale_factor =
      let center = calculate_center polygon in
      map
        (λ point. record {
          x = d.plus (d.times (d.minus point.x center.x) scale_factor) center.x;
          y = d.plus (d.times (d.minus point.y center.y) scale_factor) center.y;
          z = point.z;
        })
        polygon

  module _ (vision altitude : R) where
    abbrev pub stop_at : R → R → XyzCoord R
    stop_at y x = record { x = x; y = y; z = altitude }

    -- One row from left to right: the points that a test accepts.
    unfoldable pub row :
        (XyzCoord R → Bool) → (stop_x y : R) → (fuel : ℕ) (x : R) → Option (List (XyzCoord R))
    row accepted stop_x y zero x = none
    row accepted stop_x y (suc f) x =
        let later = row accepted stop_x y f (d.plus x vision) in
        if d.less x stop_x
        then elim later [
          | none ↦ none
          | some points ↦ some (if accepted (stop_at y x) then stop_at y x ∷ points else points)
        ]
        else some []

    -- The rows from a height down, to the right and to the left in turn.
    unfoldable pub hover_rows :
        (R → Option (List (XyzCoord R)))
        → (stop_y : R) → Bool
        → (fuel : ℕ) (y : R) → Option (List (XyzCoord R))
    hover_rows row_at stop_y right zero y = none
    hover_rows row_at stop_y right (suc f) y =
        let later = hover_rows row_at stop_y (not right) f (d.minus y vision) in
        if d.less stop_y y
        then elim (row_at y) [
          | none ↦ none
          | some points ↦ elim later [
            | none ↦ none
            | some rest ↦ some ((if right then points else reverse points) ++ rest)
          ]
        ]
        else some []

    abbrev pub half_vision : R
    half_vision = d.over vision (d.of_int (pos 2))

    -- The start and the end of the rows, and those of each row.
    abbrev pub start_y : (top_left top_right : XyzCoord R) → R
    start_y top_left top_right = d.minus (max_of d top_left.y top_right.y) half_vision

    abbrev pub stop_y : (bottom_left bottom_right : XyzCoord R) → R
    stop_y bottom_left bottom_right = d.minus (min_of d bottom_left.y bottom_right.y) half_vision

    abbrev pub start_x : (top_left bottom_left : XyzCoord R) → R
    start_x top_left bottom_left = d.plus (min_of d top_left.x bottom_left.x) half_vision

    abbrev pub stop_x : (top_right bottom_right : XyzCoord R) → R
    stop_x top_right bottom_right = d.plus (max_of d top_right.x bottom_right.x) half_vision

    -- The zone, a fifth larger.
    unfoldable pub in_scaled_zone : List (XyzCoord R) → XyzCoord R → Bool
    in_scaled_zone drop_zone =
        is_point_in_polygon d
          (scale_polygon drop_zone (d.over (d.of_int (pos 12)) (d.of_int (pos 10))))

    unfoldable pub hover_coverage : (fuel : ℕ) → List (XyzCoord R) → Option (List (XyzCoord R))
    unfolding hover_rows row
    hover_coverage fuel (bottom_left ∷ bottom_right ∷ top_right ∷ top_left ∷ []) =
        let zone = bottom_left ∷ bottom_right ∷ top_right ∷ top_left ∷ [] in
        hover_rows
          (λ y.
            row (in_scaled_zone zone) (stop_x top_right bottom_right) y fuel
              (start_x top_left bottom_left))
          (stop_y bottom_left bottom_right) true fuel (start_y top_left top_right)
    hover_coverage fuel [] = none
    hover_coverage fuel (a ∷ []) = none
    hover_coverage fuel (a ∷ b ∷ []) = none
    hover_coverage fuel (a ∷ b ∷ c ∷ []) = none
    hover_coverage fuel (a ∷ b ∷ c ∷ e ∷ f ∷ rest) = none
