-- ===== src/Pathing/HoverCoverage/Grid.antt =====
-- The stops as a grid that is walked in turns (`HoverCoveragePathing::run` of src/pathing/static.cpp).
use obcpp.Base.{
  ℕ, List, zero, suc, ◌<◌, ◌≡◌, refl, Bool, true, false, not, Option, some, [], ◌∷◌, ◌++◌, map,
  arith, if◌then◌else◌, select, All,
}
use mathlib.Core.List.{reverse}
use obcpp.Pathing.Polygons.{Double, XyzCoord}
use obcpp.Pathing.HoverCoverage.{
  stop_at, row, hover_rows, start_y, stop_y, start_x, stop_x, in_scaled_zone, hover_coverage,
}

-- The values of a loop variable, and the one after them.
unfoldable pub steps : {R : Type 0} → (R → R) → R → ℕ → List R
steps next v zero = []
steps next v (suc n) = v ∷ steps next (next v) n

unfoldable pub after_steps : {R : Type 0} → (R → R) → R → ℕ → R
after_steps next v zero = v
after_steps next v (suc n) = after_steps next (next v) n

-- The loop runs `n` times.
unfoldable pub RunsFor : {R : Type 0} → (R → Bool) → (R → R) → R → ℕ → Type 0
RunsFor goes_on next v n =
    All (λ w. goes_on w ≡ true) (steps next v n) × (goes_on (after_steps next v n) ≡ false)

-- The rows one after the other, every second one reversed.
unfoldable pub serpentine : {A : Type 0} → Bool → List (List A) → List A
serpentine right [] = []
serpentine right (points ∷ rows) =
    (if right then points else reverse points) ++ serpentine (not right) rows

module _ {R : Type 0} (d : Double R) (vision altitude : R) where
  row_lem :
      (accepted : XyzCoord R → Bool) (stop y : R) (n fuel : ℕ) (x : R)
      → n < fuel
      → RunsFor (λ v. d.less v stop) (λ v. d.plus v vision) x n
      → row d vision altitude accepted stop y fuel x
        ≡ some
            (select accepted (map (stop_at d vision altitude y) (steps (λ v. d.plus v vision) x n)))
  unfolding row RunsFor steps after_steps
  row_lem accepted stop y n zero x h runs = absurd (omega (arith, h))
  row_lem accepted stop y zero (suc f) x h (on, over) = rw (row, over) refl
  row_lem accepted stop y (suc n) (suc f) x h ((on, more), over) =
      rw (row, on, row_lem accepted stop y n f (d.plus x vision) (omega (arith, h)) (more, over))
        refl

  hover_rows_lem :
      (row_at : R → Option (List (XyzCoord R))) (points_at : R → List (XyzCoord R)) (stop : R)
      (right : Bool) (n fuel : ℕ) (y : R)
      → ((v : R) → row_at v ≡ some (points_at v))
      → n < fuel
      → RunsFor (λ v. d.less stop v) (λ v. d.minus v vision) y n
      → hover_rows d vision altitude row_at stop right fuel y
        ≡ some (serpentine right (map points_at (steps (λ v. d.minus v vision) y n)))
  unfolding hover_rows RunsFor steps after_steps serpentine
  hover_rows_lem row_at points_at stop right n zero y each h runs = absurd (omega (arith, h))
  hover_rows_lem row_at points_at stop right zero (suc f) y each h (on, over) =
      rw (hover_rows, over) refl
  hover_rows_lem row_at points_at stop right (suc n) (suc f) y each h ((on, more), over) =
      rw
        (
          hover_rows,
          on,
          each y,
          hover_rows_lem row_at points_at stop (not right) n f (d.minus y vision) each
              (omega (arith, h)) (more, over),
        )
        refl

  -- Where the loop over the heights runs m times, that within a row n times, and the fuel is more than
  -- both, the stops are the points of the grid in the scaled zone, row by row from the top, every second
  -- row from right to left.
  pub hover_coverage_lem :
      (bottom_left bottom_right top_right top_left : XyzCoord R) (m n fuel : ℕ)
      → m < fuel
      → n < fuel
      → RunsFor
          (λ v. d.less (stop_y d vision altitude bottom_left bottom_right) v)
          (λ v. d.minus v vision)
          (start_y d vision altitude top_left top_right)
          m
      → RunsFor
          (λ v. d.less v (stop_x d vision altitude top_right bottom_right))
          (λ v. d.plus v vision)
          (start_x d vision altitude top_left bottom_left)
          n
      → hover_coverage d vision altitude fuel
          (bottom_left ∷ bottom_right ∷ top_right ∷ top_left ∷ [])
        ≡ some (
            serpentine true (
              map
                (λ y.
                  select
                    (in_scaled_zone d vision altitude
                      (bottom_left ∷ bottom_right ∷ top_right ∷ top_left ∷ []))
                    (map (stop_at d vision altitude y) (
                      steps
                        (λ v. d.plus v vision)
                        (start_x d vision altitude top_left bottom_left)
                        n)))
                (steps (λ v. d.minus v vision) (start_y d vision altitude top_left top_right) m)))
  unfolding hover_coverage
  hover_coverage_lem bl br tr tl m n fuel high wide down along =
      hover_rows_lem _ _ (stop_y d vision altitude bl br) true m fuel
        (start_y d vision altitude tl tr)
        (λ y.
          row_lem (in_scaled_zone d vision altitude (bl ∷ br ∷ tr ∷ tl ∷ []))
            (stop_x d vision altitude tr br) y n fuel (start_x d vision altitude tl bl) wide along)
        high down
