-- ===== src/Pathing/HoverCoverage/Examples.antt =====
-- Stops over a zone of 6 by 4 with whole coordinates (src/pathing/static.cpp).
use obcpp.Base.{◌≡◌, refl, true, some, [], ◌∷◌, map, arith, select}
use obcpp.Base.Int.{pos, ◌+ℤ◌, ◌-ℤ◌, ◌*ℤ◌}
use obcpp.Pathing.Polygons.Whole.{whole, at}
use obcpp.Pathing.Polygons.{max_of, min_of}
use obcpp.Pathing.HoverCoverage.{
  stop_at, start_y, stop_y, start_x, stop_x, in_scaled_zone, hover_coverage,
}
use obcpp.Pathing.HoverCoverage.Grid.{steps, after_steps, RunsFor, serpentine, hover_coverage_lem}

two_rows-RunsFor :
    RunsFor
      (λ v. whole.less (stop_y whole (pos 2) (pos 30) (at (pos 0) (pos 0)) (at (pos 6) (pos 0))) v)
      (λ v. whole.minus v (pos 2))
      (start_y whole (pos 2) (pos 30) (at (pos 0) (pos 4)) (at (pos 6) (pos 4)))
      2
unfolding RunsFor steps after_steps max_of min_of ◌+ℤ◌ ◌-ℤ◌ ◌*ℤ◌
two_rows-RunsFor = ((refl, (refl, tt)), refl)

columns-RunsFor :
    RunsFor
      (λ v. whole.less v (stop_x whole (pos 2) (pos 30) (at (pos 6) (pos 4)) (at (pos 6) (pos 0))))
      (λ v. whole.plus v (pos 2))
      (start_x whole (pos 2) (pos 30) (at (pos 0) (pos 4)) (at (pos 0) (pos 0)))
      3
unfolding RunsFor steps after_steps max_of min_of ◌+ℤ◌ ◌-ℤ◌ ◌*ℤ◌
columns-RunsFor = ((refl, (refl, (refl, tt))), refl)

hover_coverage_lem_example :
    hover_coverage whole
      (pos 2)
      (pos 30)
      5
      (at (pos 0) (pos 0) ∷ at (pos 6) (pos 0) ∷ at (pos 6) (pos 4) ∷ at (pos 0) (pos 4) ∷ [])
    ≡ some (
        serpentine true (
          map
            (λ y.
              select
                (in_scaled_zone whole (pos 2) (pos 30) (
                  at (pos 0) (pos 0)
                  ∷ at (pos 6) (pos 0)
                  ∷ at (pos 6) (pos 4)
                  ∷ at (pos 0) (pos 4)
                  ∷ []))
                (map (stop_at whole (pos 2) (pos 30) y) (
                  steps
                    (λ v. whole.plus v (pos 2))
                    (start_x whole (pos 2) (pos 30) (at (pos 0) (pos 4)) (at (pos 0) (pos 0)))
                    3)))
            (steps
              (λ v. whole.minus v (pos 2))
              (start_y whole (pos 2) (pos 30) (at (pos 0) (pos 4)) (at (pos 6) (pos 4)))
              2)))
hover_coverage_lem_example =
    hover_coverage_lem whole (pos 2) (pos 30) (at (pos 0) (pos 0)) (at (pos 6) (pos 0))
      (at (pos 6) (pos 4)) (at (pos 0) (pos 4)) 2 3 5 (omega arith) (omega arith) two_rows-RunsFor
      columns-RunsFor
