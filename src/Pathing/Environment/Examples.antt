-- ===== src/Pathing/Environment/Examples.antt =====
-- The bounds checks of src/pathing/environment.cpp at concrete inputs.
use obcpp.Base.{
  ltb, ℕ, ◌%◌, ◌≡◌, ◌≢◌, ◌↔◌, refl, List, [], ◌∷◌, some, Bool, true, ◌||◌, not, ◌==◌, arith,
}
use obcpp.Pathing.Environment.{
  interval, is_path_in_bounds, point_passes, walk_right, walk_left, walks,
}
use obcpp.Pathing.Environment.Coverage.{center, distance, IsInside, is_path_in_bounds_lem}

-- Eleven points, of which the first and the last are out of bounds.
abbrev path : List ℕ
path = 0 ∷ 1 ∷ 2 ∷ 3 ∷ 4 ∷ 5 ∷ 6 ∷ 7 ∷ 8 ∷ 9 ∷ 10 ∷ []

abbrev in_bounds : ℕ → Bool
in_bounds p = not (p == 0 || p == 10)

path_accepted : is_path_in_bounds in_bounds path ≡ some true
unfolding is_path_in_bounds walks walk_right walk_left point_passes
path_accepted = refl

is_path_in_bounds_lem_example :
    (b : Bool) × (is_path_in_bounds in_bounds path ≡ some b)
    × ((b ≡ true) ↔ (
        IsInside in_bounds path (center in_bounds path)
        × ((k : ℕ) → distance in_bounds path k % interval ≢ 0 → IsInside in_bounds path k)))
is_path_in_bounds_lem_example = is_path_in_bounds_lem in_bounds path (omega arith)

-- A region is given by its end; the one obstacle is the points below 3.
abbrev below : ℕ → ℕ → Bool
below end p = ltb p end
