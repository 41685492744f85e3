-- ===== src/Pathing/GoalLists.antt =====
-- The lists of goals with one more goal at a random point (`generateGoalListDeviations` and
-- `generateRankedNewGoalsList` of src/pathing/static.cpp). What a list is worth, its area covered over
-- its length, is a parameter with the order of the worths.
pub mod Deviations
mod Examples
use obcpp.Base.{ℕ, zero, suc, ◌+◌, Bool, List, [], ◌∷◌, ◌++◌, map, if◌then◌else◌, length}

module _ {Coord : Type 0} where
  -- `insert(begin() + i, x)`, for a place inside the list or at its end.
  unfoldable pub insert_at : ℕ → Coord → List Coord → List Coord
  insert_at zero x xs = x ∷ xs
  insert_at (suc i) x [] = x ∷ []
  insert_at (suc i) x (y ∷ ys) = y ∷ insert_at i x ys

  -- The loop over the places, from one on.
  unfoldable pub deviations_from : (left i : ℕ) → List Coord → Coord → List (List Coord)
  unfolding insert_at
  deviations_from zero i goals deviation_point = []
  deviations_from (suc left) i goals deviation_point =
      insert_at i deviation_point goals ∷ deviations_from left (i + 1) goals deviation_point

  unfoldable pub generate_goal_list_deviations : List Coord → Coord → List (List Coord)
  unfolding deviations_from
  generate_goal_list_deviations goals deviation_point =
      deviations_from (length goals + 1) 0 goals deviation_point

  -- The lists for all points, one after the other.
  unfoldable pub new_goals_list : List Coord → List Coord → List (List Coord)
  unfolding generate_goal_list_deviations
  new_goals_list goals [] = []
  new_goals_list goals (point ∷ rest) =
      generate_goal_list_deviations goals point ++ new_goals_list goals rest

  module _ {Worth : Type 0} (more : Worth → Worth → Bool) where
    unfoldable pub insert_ranked :
        Worth × List Coord → List (Worth × List Coord) → List (Worth × List Coord)
    insert_ranked x [] = x ∷ []
    insert_ranked x (y ∷ ys) =
        let rest = insert_ranked x ys in if more y.0 x.0 then y ∷ rest else x ∷ y ∷ ys

    -- The most worth first.
    unfoldable pub rank : (List Coord → Worth) → List (List Coord) → List (Worth × List Coord)
    unfolding insert_ranked
    rank worth [] = []
    rank worth (goals ∷ rest) = insert_ranked (worth goals, goals) (rank worth rest)

    unfoldable pub generate_ranked_new_goals_list :
        (List Coord → Worth) → List Coord → (deviation_points : List Coord) → List (List Coord)
    unfolding rank new_goals_list
    generate_ranked_new_goals_list worth goals deviation_points =
        map (λ r. r.1) (rank worth (new_goals_list goals deviation_points))
