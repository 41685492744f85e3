-- ===== src/Pathing/GoalLists/Examples.antt =====
-- Lists of numbers as goals (src/pathing/static.cpp).
use obcpp.Base.{ℕ, ◌≤◌, ◌≡◌, refl, some, List, [], ◌∷◌, ltb, length, get_elem?}
use obcpp.Pathing.GoalLists.{generate_goal_list_deviations, generate_ranked_new_goals_list}
use obcpp.Pathing.GoalLists.Deviations.{remove_at, generate_goal_list_deviations_lem}

abbrev goals : List ℕ
goals = 4 ∷ 6 ∷ []

generate_goal_list_deviations_lem_example :
    (length (generate_goal_list_deviations goals 9) ≡ 3)
    × ((i : ℕ)
        → i ≤ 2
        → (l : List ℕ) × (get_elem? (generate_goal_list_deviations goals 9) i ≡ some l)
          × (get_elem? l i ≡ some 9)
          × (remove_at i l ≡ goals))
generate_goal_list_deviations_lem_example = generate_goal_list_deviations_lem goals 9

abbrev second : List ℕ → ℕ
second [] = 0
second (x ∷ []) = 0
second (x ∷ y ∷ rest) = y

ranked :
    generate_ranked_new_goals_list (λ a b. ltb b a) second goals (9 ∷ [])
    ≡ (4 ∷ 9 ∷ 6 ∷ []) ∷ (4 ∷ 6 ∷ 9 ∷ []) ∷ (9 ∷ 4 ∷ 6 ∷ []) ∷ []
unfolding generate_ranked_new_goals_list
ranked = refl
