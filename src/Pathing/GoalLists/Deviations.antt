-- ===== src/Pathing/GoalLists/Deviations.antt =====
-- What the lists of goals with one more goal are (src/pathing/static.cpp).
use obcpp.Base.{
  ℕ, zero, suc, ◌+◌, ◌≤◌, ◌<◌, ◌≡◌, refl, ap, subst, some, List, [], ◌∷◌, arith, length, get_elem?,
}
use obcpp.Pathing.GoalLists.{insert_at, deviations_from, generate_goal_list_deviations}

module _ {Coord : Type 0} where
  -- The list without the element at a place.
  unfoldable pub remove_at : ℕ → List Coord → List Coord
  remove_at i [] = []
  remove_at zero (x ∷ xs) = xs
  remove_at (suc i) (x ∷ xs) = x ∷ remove_at i xs

  -- One point more than the goals, at a place where taking it out leaves the goals.
  abbrev pub IsDeviation : List Coord → List Coord → ℕ → Coord → Type 0
  IsDeviation goals l i point = (get_elem? l i ≡ some point) × (remove_at i l ≡ goals)

  insert_at-IsDeviation :
      (goals : List Coord) (i : ℕ) (point : Coord)
      → i ≤ length goals
      → IsDeviation goals (insert_at i point goals) i point
  unfolding insert_at remove_at
  insert_at-IsDeviation [] zero point h = (refl, refl)
  insert_at-IsDeviation [] (suc i) point h = absurd (omega (arith, h))
  insert_at-IsDeviation (x ∷ xs) zero point h = (refl, refl)
  insert_at-IsDeviation (x ∷ xs) (suc i) point h =
      let (e, e') = insert_at-IsDeviation xs i point (omega (arith, h)) in (e, ap (λ l. x ∷ l) e')

  get_elem?-deviations_from :
      (left i j : ℕ) (goals : List Coord) (point : Coord)
      → j < left
      → get_elem? (deviations_from left i goals point) j ≡ some (insert_at (i + j) point goals)
  unfolding deviations_from
  get_elem?-deviations_from zero i j goals point h = absurd (omega (arith, h))
  get_elem?-deviations_from (suc left) i zero goals point h =
      let e : i + 0 ≡ i = omega arith in rw e refl
  get_elem?-deviations_from (suc left) i (suc j) goals point h =
      let e : i + suc j ≡ i + 1 + j = omega arith in
      rw e (get_elem?-deviations_from left (i + 1) j goals point (omega (arith, h)))

  length-deviations_from :
      (left i : ℕ) (goals : List Coord) (point : Coord)
      → length (deviations_from left i goals point) ≡ left
  unfolding deviations_from
  length-deviations_from zero i goals point = refl
  length-deviations_from (suc left) i goals point =
      ap suc (length-deviations_from left (i + 1) goals point)

  -- For n goals there are n + 1 lists, and taking the element at place i out of list i, which is the
  -- new point, gives the goals back.
  pub generate_goal_list_deviations_lem :
      (goals : List Coord) (point : Coord)
      → (length (generate_goal_list_deviations goals point) ≡ length goals + 1)
        × ((i : ℕ)
            → i ≤ length goals
            → (l : List Coord) × (get_elem? (generate_goal_list_deviations goals point) i ≡ some l)
              × (get_elem? l i ≡ some point)
              × (remove_at i l ≡ goals))
  unfolding generate_goal_list_deviations
  generate_goal_list_deviations_lem goals point = (
    length-deviations_from (length goals + 1) 0 goals point,
    λ i h.
        let e : 0 + i ≡ i = omega arith in
        let at = get_elem?-deviations_from (length goals + 1) 0 i goals point (omega (arith, h)) in
        let (placed, taken_out) = insert_at-IsDeviation goals i point h in
        let there =
          subst
            (λ k.
              get_elem? (deviations_from (length goals + 1) 0 goals point) i
              ≡ some (insert_at k point goals))
            e at in
        (insert_at i point goals, there, placed, taken_out),
  )
