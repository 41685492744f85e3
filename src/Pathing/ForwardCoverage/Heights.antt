-- ===== src/Pathing/ForwardCoverage/Heights.antt =====
-- The path over the lines and its heights (`coverageDefault` of src/pathing/static.cpp).
use obcpp.Base.{
  ℕ, zero, get_elem?, suc, ◌+◌, ◌≡◌, refl, ap, ◌≢◌, Bool, none, some, List, [], ◌∷◌, ◌++◌, map,
  arith, length,
}
use mathlib.Core.List.{tail}
use mathlib.Core.Option as Option
use obcpp.Pathing.ForwardCoverage.{
  Planner, after_first, get_airdrop_waypoints, best_options, climbing, level_path, generate_path,
  coverage_default,
}

module _ {Point Coord Curve Angle Height : Type 0}
    (p : Planner Point Coord Curve Angle Height) where
  -- A curve has points.
  abbrev pub HasPoints : Type 0
  HasPoints = (from to : Point) (option : Curve) → p.generate_points from to option ≢ []

  -- The points of the curves from one waypoint to the next, each curve without its first point.
  unfoldable pub joined : Point → List Point → List Coord
  joined from [] = []
  joined from (to ∷ rest) =
      tail (p.generate_points from to (p.best_option from to)) ++ joined to rest

  -- A height after `n` steps of the climb.
  unfoldable pub climbed : Height → Height → ℕ → Height
  climbed height increment zero = height
  climbed height increment (suc n) = climbed (p.plus height increment) increment n

  after_first-map :
      (f : Coord → Coord) (xs : List Coord)
      → xs ≢ []
      → after_first (map f xs) ≡ some (map f (tail xs))
  after_first-map f [] h = absurd (h refl)
  after_first-map f (x ∷ xs) h = refl

  map-append : (f : Coord → Coord) (xs ys : List Coord) → map f (xs ++ ys) ≡ map f xs ++ map f ys
  map-append f [] ys = refl
  map-append f (x ∷ xs) ys = ap (◌∷◌ (f x)) (map-append f xs ys)

  level_path_lem :
      (from : Point) (rest : List Point)
      → HasPoints
      → level_path p from rest (best_options p from rest)
        ≡ some (map (p.at_height p.altitude) (joined from rest))
  unfolding level_path best_options joined
  level_path_lem from [] h = refl
  level_path_lem from (to ∷ rest) h =
      let coords = p.generate_points from to (p.best_option from to) in
      let f = p.at_height p.altitude in
      rw
        (
          level_path,
          after_first-map f coords (h from to (p.best_option from to)),
          level_path_lem to rest h,
          map-append f (tail coords) (joined to rest),
        )
        refl

  get_elem?-climbing :
      (height increment : Height) (xs : List Coord) (j : ℕ)
      → get_elem? (climbing p height increment xs) j
        ≡ Option.map (p.at_height (climbed height increment j)) (get_elem? xs j)
  unfolding climbing climbed
  get_elem?-climbing height increment [] j = refl
  get_elem?-climbing height increment (x ∷ xs) zero = refl
  get_elem?-climbing height increment (x ∷ xs) (suc j) =
      get_elem?-climbing (p.plus height increment) increment xs j

  after_first-climbing :
      (height increment : Height) (xs : List Coord)
      → xs ≢ []
      → (ys : List Coord) × (after_first (climbing p height increment xs) ≡ some ys)
        × (length ys + 1 ≡ length xs)
        × ((j : ℕ)
            → get_elem? ys j
              ≡ Option.map (p.at_height (climbed height increment (suc j))) (get_elem? xs (suc j)))
  unfolding climbing climbed
  after_first-climbing height increment [] h = absurd (h refl)
  after_first-climbing height increment (x ∷ xs) h = (
    climbing p (p.plus height increment) increment xs,
    refl,
    omega (arith, length-climbing (p.plus height increment) xs),
    get_elem?-climbing (p.plus height increment) increment xs,
  )
    where
      length-climbing :
          (height : Height) (xs : List Coord) → length (climbing p height increment xs) ≡ length xs
      length-climbing height [] = refl
      length-climbing height (x ∷ xs) = ap suc (length-climbing (p.plus height increment) xs)

  generate_path_lem :
      (first : Point) (more : List Point) (climb level : List Coord)
      → (let coords = p.generate_points p.start first (p.best_option p.start first) in
          after_first (
            climbing p
              (p.height p.start)
              (p.per_point (p.minus p.altitude (p.height p.start)) (length coords))
              coords))
        ≡ some climb
      → level_path p first more (best_options p first more) ≡ some level
      → generate_path p (best_options p p.start (first ∷ more)) (p.start ∷ first ∷ more)
        ≡ some (climb ++ level)
  unfolding generate_path best_options
  generate_path_lem first more climb level e e' = ground (arith, e, e')

  -- Where curves have points, a zone with waypoints gets a path: the points of the first curve but its
  -- first, point j at the height of the start with j increments, and then the points of the other
  -- curves, each but its first, at the altitude. A zone with none faults.
  pub coverage_default_lem :
      (one_way vertical : Bool) (waypoints : List Point)
      → HasPoints
      → get_airdrop_waypoints p one_way vertical ≡ some waypoints
      → (waypoints ≡ [] → coverage_default p one_way vertical ≡ none)
        × ((first : Point) (more : List Point)
            → waypoints ≡ first ∷ more
            → (climb : List Coord) × (coverage_default p one_way vertical
                ≡ some (climb ++ map (p.at_height p.altitude) (joined first more)))
              × (length climb + 1
                  ≡ length (p.generate_points p.start first (p.best_option p.start first)))
              × ((j : ℕ)
                  → (let coords = p.generate_points p.start first (p.best_option p.start first) in
                      get_elem? climb j
                      ≡ Option.map
                          (p.at_height (
                            climbed
                              (p.height p.start)
                              (p.per_point (p.minus p.altitude (p.height p.start)) (length coords))
                              (suc j)))
                          (get_elem? coords (suc j)))))
  unfolding coverage_default generate_path best_options
  coverage_default_lem one_way vertical waypoints has e = (
    λ empty. rw (coverage_default, e, empty) refl,
    λ first more full.
        let coords = p.generate_points p.start first (p.best_option p.start first) in
        let increment = p.per_point (p.minus p.altitude (p.height p.start)) (length coords) in
        let (climb, e', counted, heights) =
          after_first-climbing (p.height p.start) increment coords
            (has p.start first (p.best_option p.start first)) in
        (
          climb,
          rw (coverage_default, e, full)
              (generate_path_lem first more climb (map (p.at_height p.altitude) (joined first more))
                e' (level_path_lem first more has)),
          counted,
          heights,
        ),
  )
