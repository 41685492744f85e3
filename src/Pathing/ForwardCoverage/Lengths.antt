-- ===== src/Pathing/ForwardCoverage/Lengths.antt =====
-- The lengths of the four ways to cover a zone (`coverageOptimal` of src/pathing/static.cpp).
use obcpp.Base.{
  ℕ, zero, suc, ◌+◌, ◌≤◌, ◌<◌, ◌≡◌, refl, sym, ap, subst, ◌∙◌, inl, inr, Bool, none, some, List, [],
  ◌∷◌, arith, Option-cases, length, get_elem?, set,
}
use obcpp.Pathing.ForwardCoverage.{
  Planner, add_length, measure, measure_all, get_airdrop_waypoints, configs, coverage_optimal,
}

module _ {Point Coord Curve Angle Height : Type 0}
    (p : Planner Point Coord Curve Angle Height) where
  length-set : (xs : List ℕ) (i v : ℕ) → length (set xs i v) ≡ length xs
  length-set [] i v = refl
  length-set (x ∷ xs) zero v = refl
  length-set (x ∷ xs) (suc i) v = ap suc (length-set xs i v)

  get_elem?_outside : (xs : List ℕ) (i : ℕ) → length xs ≤ i → get_elem? xs i ≡ none
  get_elem?_outside [] i h = refl
  get_elem?_outside (x ∷ xs) zero h = absurd (omega (arith, h))
  get_elem?_outside (x ∷ xs) (suc i) h = get_elem?_outside xs i (omega (arith, h))

  measure_outside :
      (i : ℕ) (from : Point) (others : List Point) (lengths : List ℕ)
      → i ≤ length lengths
      → length lengths < i + length others
      → measure p i from others lengths ≡ none
  unfolding measure add_length
  measure_outside i from [] lengths inside h = absurd (omega (arith, inside, h))
  measure_outside i from (to ∷ rest) lengths inside h = elim (Option-cases (get_elem? lengths i)) [
    | inl gone ↦ rw (measure, add_length, gone) refl
    | inr (len, e) ↦
        let v = p.added len (p.best_option from to) in
        let same = length-set lengths i v in
        let within : i < length lengths = ground (arith, e, get_elem?_inside lengths i len e) in
        rw (measure, add_length, e)
          (measure_outside (i + 1) to rest (set lengths i v) (omega (arith, same, within))
            (omega (arith, same, h)))
  ]
    where
      get_elem?_inside : (xs : List ℕ) (i x : ℕ) → get_elem? xs i ≡ some x → i < length xs
      get_elem?_inside [] i x e = ground arith
      get_elem?_inside (y ∷ ys) zero x e = omega arith
      get_elem?_inside (y ∷ ys) (suc i) x e = omega (arith, get_elem?_inside ys i x e)

  length-measure :
      (i : ℕ) (from : Point) (others : List Point) (lengths lengths' : List ℕ)
      → measure p i from others lengths ≡ some lengths'
      → length lengths' ≡ length lengths
  unfolding measure add_length
  length-measure i from [] lengths lengths' h =
      let same : lengths ≡ lengths' = ap (λ o. elim o [ none ↦ [] | some l ↦ l ]) h in rw same refl
  length-measure i from (to ∷ rest) lengths lengths' h = elim (Option-cases (get_elem? lengths i)) [
    | inl gone ↦ ground (arith, h, gone)
    | inr (len, e) ↦
        let v = p.added len (p.best_option from to) in
        let h' : measure p (i + 1) to rest (set lengths i v) ≡ some lengths' =
          ground (arith, h, e) in
        length-measure (i + 1) to rest (set lengths i v) lengths' h' ∙ length-set lengths i v
  ]

  measure_all_outside :
      (cs : List (Bool × Bool)) (k : ℕ) (config : Bool × Bool) (lengths : List ℕ) (from : Point)
      (others : List Point)
      → get_elem? cs k ≡ some config
      → get_airdrop_waypoints p config.0 config.1 ≡ some (from ∷ others)
      → length lengths < length others
      → measure_all p cs lengths ≡ none
  unfolding measure_all
  measure_all_outside [] k config lengths from others at w h = ground arith
  measure_all_outside ((one_way, vertical) ∷ cs) zero config lengths from others at w h =
      let same : (one_way, vertical) ≡ config =
        ap (λ o. elim o [ none ↦ (one_way, vertical) | some d ↦ d ]) at in
      let w' : get_airdrop_waypoints p one_way vertical ≡ some (from ∷ others) =
        subst (λ c. get_airdrop_waypoints p c.0 c.1 ≡ some (from ∷ others)) (sym same) w in
      rw (measure_all, w', measure_outside 0 from others lengths (omega arith) (omega (arith, h)))
        refl
  measure_all_outside ((one_way, vertical) ∷ cs) (suc k) config lengths from others at w h =
      elim (Option-cases (get_airdrop_waypoints p one_way vertical)) [
        | inl gone ↦ rw (measure_all, gone) refl
        | inr ([], e) ↦ rw (measure_all, e) refl
        | inr (a ∷ more, e) ↦ elim (Option-cases (measure p 0 a more lengths)) [
          | inl gone ↦ rw (measure_all, e, gone) refl
          | inr (lengths', e') ↦
              let same = length-measure 0 a more lengths lengths' e' in
              rw
                (
                  measure_all,
                  e,
                  e',
                  measure_all_outside cs k config lengths' from others at w
                      (omega (arith, same, h)),
                )
                refl
        ]
      ]

  -- Where one of the four ways has six waypoints or more, the choice of the shortest writes past the four
  -- lengths.
  pub coverage_optimal_outside :
      (k : ℕ) (config : Bool × Bool) (from : Point) (others : List Point)
      → get_elem? configs k ≡ some config
      → get_airdrop_waypoints p config.0 config.1 ≡ some (from ∷ others)
      → 6 ≤ length (from ∷ others)
      → coverage_optimal p ≡ none
  unfolding coverage_optimal
  coverage_optimal_outside k config from others at w h =
      rw
        (
          coverage_optimal,
          measure_all_outside configs k config (0 ∷ 0 ∷ 0 ∷ 0 ∷ []) from others at w
              (omega (arith, h)),
        )
        refl
