-- ===== src/Pathing/Polygons/Endpoints.antt =====
-- That the lines over the airdrop zone have ends and the coverage waypoints (src/pathing/environment.cpp).
pub mod Waypoints
use obcpp.Base.{
  ℕ, List, zero, suc, ◌+◌, ◌≤◌, ◌<◌, ◌≡◌, refl, sym, subst, ◌⊎◌, inl, inr, Bool, true, false, some,
  [], ◌∷◌, arith, if◌then◌else◌, Bool-cases, length, get_elem?,
}
use obcpp.Base.Int.{ℤ, pos, ◌*ℤ◌}
use obcpp.Pathing.ForwardCoverage.{Planner, alternating}
use obcpp.Pathing.Polygons.Endpoints.Waypoints.{FliesEnds, alternating_even}
use obcpp.Pathing.Polygons.{Double, XyzCoord, find_bounds}
use obcpp.Pathing.Polygons.Lines.{
  Airspace, generated_point, is_valid_sample, sampled, line_ends, line_at, scan_lines, first_line,
  last_line, get_airdrop_endpoints,
}

module _ {R : Type 0} (d : Double R) where
  -- The coordinate of line k.
  unfoldable pub coordinate_of : R → R → ℕ → R
  coordinate_of coordinate iteration zero = coordinate
  coordinate_of coordinate iteration (suc k) =
      coordinate_of (d.plus coordinate iteration) iteration k

  -- Two points are the first two of a line, and the first of them is not below the second, or on a
  -- horizontal line not to the right of it.
  unfoldable pub AreEnds : Bool → List (XyzCoord R) → XyzCoord R → XyzCoord R → Type 0
  AreEnds vertical line first second =
      (rest : List (XyzCoord R)) × ((line ≡ first ∷ second ∷ rest) ⊎ (line ≡ second ∷ first ∷ rest))
      × ((if vertical then d.less first.y second.y else d.less second.x first.x) ≡ false)

  line_ends_lem :
      ((a b : R) → d.less a b ≡ true → d.less b a ≡ false)
      → (vertical : Bool) (xs : List (XyzCoord R)) → 2 ≤ length xs
      → (a : XyzCoord R) × (b : XyzCoord R) × (line_ends d vertical xs ≡ some (a, b))
        × AreEnds vertical xs a b
  unfolding line_ends AreEnds
  line_ends_lem asym vertical [] two = absurd (omega (arith, two))
  line_ends_lem asym vertical (a ∷ []) two = absurd (omega (arith, two))
  line_ends_lem asym true (a ∷ b ∷ rest) two = elim (Bool-cases (d.less a.y b.y)) [
    | inl h ↦ (b, a, rw h refl, (rest, inr refl, asym a.y b.y h))
    | inr h ↦ (a, b, rw h refl, (rest, inl refl, h))
  ]
  line_ends_lem asym false (a ∷ b ∷ rest) two = elim (Bool-cases (d.less a.x b.x)) [
    | inl h ↦ (a, b, rw h refl, (rest, inl refl, asym a.x b.x h))
    | inr h ↦ (b, a, rw h refl, (rest, inr refl, h))
  ]

  module _ (zone : List (XyzCoord R)) (vertical : Bool) where
    -- The first `n` lines from a coordinate lie before the end and meet the zone at least twice, and
    -- the next is past it.
    unfoldable pub HasLines : R → R → R → ℕ → Type 0
    HasLines coordinate end iteration n =
        ((k : ℕ)
          → k < n
          → (d.at_most (coordinate_of coordinate iteration k) end ≡ true)
            × (2 ≤ length (line_at d zone vertical (coordinate_of coordinate iteration k))))
        × (d.at_most (coordinate_of coordinate iteration n) end ≡ false)

    -- Places 2 k and 2 k + 1 hold the ends of line k, for the first `n` lines.
    unfoldable pub HoldsEnds : R → R → ℕ → List (XyzCoord R) → Type 0
    HoldsEnds coordinate iteration n endpoints =
        (k : ℕ)
        → k < n
        → (first : XyzCoord R) × (second : XyzCoord R) × (get_elem? endpoints (k + k) ≡ some first)
          × (get_elem? endpoints (k + k + 1) ≡ some second)
          × AreEnds vertical (line_at d zone vertical (coordinate_of coordinate iteration k)) first
              second

    HoldsEnds-cons :
        (coordinate iteration : R) (n : ℕ) (first second : XyzCoord R)
        (endpoints : List (XyzCoord R))
        → AreEnds vertical (line_at d zone vertical coordinate) first second
        → HoldsEnds (d.plus coordinate iteration) iteration n endpoints
        → HoldsEnds coordinate iteration (suc n) (first ∷ second ∷ endpoints)
    unfolding HoldsEnds coordinate_of
    HoldsEnds-cons coordinate iteration n first second endpoints ends h zero l =
        (first, second, refl, refl, ends)
    HoldsEnds-cons coordinate iteration n first second endpoints ends h (suc k) l =
        let (a, b, at, at', ends') = h k (omega (arith, l)) in
        let two : suc k + suc k ≡ suc (suc (k + k)) = omega arith in
        let three : suc k + suc k + 1 ≡ suc (suc (k + k + 1)) = omega arith in
        (
          a,
          b,
          subst (λ i. get_elem? (first ∷ second ∷ endpoints) i ≡ some a) (sym two) at,
          subst (λ i. get_elem? (first ∷ second ∷ endpoints) i ≡ some b) (sym three) at',
          ends',
        )

    scan_lines_lem :
        ((a b : R) → d.less a b ≡ true → d.less b a ≡ false)
        → (n fuel : ℕ) (coordinate end iteration : R) → n < fuel
        → HasLines coordinate end iteration n
        → (endpoints : List (XyzCoord R)) × (scan_lines d zone vertical fuel coordinate end
              iteration
            ≡ some endpoints)
          × (length endpoints ≡ n + n)
          × HoldsEnds coordinate iteration n endpoints
    unfolding scan_lines HasLines HoldsEnds coordinate_of
    scan_lines_lem asym n zero coordinate end iteration h lines = absurd (omega (arith, h))
    scan_lines_lem asym zero (suc f) coordinate end iteration h (before, past) =
        ([], ground arith, refl, λ k l. absurd (omega (arith, l)))
    scan_lines_lem asym (suc n) (suc f) coordinate end iteration h (before, past) =
        let (endpoints, e, len, held) =
          scan_lines_lem asym n f (d.plus coordinate iteration) end iteration (omega (arith, h))
            (λ k l. before (suc k) (omega (arith, l)), past) in
        let (early, two) = before 0 (omega arith) in
        let (first, second, e', ends) =
          line_ends_lem asym vertical (line_at d zone vertical coordinate) two in
        (
          first ∷ second ∷ endpoints,
          scanned early e' e,
          omega (arith, len),
          HoldsEnds-cons coordinate iteration n first second endpoints ends held,
        )
      where
        scanned :
            {first second : XyzCoord R} {endpoints : List (XyzCoord R)}
            → d.at_most coordinate end ≡ true
            → line_ends d vertical (line_at d zone vertical coordinate) ≡ some (first, second)
            → scan_lines d zone vertical f (d.plus coordinate iteration) end iteration
              ≡ some endpoints
            → scan_lines d zone vertical (suc f) coordinate end iteration
              ≡ some (first ∷ second ∷ endpoints)
        scanned early e' e = rw (scan_lines, early, e', e) refl

module _ {R : Type 0} (d : Double R) where
  -- Where the order of the doubles is asymmetric, n lines lie over the zone, each meets it at least
  -- twice, and the fuel is more than n, the search finds two ends for each line, which are the first
  -- two points where the line meets the zone, the higher one first on a vertical line and the left one
  -- first on a horizontal line, and lines flown in turn have a waypoint at each end: lines 0, 2, 4 and
  -- so on from the first end to the second, the others from the second to the first.
  pub get_airdrop_endpoints_lem :
      {Point Curve Angle Height : Type 0} (p : Planner Point (XyzCoord R) Curve Angle Height)
      (zone : List (XyzCoord R)) (vertical : Bool) (scan_radius : ℤ) (n fuel : ℕ)
      → ((a b : R) → d.less a b ≡ true → d.less b a ≡ false)
      → n < fuel
      → HasLines d zone vertical
          (first_line d zone vertical (find_bounds d zone) scan_radius)
          (last_line d zone vertical (find_bounds d zone) scan_radius)
          (d.of_int (scan_radius *ℤ pos 2))
          n
      → (endpoints : List (XyzCoord R)) × (waypoints : List Point) × (get_airdrop_endpoints d zone
            vertical fuel scan_radius
          ≡ some endpoints)
        × (length endpoints ≡ n + n)
        × HoldsEnds d zone vertical
            (first_line d zone vertical (find_bounds d zone) scan_radius)
            (d.of_int (scan_radius *ℤ pos 2))
            n
            endpoints
        × (alternating p true (p.first_angle vertical) endpoints ≡ some waypoints)
        × (length waypoints ≡ n + n)
        × FliesEnds p true (p.first_angle vertical) n endpoints waypoints
  unfolding get_airdrop_endpoints
  get_airdrop_endpoints_lem p zone vertical scan_radius n fuel asym enough lines =
      let bounds = find_bounds d zone in
      let (endpoints, e, len, held) =
        scan_lines_lem d zone vertical asym n fuel (first_line d zone vertical bounds scan_radius)
          (last_line d zone vertical bounds scan_radius) (d.of_int (scan_radius *ℤ pos 2)) enough
          lines in
      let (waypoints, e', len', flies) =
        alternating_even p n true (p.first_angle vertical) endpoints len in
      (endpoints, waypoints, e, len, held, e', len', flies)

  -- A random point is a valid one, or the next goal where none of the tries is.
  sampled_lem :
      (random : ℕ → R → R → R) (env : Airspace R) (use_mapping_region : Bool)
      (box : (R × R) × (R × R)) (i k : ℕ) (point : XyzCoord R)
      → sampled d random env use_mapping_region box i k ≡ some point
      → (is_valid_sample d random env use_mapping_region point ≡ true)
        ⊎ ((get_elem? env.goals env.goals_found ≡ some point)
            × ((j : ℕ)
                → j < k
                → is_valid_sample d random env use_mapping_region
                    (generated_point d random box (i + j))
                  ≡ false))
  unfolding sampled
  sampled_lem random env mapping box i zero point h = inr (h, λ j l. absurd (omega (arith, l)))
  sampled_lem random env mapping box i (suc k) point h = elim (Bool-cases (valid 0)) [
    | inl good ↦
        let same : generated_point d random box i ≡ point = ground arith in
        inl (subst (λ q. is_valid_sample d random env mapping q ≡ true) same (ground arith))
    | inr bad ↦ elim (sampled_lem random env mapping box (i + 1) k point (ground arith)) [
      | inl good ↦ inl good
      | inr (goal, rejected) ↦ inr (goal, later bad rejected)
    ]
  ]
    where
      valid : ℕ → Bool
      valid j = is_valid_sample d random env mapping (generated_point d random box (i + j))

      later :
          valid 0 ≡ false
          → ((j : ℕ)
              → j < k
              → is_valid_sample d random env mapping (generated_point d random box (i + 1 + j))
                ≡ false)
          → (j : ℕ) → j < suc k
          → valid j ≡ false
      later bad rejected zero l = bad
      later bad rejected (suc j) l =
          subst (λ m. is_valid_sample d random env mapping (generated_point d random box m) ≡ false)
            (omega arith) (rejected j (omega (arith, l)))
