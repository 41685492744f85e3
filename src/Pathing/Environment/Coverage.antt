-- ===== src/Pathing/Environment/Coverage.antt =====
-- Which points of a path src/pathing/environment.cpp looks at.
use obcpp.Base.{
  ℕ, zero, suc, ◌+◌, ◌-◌, ◌*◌, ◌/◌, ◌%◌, ◌≤◌, ◌<◌, ◌≡◌, ◌≢◌, ◌↔◌, inl, inr, refl, subst, List, All,
  [], ◌∷◌, none, some, Bool, true, false, leb, length, get_elem?, if◌then◌else◌, arith, Bool-cases,
  Option-cases, ◌==◌,
}
use obcpp.Pathing.Environment.{
  Environment, clear_of, is_point_in_bounds, interval, point_passes, walk_right, walk_left, walks,
  is_path_in_bounds,
}

module _ {Polygon Point : Type 0} (inside : Polygon → Point → Bool) where
  clear_of_lem :
      (obstacles : List Polygon) (point : Point)
      → (clear_of inside obstacles point ≡ true) ↔ All (λ o. inside o point ≡ false) obstacles
  unfolding clear_of
  clear_of_lem [] point = (λ e. tt, λ h. refl)
  clear_of_lem (o ∷ rest) point =
      let (to, from) = clear_of_lem rest point in
      (λ e. (ground arith, to (ground arith)), λ h. let clear = from h.1 in ground (arith, h.0))

  -- A point is in bounds just when it is inside the valid region and inside no obstacle.
  pub point_in_bounds_iff :
      (env : Environment Polygon) (point : Point)
      → (is_point_in_bounds inside env point ≡ true)
        ↔ ((inside env.valid_region point ≡ true) × All (λ o. inside o point ≡ false) env.obstacles)
  unfolding is_point_in_bounds
  point_in_bounds_iff env point =
      let (to, from) = clear_of_lem env.obstacles point in
      (λ e. (ground arith, to (ground arith)), λ h. let clear = from h.1 in ground (arith, h.0))

module _ {Point : Type 0} (in_bounds : Point → Bool) (path : List Point) where
  abbrev Passes : ℕ → Type 0
  Passes k = point_passes in_bounds path k ≡ true

  Passes-at : (a b : ℕ) → a ≡ b → Passes a → Passes b
  Passes-at a b e p = subst Passes e p

  -- A walk to the right looks at all points at a distance of `d` and whole intervals more.
  walk_right_sound :
      (center d f : ℕ)
      → walk_right in_bounds path center d f ≡ true
      → (q : ℕ) → q < f
      → Passes (center + (d + q * 5))
  unfolding walk_right
  walk_right_sound center d zero e q l = ground arith
  walk_right_sound center d (suc f) e zero l =
      Passes-at (center + d) (center + (d + 0 * 5)) (omega arith) (ground arith)
  walk_right_sound center d (suc f) e (suc q) l =
      Passes-at (center + (d + 5 + q * 5)) (center + (d + suc q * 5)) (omega arith)
        (walk_right_sound center (d + 5) f (ground arith) q (omega arith))

  walk_right_complete :
      (center d f : ℕ)
      → ((q : ℕ) → Passes (center + (d + q * 5)))
      → walk_right in_bounds path center d f ≡ true
  unfolding walk_right
  walk_right_complete center d zero h = refl
  walk_right_complete center d (suc f) h = ground (
    arith,
    Passes-at (center + (d + 0 * 5)) (center + d) (omega arith) (h 0),
    walk_right_complete center (d + 5) f (λ q.
        Passes-at (center + (d + suc q * 5)) (center + (d + 5 + q * 5)) (omega arith) (h (suc q))),
  )

  walk_left_sound :
      (center d f : ℕ)
      → walk_left in_bounds path center d f ≡ true
      → (q : ℕ) → q < f
      → d + q * 5 ≤ center
      → Passes (center - (d + q * 5))
  unfolding walk_left
  walk_left_sound center d zero e q l b = ground arith
  walk_left_sound center d (suc f) e zero l b =
      Passes-at (center - d) (center - (d + 0 * 5)) (omega arith) (ground arith)
  walk_left_sound center d (suc f) e (suc q) l b =
      Passes-at (center - (d + 5 + q * 5)) (center - (d + suc q * 5)) (omega arith)
        (walk_left_sound center (d + 5) f (ground arith) q (omega arith) (omega arith))

  walk_left_complete :
      (center d f : ℕ)
      → ((q : ℕ) → d + q * 5 ≤ center → Passes (center - (d + q * 5)))
      → walk_left in_bounds path center d f ≡ true
  unfolding walk_left
  walk_left_complete center d zero h = refl
  walk_left_complete center d (suc f) h =
      let first : d ≤ center → Passes (center - d) =
        λ b. Passes-at (center - (d + 0 * 5)) (center - d) (omega arith) (h 0 (omega arith)) in
      let rest = walk_left_complete center (d + 5) f (λ q b.
        Passes-at (center - (d + suc q * 5)) (center - (d + 5 + q * 5)) (omega arith)
          (h (suc q) (omega arith))) in
      elim (Bool-cases (leb d center)) [
        | inl y ↦ ground (arith, y, first (ground arith), rest)
        | inr n ↦ ground (arith, n)
      ]

  -- The distances that the walks look at: those from the offset `i` to `i + k` with their walks.
  abbrev Walked : ℕ → ℕ → ℕ → Type 0
  Walked center i k =
      (j q : ℕ)
      → i ≤ j
      → j < i + k
      → q < length path
      → Passes (center + (j + q * 5)) × (j + q * 5 ≤ center → Passes (center - (j + q * 5)))

  walks_sound : (center i k : ℕ) → walks in_bounds path center i k ≡ true → Walked center i k
  unfolding walks
  walks_sound center i zero e j q a b l = absurd (omega arith)
  walks_sound center i (suc k) e j q a b l = elim (Bool-cases (i == j)) [
    | inl y ↦
        let same : i ≡ j = ground arith in
        (
          Passes-at (center + (i + q * 5)) (center + (j + q * 5)) (omega arith)
              (walk_right_sound center i (length path) (ground arith) q l),
          λ m.
              Passes-at (center - (i + q * 5)) (center - (j + q * 5)) (omega arith)
                (walk_left_sound center i (length path) (ground arith) q l (omega arith)),
        )
    | inr n ↦ walks_sound center (i + 1) k (ground arith) j q (ground arith) (omega arith) l
  ]

  walks_complete :
      (center i k : ℕ)
      → ((j q : ℕ)
          → i ≤ j
          → j < i + k
          → Passes (center + (j + q * 5)) × (j + q * 5 ≤ center → Passes (center - (j + q * 5))))
      → walks in_bounds path center i k ≡ true
  unfolding walks
  walks_complete center i zero h = refl
  walks_complete center i (suc k) h = ground (
    arith,
    walk_right_complete center i (length path) (λ q. (h i q (omega arith) (omega arith)).0),
    walk_left_complete center i (length path) (λ q. (h i q (omega arith) (omega arith)).1),
    walks_complete center (i + 1) k (λ j q a b. h j q (omega arith) (omega arith)),
  )

  get_elem?-bound :
      (k : ℕ) (xs : List Point) (point : Point) → get_elem? xs k ≡ some point → k < length xs
  get_elem?-bound k [] point e = ground arith
  get_elem?-bound zero (x ∷ xs) point e = omega arith
  get_elem?-bound (suc k) (x ∷ xs) point e = let l = get_elem?-bound k xs point e in omega arith

  bound-get_elem? : (k : ℕ) (xs : List Point) → k < length xs → get_elem? xs k ≢ none
  bound-get_elem? k [] l e = absurd (omega arith)
  bound-get_elem? zero (x ∷ xs) l e = ground arith
  bound-get_elem? (suc k) (x ∷ xs) l e = bound-get_elem? k xs (omega arith) e

  -- The point at an index, if there is one, is in bounds.
  abbrev pub IsInside : ℕ → Type 0
  IsInside k = (point : Point) → get_elem? path k ≡ some point → in_bounds point ≡ true

  Passes-IsInside : (k : ℕ) → IsInside k → Passes k
  unfolding point_passes
  Passes-IsInside k h = elim (Option-cases (get_elem? path k)) [
    | inl e ↦ rw (e, point_passes)
    | inr (point, e) ↦ rw (e, point_passes) (h point e)
  ]

  IsInside-Passes : (k : ℕ) → Passes k → IsInside k
  unfolding point_passes
  IsInside-Passes k h point e = ground arith

  abbrev pub center : ℕ
  center = length path / 2

  -- The distance of an index to the center.
  abbrev pub distance : ℕ → ℕ
  distance k = (k - center) + (center - k)

  looked-IsInside :
      walks in_bounds path center 1 4 ≡ true → (k : ℕ) → distance k % 5 ≢ 0 → IsInside k
  looked-IsInside e k n point g =
      let b : k < length path = get_elem?-bound k path point g in
      let (right, left) =
        walks_sound center 1 4 e (distance k % 5) (distance k / 5) (omega arith) (omega arith)
          (omega arith) in
      elim (Bool-cases (leb center k)) [
        | inl y ↦
            let l : center ≤ k = ground arith in
            IsInside-Passes k
              (Passes-at (center + (distance k % 5 + distance k / 5 * 5)) k (omega arith) right)
              point g
        | inr y ↦
            let l : k < center = ground arith in
            IsInside-Passes k
              (Passes-at (center - (distance k % 5 + distance k / 5 * 5)) k (omega arith)
                (left (omega arith)))
              point g
      ]

  inside-walks :
      ((k : ℕ) → distance k % 5 ≢ 0 → IsInside k) → walks in_bounds path center 1 4 ≡ true
  inside-walks h = walks_complete center 1 4 (λ j q a b. (
    Passes-IsInside (center + (j + q * 5)) (h (center + (j + q * 5)) (omega arith)),
    λ l. Passes-IsInside (center - (j + q * 5)) (h (center - (j + q * 5)) (omega arith)),
  ))

  -- For a path with a point, the check returns, and accepts just when the point in the middle and all
  -- points whose distance to it is no multiple of the interval are in bounds: the other points, five,
  -- ten and so on from the middle, are not looked at.
  pub is_path_in_bounds_lem :
      0 < length path
      → (b : Bool) × (is_path_in_bounds in_bounds path ≡ some b)
        × ((b ≡ true) ↔ (IsInside center × ((k : ℕ) → distance k % interval ≢ 0 → IsInside k)))
  unfolding is_path_in_bounds
  is_path_in_bounds_lem n = elim (Option-cases (get_elem? path center)) [
    | inl e ↦ absurd (bound-get_elem? center path (omega arith) e)
    | inr (point, e) ↦ (
      if in_bounds point then walks in_bounds path center 1 4 else false,
      rw (e, is_path_in_bounds),
      (
        λ h. (λ p g. ground arith, λ k d. looked-IsInside (ground arith) k d),
        λ h. let middle = h.0 point e in let others = inside-walks h.1 in ground arith,
      ),
    )
  ]
