-- ===== src/Pathing/Polygons/Endpoints/Waypoints.antt =====
-- The waypoints at the ends of lines flown in turn (`getAirdropWaypoints` of
-- src/pathing/environment.cpp).
use obcpp.Base.{
  ℕ, List, zero, suc, ◌+◌, ◌<◌, ◌≡◌, refl, ap, ◌∙◌, Bool, true, false, not, some, [], ◌∷◌, arith,
  if◌then◌else◌, length, get_elem?,
}
use obcpp.Pathing.ForwardCoverage.{Planner, alternating}

-- A function applied `k` times.
unfoldable pub repeated : {A : Type 0} → (A → A) → ℕ → A → A
repeated f zero x = x
repeated f (suc k) x = repeated f k (f x)

module _ {Point Coord Curve Angle Height : Type 0}
    (p : Planner Point Coord Curve Angle Height) where
  -- Places 2 k and 2 k + 1 hold the waypoints at the ends of line k, for the first `n` lines: from the
  -- first end to the second where the line is flown down, which each line is that follows one flown up,
  -- and the angle is turned from line to line.
  unfoldable pub FliesEnds : Bool → Angle → ℕ → List Coord → List Point → Type 0
  FliesEnds fly_down angle n endpoints waypoints =
      (k : ℕ)
      → k < n
      → (first : Coord) × (second : Coord) × (get_elem? endpoints (k + k) ≡ some first)
        × (get_elem? endpoints (k + k + 1) ≡ some second)
        × (get_elem? waypoints (k + k)
            ≡ some (
                p.rrt_point (if repeated not k fly_down then first else second)
                  (repeated p.turned k angle)))
        × (get_elem? waypoints (k + k + 1)
            ≡ some (
                p.rrt_point (if repeated not k fly_down then second else first)
                  (repeated p.turned k angle)))

  FliesEnds-cons :
      (n : ℕ) (fly_down : Bool) (angle : Angle) (a b : Coord) (endpoints : List Coord) (x y : Point)
      (waypoints : List Point)
      → x ≡ p.rrt_point (if fly_down then a else b) angle
      → y ≡ p.rrt_point (if fly_down then b else a) angle
      → FliesEnds (not fly_down) (p.turned angle) n endpoints waypoints
      → FliesEnds fly_down angle (suc n) (a ∷ b ∷ endpoints) (x ∷ y ∷ waypoints)
  unfolding FliesEnds repeated
  FliesEnds-cons n fly_down angle a b endpoints x y waypoints ex ey h zero l =
      (a, b, refl, refl, ap some ex, ap some ey)
  FliesEnds-cons n fly_down angle a b endpoints x y waypoints ex ey h (suc k) l =
      let (first, second, at, at', flown, flown') = h k (omega (arith, l)) in
      let two : suc k + suc k ≡ suc (suc (k + k)) = omega arith in
      let three : suc k + suc k + 1 ≡ suc (suc (k + k + 1)) = omega arith in
      (
        first,
        second,
        ap (get_elem? (a ∷ b ∷ endpoints)) two ∙ at,
        ap (get_elem? (a ∷ b ∷ endpoints)) three ∙ at',
        ap (get_elem? (x ∷ y ∷ waypoints)) two ∙ flown,
        ap (get_elem? (x ∷ y ∷ waypoints)) three ∙ flown',
      )

  -- Lines with two ends each have a waypoint for each end.
  pub alternating_even :
      (n : ℕ) (fly_down : Bool) (angle : Angle) (endpoints : List Coord)
      → length endpoints ≡ n + n
      → (waypoints : List Point) × (alternating p fly_down angle endpoints ≡ some waypoints)
        × (length waypoints ≡ n + n)
        × FliesEnds fly_down angle n endpoints waypoints
  unfolding alternating FliesEnds
  alternating_even zero fly_down angle [] h = ([], refl, refl, λ k l. absurd (omega (arith, l)))
  alternating_even zero fly_down angle (a ∷ rest) h = absurd (omega (arith, h))
  alternating_even (suc n) fly_down angle [] h = absurd (omega (arith, h))
  alternating_even (suc n) fly_down angle (a ∷ []) h = absurd (omega (arith, h))
  alternating_even (suc n) fly_down angle (a ∷ b ∷ rest) h =
      let (waypoints, e, len, flies) =
        alternating_even n (not fly_down) (p.turned angle) rest (omega (arith, h)) in
      let ends : Coord × Coord = if fly_down then (a, b) else (b, a) in
      (
        p.rrt_point ends.0 angle ∷ p.rrt_point ends.1 angle ∷ waypoints,
        rw (alternating, e) refl,
        omega (arith, len),
        FliesEnds-cons n fly_down angle a b rest (p.rrt_point ends.0 angle)
            (p.rrt_point ends.1 angle) waypoints (first_end fly_down) (second_end fly_down) flies,
      )
    where
      ends_of : Bool → Coord × Coord
      ends_of down = if down then (a, b) else (b, a)

      first_end :
          (down : Bool)
          → p.rrt_point (ends_of down).0 angle ≡ p.rrt_point (if down then a else b) angle
      first_end true = refl
      first_end false = refl

      second_end :
          (down : Bool)
          → p.rrt_point (ends_of down).1 angle ≡ p.rrt_point (if down then b else a) angle
      second_end true = refl
      second_end false = refl
