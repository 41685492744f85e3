-- ===== src/Pathing/MissionPath/Items.antt =====
-- The items that src/pathing/mission_path.cpp makes of a path: their numbers, their order, and
-- which one is marked as current.
use obcpp.Base.{
  ℕ, suc, ◌+◌, ◌-◌, ◌≡◌, ◌≢◌, ◌<◌, refl, ap, List, [], ◌∷◌, ◌++◌, map, some, length, get_elem?,
  sum_by, arith, ◌==◌, if◌then◌else◌, inl, inr, Bool-cases,
}
use obcpp.Base.Int.{ℤ}
use obcpp.Pathing.MissionPath.{
  Geo, Kind, forward, hover, hover_at_final, unknown, Command, nav_waypoint, nav_loiter_time,
  MissionItem, waypoint_item, loiter_item, first_item, forward_from, generate_forward_commands,
  hover_from, before_final, generate_hover_at_final_commands, commands,
}

module _ {Gps Float : Type 0} (g : Geo Gps Float) where
  open g use {scaled_latitude, scaled_longitude, altitude}

  abbrev pub Place : Type 0
  Place = ℤ × ℤ × Float

  abbrev pub place : MissionItem Float → Place
  place m = (m.x, m.y, m.z)

  abbrev pub place_of : Gps → Place
  place_of c = (scaled_latitude c, scaled_longitude c, altitude c)

  -- The items are numbered from `i` on without a gap.
  abbrev pub Numbered : ℕ → List (MissionItem Float) → Type 0
  Numbered i [] = Unit {0}
  Numbered i (m ∷ ms) = (m.seq ≡ i) × Numbered (i + 1) ms

  -- Where the items lead, and what they command there.
  abbrev pub route : List (MissionItem Float) → List (Place × Command)
  route = map (λ m. (place m, m.command))

  abbrev pub along : Command → List Gps → List (Place × Command)
  along k = map (λ c. (place_of c, k))

  -- The points before the last one are flown through.
  abbrev pub to_final : Gps → List Gps → List (Place × Command)
  to_final c [] = (place_of c, nav_loiter_time) ∷ []
  to_final c (d ∷ rest) = (place_of c, nav_waypoint) ∷ to_final d rest

  abbrev pub intended : Kind → Gps → List Gps → List (Place × Command)
  intended hover c rest = along nav_loiter_time (c ∷ rest)
  intended hover_at_final c rest = to_final c rest
  intended _ c rest = (place_of c, nav_waypoint) ∷ along nav_waypoint (c ∷ rest)

  forward_from_lem :
      (i : ℕ) (path : List Gps)
      → Numbered (i + 1) (forward_from g i path)
        × (route (forward_from g i path) ≡ along nav_waypoint path)
        × (sum_by (λ m. m.current) (forward_from g i path) ≡ 0)
  unfolding forward_from
  forward_from_lem i [] = (tt, refl, refl)
  forward_from_lem i (c ∷ rest) =
      let (n, r, s) = forward_from_lem (i + 1) rest in
      ((refl, n), ap (λ t. (place_of c, nav_waypoint) ∷ t) r, omega (arith, s))

  hover_from_lem :
      (wait i : ℕ) (path : List Gps)
      → Numbered i (hover_from g wait i path)
        × (route (hover_from g wait i path) ≡ along nav_loiter_time path)
        × (0 < i → sum_by (λ m. m.current) (hover_from g wait i path) ≡ 0)
  unfolding hover_from
  hover_from_lem wait i [] = (tt, refl, λ p. refl)
  hover_from_lem wait i (c ∷ rest) =
      let (n, r, s) = hover_from_lem wait (i + 1) rest in
      (
        (refl, n),
        ap (λ t. (place_of c, nav_loiter_time) ∷ t) r,
        λ p. ground (arith, s (omega arith)),
      )

  -- All the items of the mission that hovers at its last point `d`, from index `i` on.
  abbrev final_items : ℕ → ℕ → ℕ → List Gps → Gps → List (MissionItem Float)
  final_items wait total i path d =
      (before_final g total i path).0 ++ loiter_item g wait (before_final g total i path).1 0 d ∷ []

  before_final_stop :
      (total i : ℕ) (c : Gps) (rest : List Gps)
      → i + 1 ≡ total
      → before_final g total i (c ∷ rest) ≡ ([], i)
  unfolding before_final
  before_final_stop total i c rest h = elim (Bool-cases (i + 1 == total)) [
    | inl e ↦ rw e
    | inr e ↦ absurd (ground arith)
  ]

  before_final_go :
      (total i : ℕ) (c : Gps) (rest : List Gps)
      → i + 1 ≢ total
      → before_final g total i (c ∷ rest) ≡ (
        waypoint_item g i (if i == 0 then 1 else 0) c ∷ (before_final g total (i + 1) rest).0,
        (before_final g total (i + 1) rest).1,
      )
  unfolding before_final
  before_final_go total i c rest h = elim (Bool-cases (i + 1 == total)) [
    | inl e ↦ absurd (h (ground arith))
    | inr e ↦ rw e
  ]

  -- The items from index `i` on, and the marks from the next index on.
  final_items_lem :
      (wait total i : ℕ) (c : Gps) (rest : List Gps) (d : Gps)
      → total ≡ i + suc (length rest)
      → get_elem? (c ∷ rest) (length rest) ≡ some d
      → Numbered i (final_items wait total i (c ∷ rest) d)
        × (route (final_items wait total i (c ∷ rest) d) ≡ to_final c rest)
        × (0 < i → sum_by (λ m. m.current) (final_items wait total i (c ∷ rest) d) ≡ 0)
  unfolding loiter_item waypoint_item
  final_items_lem wait total i c [] d t h =
      rw (before_final_stop total i c [] (omega arith))
        ((refl, tt), ground arith, λ p. ground arith)
  final_items_lem wait total i c (c' ∷ rest) d t h =
      let (n, r, s) = final_items_lem wait total (i + 1) c' rest d (omega arith) h in
      rw (before_final_go total i c (c' ∷ rest) (omega arith)) (
        (refl, n),
        ap (λ l. (place_of c, nav_waypoint) ∷ l) r,
        λ p. ground (arith, s (omega arith)),
      )

  last_elem :
      (c : Gps) (rest : List Gps) → (d : Gps) × (get_elem? (c ∷ rest) (length rest) ≡ some d)
  last_elem c [] = (c, refl)
  last_elem c (c' ∷ rest) = last_elem c' rest

  hover_at_final_commands :
      (wait : ℕ) (path : List Gps) (d : Gps)
      → get_elem? path (length path - 1) ≡ some d
      → generate_hover_at_final_commands g wait path
        ≡ some (final_items wait (length path) 0 path d)
  unfolding generate_hover_at_final_commands
  hover_at_final_commands wait path d h = rw (h, generate_hover_at_final_commands)

  -- How many items are marked as the current one.
  abbrev pub marks : Kind → List Gps → ℕ
  marks hover_at_final [] = 0
  marks _ _ = 1

  abbrev pub first_current : List (MissionItem Float) → ℕ
  first_current [] = 0
  first_current (m ∷ ms) = m.current

  forward_commands :
      (c : Gps) (rest : List Gps)
      → (items : List (MissionItem Float)) × (generate_forward_commands g (c ∷ rest) ≡ some items)
        × Numbered 0 items
        × (route items ≡ (place_of c, nav_waypoint) ∷ along nav_waypoint (c ∷ rest))
        × (first_current items ≡ 1)
        × (sum_by (λ m. m.current) items ≡ 1)
  unfolding generate_forward_commands
  forward_commands c rest =
      let (n, r, s) = forward_from_lem 0 (c ∷ rest) in
      (
        first_item g c ∷ forward_from g 0 (c ∷ rest),
        refl,
        (refl, n),
        ap (λ t. (place_of c, nav_waypoint) ∷ t) r,
        refl,
        omega (arith, s),
      )

  -- The commands of a path with at least one point: they exist, are numbered from 0 without a gap,
  -- lead along the path as the kind says, and the one item marked as current is the first; only the
  -- mission of a single point that hovers at its final point has none marked.
  pub commands_lem :
      (k : Kind) (c : Gps) (rest : List Gps) (wait : ℕ)
      → (items : List (MissionItem Float)) × (commands g k (c ∷ rest) wait ≡ some items)
        × Numbered 0 items
        × (route items ≡ intended k c rest)
        × (first_current items ≡ marks k rest)
        × (sum_by (λ m. m.current) items ≡ marks k rest)
  unfolding commands
  commands_lem forward c rest wait = forward_commands c rest
  commands_lem unknown c rest wait = forward_commands c rest
  commands_lem hover c rest wait =
      let (n, r, s) = hover_from_lem wait 0 (c ∷ rest) in
      (
        hover_from g wait 0 (c ∷ rest),
        refl,
        n,
        r,
        refl,
        omega (arith, (hover_from_lem wait 1 rest).2 (omega arith)),
      )
  commands_lem hover_at_final c [] wait =
      (loiter_item g wait 0 0 c ∷ [], refl, (refl, tt), refl, refl, refl)
  commands_lem hover_at_final c (c' ∷ rest) wait =
      let total = length (c ∷ c' ∷ rest) in
      let (d, h) = last_elem c' rest in
      let less_one : total - 1 ≡ suc (length rest) = omega arith in
      let (n, r, s) = final_items_lem wait total 0 c (c' ∷ rest) d (omega arith) h in
      let (n', r', s') = final_items_lem wait total 1 c' rest d (omega arith) h in
      let shape = before_final_go total 0 c (c' ∷ rest) (omega arith) in
      (
        final_items wait total 0 (c ∷ c' ∷ rest) d,
        hover_at_final_commands wait (c ∷ c' ∷ rest) d (rw less_one h),
        n,
        r,
        rw shape,
        rw shape (ground (arith, s' (omega arith))),
      )
