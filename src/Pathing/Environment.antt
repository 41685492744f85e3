-- ===== src/Pathing/Environment.antt =====
-- The bounds checks of src/pathing/environment.cpp. Whether a point lies in a polygon is a parameter,
-- since the code decides it in floating point numbers. An access out of range is `none`.
pub mod Coverage
mod Examples
use obcpp.Base.{
  ℕ, zero, suc, ◌+◌, ◌-◌, ◌/◌, List, [], ◌∷◌, Option, none, some, Bool, true, false, not, leb,
  length, get_elem?, if◌then◌else◌,
}

-- The valid region, and the obstacles.
pub record Environment (Polygon : Type 0) : Type 0 where
  pub valid_region : Polygon
  pub obstacles : List Polygon

-- ENV_PATH_VALIDATION_STEP_SIZE.
abbrev pub interval : ℕ
interval = 5

module _ {Polygon Point : Type 0} (is_point_in_polygon : Polygon → Point → Bool) where
  clear_of : List Polygon → Point → Bool
  clear_of [] point = true
  clear_of (obstacle ∷ rest) point =
      let later = clear_of rest point in if is_point_in_polygon obstacle point then false else later

  pub is_point_in_bounds : Environment Polygon → Point → Bool
  unfolding clear_of
  is_point_in_bounds env point =
      if not (is_point_in_polygon env.valid_region point)
      then false
      else clear_of env.obstacles point

module _ {Point : Type 0} (in_bounds : Point → Bool) (path : List Point) where
  -- A point of the path; past its end a walk is over.
  point_passes : ℕ → Bool
  point_passes k = elim (get_elem? path k) [ none ↦ true | some point ↦ in_bounds point ]

  -- The walk to the right, `d` points from the center on in steps of the interval, on fuel.
  walk_right : ℕ → ℕ → ℕ → Bool
  unfolding point_passes
  walk_right center d zero = true
  walk_right center d (suc f) =
      let rest = walk_right center (d + interval) f in
      if point_passes (center + d) then rest else false

  -- The walk to the left; the index `center - d` ends it when it is negative.
  walk_left : ℕ → ℕ → ℕ → Bool
  unfolding point_passes
  walk_left center d zero = true
  walk_left center d (suc f) =
      let rest = walk_left center (d + interval) f in
      if leb d center then (if point_passes (center - d) then rest else false) else true

  -- The loop over the offsets `i`; `k` are left.
  walks : ℕ → ℕ → ℕ → Bool
  unfolding walk_right walk_left
  walks center i zero = true
  walks center i (suc k) =
      let rest = walks center (i + 1) k in
      if walk_right center i (length path)
      then (if walk_left center i (length path) then rest else false)
      else false

  pub is_path_in_bounds : Option Bool
  unfolding walks
  is_path_in_bounds =
      let center = length path / 2 in
      elim (get_elem? path center) [
        | none ↦ none
        | some point ↦ some (if in_bounds point then walks center 1 (interval - 1) else false)
      ]
