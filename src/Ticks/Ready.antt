-- ===== src/Ticks/Ready.antt =====
-- The states of a mission in which no tick can fault, for the ticks of src/ticks and the scheduler
-- of src/core/mission_state.cpp.
use obcpp.Base.{
  ℕ, ◌+◌, List, [], ◌∷◌, Option, none, some, Bool, true, false, ◌&&◌, leb, length, ◌≡◌, refl, arith,
  ◌⊎◌, inl,
}
use obcpp.Ticks.Tick.{
  Tick, nullptr, mission_prep, mav_upload, fly_waypoints, fly_search, airdrop_approach,
  manual_landing, wait_for_takeoff,
}
use obcpp.Ticks.State.{MissionState, Config, Readings, Outcome, num_airdrops}
use obcpp.Ticks.Flight.{target_at}
use obcpp.Ticks.Ground.{stay, go, with_mav}

abbrev pub is_some : {A : Type 0} → Option A → Bool
is_some none = false
is_some (some a) = true

-- The aggregator exists and its table has both airdrops.
unfoldable pub staged : {Target : Type 0} → Config → Option (List (ℕ × Target)) → Bool
staged c none = false
staged c (some table) = is_some (target_at c.water table) && is_some (target_at c.beacon table)

-- The airdrops are dropped in order.
pub data InOrder (c : Config) : List ℕ → Type 0 where
  none_dropped : InOrder c []
  water_dropped : InOrder c (c.water ∷ [])
  all_dropped : InOrder c (c.water ∷ c.beacon ∷ [])

-- The ticks that an upload leads to.
unfoldable pub after_upload : {Route : Type 0} → Tick Route → Bool
after_upload (wait_for_takeoff status) = true
after_upload (fly_waypoints next started last) = true
after_upload (fly_search item started last) = true
after_upload airdrop_approach = true
after_upload _ = false

-- A tick that can be set: `cv` says whether the aggregator is staged, `over` whether all airdrops
-- were dropped.
unfoldable pub safe : {Route : Type 0} → Bool → Bool → Tick Route → Bool
safe cv over nullptr = false
safe cv over mission_prep = true
safe cv over (mav_upload next path geofence) = cv && after_upload next
safe cv over (manual_landing nullptr) = over
safe cv over (manual_landing _) = false
safe cv over _ = cv

abbrev pub is_over : {Route Target : Type 0} → MissionState Route Target → Bool
is_over s = leb num_airdrops (length s.dropped_airdrops)

-- The configuration numbers the airdrops one after the other and saves no images.
pub record Configured (c : Config) : Type 0 where
  pub next_to_water : c.beacon ≡ c.water + 1
  pub saves_nothing : c.save_images_to_file ≡ false

pub record Ready {Route Target : Type 0} (c : Config) (s : MissionState Route Target) : Type 0 where
  pub connected : s.mav ≡ true
  pub in_order : InOrder c s.dropped_airdrops
  pub tick_safe : safe (staged c s.cv) (is_over s) s.tick ≡ true

-- A next tick that the scheduler can go on with.
unfoldable pub next_safe :
    {Route Target : Type 0} → Config → MissionState Route Target → Tick Route → Bool
next_safe c s nullptr = safe (staged c s.cv) (is_over s) s.tick
next_safe c s t = safe (staged c s.cv) (is_over s) t

pub record Fine {Route Target Photo : Type 0} (c : Config) (o : Outcome Route Target Photo)
    : Type 0 where
  pub connected : o.state.mav ≡ true
  pub in_order : InOrder c o.state.dropped_airdrops
  pub next_tick_safe : next_safe c o.state o.next ≡ true

-- A path that is ready was not thrown.
abbrev pub unthrown : {Route : Type 0} → Option (Option Route) → Bool
unthrown none = true
unthrown (some p) = is_some p

-- No generation of a path aborts, throws or goes on for ever.
pub record EndsWell {Route Target Photo : Type 0} (r : Readings Route Target Photo) : Type 0 where
  pub goes_on : r.generation_aborts ≡ false
  pub initial : unthrown r.init_path ≡ true
  pub coverage : unthrown r.coverage_path ≡ true
  pub renewed : is_some r.new_path ≡ true
  pub approached : (t : Target) → is_some (r.approach t) ≡ true

-- A tick comes back with a fine outcome, or a generation of a path did not end well.
abbrev pub Comes :
    {Route Target Photo : Type 0}
    → Config
    → Readings Route Target Photo
    → Option (Outcome Route Target Photo)
    → Type 0
Comes {Route} {Target} {Photo} c r x =
    ((o : Outcome Route Target Photo) × (x ≡ some o) × Fine c o) ⊎ ((x ≡ none) × ¬ (EndsWell r))

module _ {Route Target Photo : Type 0} (c : Config) (s : MissionState Route Target)
    (h : Ready c s) where
  pub stay-Fine : Fine {Photo = Photo} c (stay s)
  unfolding next_safe
  stay-Fine = record {
    connected = h.connected;
    in_order = h.in_order;
    next_tick_safe = h.tick_safe;
  }

  pub go-Fine : (t : Tick Route) → next_safe c s t ≡ true → Fine {Photo = Photo} c (go s t)
  go-Fine t q = record { connected = h.connected; in_order = h.in_order; next_tick_safe = q }

  module _ {r : Readings Route Target Photo} where
    pub some-Comes : (o : Outcome Route Target Photo) → Fine c o → Comes c r (some o)
    some-Comes o f = inl (o, refl, f)

    pub with_mav-Comes : (o : Outcome Route Target Photo) → Fine c o → Comes c r (with_mav s o)
    with_mav-Comes o f = inl (o, ground (arith, h.connected), f)
