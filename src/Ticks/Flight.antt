-- ===== src/Ticks/Flight.antt =====
-- The ticks of the flight: src/ticks/fly_waypoints.cpp, fly_search.cpp, cv_loiter.cpp,
-- airdrop_prep.cpp and airdrop_approach.cpp.
-- A call through a null pointer, the value of an empty optional, and an exception are `none`.
pub mod Outcomes
pub mod Laps
pub mod Drops
use obcpp.Base.{
  ℕ, zero, suc, ◌+◌, ◌-◌, List, [], ◌∷◌, ◌++◌, Option, none, some, Bool, true, false, not, ◌&&◌,
  leb, length, ◌==◌, if◌then◌else◌,
}
use obcpp.Base.Int.{pos, ltb_ℤ}
use obcpp.Ticks.Tick.{
  Tick, nullptr, mav_upload, fly_waypoints, fly_search, cv_loiter, airdrop_prep, airdrop_approach,
  manual_landing,
}
use obcpp.Ticks.State.{
  MissionState, Config, Readings, Action, Outcome, CvStatus, num_airdrops, start_mission,
  save_photo, run_pipeline, relay, contains, mark_airdrop_as_dropped,
}
use obcpp.Ticks.Ground.{stay, go, with_mav, new_fly_search, new_fly_waypoints}

infixl 5 ◌>>=◌
abbrev pub ◌>>=◌ {ℓ κ} : {A : Type ℓ} {B : Type κ} → Option A → (A → Option B) → Option B
none >>= f = none
some a >>= f = f a

-- The wait for a new path: 2500 ms in steps of 100 ms. The future is looked at first, and after
-- each step; `k` steps are left. The result is the steps left when the loop ends.
pub wait_for_path : (ℕ → Bool) → ℕ → ℕ → ℕ
wait_for_path ready i zero = 0
wait_for_path ready i (suc k) =
    let later = wait_for_path ready (i + 1) k in if ready i then suc k else later

with_photo_time : {Route Photo : Type 0} → Tick Route → Option Photo → ℕ → Tick Route
with_photo_time (fly_waypoints next started last) (some photo) t = fly_waypoints next started t
with_photo_time (fly_search item started last) (some photo) t = fly_search item started t
with_photo_time t _ _ = t

-- The time of the last photo that came out, of those from the i-th on.
last_time : {Photo : Type 0} → (ℕ → Option Photo) → ℕ → ℕ → ℕ → ℕ → ℕ
last_time photo t i zero last = last
last_time photo t i (suc k) last =
    last_time photo t (i + 1) k (elim (photo i) [ none ↦ last | some p ↦ t ])

-- The loop over the airdrops from the i-th on; `default` if all were dropped.
unfoldable pub first_undropped : List ℕ → ℕ → ℕ → ℕ → ℕ
first_undropped dropped default i zero = default
first_undropped dropped default i (suc k) =
    let later = first_undropped dropped default (i + 1) k in if contains i dropped then later else i

-- The map's `at`: a missing key throws.
unfoldable pub target_at : {Target : Type 0} → ℕ → List (ℕ × Target) → Option Target
target_at a [] = none
target_at a ((b, t) ∷ rest) = if b == a then some t else target_at a rest

-- RELAY2 is switched on, and off again if that succeeded.
unfoldable pub trigger_airdrop : {Route Photo : Type 0} → Bool → List (Action Route Photo)
trigger_airdrop success = if success then relay 1 true ∷ relay 1 false ∷ [] else relay 1 true ∷ []

module _ {Route Target Photo : Type 0} where
  -- One picture: saved if the configuration says so, through the optional and before it is tested,
  -- and handed to the aggregator.
  pub take_picture :
      MissionState Route Target → Config → Option Photo → Option (List (Action Route Photo))
  take_picture s c none = if c.save_images_to_file then none else some []
  take_picture s c (some photo) = do
    _ ← s.cv
    some (
        if c.save_images_to_file
        then save_photo photo ∷ run_pipeline photo ∷ []
        else run_pipeline photo ∷ [])

  -- The loop over the pictures of one stop, from the i-th on.
  take_pictures :
      MissionState Route Target
      → Config
      → (ℕ → Option Photo)
      → ℕ
      → ℕ
      → Option (List (Action Route Photo))
  unfolding take_picture
  take_pictures s c photo i zero = some []
  take_pictures s c photo i (suc k) = do
    now ← take_picture s c (photo i)
    rest ← take_pictures s c photo (i + 1) k
    some (now ++ rest)

  -- What follows once the flight controller has finished the mission. The path is taken only if
  -- time is left over.
  unfoldable pub lap_done :
      MissionState Route Target → Readings Route Target Photo → Option (Outcome Route Target Photo)
  unfolding wait_for_path
  lap_done s r =
      let taken : Option (Outcome Route Target Photo) = elim r.new_path [
        | none ↦ none
        | some path ↦ some (
            go (record s { init_path = path })
              (mav_upload (new_fly_waypoints new_fly_search) path false))
      ] in
      if ltb_ℤ (pos 0) s.laps_remaining
      then (if r.generation_aborts
          then none
          else if wait_for_path r.path_ready 0 25 == 0
          then some (stay s)
          else taken)
      else some (go s (mav_upload new_fly_search s.coverage_path false))

  abbrev pub with_actions :
      List (Action Route Photo)
      → Option (Outcome Route Target Photo)
      → Option (Outcome Route Target Photo)
  with_actions acts none = none
  with_actions acts (some o) = some (record o { actions = acts })

  -- `next` is the tick's own next tick, which the code does not read.
  unfoldable pub fly_waypoints_tick :
      MissionState Route Target
      → Config
      → Readings Route Target Photo
      → Tick Route
      → Bool
      → ℕ
      → Option (Outcome Route Target Photo)
  unfolding take_picture lap_done with_photo_time
  fly_waypoints_tick s c r next started last =
      if not s.mav
      then none
      else if r.has_converter && (r.in_zone && leb 300 (r.now - last))
      then (do
        acts ← take_picture s c (r.photo 0)
        let t = with_photo_time (fly_waypoints next started last) (r.photo 0) r.photo_time
        let done = with_actions acts (lap_done (record s { tick = t }) r)
        (if r.is_mission_finished
            then done
            else some (record { state = record s { tick = t }; next = nullptr; actions = acts })))
      else (if r.is_mission_finished then lap_done s r else some (stay s))

  unfoldable pub fly_search_tick :
      MissionState Route Target
      → Config
      → Readings Route Target Photo
      → ℕ
      → Bool
      → ℕ
      → CvStatus
      → Option (Outcome Route Target Photo)
  unfolding take_pictures last_time
  fly_search_tick s c r item started last CvStatus.validated =
      some (go (record s { cv_status = CvStatus.none }) airdrop_prep)
  fly_search_tick s c r item started last _ =
      if not s.mav
      then none
      else if not started
      then some (record {
        state = record s { tick = fly_search item r.start_mission last };
        next = nullptr;
        actions = start_mission ∷ [];
      })
      else if r.is_mission_finished
      then some (go s cv_loiter)
      else if item == r.curr_waypoint
      then some (stay s)
      else (do
        acts ← take_pictures s c r.photo 0 c.pictures_per_stop
        some (record {
          state = record s {
            tick =
                fly_search r.curr_waypoint started
                  (last_time r.photo r.photo_time 0 c.pictures_per_stop last);
          };
          next = nullptr;
          actions = acts;
        }))

  -- The results are locked and released again on the way to the airdrop.
  unfoldable pub cv_loiter_tick :
      MissionState Route Target → CvStatus → Option (Outcome Route Target Photo)
  cv_loiter_tick s CvStatus.validated = do _ ← s.cv; some (go s airdrop_prep)
  cv_loiter_tick s CvStatus.rejected = some (go s new_fly_search)
  cv_loiter_tick s CvStatus.none = some (stay s)

  unfoldable pub airdrop_prep_tick :
      MissionState Route Target
      → Config
      → Readings Route Target Photo
      → Option (Outcome Route Target Photo)
  unfolding first_undropped target_at mark_airdrop_as_dropped
  airdrop_prep_tick s c r =
      if leb num_airdrops (length s.dropped_airdrops)
      then some (go s (manual_landing nullptr))
      else (do
        table ← s.cv
        let next_airdrop =
            first_undropped s.dropped_airdrops c.water c.water (c.beacon + 1 - c.water)
        let marked = mark_airdrop_as_dropped s next_airdrop
        target ← target_at next_airdrop table
        path ← (if s.mav then r.approach target else none)
        some (
            go (record marked { airdrop_path = path; next_airdrop_to_drop = some next_airdrop })
              (mav_upload airdrop_approach path false)))

  unfoldable pub airdrop_approach_tick :
      MissionState Route Target → Readings Route Target Photo → Option (Outcome Route Target Photo)
  unfolding trigger_airdrop
  airdrop_approach_tick s r =
      let acts =
        if r.is_at_final_waypoint
        then elim s.next_airdrop_to_drop [ none ↦ [] | some a ↦ trigger_airdrop r.relay_on ]
        else [] in
      with_mav s (record {
        state = s;
        next =
            if r.is_mission_finished
            then (if leb num_airdrops (length s.dropped_airdrops)
                then manual_landing nullptr
                else airdrop_prep)
            else nullptr;
        actions = acts;
      })
