-- ===== src/Ticks/Ground.antt =====
-- The ticks before the flight and after it: src/ticks/mission_prep.cpp, path_gen.cpp,
-- path_validate.cpp, mav_upload.cpp, wait_for_takeoff.cpp, takeoff.cpp, active_takeoff.cpp,
-- refueling.cpp, manual_landing.cpp, auto_landing.cpp and mission_done.cpp.
-- A call through a null pointer is `none`.
pub mod Outcomes
use obcpp.Base.{[], ◌∷◌, Option, none, some, Bool, true, false, not, leb, length, if◌then◌else◌}
use obcpp.Ticks.Tick.{
  Tick, ValidateStatus, TakeoffStatus, nullptr, mission_prep, path_gen, path_validate, mav_upload,
  takeoff, active_takeoff, wait_for_takeoff, fly_waypoints, fly_search, airdrop_prep,
}
use obcpp.Ticks.State.{
  MissionState, Config, Readings, Outcome, num_airdrops, stitch_images, start_mission,
}

-- A call on the Mavlink client.
abbrev pub with_mav {ℓ} :
    {A : Type ℓ} {Route Target : Type 0} → MissionState Route Target → A → Option A
with_mav s a = if s.mav then some a else none

-- The constructors, with the fields that they set; a time that they leave open is 0.
abbrev pub new_fly_search : {Route : Type 0} → Tick Route
new_fly_search = fly_search 1 false 0

abbrev pub new_fly_waypoints : {Route : Type 0} → Tick Route → Tick Route
new_fly_waypoints next = fly_waypoints next false 0

upload_search : {Route Target : Type 0} → MissionState Route Target → Tick Route
upload_search s = mav_upload new_fly_search s.coverage_path false

module _ {Route Target Photo : Type 0} where
  abbrev pub stay : MissionState Route Target → Outcome Route Target Photo
  stay s = record { state = s; next = nullptr; actions = [] }

  abbrev pub go : MissionState Route Target → Tick Route → Outcome Route Target Photo
  go s t = record { state = s; next = t; actions = [] }

  -- A new aggregator is made for the mission.
  unfoldable pub mission_prep_tick :
      MissionState Route Target → Readings Route Target Photo → Outcome Route Target Photo
  mission_prep_tick s r =
      if s.has_mission
      then go (record s { cv = some r.stage; mapping_is_done = false }) path_gen
      else stay s

  -- Both paths have to be ready.
  unfoldable pub path_gen_tick :
      MissionState Route Target
      → Option (Option Route)
      → Option (Option Route)
      → Option (Outcome Route Target Photo)
  path_gen_tick s (some none) (some q) = none
  path_gen_tick s (some (some p)) (some none) = none
  path_gen_tick s (some (some p)) (some (some q)) =
      some (go (record s { init_path = p; coverage_path = q }) (path_validate ValidateStatus.none))
  path_gen_tick s _ _ = some (stay s)

  unfoldable pub path_validate_tick :
      MissionState Route Target → ValidateStatus → Outcome Route Target Photo
  path_validate_tick s ValidateStatus.validated =
      if s.mav
      then go s (mav_upload (wait_for_takeoff TakeoffStatus.none) s.init_path true)
      else stay s
  path_validate_tick s ValidateStatus.rejected = go s path_gen
  path_validate_tick s ValidateStatus.none = stay s

  -- A failed upload is tried again by a new tick with the same fields.
  unfoldable pub mav_upload_tick :
      MissionState Route Target
      → Tick Route
      → Route
      → Bool
      → Option Bool
      → Outcome Route Target Photo
  mav_upload_tick s next p geofence none = stay s
  mav_upload_tick s next p geofence (some false) = go s (mav_upload next p geofence)
  mav_upload_tick s next p geofence (some true) = go s next

  unfoldable pub wait_for_takeoff_tick :
      MissionState Route Target → TakeoffStatus → Outcome Route Target Photo
  wait_for_takeoff_tick s TakeoffStatus.manual = go s takeoff
  wait_for_takeoff_tick s TakeoffStatus.autonomous = go s active_takeoff
  wait_for_takeoff_tick s TakeoffStatus.none = stay s

  -- Manual takeoff: the pilot switches to autonomous flight.
  unfoldable pub takeoff_tick :
      MissionState Route Target → Readings Route Target Photo → Option (Outcome Route Target Photo)
  unfolding upload_search
  takeoff_tick s r =
      with_mav s (if r.in_mission_mode then go s (new_fly_waypoints (upload_search s)) else stay s)

  unfoldable pub airborne :
      MissionState Route Target → Config → Readings Route Target Photo → Outcome Route Target Photo
  unfolding upload_search
  airborne s c r = record {
    state = s;
    next =
        if not r.start_mission
        then mission_prep
        else if leb c.payload_size (length s.dropped_airdrops)
        then new_fly_waypoints airdrop_prep
        else new_fly_waypoints (upload_search s);
    actions = start_mission ∷ [];
  }

  unfoldable pub active_takeoff_tick :
      MissionState Route Target
      → Config
      → Readings Route Target Photo
      → Option Bool
      → Option (Outcome Route Target Photo)
  unfolding airborne
  active_takeoff_tick s c r none = some (stay s)
  active_takeoff_tick s c r (some false) = some (go s mission_prep)
  active_takeoff_tick s c r (some true) = with_mav s (airborne s c r)

  unfoldable pub refueling_tick :
      MissionState Route Target → Readings Route Target Photo → Option (Outcome Route Target Photo)
  refueling_tick s r = with_mav s (
      if r.is_armed
      then go s (mav_upload (wait_for_takeoff TakeoffStatus.none) s.init_path false)
      else stay s)

  -- With all airdrops dropped the images are stitched once; before that the tick hands over as soon
  -- as the vehicle is disarmed.
  unfoldable pub manual_landing_tick :
      MissionState Route Target
      → Readings Route Target Photo
      → Tick Route
      → Option (Outcome Route Target Photo)
  manual_landing_tick s r next =
      if leb num_airdrops (length s.dropped_airdrops)
      then (if s.mapping_is_done
          then some (stay s)
          else some (record {
            state = record s { mapping_is_done = true };
            next = nullptr;
            actions = stitch_images ∷ [];
          }))
      else with_mav s (if r.is_armed then stay s else go s next)
