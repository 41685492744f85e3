-- ===== src/Ticks/Schedule.antt =====
-- `doTick` and `_setTick` of src/core/mission_state.cpp over the ticks of src/ticks.
use obcpp.Base.{if◌then◌else◌, ℕ, List, [], ◌∷◌, ◌++◌, Option, none, some, Bool}
use obcpp.Ticks.Tick.{
  Tick, TickId, nullptr, mission_prep, path_gen, path_validate, mav_upload, takeoff, fly_waypoints,
  fly_search, cv_loiter, airdrop_prep, airdrop_approach, manual_landing, auto_landing, mission_done,
  active_takeoff, wait_for_takeoff, refueling,
}
use obcpp.Ticks.State.{
  MissionState, Config, Readings, Action, Outcome, generate_paths, arm_and_hover, start_mission,
  start_streaming, upload_mission, set_mission_item, decrement_laps_remaining,
}
use obcpp.Ticks.Ground.{
  stay, with_mav, mission_prep_tick, path_gen_tick, path_validate_tick, mav_upload_tick,
  wait_for_takeoff_tick, takeoff_tick, active_takeoff_tick, refueling_tick, manual_landing_tick,
}
use obcpp.Ticks.Flight.{
  ◌>>=◌, fly_waypoints_tick, fly_search_tick, cv_loiter_tick, airdrop_prep_tick,
  airdrop_approach_tick,
}
pub mod Safety
pub mod Connection

-- `getID`; the null pointer has none.
abbrev pub get_id : {Route : Type 0} → Tick Route → Option TickId
get_id nullptr = none
get_id mission_prep = some TickId.mission_prep
get_id path_gen = some TickId.path_gen
get_id (path_validate status) = some TickId.path_validate
get_id (mav_upload next path geofence) = some TickId.mav_upload
get_id takeoff = some TickId.takeoff
get_id (fly_waypoints next started last) = some TickId.fly_waypoints
get_id (fly_search item started last) = some TickId.fly_search
get_id cv_loiter = some TickId.cv_loiter
get_id airdrop_prep = some TickId.airdrop_prep
get_id airdrop_approach = some TickId.airdrop_approach
get_id (manual_landing next) = some TickId.manual_landing
get_id auto_landing = some TickId.auto_landing
get_id mission_done = some TickId.mission_done
get_id active_takeoff = some TickId.active_takeoff
get_id (wait_for_takeoff status) = some TickId.wait_for_takeoff
get_id refueling = some TickId.refueling

-- `getWait`: milliseconds until the next call, from include/utilities/constants.hpp.
unfoldable pub get_wait : {Route : Type 0} → Tick Route → Option ℕ
get_wait nullptr = none
get_wait mission_prep = some 1000
get_wait path_gen = some 1000
get_wait (path_validate status) = some 1000
get_wait _ = some 100

-- The new state and the actions of an `init()`; `none` is a call on a null pointer.
abbrev pub Started : Type 0 → Type 0 → Type 0 → Type 0
Started Route Target Photo = Option (MissionState Route Target × List (Action Route Photo))

module _ {Route Target Photo : Type 0} where
  -- `tick()` of the object's class.
  unfoldable pub call_tick :
      Tick Route
      → MissionState Route Target
      → Config
      → Readings Route Target Photo
      → Option (Outcome Route Target Photo)
  call_tick nullptr s c r = none
  call_tick mission_prep s c r = some (mission_prep_tick s r)
  call_tick path_gen s c r = path_gen_tick s r.init_path r.coverage_path
  call_tick (path_validate status) s c r = some (path_validate_tick s status)
  call_tick (mav_upload next path geofence) s c r =
      some (mav_upload_tick s next path geofence r.mav_uploaded)
  call_tick takeoff s c r = takeoff_tick s r
  call_tick (fly_waypoints next started last) s c r = fly_waypoints_tick s c r next started last
  call_tick (fly_search item started last) s c r =
      fly_search_tick s c r item started last s.cv_status
  call_tick cv_loiter s c r = cv_loiter_tick s s.cv_status
  call_tick airdrop_prep s c r = airdrop_prep_tick s c r
  call_tick airdrop_approach s c r = airdrop_approach_tick s r
  call_tick (manual_landing next) s c r = manual_landing_tick s r next
  call_tick auto_landing s c r = some (stay s)
  call_tick mission_done s c r = some (stay s)
  call_tick active_takeoff s c r = active_takeoff_tick s c r r.takeoff_result
  call_tick (wait_for_takeoff status) s c r = some (wait_for_takeoff_tick s status)
  call_tick refueling s c r = refueling_tick s r

  -- The calls on the client that run in a thread of their own fail there on a null pointer; so does
  -- the path generation, which asks it for the position and may abort for other reasons.
  unfoldable pub path_gen_init :
      MissionState Route Target → Readings Route Target Photo → Started Route Target Photo
  path_gen_init s r = if r.generation_aborts then none else with_mav s (s, generate_paths ∷ [])

  unfoldable pub mav_upload_init :
      MissionState Route Target → Route → Bool → Started Route Target Photo
  mav_upload_init s path geofence = with_mav s (s, upload_mission path geofence ∷ [])

  unfoldable pub active_takeoff_init : MissionState Route Target → Started Route Target Photo
  active_takeoff_init s = with_mav s (s, arm_and_hover ∷ [])

  unfoldable pub fly_waypoints_init :
      MissionState Route Target
      → Readings Route Target Photo
      → Tick Route
      → Started Route Target Photo
  unfolding decrement_laps_remaining
  fly_waypoints_init s r next = with_mav s (
    decrement_laps_remaining (record s { tick = fly_waypoints next r.start_mission r.now }),
    set_mission_item 1 ∷ start_mission ∷ start_streaming ∷ set_mission_item 1 ∷ [],
  )

  unfoldable pub fly_search_init :
      MissionState Route Target → Readings Route Target Photo → ℕ → Started Route Target Photo
  fly_search_init s r item = with_mav s (
    record s { tick = fly_search item r.start_mission r.now },
    start_streaming ∷ set_mission_item 1 ∷ start_mission ∷ set_mission_item 1 ∷ [],
  )

  unfoldable pub airdrop_approach_init : MissionState Route Target → Started Route Target Photo
  airdrop_approach_init s = with_mav s (s, start_mission ∷ [])

  -- `init()` of the object's class; the base class has an empty one.
  unfoldable pub init :
      Tick Route
      → MissionState Route Target
      → Readings Route Target Photo
      → Started Route Target Photo
  unfolding path_gen_init mav_upload_init active_takeoff_init fly_waypoints_init fly_search_init
      airdrop_approach_init
  init path_gen s r = path_gen_init s r
  init (mav_upload next path geofence) s r = mav_upload_init s path geofence
  init active_takeoff s r = active_takeoff_init s
  init (fly_waypoints next started last) s r = fly_waypoints_init s r next
  init (fly_search item started last) s r = fly_search_init s r item
  init airdrop_approach s r = airdrop_approach_init s
  init _ s r = some (s, [])

  -- `_setTick`.
  unfoldable pub set_tick :
      MissionState Route Target
      → Tick Route
      → Readings Route Target Photo
      → Option (MissionState Route Target × List (Action Route Photo))
  unfolding init
  set_tick s t r = init t (record s { tick = t }) r

  -- The new tick, if there is one, is set. `r` is read by `tick()`, `r'` by `init()`.
  unfoldable pub enter :
      Outcome Route Target Photo
      → Tick Route
      → Readings Route Target Photo
      → Option (MissionState Route Target × List (Action Route Photo))
  unfolding set_tick
  enter o nullptr r' = some (o.state, o.actions)
  enter o t r' = do (s, acts) ← set_tick o.state t r'; some (s, o.actions ++ acts)

  -- The state and the actions; `none` is a null pointer, an empty optional or a missing key.
  unfoldable pub tick_once :
      MissionState Route Target
      → Config
      → Readings Route Target Photo
      → Readings Route Target Photo
      → Option (MissionState Route Target × List (Action Route Photo))
  unfolding call_tick enter
  tick_once s c r r' = do o ← call_tick s.tick s c r; enter o o.next r'

  -- The same with the time to wait, which the tick that is then set gives.
  unfoldable pub do_tick :
      MissionState Route Target
      → Config
      → Readings Route Target Photo
      → Readings Route Target Photo
      → Option (MissionState Route Target × List (Action Route Photo) × ℕ)
  unfolding tick_once get_wait
  do_tick s c r r' = do (t, acts) ← tick_once s c r r'; wait ← get_wait t.tick; some (t, acts, wait)
