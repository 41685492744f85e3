-- ===== src/Network/GcsRoutes/Examples.antt =====
-- The theorems on src/network/gcs_routes.cpp and src/core/mission_state.cpp at concrete inputs.
use obcpp.Base.{ℕ, List, [], ◌∷◌, none, some, Bool, true, false, ◌≡◌, refl}
use obcpp.Base.Int.{pos}
use obcpp.Ticks.Tick.{nullptr, cv_loiter, manual_landing}
use obcpp.Ticks.State.{MissionState, Config, Readings, CvStatus, mark_airdrop_as_dropped}
use obcpp.Ticks.Flight.{
  first_undropped, target_at, trigger_airdrop, cv_loiter_tick, airdrop_prep_tick,
  airdrop_approach_tick,
}
use obcpp.Ticks.Ground.{mav_upload_tick}
use obcpp.Ticks.Schedule.{
  init, path_gen_init, mav_upload_init, active_takeoff_init, fly_waypoints_init, fly_search_init,
  airdrop_approach_init, set_tick, enter, call_tick, get_wait, tick_once, do_tick,
}
use obcpp.Ticks.Ready.{Configured, Ready, water_dropped, staged, safe}
use obcpp.Network.Matches.{put, put_all}
use obcpp.Network.GcsServices.{Camera, run_pipeline_route, run_pictures}
use obcpp.Network.GcsRoutes.{
  served, run_pipeline, serve, Event, targets_matched, ticked, requested, match_targets, handle,
  happen, run,
}
use obcpp.Network.GcsRoutes.Safety.{landing_after_drops}

abbrev config : Config
config = record {
  payload_size = 2;
  pictures_per_stop = 1;
  save_images_to_file = false;
  water = 0;
  beacon = 1;
}

-- A path is its number of points.
abbrev answers : Readings ℕ ℕ ℕ
answers = record {
  mav_uploaded = some true;
  takeoff_result = some true;
  init_path = some (some 4);
  coverage_path = some (some 6);
  generation_aborts = false;
  path_ready = λ i. true;
  new_path = some 5;
  approach = λ t. some t;
  stage = (0, 0) ∷ (1, 0) ∷ [];
  start_mission = true;
  is_mission_finished = true;
  is_at_final_waypoint = true;
  is_armed = true;
  in_mission_mode = true;
  curr_waypoint = 2;
  has_converter = true;
  in_zone = true;
  now = 1000;
  photo_time = 1001;
  photo = λ i. none;
  relay_on = true;
}

-- The search is over, and the water airdrop has been dropped.
abbrev loitering : MissionState ℕ ℕ
loitering = record {
  tick = cv_loiter;
  mav = true;
  has_mission = true;
  cv = some ((0, 8) ∷ (1, 0) ∷ []);
  cv_status = CvStatus.none;
  init_path = 4;
  coverage_path = 6;
  airdrop_path = 8;
  dropped_airdrops = 0 ∷ [];
  next_airdrop_to_drop = some 0;
  laps_remaining = pos 0;
  mapping_is_done = false;
}

abbrev camera : Camera ℕ
camera = record { is_connected = true; connects = true; pictures = λ i. none; all_images = [] }

abbrev landed : MissionState ℕ ℕ
landed = record loitering {
  tick = manual_landing nullptr;
  cv = some ((0, 0) ∷ (1, 0) ∷ []);
  cv_status = CvStatus.validated;
  airdrop_path = 9;
  dropped_airdrops = 0 ∷ 1 ∷ [];
  next_airdrop_to_drop = some 1;
}

abbrev events : List (Event ℕ ℕ ℕ)
events =
    requested (targets_matched ((1, 9) ∷ []))
    ∷ ticked answers answers
    ∷ ticked answers answers
    ∷ ticked answers answers
    ∷ ticked answers answers
    ∷ served (run_pipeline (some camera) answers.stage)
    ∷ []

config-Configured : Configured config
config-Configured = record { next_to_water = refl; saves_nothing = refl }

loitering-Ready : Ready config loitering
unfolding staged safe target_at
loitering-Ready = record { connected = refl; in_order = water_dropped; tick_safe = refl }

stage-staged : staged config (some answers.stage) ≡ true
unfolding staged target_at
stage-staged = refl

abbrev no_path : ℕ → Bool
no_path p = false

run-events : run no_path config loitering events ≡ some landed
unfolding run happen serve run_pipeline_route run_pictures handle match_targets put_all put do_tick
    tick_once get_wait call_tick enter set_tick init path_gen_init mav_upload_init
    active_takeoff_init fly_waypoints_init fly_search_init airdrop_approach_init airdrop_prep_tick
    first_undropped target_at mark_airdrop_as_dropped trigger_airdrop cv_loiter_tick
    airdrop_approach_tick mav_upload_tick
run-events = refl

landing_after_drops_example : landed.dropped_airdrops ≡ 0 ∷ 1 ∷ []
landing_after_drops_example =
    landing_after_drops no_path config config-Configured loitering landed events nullptr
      loitering-Ready
      (refl, (stage-staged, (stage-staged, (stage-staged, (stage-staged, (stage-staged, tt))))))
      run-events refl
