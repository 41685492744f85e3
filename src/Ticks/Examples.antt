-- ===== src/Ticks/Examples.antt =====
-- The theorems on src/ticks at concrete inputs.
use obcpp.Base.{◌⊎◌, false, ℕ, leb, List, [], ◌∷◌, none, some, true, false, ◌⊎◌}
use obcpp.Base.Int.{pos}
use obcpp.Ticks.Tick.{airdrop_prep}
use obcpp.Ticks.State.{MissionState, Config, Readings, CvStatus}

abbrev config : Config
config = record {
  payload_size = 2;
  pictures_per_stop = 1;
  save_images_to_file = true;
  water = 0;
  beacon = 1;
}

abbrev plain : Config
plain = record config { save_images_to_file = false }

-- A path is its number of points. The new path is ready at the 26th look.
abbrev answers : Readings ℕ ℕ ℕ
answers = record {
  mav_uploaded = some true;
  takeoff_result = some true;
  init_path = some (some 4);
  coverage_path = some (some 6);
  generation_aborts = false;
  path_ready = λ i. leb 25 i;
  new_path = some 5;
  approach = λ t. some t;
  stage = (0, 0) ∷ (1, 0) ∷ [];
  start_mission = true;
  is_mission_finished = true;
  is_at_final_waypoint = true;
  is_armed = true;
  in_mission_mode = true;
  curr_waypoint = 2;
  has_converter = true;
  in_zone = true;
  now = 1000;
  photo_time = 1001;
  photo = λ i. none;
  relay_on = true;
}

abbrev table : List (ℕ × ℕ)
table = (0, 8) ∷ (1, 9) ∷ []

abbrev flying : MissionState ℕ ℕ
flying = record {
  tick = airdrop_prep;
  mav = true;
  has_mission = true;
  cv = some table;
  cv_status = CvStatus.none;
  init_path = 4;
  coverage_path = 6;
  airdrop_path = 8;
  dropped_airdrops = 0 ∷ [];
  next_airdrop_to_drop = some 0;
  laps_remaining = pos 1;
  mapping_is_done = false;
}

-- Out of the zone there is no photo due.
abbrev away : Readings ℕ ℕ ℕ
away = record answers { in_zone = false }
