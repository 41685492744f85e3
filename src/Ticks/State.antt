-- ===== src/Ticks/State.antt =====
-- The part of MissionState (src/core/mission_state.cpp, include/core/mission_state.hpp) that the
-- ticks read and write, and what a tick meets from outside. Locks are left out: a tick runs under
-- `tick_mut`, and the other fields are read and written one at a time.
use obcpp.Base.{ℕ, List, [], ◌∷◌, ◌++◌, Option, Bool, false, ◌||◌, ◌==◌, if◌then◌else◌}
use obcpp.Base.Int.{ℤ, pos, ◌-ℤ◌}
use obcpp.Ticks.Tick.{Tick}

pub data CvStatus : Type 0 where
  none validated rejected : CvStatus

-- `cv` is the aggregator's table of matched airdrops, once there is an aggregator; `mav` says whether
-- the pointer to the Mavlink client is set.
pub record MissionState (Route Target : Type 0) : Type 0 where
  pub tick : Tick Route
  pub mav : Bool
  pub has_mission : Bool
  pub cv : Option (List (ℕ × Target))
  pub cv_status : CvStatus
  pub init_path : Route
  pub coverage_path : Route
  pub airdrop_path : Route
  pub dropped_airdrops : List ℕ
  pub next_airdrop_to_drop : Option ℕ
  pub laps_remaining : ℤ
  pub mapping_is_done : Bool

-- The configuration, and the numbers of the two airdrops in the protobuf enumeration.
pub record Config : Type 0 where
  pub payload_size : ℕ
  pub pictures_per_stop : ℕ
  pub save_images_to_file : Bool
  pub water : ℕ
  pub beacon : ℕ

abbrev pub num_airdrops : ℕ
num_airdrops = 2

-- What the rest of the system answers while a tick runs. The futures hold `none` until they are
-- ready; a future of a path that is ready holds `none` where the generation threw, which `get()`
-- throws again. `generation_aborts` says that a generation that is started ends the program, and
-- `approach` is `none` where the generation of an approach faults or does not end. `photo i` is the i-th picture taken, `path_ready i` the state of the path's future when it
-- is looked at for the i-th time, and `stage` the dictionary made for a new aggregator.
pub record Readings (Route Target Photo : Type 0) : Type 0 where
  pub mav_uploaded : Option Bool
  pub takeoff_result : Option Bool
  pub init_path : Option (Option Route)
  pub coverage_path : Option (Option Route)
  pub generation_aborts : Bool
  pub path_ready : ℕ → Bool
  pub new_path : Option Route
  pub approach : Target → Option Route
  pub stage : List (ℕ × Target)
  pub start_mission : Bool
  pub is_mission_finished : Bool
  pub is_at_final_waypoint : Bool
  pub is_armed : Bool
  pub in_mission_mode : Bool
  pub curr_waypoint : ℕ
  pub has_converter : Bool
  pub in_zone : Bool
  pub now : ℕ
  pub photo_time : ℕ
  pub photo : ℕ → Option Photo
  pub relay_on : Bool

-- What a tick makes the rest of the system do.
pub data Action (Route Photo : Type 0) : Type 0 where
  generate_paths arm_and_hover start_mission start_streaming stitch_images : Action Route Photo
  upload_mission : Route → Bool → Action Route Photo
  set_mission_item : ℕ → Action Route Photo
  relay : ℕ → Bool → Action Route Photo
  save_photo run_pipeline : Photo → Action Route Photo

-- The outcome of a call of `tick()`: the state, with the tick's own fields updated, the tick to go
-- to (the null pointer: stay), and the actions.
pub record Outcome (Route Target Photo : Type 0) : Type 0 where
  pub state : MissionState Route Target
  pub next : Tick Route
  pub actions : List (Action Route Photo)

abbrev pub contains : ℕ → List ℕ → Bool
contains a [] = false
contains a (b ∷ bs) = b == a || contains a bs

module _ {Route Target : Type 0} where
  -- Insertion into the set of dropped airdrops.
  unfoldable pub mark_airdrop_as_dropped : MissionState Route Target → ℕ → MissionState Route Target
  mark_airdrop_as_dropped s a = record s {
    dropped_airdrops =
        if contains a s.dropped_airdrops then s.dropped_airdrops else s.dropped_airdrops ++ a ∷ [];
  }

  unfoldable pub decrement_laps_remaining : MissionState Route Target → MissionState Route Target
  decrement_laps_remaining s = record s { laps_remaining = s.laps_remaining -ℤ pos 1 }
