-- ===== src/Network/Mavlink.antt =====
-- The client of the flight controller (src/network/mavlink.cpp). What the library answers to the n-th
-- call of a kind is a function of n; a loop that waits for an answer is on fuel, and every call and
-- pause is on record.
pub mod Attempts
pub mod Uploads
pub mod Telemetry
mod Examples
use obcpp.Base.{
  ℕ, zero, suc, ◌+◌, Bool, true, false, not, ◌||◌, Option, none, some, List, [], ◌∷◌, ◌++◌, ltb,
  ◌==◌, if◌then◌else◌,
}
use Prim.Native.String.{String}
use text.Mathlib.Text.{◌==◌ as same_text}

-- What is asked of the library. The pauses of the loops come right after a failed call.
pub data Call (Gps Item : Type 0) : Type 0 where
  add_any_connection look_for_systems set_rate_position get_all_params : Call Gps Item
  set_param_float set_param_int : String → ℕ → Call Gps Item
  upload_geofence : List Gps → Call Gps Item
  upload_mission : List Item → Call Gps Item
  arm takeoff read_altitude mission_raw_start return_to_launch : Call Gps Item
  set_takeoff_altitude : ℕ → Call Gps Item
  set_current_mission_item : ℕ → Call Gps Item
  do_set_relay : ℕ → ℕ → Call Gps Item
  subscribe : Call Gps Item

-- The calls of a loop until one succeeds, from the i-th on; `none` if the fuel is used up.
unfoldable pub until_success : {C : Type 0} → (fuel : ℕ) → (ℕ → Bool) → ℕ → C → Option (List C)
until_success zero ok i call = none
until_success (suc fuel) ok i call =
    let later = until_success fuel ok (i + 1) call in
    if ok i then some (call ∷ []) else elim later [ none ↦ none | some calls ↦ some (call ∷ calls) ]

-- The calls of one part and then those of the next.
abbrev pub followed_by : {C : Type 0} → Option (List C) → Option (List C) → Option (List C)
followed_by none second = none
followed_by (some calls) none = none
followed_by (some calls) (some more) = some (calls ++ more)

-- What the library answers while the client is constructed. A rate that is not supported ends the loop
-- like one that is set.
pub record Answers : Type 0 where
  pub is_connected : ℕ → Bool
  pub has_systems : ℕ → Bool
  pub is_param_set : String → ℕ → Bool
  pub rate_succeeds : ℕ → Bool
  pub rate_unsupported : ℕ → Bool

module _ {Gps Item : Type 0} where
  -- Three parameters are floats.
  abbrev pub set_param : String → ℕ → Call Gps Item
  set_param param value =
      if same_text param "FS_LONG_TIMEOUT"
        || (same_text param "AFS_RC_FAIL_TIME" || same_text param "FS_SHORT_TIMEOUT")
      then set_param_float param value
      else set_param_int param value

  -- The loop over the parameters of the configuration.
  unfoldable pub set_params :
      (fuel : ℕ) → Answers → List (String × ℕ) → Option (List (Call Gps Item))
  unfolding until_success
  set_params fuel r [] = some []
  set_params fuel r ((param, value) ∷ rest) =
      followed_by (until_success fuel (r.is_param_set param) 0 (set_param param value))
        (set_params fuel r rest)

  -- The constructor; the subscriptions at its end count as one.
  unfoldable pub construct :
      (fuel : ℕ) → Answers → (log_params : Bool) → List (String × ℕ) → Option (List (Call Gps Item))
  unfolding set_params
  construct fuel r log_params params =
      followed_by (until_success fuel r.is_connected 0 add_any_connection) (
        followed_by (until_success fuel r.has_systems 0 look_for_systems) (
          followed_by (set_params fuel r params) (
            followed_by (some (if log_params then get_all_params ∷ [] else [])) (
              followed_by
                (until_success fuel (λ i. r.rate_succeeds i || r.rate_unsupported i) 0
                  set_rate_position)
                (some (subscribe ∷ []))))))

  -- The loop of the geofence: how many attempts are left after this one.
  unfoldable pub geofence_from : (attempts : ℕ) → (ℕ → Bool) → ℕ → List Gps → List (Call Gps Item)
  geofence_from zero ok i flight_bound = upload_geofence flight_bound ∷ []
  geofence_from (suc attempts) ok i flight_bound =
      let later = geofence_from attempts ok (i + 1) flight_bound in
      if ok i then upload_geofence flight_bound ∷ [] else upload_geofence flight_bound ∷ later

  -- The calls, and what is returned. The mission gives its flight boundary.
  unfoldable pub upload_geofence_until_success :
      (flight_boundary : Option (List Gps)) (init_path : List Item)
      → (ℕ → Bool)
      → List (Call Gps Item) × Bool
  unfolding geofence_from
  upload_geofence_until_success none init_path ok = ([], false)
  upload_geofence_until_success (some flight_bound) [] ok = ([], false)
  upload_geofence_until_success (some flight_bound) (item ∷ rest) ok =
      (geofence_from 5 ok 0 flight_bound, true)

  unfoldable pub upload_waypoints_until_success :
      (fuel : ℕ) → (ℕ → Bool) → List Item → Option (List (Call Gps Item) × Bool)
  unfolding until_success
  upload_waypoints_until_success fuel ok waypoints =
      elim (until_success fuel ok 0 (upload_mission waypoints)) [
        | none ↦ none
        | some calls ↦ some (calls, true)
      ]

  -- The waypoints are uploaded if the geofence is done with and there are any.
  unfoldable pub after_geofence :
      (fuel : ℕ)
      → (waypoints_ok : ℕ → Bool) → (path : List Item) → List (Call Gps Item) × Bool
      → Option (List (Call Gps Item) × Bool)
  unfolding upload_waypoints_until_success
  after_geofence fuel waypoints_ok path (fence, false) = some (fence, false)
  after_geofence fuel waypoints_ok [] (fence, true) = some (fence, true)
  after_geofence fuel waypoints_ok (item ∷ rest) (fence, true) =
      elim (upload_waypoints_until_success fuel waypoints_ok (item ∷ rest)) [
        | none ↦ none
        | some (calls, uploaded) ↦ some (fence ++ calls, uploaded)
      ]

  unfoldable pub upload_mission_until_success :
      (fuel : ℕ)
      → (flight_boundary : Option (List Gps)) (init_path : List Item)
      → (geofence_ok waypoints_ok : ℕ → Bool) → (upload_geofence : Bool) (path : List Item)
      → Option (List (Call Gps Item) × Bool)
  unfolding after_geofence upload_geofence_until_success
  upload_mission_until_success fuel boundary init_path geofence_ok waypoints_ok wanted path =
      after_geofence fuel waypoints_ok path (
        if wanted then upload_geofence_until_success boundary init_path geofence_ok else ([], true))

  -- The relay's number and its setting.
  unfoldable pub trigger_relay :
      (has_passthrough : Bool) (relay_number : ℕ) (on succeeds : Bool) → List (Call Gps Item) × Bool
  trigger_relay has_passthrough relay_number on succeeds =
      if has_passthrough
      then (do_set_relay relay_number (if on then 0 else 1) ∷ [], succeeds)
      else ([], false)

  -- The altitudes are whole metres; the loop reads until the altitude is reached.
  unfoldable pub climb :
      (fuel takeoff_alt current : ℕ) → (ℕ → ℕ) → ℕ → Option (List (Call Gps Item))
  climb zero takeoff_alt current altitude i = none
  climb (suc fuel) takeoff_alt current altitude i =
      let later = climb fuel takeoff_alt (altitude i) altitude (i + 1) in
      if ltb current takeoff_alt
      then (elim later [ none ↦ none | some calls ↦ some (read_altitude ∷ calls) ])
      else some []

  unfoldable pub arm_and_hover :
      (fuel : ℕ) (arms sets_altitude takes_off : Bool) (takeoff_alt : ℕ) (altitude : ℕ → ℕ)
      → Option (List (Call Gps Item) × Bool)
  unfolding climb
  arm_and_hover fuel arms sets_altitude takes_off takeoff_alt altitude =
      let set_alt = set_takeoff_altitude (takeoff_alt + 1) in
      if not arms
      then some (arm ∷ [], false)
      else if not sets_altitude
      then some (arm ∷ set_alt ∷ [], false)
      else if not takes_off
      then some (arm ∷ set_alt ∷ takeoff ∷ [], false)
      else elim (climb fuel takeoff_alt 0 altitude 0) [
        | none ↦ none
        | some reads ↦ some (arm ∷ set_alt ∷ takeoff ∷ reads, true)
      ]

  -- The requests of one call, with what is returned.
  abbrev pub set_mission_item : (item : ℕ) (succeeds : Bool) → List (Call Gps Item) × Bool
  set_mission_item item succeeds = (set_current_mission_item item ∷ [], succeeds)

  abbrev pub start_mission : (succeeds : Bool) → List (Call Gps Item) × Bool
  start_mission succeeds = (mission_raw_start ∷ [], succeeds)

  abbrev pub kill_the_plane : List (Call Gps Item)
  kill_the_plane = set_param_int "AFS_TERMINATE" 1 ∷ []

  abbrev pub rtl : List (Call Gps Item)
  rtl = return_to_launch ∷ []

-- The progress of the mission that the library reports. The total is an int32_t and not negative, so
-- `current == total - 1` cannot hold of an empty mission.
abbrev pub is_mission_finished : (current total : ℕ) → Bool
is_mission_finished current total = current == total

abbrev pub is_at_final_waypoint : (current total : ℕ) → Bool
is_at_final_waypoint current total = current + 1 == total
