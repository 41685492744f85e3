-- ===== src/Network/Mavlink/Examples.antt =====
-- Calls of the flight controller on concrete answers (src/network/mavlink.cpp).
use obcpp.Base.{
  ℕ, ◌*◌, ◌≡◌, refl, inl, Bool, true, false, ◌||◌, none, some, List, [], ◌∷◌, ◌++◌, arith, leb,
}
use Prim.Native.String.{String}
use obcpp.Network.Mavlink.{
  Answers, add_any_connection, look_for_systems, set_rate_position, get_all_params, subscribe,
  upload_geofence, upload_mission, set_param_float, set_param_int, construct,
  upload_mission_until_success, arm_and_hover, arm, set_takeoff_altitude, takeoff, read_altitude,
  trigger_relay, do_set_relay,
}
use obcpp.Network.Mavlink.Attempts.{FirstAt, times, settings, construct_lem}
use obcpp.Network.Mavlink.Uploads.{upload_mission_until_success_lem}

abbrev always : ℕ → Bool
always i = true

abbrev second : ℕ → Bool
second i = leb 1 i

always-FirstAt : FirstAt always 0
always-FirstAt = record { fails = λ j b. absurd (omega (arith, b)); succeeds = refl }

second-FirstAt : FirstAt second 1
second-FirstAt = record { fails = λ j b. ground (arith, b); succeeds = refl }

abbrev answers : Answers
answers = record {
  is_connected = second;
  has_systems = always;
  is_param_set = λ param. always;
  rate_succeeds = λ i. false;
  rate_unsupported = always;
}

unsupported-FirstAt : FirstAt (λ i. answers.rate_succeeds i || answers.rate_unsupported i) 0
unsupported-FirstAt = record { fails = λ j b. absurd (omega (arith, b)); succeeds = refl }

abbrev params : List (String × ℕ)
params = ("FS_LONG_TIMEOUT", 20) ∷ ("AFS_ENABLE", 1) ∷ []

construct_lem_example :
    construct {Gps = ℕ} {Item = ℕ} 2 answers true params
    ≡ some (
        times 2 add_any_connection
        ++ (times 1 look_for_systems
            ++ (settings answers (λ p. 0) params
                ++ ((get_all_params ∷ []) ++ (times 1 set_rate_position ++ subscribe ∷ [])))))
construct_lem_example =
    construct_lem answers (λ p. 0) 2 1 0 0 true params second-FirstAt always-FirstAt
      ((always-FirstAt, omega arith), ((always-FirstAt, omega arith), tt)) unsupported-FirstAt
      (omega arith) (omega arith) (omega arith)

set_as_their_kinds :
    construct {Gps = ℕ} {Item = ℕ} 2 answers false params
    ≡ some (
        add_any_connection
        ∷ add_any_connection
        ∷ look_for_systems
        ∷ set_param_float "FS_LONG_TIMEOUT" 20
        ∷ set_param_int "AFS_ENABLE" 1
        ∷ set_rate_position
        ∷ subscribe
        ∷ [])
unfolding construct
set_as_their_kinds = refl

-- The geofence never succeeds.
upload_mission_until_success_lem_example :
    (upload_mission_until_success {Gps = ℕ} {Item = ℕ} 2
        (some (3 ∷ []))
        (7 ∷ [])
        (λ i. false)
        second
        true
        (8 ∷ [])
      ≡ some (times 6 (upload_geofence (3 ∷ [])) ++ times 2 (upload_mission (8 ∷ [])), true))
    × (upload_mission_until_success {Gps = ℕ} {Item = ℕ} 2 none
          (7 ∷ [])
          (λ i. false)
          second
          true
          (8 ∷ [])
        ≡ some ([], false))
    × (upload_mission_until_success {Gps = ℕ} {Item = ℕ} 2
          (some (3 ∷ []))
          []
          (λ i. false)
          second
          true
          (8 ∷ [])
        ≡ some ([], false))
upload_mission_until_success_lem_example =
    upload_mission_until_success_lem {Gps = ℕ} {Item = ℕ} 2 (3 ∷ []) 7 [] (λ i. false) second 8 [] 5
      1 (λ j b. refl) (inl refl) second-FirstAt (omega arith)

hovers :
    arm_and_hover {Gps = ℕ} {Item = ℕ} 9 true true true 30 (λ i. 20 * i)
    ≡ some (
      arm ∷ set_takeoff_altitude 31 ∷ takeoff ∷ read_altitude ∷ read_altitude ∷ read_altitude ∷ [],
      true,
    )
unfolding arm_and_hover
hovers = refl

-- Turning a relay on sends the number that the comment beside it calls off.
relay_on : trigger_relay {Gps = ℕ} {Item = ℕ} true 3 true true ≡ (do_set_relay 3 0 ∷ [], true)
unfolding trigger_relay
relay_on = refl
