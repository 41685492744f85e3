-- ===== src/Network/GcsUploads/Examples.antt =====
-- The uploads of src/network/gcs_routes.cpp at concrete inputs.
use obcpp.Base.{ℕ, ◌+◌, ◌≡◌, inr, refl, List, [], ◌∷◌, none, some, true, false, arith, ◌≢◌}
use obcpp.Core.MissionParameters.{Protos, Complaint}
use obcpp.Network.GcsUploads.{
  Missions, uploaded, incomplete, locations_uploaded, not_an_array, invalid_index, post_mission,
  post_targets_locations,
}
use obcpp.Network.GcsUploads.Replies.{
  Agrees, post_mission-Agrees, rejected_mission_converts, post_targets_locations_lem,
}

-- A mission is its waypoints and its boundary, used twice.
abbrev protos : Protos (List ℕ × List ℕ) ℕ ℕ
protos = record {
  waypoints = λ m. m.0;
  flight_boundary = λ m. m.1;
  airdrop_boundary = λ m. m.1;
  airdrop_assignments = λ m. [];
  index = λ a. a;
  with_index = λ i. i;
  water = 1;
  beacon = 2;
}

abbrev before : Missions (List ℕ × List ℕ) ℕ ℕ (List ℕ)
before = record {
  converter = none;
  params = record {
    flight_boundary = [];
    airdrop_boundary = [];
    waypoints = [];
    airdrops = 1 ∷ 2 ∷ [];
    cached_mission = none;
  };
}

-- A converter is the boundary that it is centred on.
abbrev center : List ℕ → List ℕ
center boundary = boundary

abbrev shift : List ℕ → ℕ → ℕ
shift [] g = g
shift (b ∷ bs) g = g + b

abbrev good : List ℕ × List ℕ
good = (5 ∷ [], 1 ∷ 2 ∷ 3 ∷ [])

abbrev short : List ℕ × List ℕ
short = (5 ∷ [], 1 ∷ 2 ∷ [])

post_mission-Agrees_example :
    ((post_mission protos center shift before good).1 ≡ uploaded)
    × Agrees protos center shift
        (post_mission protos center shift before good).0
        good
        (1 ∷ 2 ∷ 3 ∷ [])
post_mission-Agrees_example =
    post_mission-Agrees protos center shift before good (omega arith, omega arith, omega arith)

rejected_mission_converts_example :
    (cs : List Complaint) × (post_mission protos center shift before short
      ≡ (record before { converter = some (1 ∷ 2 ∷ []) }, incomplete cs))
rejected_mission_converts_example =
    rejected_mission_converts protos center shift before short (λ h. absurd (omega arith))

post_targets_locations_lem_example :
    (post_targets_locations {Place = ℕ} 1 2 true true false ((2, 40) ∷ [])
      ≡ ((2, 40) ∷ [], not_an_array ∷ locations_uploaded ∷ []))
    × (◌≢◌ {A = ℕ} 3 1
        → ◌≢◌ {A = ℕ} 3 2
        → post_targets_locations {Place = ℕ} 1 2 true true false ((2, 40) ∷ (3, 60) ∷ (1, 50) ∷ [])
          ≡ ((2, 40) ∷ [], not_an_array ∷ invalid_index ∷ []))
post_targets_locations_lem_example =
    post_targets_locations_lem 1 2 false ((2, 40) ∷ []) ((1, 50) ∷ []) 3 60 (inr refl, tt)
