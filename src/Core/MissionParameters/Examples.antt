-- ===== src/Core/MissionParameters/Examples.antt =====
-- Uploads of small missions (src/core/mission_parameters.cpp).
use obcpp.Base.{ℕ, ◌+◌, ◌<◌, ◌≡◌, ◌↔◌, refl, List, [], ◌∷◌, map, none, some, true, length, arith}
use obcpp.Core.MissionParameters.{
  Protos, MissionParameters, Complaint, too_few_waypoints, short_flight_boundary,
  short_airdrop_boundary, set_mission, default_parameters,
}
use obcpp.Core.MissionParameters.Upload.{
  airdrop_with, assigned, blames, set_mission_complete, set_mission_incomplete,
}

-- A mission is its waypoints, its boundary (used twice) and its assignments, index and payload.
abbrev protos : Protos (List ℕ × List ℕ × List (ℕ × ℕ)) ℕ (ℕ × ℕ)
protos = record {
  waypoints = λ m. m.0;
  flight_boundary = λ m. m.1;
  airdrop_boundary = λ m. m.1;
  airdrop_assignments = λ m. m.2;
  index = λ a. a.0;
  with_index = λ i. (i, 0);
  water = 1;
  beacon = 2;
}

abbrev fresh : MissionParameters (List ℕ × List ℕ × List (ℕ × ℕ)) ℕ (ℕ × ℕ)
fresh = record {
  flight_boundary = [];
  airdrop_boundary = [];
  waypoints = [];
  airdrops = (1, 0) ∷ (2, 0) ∷ [];
  cached_mission = none;
}

abbrev good : List ℕ × List ℕ × List (ℕ × ℕ)
good = (5 ∷ [], 1 ∷ 2 ∷ 3 ∷ [], (2, 9) ∷ [])

abbrev short : List ℕ × List ℕ × List (ℕ × ℕ)
short = (5 ∷ [], 1 ∷ 2 ∷ [], [])

fresh_is_default : default_parameters protos ≡ fresh
unfolding default_parameters
fresh_is_default = refl

set_mission_complete_example :
    let t = (set_mission protos fresh good (λ g. g + 1)).0 in
    ((set_mission protos fresh good (λ g. g + 1)).1 ≡ none)
    × (t.flight_boundary ≡ map (λ g. g + 1) (1 ∷ 2 ∷ 3 ∷ []))
    × (t.airdrop_boundary ≡ map (λ g. g + 1) (1 ∷ 2 ∷ 3 ∷ []))
    × (t.waypoints ≡ map (λ g. g + 1) (5 ∷ []))
    × (t.cached_mission ≡ some good)
    × (map (λ a. a.0) t.airdrops ≡ map (λ a. a.0) fresh.airdrops)
    × ((i : ℕ) (b : ℕ × ℕ)
        → airdrop_with protos i fresh.airdrops ≡ some b
        → airdrop_with protos i t.airdrops ≡ some (assigned protos i b ((2, 9) ∷ [])))
set_mission_complete_example =
    set_mission_complete protos fresh good (λ g. g + 1) (omega arith, omega arith, omega arith)

set_mission_incomplete_example :
    (cs : List Complaint) × (set_mission protos fresh short (λ g. g + 1) ≡ (fresh, some cs))
    × ((blames too_few_waypoints cs ≡ true) ↔ (length (short.0) ≡ 0))
    × ((blames short_flight_boundary cs ≡ true) ↔ (length (short.1) < 3))
    × ((blames short_airdrop_boundary cs ≡ true) ↔ (length (short.1) < 3))
set_mission_incomplete_example =
    set_mission_incomplete protos fresh short (λ g. g + 1) (λ h. absurd (omega arith))
