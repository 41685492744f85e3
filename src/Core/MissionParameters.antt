-- ===== src/Core/MissionParameters.antt =====
-- The mission configuration (src/core/mission_parameters.cpp, include/core/mission_parameters.hpp).
-- The protobuf messages are parameters; each method runs under the object's lock, so it is one step.
pub mod Upload
mod Examples
use obcpp.Base.{
  ℕ, List, [], ◌∷◌, ◌++◌, map, Option, none, some, Bool, length, ltb, ◌==◌, if◌then◌else◌,
}

-- What the code reads of the messages Mission and Airdrop, and how it makes an Airdrop with an index.
pub record Protos (Mission Gps Airdrop : Type 0) : Type 0 where
  pub waypoints : Mission → List Gps
  pub flight_boundary : Mission → List Gps
  pub airdrop_boundary : Mission → List Gps
  pub airdrop_assignments : Mission → List Airdrop
  pub index : Airdrop → ℕ
  pub with_index : ℕ → Airdrop
  pub water : ℕ
  pub beacon : ℕ

pub record MissionParameters (Mission Xyz Airdrop : Type 0) : Type 0 where
  pub flight_boundary : List Xyz
  pub airdrop_boundary : List Xyz
  pub waypoints : List Xyz
  pub airdrops : List Airdrop
  pub cached_mission : Option Mission

-- The sentences that the error text is put together from.
pub data Complaint : Type 0 where
  too_few_waypoints short_flight_boundary short_airdrop_boundary : Complaint

abbrev complain : Bool → Complaint → List Complaint
complain b c = if b then c ∷ [] else []

module _ {Mission Gps Airdrop : Type 0} (p : Protos Mission Gps Airdrop) where
  open p use {index}

  -- The constructor: a placeholder for each airdrop.
  pub default_parameters : {Xyz : Type 0} → MissionParameters Mission Xyz Airdrop
  default_parameters = record {
    flight_boundary = [];
    airdrop_boundary = [];
    waypoints = [];
    airdrops = p.with_index p.water ∷ p.with_index p.beacon ∷ [];
    cached_mission = none;
  }

  -- The loop of `_setAirdrop`: the first entry with the same index is replaced.
  set_airdrop : Airdrop → List Airdrop → List Airdrop
  set_airdrop a [] = []
  set_airdrop a (b ∷ bs) =
      let rest = set_airdrop a bs in if index b == index a then a ∷ bs else b ∷ rest

  set_airdrops : List Airdrop → List Airdrop → List Airdrop
  unfolding set_airdrop
  set_airdrops [] bs = bs
  set_airdrops (a ∷ as') bs = set_airdrops as' (set_airdrop a bs)

  complaints : Mission → List Complaint
  complaints m =
      complain (length (p.waypoints m) == 0) too_few_waypoints
      ++ (complain (ltb (length (p.flight_boundary m)) 3) short_flight_boundary
          ++ complain (ltb (length (p.airdrop_boundary m)) 3) short_airdrop_boundary)

  -- The new parameters, and the error, if there is one. `to_xyz` is the converter's.
  pub set_mission :
      {Xyz : Type 0}
      → MissionParameters Mission Xyz Airdrop
      → Mission
      → (Gps → Xyz)
      → MissionParameters Mission Xyz Airdrop × Option (List Complaint)
  unfolding complaints set_airdrops
  set_mission s m to_xyz = elim (complaints m) [
    | [] ↦ (
      record {
        flight_boundary = map to_xyz (p.flight_boundary m);
        airdrop_boundary = map to_xyz (p.airdrop_boundary m);
        waypoints = map to_xyz (p.waypoints m);
        airdrops = set_airdrops (p.airdrop_assignments m) s.airdrops;
        cached_mission = some m;
      },
      none,
    )
    | c ∷ cs ↦ (s, some (c ∷ cs))
  ]
