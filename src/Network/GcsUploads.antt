-- ===== src/Network/GcsUploads.antt =====
-- The handlers of src/network/gcs_routes.cpp that take what the operator uploads: POST /mission and
-- POST /targets/locations. The body of a request is taken as it is parsed.
pub mod Replies
mod Examples
use obcpp.Base.{
  ℕ, List, [], ◌∷◌, ◌++◌, Option, none, some, Bool, true, false, not, ◌==◌, if◌then◌else◌,
}
use obcpp.Core.MissionParameters.{Protos, MissionParameters, Complaint, set_mission}

pub data Reply : Type 0 where
  uploaded locations_uploaded not_an_array invalid_index no_airdrop no_mavlink : Reply
  incomplete : List Complaint → Reply

-- Whether a reply has the status OK.
abbrev pub is_ok : Reply → Bool
is_ok uploaded = true
is_ok locations_uploaded = true
is_ok _ = false

-- The mission parameters, and the converter that the rest of the program uses.
pub record Missions (Mission Xyz Airdrop Converter : Type 0) : Type 0 where
  pub converter : Option Converter
  pub params : MissionParameters Mission Xyz Airdrop

module _ {Mission Gps Xyz Airdrop Converter : Type 0} (p : Protos Mission Gps Airdrop)
    (converter_of : List Gps → Converter) (to_xyz : Converter → Gps → Xyz) where
  -- The converter is set first; then the parameters are asked to take the mission.
  pub post_mission :
      Missions Mission Xyz Airdrop Converter
      → Mission
      → Missions Mission Xyz Airdrop Converter × Reply
  post_mission s m =
      let converter = converter_of (p.flight_boundary m) in
      let (params, err) = set_mission p s.params m (to_xyz converter) in
      (
        record { converter = some converter; params = params },
        elim err [ none ↦ uploaded | some complaints ↦ incomplete complaints ],
      )

-- The payload number for an airdrop's index; other indices have none.
pub payload_of : ℕ → ℕ → ℕ → Option ℕ
payload_of water beacon index =
    if index == water then some 1 else if index == beacon then some 2 else none

-- The loop over the targets: the packets sent, by payload and place, and whether it ran to its end.
pub send_locations : {Place : Type 0} → ℕ → ℕ → List (ℕ × Place) → List (ℕ × Place) × Bool
unfolding payload_of
send_locations water beacon [] = ([], true)
send_locations water beacon ((index, place) ∷ rest) =
    let later = send_locations water beacon rest in
    elim (payload_of water beacon index) [
      | none ↦ ([], false)
      | some payload ↦ ((payload, place) ∷ later.0, later.1)
    ]

-- The packets sent, and the replies in the order in which they are set; the last one counts.
pub post_targets_locations :
    {Place : Type 0} → ℕ → ℕ → Bool → Bool → Bool → List (ℕ × Place) → List (ℕ × Place) × List Reply
unfolding send_locations
post_targets_locations water beacon airdrop mav is_array targets =
    let (sent, finished) = send_locations water beacon targets in
    let first = if is_array then [] else not_an_array ∷ [] in
    if not airdrop
    then ([], no_airdrop ∷ [])
    else if not mav
    then ([], no_mavlink ∷ [])
    else (sent, first ++ (if finished then locations_uploaded else invalid_index) ∷ [])
