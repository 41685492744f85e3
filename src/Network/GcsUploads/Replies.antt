-- ===== src/Network/GcsUploads/Replies.antt =====
-- What the uploads of src/network/gcs_routes.cpp change and answer.
use obcpp.Base.{
  if◌then◌else◌, ℕ, ◌≡◌, ◌≢◌, ◌⊎◌, refl, List, [], ◌∷◌, ◌++◌, map, All, some, Bool, true, false,
  ◌==◌, arith,
}
use obcpp.Core.MissionParameters.{Protos, Complaint}
use obcpp.Core.MissionParameters.Upload.{IsComplete, set_mission_complete, set_mission_incomplete}
use obcpp.Network.GcsUploads.{
  Reply, Missions, uploaded, incomplete, locations_uploaded, not_an_array, invalid_index,
  post_mission, payload_of, send_locations, post_targets_locations,
}

module _ {Mission Gps Xyz Airdrop Converter : Type 0} (p : Protos Mission Gps Airdrop)
    (converter_of : List Gps → Converter) (to_xyz : Converter → Gps → Xyz) where
  -- The parameters hold the coordinates of the mission on record, converted with the converter.
  abbrev pub Agrees : Missions Mission Xyz Airdrop Converter → Mission → Converter → Type 0
  Agrees s m conv =
      (s.converter ≡ some conv)
      × (s.params.flight_boundary ≡ map (to_xyz conv) (p.flight_boundary m))
      × (s.params.airdrop_boundary ≡ map (to_xyz conv) (p.airdrop_boundary m))
      × (s.params.waypoints ≡ map (to_xyz conv) (p.waypoints m))
      × (s.params.cached_mission ≡ some m)

  -- A complete mission is accepted, and after that the converter is the one of its flight boundary and
  -- the parameters hold its coordinates converted with it.
  pub post_mission-Agrees :
      (s : Missions Mission Xyz Airdrop Converter) (m : Mission)
      → IsComplete p m
      → ((post_mission p converter_of to_xyz s m).1 ≡ uploaded)
        × Agrees (post_mission p converter_of to_xyz s m).0 m (converter_of (p.flight_boundary m))
  unfolding post_mission
  post_mission-Agrees s m h =
      let (e, f, a, w, k, places, rest) =
        set_mission_complete p s.params m (to_xyz (converter_of (p.flight_boundary m))) h in
      (rw (e, post_mission), (refl, f, a, w, k))

  -- An incomplete mission is answered with an error and leaves the parameters as they were, but the
  -- converter becomes the one of its flight boundary.
  pub rejected_mission_converts :
      (s : Missions Mission Xyz Airdrop Converter) (m : Mission)
      → ¬ IsComplete p m
      → (cs : List Complaint) × (post_mission p converter_of to_xyz s m ≡ (
        record { converter = some (converter_of (p.flight_boundary m)); params = s.params },
        incomplete cs,
      ))
  unfolding post_mission
  rejected_mission_converts s m h =
      let (cs, e, few, flight, drop) =
        set_mission_incomplete p s.params m (to_xyz (converter_of (p.flight_boundary m))) h in
      (cs, rw e)

-- The reply to a body that is no array, which does not end the handler.
abbrev pub complaint : Bool → List Reply
complaint is_array = if is_array then [] else not_an_array ∷ []

module _ {Place : Type 0} (water beacon : ℕ) where
  abbrev pub IsKnown : ℕ × Place → Type 0
  IsKnown t = (t.0 ≡ water) ⊎ (t.0 ≡ beacon)

  -- The packet for a known target.
  abbrev pub packet : ℕ × Place → ℕ × Place
  packet (index, place) = (if index == water then 1 else 2, place)

  send_locations-known :
      (targets : List (ℕ × Place))
      → All IsKnown targets
      → send_locations water beacon targets ≡ (map packet targets, true)
  unfolding send_locations payload_of
  send_locations-known [] h = refl
  send_locations-known ((i, place) ∷ rest) (k, h) = ground (arith, send_locations-known rest h)

  send_locations-unknown :
      (before after : List (ℕ × Place)) (i : ℕ) (place : Place)
      → All IsKnown before
      → i ≢ water
      → i ≢ beacon
      → send_locations water beacon (before ++ (i, place) ∷ after) ≡ (map packet before, false)
  unfolding send_locations payload_of
  send_locations-unknown [] after i place h n n' = ground arith
  send_locations-unknown ((j, q) ∷ before) after i place (k, h) n n' =
      ground (arith, send_locations-unknown before after i place h n n')

  -- With both clients connected and targets that all have a known index, one packet for each target is
  -- sent, to the payload of its index, and the last reply is OK, also for a body that is no array.
  known_locations_sent :
      (is_array : Bool) (targets : List (ℕ × Place))
      → All IsKnown targets
      → post_targets_locations water beacon true true is_array targets
        ≡ (map packet targets, complaint is_array ++ locations_uploaded ∷ [])
  unfolding post_targets_locations
  known_locations_sent is_array targets h = rw (send_locations-known targets h)

  -- With both clients connected, the packets for the targets before the first unknown index are sent
  -- though the last reply is the error.
  unknown_location_stops :
      (is_array : Bool) (before after : List (ℕ × Place)) (i : ℕ) (place : Place)
      → All IsKnown before
      → i ≢ water
      → i ≢ beacon
      → post_targets_locations water beacon true true is_array (before ++ (i, place) ∷ after)
        ≡ (map packet before, complaint is_array ++ invalid_index ∷ [])
  unfolding post_targets_locations
  unknown_location_stops is_array before after i place h n n' =
      rw (send_locations-unknown before after i place h n n')

  -- With both clients connected, one packet is sent for each target up to the first with an unknown
  -- index, to the payload of its index. Where there is none the last reply is OK, also for a body that
  -- is no array, and else it is the error, though the packets before have been sent.
  pub post_targets_locations_lem :
      (is_array : Bool) (before after : List (ℕ × Place)) (i : ℕ) (place : Place)
      → All IsKnown before
      → (post_targets_locations water beacon true true is_array before
          ≡ (map packet before, complaint is_array ++ locations_uploaded ∷ []))
        × (i ≢ water
            → i ≢ beacon
            → post_targets_locations water beacon true true is_array (before ++ (i, place) ∷ after)
              ≡ (map packet before, complaint is_array ++ invalid_index ∷ []))
  post_targets_locations_lem is_array before after i place h = (
    known_locations_sent is_array before h,
    unknown_location_stops is_array before after i place h,
  )
