-- ===== src/Core/MissionParameters/Upload.antt =====
-- What an upload of a mission does to src/core/mission_parameters.cpp.
use obcpp.Base.{
  ℕ, ◌≤◌, ◌<◌, ◌≡◌, ◌≢◌, ◌↔◌, ◌||◌, refl, ◌∙◌, List, [], ◌∷◌, map, Option, none, some, Bool, true,
  false, length, ◌==◌, if◌then◌else◌, arith,
}
use obcpp.Core.MissionParameters.{
  Protos, MissionParameters, Complaint, too_few_waypoints, short_flight_boundary,
  short_airdrop_boundary, set_airdrop, set_airdrops, complaints, set_mission,
}

-- Whether an error contains a complaint.
abbrev pub same : Complaint → Complaint → Bool
same too_few_waypoints too_few_waypoints = true
same short_flight_boundary short_flight_boundary = true
same short_airdrop_boundary short_airdrop_boundary = true
same _ _ = false

abbrev pub blames : Complaint → List Complaint → Bool
blames c [] = false
blames c (d ∷ ds) = same c d || blames c ds

module _ {Mission Gps Airdrop : Type 0} (p : Protos Mission Gps Airdrop) where
  open p use {index}

  -- A mission that can be flown.
  abbrev pub IsComplete : Mission → Type 0
  IsComplete m =
      (1 ≤ length (p.waypoints m))
      × (3 ≤ length (p.flight_boundary m))
      × (3 ≤ length (p.airdrop_boundary m))

  -- The assignment of an index: the last one given, or the one before.
  abbrev pub assigned : ℕ → Airdrop → List Airdrop → Airdrop
  assigned i b [] = b
  assigned i b (a ∷ as') = assigned i (if index a == i then a else b) as'

  abbrev pub airdrop_with : ℕ → List Airdrop → Option Airdrop
  airdrop_with i [] = none
  airdrop_with i (b ∷ bs) = if index b == i then some b else airdrop_with i bs

  index-set_airdrop :
      (a : Airdrop) (bs : List Airdrop) → map index (set_airdrop p a bs) ≡ map index bs
  unfolding set_airdrop
  index-set_airdrop a [] = refl
  index-set_airdrop a (b ∷ bs) = ground (arith, index-set_airdrop a bs)

  index-set_airdrops : (as' bs : List Airdrop) → map index (set_airdrops p as' bs) ≡ map index bs
  unfolding set_airdrops
  index-set_airdrops [] bs = refl
  index-set_airdrops (a ∷ as') bs =
      index-set_airdrops as' (set_airdrop p a bs) ∙ index-set_airdrop a bs

  airdrop_with-set_airdrop :
      (a b : Airdrop) (i : ℕ) (bs : List Airdrop)
      → airdrop_with i bs ≡ some b
      → airdrop_with i (set_airdrop p a bs) ≡ some (if index a == i then a else b)
  unfolding set_airdrop
  airdrop_with-set_airdrop a b i [] h = cc
  airdrop_with-set_airdrop a b i (b' ∷ bs) h = ground (arith, airdrop_with-set_airdrop a b i bs)

  airdrop_with-set_airdrops :
      (as' : List Airdrop) (b : Airdrop) (i : ℕ) (bs : List Airdrop)
      → airdrop_with i bs ≡ some b
      → airdrop_with i (set_airdrops p as' bs) ≡ some (assigned i b as')
  unfolding set_airdrops
  airdrop_with-set_airdrops [] b i bs h = h
  airdrop_with-set_airdrops (a ∷ as') b i bs h =
      airdrop_with-set_airdrops as' _ i (set_airdrop p a bs) (airdrop_with-set_airdrop a b i bs h)

  complaints_of_complete : (m : Mission) → IsComplete m → complaints p m ≡ []
  unfolding complaints
  complaints_of_complete m h = ground arith

  IsComplete-of_complaints : (m : Mission) → complaints p m ≡ [] → IsComplete m
  unfolding complaints
  IsComplete-of_complaints m h = ground arith

  rejected :
      {Xyz : Type 0} (s : MissionParameters Mission Xyz Airdrop) (m : Mission) (to_xyz : Gps → Xyz)
      (cs : List Complaint)
      → complaints p m ≡ cs
      → cs ≢ []
      → set_mission p s m to_xyz ≡ (s, some cs)
  unfolding set_mission
  rejected s m to_xyz [] e n = absurd (n refl)
  rejected s m to_xyz (c ∷ cs) e n = rw (e, set_mission)

  too_few :
      (m : Mission)
      → (blames too_few_waypoints (complaints p m) ≡ true) ↔ (length (p.waypoints m) ≡ 0)
  unfolding complaints
  too_few m = ground arith

  short_flight :
      (m : Mission)
      → (blames short_flight_boundary (complaints p m) ≡ true) ↔ (length (p.flight_boundary m) < 3)
  unfolding complaints
  short_flight m = ground arith

  short_airdrop :
      (m : Mission)
      → (blames short_airdrop_boundary (complaints p m) ≡ true)
        ↔ (length (p.airdrop_boundary m) < 3)
  unfolding complaints
  short_airdrop m = ground arith

  -- A complete mission is taken over whole: the boundaries and waypoints are the converted ones,
  -- the mission is cached, the airdrops keep their places and indices, and each index that has a
  -- place holds the last assignment that the mission makes to it.
  pub set_mission_complete :
      {Xyz : Type 0} (s : MissionParameters Mission Xyz Airdrop) (m : Mission) (to_xyz : Gps → Xyz)
      → IsComplete m
      → let t = (set_mission p s m to_xyz).0 in
        ((set_mission p s m to_xyz).1 ≡ none)
        × (t.flight_boundary ≡ map to_xyz (p.flight_boundary m))
        × (t.airdrop_boundary ≡ map to_xyz (p.airdrop_boundary m))
        × (t.waypoints ≡ map to_xyz (p.waypoints m))
        × (t.cached_mission ≡ some m)
        × (map index t.airdrops ≡ map index s.airdrops)
        × ((i : ℕ) (b : Airdrop)
            → airdrop_with i s.airdrops ≡ some b
            → airdrop_with i t.airdrops ≡ some (assigned i b (p.airdrop_assignments m)))
  unfolding set_mission
  set_mission_complete s m to_xyz h =
      rw (complaints_of_complete m h, set_mission)
        (
          refl,
          refl,
          refl,
          refl,
          refl,
          index-set_airdrops (p.airdrop_assignments m) s.airdrops,
          λ i b e. airdrop_with-set_airdrops (p.airdrop_assignments m) b i s.airdrops e,
        )

  -- An incomplete mission changes nothing, and the error names each of the three complaints exactly
  -- when the mission gives reason for it.
  pub set_mission_incomplete :
      {Xyz : Type 0} (s : MissionParameters Mission Xyz Airdrop) (m : Mission) (to_xyz : Gps → Xyz)
      → ¬ IsComplete m
      → (cs : List Complaint) × (set_mission p s m to_xyz ≡ (s, some cs))
        × ((blames too_few_waypoints cs ≡ true) ↔ (length (p.waypoints m) ≡ 0))
        × ((blames short_flight_boundary cs ≡ true) ↔ (length (p.flight_boundary m) < 3))
        × ((blames short_airdrop_boundary cs ≡ true) ↔ (length (p.airdrop_boundary m) < 3))
  set_mission_incomplete s m to_xyz h = (
    complaints p m,
    rejected s m to_xyz (complaints p m) refl (λ e. h (IsComplete-of_complaints m e)),
    too_few m,
    short_flight m,
    short_airdrop m,
  )
