-- ===== src/Network/GcsServices/Targets.antt =====
-- What GET /targets/all of src/network/gcs_routes.cpp gives out and records.
use obcpp.Base.{
  ℕ, ◌≡◌, refl, inl, inr, Bool, Option, some, List, [], ◌∷◌, map, ◌==◌, Bool-cases, length, select,
}
use obcpp.Network.Matches.{put, put_all}
use obcpp.Network.GcsServices.{
  AggregatedRun, IdentifiedTarget, Runs, ok, identify, identify_all, targets_all,
}

-- Targets with their numbers.
abbrev pub keyed :
    {Picture Box Coord : Type 0}
    → List (IdentifiedTarget Picture Box Coord)
    → List (ℕ × IdentifiedTarget Picture Box Coord)
keyed = map (λ t. (t.run_id, t))

module _ {Image Picture Box Coord : Type 0} (compress : Image → Option Image)
    (encode : Image → Picture) where
  -- As many coordinates as boxes.
  abbrev pub has_pairs : AggregatedRun Image Box Coord → Bool
  has_pairs run = length run.coords == length run.bboxes

  -- The targets of the runs that have as many coordinates as boxes.
  abbrev pub targets_of :
      List (AggregatedRun Image Box Coord) → List (IdentifiedTarget Picture Box Coord)
  targets_of runs = map (identify compress encode) (select has_pairs runs)

  identify_all_lem :
      (runs : List (AggregatedRun Image Box Coord))
      (records : List (ℕ × IdentifiedTarget Picture Box Coord))
      → identify_all compress encode runs records
        ≡ (put_all (keyed (targets_of runs)) records, targets_of runs)
  unfolding identify_all identify put_all
  identify_all_lem [] records = refl
  identify_all_lem (run ∷ rest) records = elim (Bool-cases (has_pairs run)) [
    | inl y ↦
        rw (y, identify_all_lem rest (put run.run_id (identify compress encode run) records)) refl
    | inr n ↦ rw (n, identify_all_lem rest records) refl
  ]

  -- With an aggregator, each new run with as many coordinates as boxes is answered as a target, in
  -- order, and goes into the record under its number whole, its picture included; the runs are gone
  -- after that, so that the next request answers with no target and changes nothing.
  pub targets_all_lem :
      (s : Runs Image Picture Box Coord)
      → (s' : Runs Image Picture Box Coord) × (targets_all compress encode (some s)
          ≡ (some s', targets_of s.new_runs, ok))
        × (s'.records ≡ put_all (keyed (targets_of s.new_runs)) s.records)
        × (targets_all compress encode (some s') ≡ (some s', [], ok))
  unfolding targets_all identify_all
  targets_all_lem s =
      let after = put_all (keyed (targets_of s.new_runs)) s.records in
      (
        record { new_runs = []; records = after },
        rw (identify_all_lem s.new_runs s.records) refl,
        refl,
        refl,
      )
