-- ===== src/Cv/Records.antt =====
-- The record of identified targets (`CVAggregator::updateRecords` of src/cv/aggregator.cpp): a map
-- from the number of a run to what was identified in it.
pub mod Updates
mod Examples
use obcpp.Base.{ℕ, List, [], ◌∷◌, Bool, false, ◌||◌, ◌==◌, if◌then◌else◌}

-- `contains`.
abbrev pub has : {Identified : Type 0} → List (ℕ × Identified) → ℕ → Bool
has [] k = false
has ((j, value) ∷ rest) k = j == k || has rest k

module _ {Identified : Type 0} (run_id : Identified → ℕ) where
  -- `at(id).CopyFrom(value)`.
  pub copy_from : List (ℕ × Identified) → Identified → List (ℕ × Identified)
  copy_from [] value = []
  copy_from ((j, old) ∷ rest) value =
      let later = copy_from rest value in
      if j == run_id value then (j, value) ∷ rest else (j, old) ∷ later

  -- A value with a key that is not in the record is left out.
  pub update_records : List (ℕ × Identified) → List Identified → List (ℕ × Identified)
  unfolding copy_from
  update_records records [] = records
  update_records records (value ∷ rest) =
      update_records (if has records (run_id value) then copy_from records value else records) rest
