-- ===== src/Cv/Records/Examples.antt =====
-- An update of the record at a concrete input (src/cv/aggregator.cpp).
use obcpp.Base.{ℕ, ◌≡◌, List, [], ◌∷◌, some}
use obcpp.Cv.Records.{update_records}
use obcpp.Cv.Records.Updates.{keys, value_at, latest, update_records_lem}

-- What is identified is the number of the run with a label.
abbrev run_of : ℕ × ℕ → ℕ
run_of v = v.0

abbrev records : List (ℕ × (ℕ × ℕ))
records = (0, (0, 5)) ∷ (1, (1, 6)) ∷ []

abbrev values : List (ℕ × ℕ)
values = (1, 7) ∷ (3, 8) ∷ (1, 9) ∷ []

update_records_lem_example :
    (keys run_of (update_records run_of records values) ≡ 0 ∷ 1 ∷ [])
    × ((k : ℕ) (old : ℕ × ℕ)
        → value_at run_of k records ≡ some old
        → value_at run_of k (update_records run_of records values)
          ≡ some (latest run_of k old values))
update_records_lem_example = update_records_lem run_of values records
