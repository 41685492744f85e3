-- ===== src/Cv/Records/Updates.antt =====
-- What an update does to the record of src/cv/aggregator.cpp.
use obcpp.Base.{
  ℕ, ◌≡◌, ap, refl, List, [], ◌∷◌, map, Option, none, some, true, false, ◌==◌, if◌then◌else◌, arith,
  Bool-cases, inl, inr,
}
use obcpp.Cv.Records.{has, copy_from, update_records}

module _ {Identified : Type 0} (run_id : Identified → ℕ) where
  abbrev pub keys : List (ℕ × Identified) → List ℕ
  keys = map (λ r. r.0)

  abbrev pub value_at : ℕ → List (ℕ × Identified) → Option Identified
  value_at k [] = none
  value_at k ((j, value) ∷ rest) = if j == k then some value else value_at k rest

  -- The last of the values for a run, or the one before.
  abbrev pub latest : ℕ → Identified → List Identified → Identified
  latest k old [] = old
  latest k old (value ∷ rest) = latest k (if run_id value == k then value else old) rest

  keys-copy_from :
      (records : List (ℕ × Identified)) (value : Identified)
      → keys (copy_from run_id records value) ≡ keys records
  unfolding copy_from
  keys-copy_from [] value = refl
  keys-copy_from ((j, old) ∷ rest) value = ground (arith, keys-copy_from rest value)

  has-value_at :
      (records : List (ℕ × Identified)) (k : ℕ) (old : Identified)
      → value_at k records ≡ some old
      → has records k ≡ true
  has-value_at [] k old e = ground arith
  has-value_at ((j, value) ∷ rest) k old e = elim (Bool-cases (j == k)) [
    | inl y ↦ ground (arith, y)
    | inr n ↦ ground (arith, has-value_at rest k old (ground arith))
  ]

  value_at-copy_from :
      (records : List (ℕ × Identified)) (value : Identified) (k : ℕ) (old : Identified)
      → value_at k records ≡ some old
      → value_at k (copy_from run_id records value)
        ≡ some (if run_id value == k then value else old)
  unfolding copy_from
  value_at-copy_from [] value k old e = ground arith
  value_at-copy_from ((j, v) ∷ rest) value k old e = elim (Bool-cases (j == k)) [
    | inl y ↦ ground (arith, y)
    | inr n ↦ ground (arith, n, value_at-copy_from rest value k old (ground arith))
  ]

  no_key :
      (records : List (ℕ × Identified)) (k j : ℕ) (old : Identified)
      → j ≡ k
      → value_at k records ≡ some old
      → has records j ≡ false
      → ⊥
  no_key records k j old same e n =
      let y = has-value_at records k old e in ground (arith, ap (λ i. has records i) same)

  -- A value with a key that is not in the record is for no run that is in it.
  other_run :
      (records : List (ℕ × Identified)) (k : ℕ) (old value : Identified)
      → value_at k records ≡ some old
      → has records (run_id value) ≡ false
      → (run_id value == k) ≡ false
  other_run records k old value e n = elim (Bool-cases (run_id value == k)) [
    | inl y ↦
        let same : run_id value ≡ k = ground arith in
        absurd (no_key records k (run_id value) old same e n)
    | inr m ↦ m
  ]

  keys-update_records :
      (values : List Identified) (records : List (ℕ × Identified))
      → keys (update_records run_id records values) ≡ keys records
  unfolding update_records
  keys-update_records [] records = refl
  keys-update_records (value ∷ rest) records = elim (Bool-cases (has records (run_id value))) [
    | inl y ↦
        rw (
          y,
          keys-update_records rest (copy_from run_id records value),
          keys-copy_from records value,
        )
    | inr n ↦ rw (n, keys-update_records rest records)
  ]

  value_at-update_records :
      (values : List Identified) (records : List (ℕ × Identified)) (k : ℕ) (old : Identified)
      → value_at k records ≡ some old
      → value_at k (update_records run_id records values) ≡ some (latest k old values)
  unfolding update_records
  value_at-update_records [] records k old e = e
  value_at-update_records (value ∷ rest) records k old e =
      elim (Bool-cases (has records (run_id value))) [
        | inl y ↦ rw y (
            value_at-update_records rest (copy_from run_id records value) k _
              (value_at-copy_from records value k old e))
        | inr n ↦
            let other : (run_id value == k) ≡ false = other_run records k old value e n in
            rw (n, other) (value_at-update_records rest records k old e)
      ]

  -- An update adds no run and drops none, and each run in the record holds the last of the new values
  -- for it, or what it held if there is none.
  pub update_records_lem :
      (values : List Identified) (records : List (ℕ × Identified))
      → (keys (update_records run_id records values) ≡ keys records)
        × ((k : ℕ) (old : Identified)
            → value_at k records ≡ some old
            → value_at k (update_records run_id records values) ≡ some (latest k old values))
  update_records_lem values records = (
    keys-update_records values records,
    λ k old e. value_at-update_records values records k old e,
  )
