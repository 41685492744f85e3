-- ===== src/Network/Mavlink/Uploads.antt =====
-- What an upload to the flight controller calls and returns (src/network/mavlink.cpp).
use obcpp.Base.{
  ℕ, zero, suc, ◌+◌, ◌<◌, ◌≡◌, refl, subst, ◌⊎◌, inl, inr, Bool, true, false, none, some, List, [],
  ◌∷◌, ◌++◌, arith, ap, ◌∙◌,
}
use obcpp.Network.Mavlink.{
  Call, upload_geofence, upload_mission, geofence_from, upload_geofence_until_success,
  upload_waypoints_until_success, after_geofence, upload_mission_until_success,
}
use obcpp.Network.Mavlink.Attempts.{FirstAt, times, until_success-FirstAt}

shift : (i j : ℕ) → i + suc j ≡ i + 1 + j
shift i j = omega arith

one_less :
    (attempts i k : ℕ) (ok : ℕ → Bool)
    → (suc k ≡ suc attempts) ⊎ ((suc k < suc attempts) × (ok (i + suc k) ≡ true))
    → (k ≡ attempts) ⊎ ((k < attempts) × (ok (i + 1 + k) ≡ true))
one_less attempts i k ok (inl e) = inl (omega (arith, e))
one_less attempts i k ok (inr (b, e)) =
    inr (omega (arith, b), subst (λ n. ok n ≡ true) (shift i k) e)

from_zero :
    (k : ℕ) (ok : ℕ → Bool)
    → (k ≡ 5) ⊎ ((k < 5) × (ok k ≡ true))
    → (k ≡ 5) ⊎ ((k < 5) × (ok (0 + k) ≡ true))
from_zero k ok (inl e) = inl e
from_zero k ok (inr (b, e)) = inr (b, subst (λ n. ok n ≡ true) (omega arith) e)

module _ {Gps Item : Type 0} where
  geofence_from_lem :
      (attempts : ℕ) (ok : ℕ → Bool) (i k : ℕ) (bound : List Gps)
      → ((j : ℕ) → j < k → ok (i + j) ≡ false)
      → (k ≡ attempts) ⊎ ((k < attempts) × (ok (i + k) ≡ true))
      → geofence_from {Item = Item} attempts ok i bound ≡ times (suc k) (upload_geofence bound)
  unfolding geofence_from
  geofence_from_lem zero ok i zero bound fails end = refl
  geofence_from_lem zero ok i (suc k) bound fails (inl e) = absurd (omega (arith, e))
  geofence_from_lem zero ok i (suc k) bound fails (inr (b, e)) = absurd (omega (arith, b))
  geofence_from_lem (suc attempts) ok i zero bound fails (inl e) = absurd (omega (arith, e))
  geofence_from_lem (suc attempts) ok i zero bound fails (inr (b, e)) =
      let good : ok i ≡ true = subst (λ n. ok n ≡ true) (omega arith) e in rw good refl
  geofence_from_lem (suc attempts) ok i (suc k) bound fails end =
      let bad : ok i ≡ false = subst (λ n. ok n ≡ false) (omega arith) (fails 0 (omega arith)) in
      let later =
        geofence_from_lem attempts ok (i + 1) k bound
          (λ j b. subst (λ n. ok n ≡ false) (shift i j) (fails (suc j) (omega (arith, b))))
          (one_less attempts i k ok end) in
      rw (bad, later) refl

  -- With a mission on record and an initial path, an upload of the geofence and a path with items, of
  -- which an upload succeeds at last, returns true: the geofence is tried until its first success, but
  -- six times at most and the failure of all six is passed over, and then the items are tried until
  -- their first success. Without a mission, or with an empty initial path, the upload returns false and
  -- calls nothing.
  pub upload_mission_until_success_lem :
      (fuel : ℕ) (bound : List Gps) (first : Item) (more : List Item)
      (geofence_ok waypoints_ok : ℕ → Bool) (item : Item) (rest : List Item) (k m : ℕ)
      → ((j : ℕ) → j < k → geofence_ok j ≡ false)
      → (k ≡ 5) ⊎ ((k < 5) × (geofence_ok k ≡ true))
      → FirstAt waypoints_ok m
      → m < fuel
      → (upload_mission_until_success fuel
            (some bound)
            (first ∷ more)
            geofence_ok
            waypoints_ok
            true
            (item ∷ rest)
          ≡ some (
            times (suc k) (upload_geofence bound) ++ times (suc m) (upload_mission (item ∷ rest)),
            true,
          ))
        × (upload_mission_until_success {Gps = Gps} fuel none
              (first ∷ more)
              geofence_ok
              waypoints_ok
              true
              (item ∷ rest)
            ≡ some ([], false))
        × (upload_mission_until_success fuel
              (some bound)
              []
              geofence_ok
              waypoints_ok
              true
              (item ∷ rest)
            ≡ some ([], false))
  unfolding upload_mission_until_success after_geofence upload_geofence_until_success
      upload_waypoints_until_success
  upload_mission_until_success_lem fuel bound first more geo way item rest k m fails end last
        enough =
      let fence : geofence_from {Item = Item} 5 geo 0 bound
          ≡ times (suc k) (upload_geofence bound) =
        geofence_from_lem 5 geo 0 k bound
          (λ j b. subst (λ n. geo n ≡ false) (omega arith) (fails j b)) (from_zero k geo end) in
      let points =
        until_success-FirstAt {C = Call Gps Item} fuel way m (upload_mission (item ∷ rest)) enough
          last in
      let uploaded : after_geofence fuel way (item ∷ rest)
            (times (suc k) (upload_geofence bound), true)
          ≡ some (
            times (suc k) (upload_geofence bound) ++ times (suc m) (upload_mission (item ∷ rest)),
            true,
          ) =
        rw (after_geofence, points) refl in
      (
        ap (λ calls. after_geofence fuel way (item ∷ rest) (calls, true)) fence ∙ uploaded,
        refl,
        refl,
      )
