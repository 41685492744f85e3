-- ===== src/Network/Mavlink/Attempts.antt =====
-- How often the loops of src/network/mavlink.cpp call the library.
use obcpp.Base.{
  ℕ, zero, suc, ◌+◌, ◌<◌, ◌≡◌, refl, subst, Bool, true, false, ◌||◌, some, List, [], ◌∷◌, ◌++◌,
  arith, if◌then◌else◌, All,
}
use Prim.Native.String.{String}
use obcpp.Network.Mavlink.{
  Call, Answers, add_any_connection, look_for_systems, set_rate_position, get_all_params, subscribe,
  until_success, set_param, set_params, construct,
}

abbrev pub times : {C : Type 0} → ℕ → C → List C
times zero call = []
times (suc n) call = call ∷ times n call

-- The first success comes with this number.
pub record FirstAt (ok : ℕ → Bool) (k : ℕ) : Type 0 where
  pub fails : (j : ℕ) → j < k → ok j ≡ false
  pub succeeds : ok k ≡ true

shift : (i j : ℕ) → i + suc j ≡ i + 1 + j
shift i j = omega arith

pub until_success_lem :
    {C : Type 0} (fuel : ℕ) (ok : ℕ → Bool) (i k : ℕ) (call : C)
    → k < fuel
    → ((j : ℕ) → j < k → ok (i + j) ≡ false)
    → ok (i + k) ≡ true
    → until_success fuel ok i call ≡ some (times (suc k) call)
unfolding until_success
until_success_lem zero ok i k call h fails good = absurd (omega (arith, h))
until_success_lem (suc fuel) ok i zero call h fails good =
    let e : i + 0 ≡ i = omega arith in
    let good' : ok i ≡ true = subst (λ n. ok n ≡ true) e good in rw good' refl
until_success_lem (suc fuel) ok i (suc k) call h fails good =
    let e : i + 0 ≡ i = omega arith in
    let bad : ok i ≡ false = subst (λ n. ok n ≡ false) e (fails 0 (omega arith)) in
    let later =
      until_success_lem fuel ok (i + 1) k call (omega (arith, h))
        (λ j b. subst (λ n. ok n ≡ false) (shift i j) (fails (suc j) (omega (arith, b))))
        (subst (λ n. ok n ≡ true) (shift i k) good) in
    rw (bad, later) refl

pub until_success-FirstAt :
    {C : Type 0} (fuel : ℕ) (ok : ℕ → Bool) (k : ℕ) (call : C)
    → k < fuel
    → FirstAt ok k
    → until_success fuel ok 0 call ≡ some (times (suc k) call)
until_success-FirstAt fuel ok k call h first =
    until_success_lem fuel ok 0 k call h
      (λ j b. subst (λ n. ok n ≡ false) (omega arith) (first.fails j b))
      (subst (λ n. ok n ≡ true) (omega arith) first.succeeds)

-- A parameter is set after as many failures as are said.
abbrev pub IsTried : Answers → (String → ℕ) → ℕ → String × ℕ → Type 0
IsTried r tried fuel (param, value) =
    FirstAt (r.is_param_set param) (tried param) × (tried param < fuel)

module _ {Gps Item : Type 0} (r : Answers) (tried : String → ℕ) where
  abbrev pub settings : List (String × ℕ) → List (Call Gps Item)
  settings [] = []
  settings ((param, value) ∷ rest) =
      times (suc (tried param)) (set_param param value) ++ settings rest

  set_params_lem :
      (fuel : ℕ) (params : List (String × ℕ))
      → All (IsTried r tried fuel) params
      → set_params {Gps = Gps} {Item = Item} fuel r params ≡ some (settings params)
  unfolding set_params
  set_params_lem fuel [] h = refl
  set_params_lem fuel ((param, value) ∷ rest) ((first, enough), hs) =
      rw
        (
          until_success-FirstAt fuel (r.is_param_set param) (tried param)
              (set_param {Gps = Gps} {Item = Item} param value) enough first,
          set_params_lem fuel rest hs,
        )
        refl

  -- Where each call succeeds at last, the constructor returns: it has repeated each call just until its
  -- first success, set each parameter in turn, and asked for all parameters only if they are logged.
  pub construct_lem :
      (fuel links looks rates : ℕ) (log_params : Bool) (params : List (String × ℕ))
      → FirstAt r.is_connected links
      → FirstAt r.has_systems looks
      → All (IsTried r tried fuel) params
      → FirstAt (λ i. r.rate_succeeds i || r.rate_unsupported i) rates
      → links < fuel
      → looks < fuel
      → rates < fuel
      → construct {Gps = Gps} {Item = Item} fuel r log_params params
        ≡ some (
            times (suc links) add_any_connection
            ++ (times (suc looks) look_for_systems
                ++ (settings params
                    ++ ((if log_params then get_all_params ∷ [] else [])
                        ++ (times (suc rates) set_rate_position ++ subscribe ∷ [])))))
  unfolding construct
  construct_lem fuel links looks rates log_params params l s p q hl hs hq =
      rw
        (
          until_success-FirstAt {C = Call Gps Item} fuel r.is_connected links add_any_connection hl
              l,
          until_success-FirstAt {C = Call Gps Item} fuel r.has_systems looks look_for_systems hs s,
          set_params_lem fuel params p,
          until_success-FirstAt {C = Call Gps Item} fuel
              (λ i. r.rate_succeeds i || r.rate_unsupported i) rates set_rate_position hq q,
        )
        refl
