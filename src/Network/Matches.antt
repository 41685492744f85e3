-- ===== src/Network/Matches.antt =====
-- The dictionary of the matched airdrops, as src/network/gcs_routes.cpp writes to it.
use obcpp.Base.{ℕ, List, [], ◌∷◌, ◌==◌, if◌then◌else◌}

-- Assignment to a key of a map: the old value is replaced.
unfoldable pub put : {Target : Type 0} → ℕ → Target → List (ℕ × Target) → List (ℕ × Target)
put a t [] = (a, t) ∷ []
put a t ((b, u) ∷ rest) =
    let later = put a t rest in if b == a then (a, t) ∷ rest else (b, u) ∷ later

unfoldable pub put_all :
    {Target : Type 0} → List (ℕ × Target) → List (ℕ × Target) → List (ℕ × Target)
unfolding put
put_all [] table = table
put_all ((a, t) ∷ rest) table = put_all rest (put a t table)
