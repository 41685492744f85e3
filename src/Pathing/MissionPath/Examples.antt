-- ===== src/Pathing/MissionPath/Examples.antt =====
-- The mission of a short path (src/pathing/mission_path.cpp).
use obcpp.Base.{ℕ, ◌≡◌, List, [], ◌∷◌, some, sum_by}
use obcpp.Base.Int.{pos}
use obcpp.Pathing.MissionPath.{Geo, hover_at_final, MissionItem, commands}
use obcpp.Pathing.MissionPath.Items.{Numbered, route, intended, first_current, marks, commands_lem}

abbrev geo : Geo ℕ ℕ
geo = record {
  of_int = λ n. n;
  nan = 0;
  scaled_latitude = λ c. pos c;
  scaled_longitude = λ c. pos c;
  altitude = λ c. 30;
}

commands_lem_example :
    (items : List (MissionItem ℕ)) × (commands geo hover_at_final (1 ∷ 2 ∷ 3 ∷ []) 5 ≡ some items)
    × Numbered geo 0 items
    × (route geo items ≡ intended geo hover_at_final 1 (2 ∷ 3 ∷ []))
    × (first_current geo items ≡ marks geo hover_at_final (2 ∷ 3 ∷ []))
    × (sum_by (λ m. m.current) items ≡ marks geo hover_at_final (2 ∷ 3 ∷ []))
commands_lem_example = commands_lem geo hover_at_final 1 (2 ∷ 3 ∷ []) 5
