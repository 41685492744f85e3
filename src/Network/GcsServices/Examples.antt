-- ===== src/Network/GcsServices/Examples.antt =====
-- The services on small states (src/network/gcs_routes.cpp).
use obcpp.Base.{ℕ, ◌≡◌, refl, true, false, Option, none, some, [], ◌∷◌, ◌==◌, if◌then◌else◌}
use obcpp.Network.Matches.{put_all}
use obcpp.Network.GcsServices.{
  AggregatedRun, Runs, Camera, ok, identify, targets_all, rtl_route, capture, connect, start_stream,
  start_streaming, start_taking_pictures,
}
use obcpp.Network.GcsServices.Targets.{targets_of, keyed, targets_all_lem}

abbrev seen : AggregatedRun ℕ ℕ ℕ
seen = record { run_id = 4; annotated_image = 70; bboxes = 1 ∷ []; coords = 2 ∷ [] }

abbrev odd_run : AggregatedRun ℕ ℕ ℕ
odd_run = record { run_id = 5; annotated_image = 80; bboxes = 1 ∷ []; coords = [] }

abbrev shrink : ℕ → Option ℕ
shrink image = if image == 70 then some 7 else none

abbrev runs : Runs ℕ ℕ ℕ ℕ
runs = record { new_runs = seen ∷ odd_run ∷ []; records = [] }

targets_all_lem_example :
    (s' : Runs ℕ ℕ ℕ ℕ) × (targets_all shrink (λ image. image) (some runs)
      ≡ (some s', targets_of shrink (λ image. image) (seen ∷ odd_run ∷ []), ok))
    × (s'.records ≡ put_all (keyed (targets_of shrink (λ image. image) (seen ∷ odd_run ∷ []))) [])
    × (targets_all shrink (λ image. image) (some s') ≡ (some s', [], ok))
targets_all_lem_example = targets_all_lem shrink (λ image. image) runs

one_target :
    targets_of shrink (λ image. image) (seen ∷ odd_run ∷ [])
    ≡ record { run_id = 4; picture = 7; coordinates = 2 ∷ []; bboxes = 1 ∷ [] } ∷ []
unfolding identify
one_target = refl

-- Without a client the request to return faults.
null_client : rtl_route {Photo = ℕ} false ≡ none
unfolding rtl_route
null_client = refl

abbrev blind : Camera ℕ
blind = record { is_connected = false; connects = true; pictures = λ i. none; all_images = [] }

-- A picture that times out faults where it is to be saved.
lost_picture : capture (some blind) true ≡ none
unfolding capture
lost_picture = refl

streams :
    start_stream (some blind) 4294967299
    ≡ some (connect ∷ start_streaming ∷ start_taking_pictures 3 ∷ [], ok)
unfolding start_stream
streams = refl
