-- ===== src/Cv/Aggregator/Examples.antt =====
-- Runs of the aggregator of src/cv/aggregator.cpp on small inputs.
use obcpp.Base.{
  ℕ, ◌+◌, ◌≤◌, ◌≡◌, ◌⊎◌, refl, List, [], ◌∷◌, ◌++◌, some, none, true, length, sum_by, arith,
}
use obcpp.Cv.Aggregator.{
  Aggregator, Event, PipelineResults, AggregatedRun, submit, detect, publish, poll, leave,
  terminate, pop_all, init, step, run_events,
}
use obcpp.Cv.Aggregator.Bounds.{Inv, init-Inv, run_events-Inv, live}
use obcpp.Cv.Aggregator.Finish.{IsWork, stopped_workers_finish}
use obcpp.Cv.Aggregator.Race.{late_image_strands}
use obcpp.Cv.Aggregator.Accounts.{
  gather, taken, discarded, popped, inside, images_accounted, output, expected,
}
use obcpp.Cv.Aggregator.RunIds.{run_ids_distinct, held, has_id}

-- One target on every image.
abbrev camera : ℕ → PipelineResults ℕ ℕ ℕ
camera n = record { image_data = n + 100; targets = record { bbox = n; coord = n + 1 } ∷ [] }

abbrev Pool : Type 0
Pool = Aggregator ℕ (AggregatedRun ℕ ℕ ℕ)

-- Three images for two workers; the first worker goes on with the third.
abbrev busy : List (Event ℕ)
busy =
    submit 1 true
    ∷ submit 2 true
    ∷ submit 3 true
    ∷ detect 0
    ∷ publish 0
    ∷ poll 0
    ∷ detect 0
    ∷ pop_all
    ∷ []

abbrev ends : List (Event ℕ)
ends =
    submit 1 true
    ∷ submit 2 true
    ∷ detect 1
    ∷ publish 1
    ∷ poll 1
    ∷ detect 0
    ∷ publish 0
    ∷ poll 0
    ∷ []

abbrev start : Pool
start = init

busy_state : (t : Pool) × (run_events camera start busy ≡ some t)
unfolding run_events step init
busy_state = (_, refl)

ends_state : (t : Pool) × (run_events camera start ends ≡ some t)
unfolding run_events step init
ends_state = (_, refl)

stopped_state : (t : Pool) × (run_events camera start (busy ++ terminate ∷ []) ≡ some t)
unfolding run_events step init
stopped_state = (_, refl)

run_events-Inv_example : Inv busy_state.0
run_events-Inv_example = run_events-Inv camera start busy_state.0 busy init-Inv busy_state.1

images_accounted_example :
    let q = λ (o : ℕ × List ℕ × List ℕ). o.0 in
    inside camera q busy_state.0
      + sum_by (λ r. q (output camera r)) (gather camera (popped camera) start busy)
      + sum_by (λ i. q (expected camera i)) (gather camera (discarded camera) start busy)
    ≡ sum_by (λ i. q (expected camera i)) (gather camera (taken camera) start busy)
images_accounted_example = images_accounted camera (λ o. o.0) busy_state.0 busy busy_state.1

run_ids_distinct_example :
    held camera 1 busy_state.0
      + sum_by
          (has_id camera 1)
          (gather camera (popped camera) (record init { global_run_id = 0 }) busy)
    ≤ 1
unfolding init
run_ids_distinct_example =
    run_ids_distinct camera 1 0 busy_state.0 busy (omega arith) (omega arith) (omega arith)
      busy_state.1

finishing : (t : Pool) × (run_events camera stopped_state.0 (publish 0 ∷ detect 1 ∷ []) ≡ some t)
unfolding run_events step init stopped_state
finishing = (_, refl)

stopped_workers_finish_example :
    (length {A = Event ℕ} (publish 0 ∷ detect 1 ∷ []) ≤ 8)
    × ((sum_by live finishing.0.threads ≡ 0)
        ⊎ ((e : Event ℕ) × (u : Pool) × IsWork e × (step camera finishing.0 e ≡ some u)))
unfolding stopped_state
stopped_workers_finish_example =
    stopped_workers_finish camera stopped_state.0 finishing.0 (publish 0 ∷ detect 1 ∷ [])
      (run_events-Inv camera start stopped_state.0 (busy ++ terminate ∷ []) init-Inv
        stopped_state.1)
      refl (tt, (tt, tt)) finishing.1

late_image_strands_example :
    (t : Pool) × (run_events camera ends_state.0 (submit 7 true ∷ leave 0 ∷ leave 1 ∷ []) ≡ some t)
    × (t.overflow_queue ≡ ends_state.0.overflow_queue ++ 7 ∷ [])
    × (t.num_worker_threads ≡ 0)
    × ((e : Event ℕ) → IsWork e → step camera t e ≡ none)
unfolding ends_state
late_image_strands_example =
    late_image_strands camera ends_state.0 7 true 0 1
      (run_events-Inv camera start ends_state.0 ends init-Inv ends_state.1) refl (omega arith) refl
      refl
