-- ===== src/Cv/Aggregator/Race.antt =====
-- The window of src/cv/aggregator.cpp between a worker's last look at the queue and the lowering of
-- the count: an image that arrives in it is queued, and no worker is left to fetch it.
use obcpp.Base.{
  ℕ, ◌+◌, ◌-◌, inl, inr, ◌≤◌, ◌≡◌, ◌≢◌, refl, List, [], ◌∷◌, ◌++◌, none, some, Bool, true,
  get_elem?, get_elem?-set_ne, set, sum_by, sum_by-set, le-sum_by, arith, Option-cases,
}
use obcpp.Cv.Aggregator.{
  Aggregator, Phase, Event, PipelineResults, AggregatedRun, leaving, returned, submit, detect,
  publish, poll, leave, run_pipeline, worker, at, step, run_events,
}
use obcpp.Cv.Aggregator.Bounds.{live, Inv}
use obcpp.Cv.Aggregator.Finish.{IsWork}

module _ {Image Run : Type 0} where
  two-le-live :
      (ts : List (Phase Image Run)) (i j : ℕ)
      → i ≢ j
      → get_elem? ts i ≡ some leaving
      → get_elem? ts j ≡ some leaving
      → sum_by live (set (set ts i returned) j returned) + 2 ≡ sum_by live ts
  two-le-live ts i j h gi gj = omega (
    arith,
    sum_by-set live ts i leaving returned gi,
    sum_by-set live (set ts i returned) j leaving returned (rw (get_elem?-set_ne ts returned h) gj),
  )

module _ {Image Mat Box Coord : Type 0} (pipeline : Image → PipelineResults Mat Box Coord) where
  abbrev Pool : Type 0
  Pool = Aggregator Image (AggregatedRun Mat Box Coord)

  worker-returned :
      (s : Pool) (i : ℕ) (e : Event Image) (ph : Phase Image (AggregatedRun Mat Box Coord))
      → live ph ≡ 0
      → worker pipeline s i e ph ≡ none
  unfolding worker
  worker-returned s i e returned h = ground arith
  worker-returned s i e _ h = absurd (omega arith)

  at-returned :
      (s : Pool) (i : ℕ) (e : Event Image) → sum_by live s.threads ≡ 0 → at pipeline s i e ≡ none
  unfolding at
  at-returned s i e h = elim (Option-cases (get_elem? s.threads i)) [
    | inl g ↦ rw (g, at)
    | inr (ph, g) ↦
        rw (g, at) (worker-returned s i e ph (omega (arith, le-sum_by live s.threads i ph g)))
  ]

  step-returned :
      (s : Pool)
      → sum_by live s.threads ≡ 0
      → (e : Event Image) → IsWork e
      → step pipeline s e ≡ none
  unfolding step
  step-returned s h (detect i) w = at-returned s i (detect i) h
  step-returned s h (publish i) w = at-returned s i (publish i) h
  step-returned s h (poll i) w = at-returned s i (poll i) h
  step-returned s h (leave i) w = at-returned s i (leave i) h
  step-returned s h _ w = absurd w

  abbrev late : Pool → Image → ℕ → ℕ → Pool
  late s image i j = record s {
    overflow_queue = s.overflow_queue ++ image ∷ [];
    num_worker_threads = s.num_worker_threads - 1 - 1;
    threads = set (set s.threads i returned) j returned;
  }

  late-runs :
      (s : Pool) (image : Image) (spawned : Bool) (i j : ℕ)
      → i ≢ j
      → s.accepting_images ≡ true
      → 2 ≤ s.num_worker_threads
      → get_elem? s.threads i ≡ some leaving
      → get_elem? s.threads j ≡ some leaving
      → run_events pipeline s (submit image spawned ∷ leave i ∷ leave j ∷ [])
        ≡ some (late s image i j)
  unfolding run_events step run_pipeline at worker
  late-runs s image spawned i j h a n gi gj =
      ground (arith, get_elem?-set_ne s.threads {i = i} {j = j} returned h)

  -- While images are accepted and both workers have looked at the queue for the last time without
  -- having lowered the count, an image handed to `runPipeline` joins the queue; after the two
  -- workers have gone no worker can take any step with that image still in the queue, so nothing comes
  -- of it unless another call of `runPipeline` starts a worker.
  pub late_image_strands :
      (s : Pool) (image : Image) (spawned : Bool) (i j : ℕ)
      → Inv s
      → s.accepting_images ≡ true
      → i ≢ j
      → get_elem? s.threads i ≡ some leaving
      → get_elem? s.threads j ≡ some leaving
      → (t : Pool) × (run_events pipeline s (submit image spawned ∷ leave i ∷ leave j ∷ [])
          ≡ some t)
        × (t.overflow_queue ≡ s.overflow_queue ++ image ∷ [])
        × (t.num_worker_threads ≡ 0)
        × ((e : Event Image) → IsWork e → step pipeline t e ≡ none)
  late_image_strands s image spawned i j v a h gi gj =
      let two = two-le-live s.threads i j h gi gj in
      (
        late s image i j,
        late-runs s image spawned i j h a (omega (arith, v, two)) gi gj,
        refl,
        omega (arith, v, two),
        step-returned (late s image i j) (omega (arith, v, two)),
      )
