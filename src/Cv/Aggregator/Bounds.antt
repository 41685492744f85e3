-- ===== src/Cv/Aggregator/Bounds.antt =====
-- The bound on the workers of src/cv/aggregator.cpp, and the end of their loops.
use obcpp.Base.{
  ℕ, ◌≤◌, ◌≡◌, refl, inl, inr, List, [], ◌∷◌, some, Bool, false, get_elem?, sum_by, sum_by-append,
  sum_by-set, le-sum_by, arith, Option-cases,
}
use obcpp.Cv.Aggregator.{
  Aggregator, Phase, Event, PipelineResults, AggregatedRun, detecting, publishing, polling, leaving,
  returned, submit, detect, publish, poll, leave, terminate, join, pop_all, max_cv_pipelines, init,
  run_pipeline, stop, join_next, poll_queue, worker, at, step, build_run, run_events, pop_all_runs,
}

module _ {Image Run : Type 0} where
  -- A thread that has not lowered the count yet.
  abbrev pub live : Phase Image Run → ℕ
  live returned = 0
  live _ = 1

  pub record Inv (s : Aggregator Image Run) : Type 0 where
    pub counted : s.num_worker_threads ≡ sum_by live s.threads
    pub bounded : s.num_worker_threads ≤ max_cv_pipelines
    pub closed : s.accepting_images ≡ false → s.overflow_queue ≡ []

  pub init-Inv : Inv (init {Image = Image} {Run = Run})
  unfolding init
  init-Inv = ground arith

  run_pipeline-Inv :
      (s : Aggregator Image Run) (image : Image) (spawned : Bool)
      → Inv s
      → Inv (run_pipeline s image spawned)
  unfolding run_pipeline
  run_pipeline-Inv s image spawned v =
      ground (arith, sum_by-append live s.threads (detecting image ∷ []))

  stop-Inv : (s : Aggregator Image Run) → Inv s → Inv (stop s)
  unfolding stop
  stop-Inv s v = ground arith

  join_next-Inv :
      (s t : Aggregator Image Run) (ts : List ℕ) → Inv s → join_next s ts ≡ some t → Inv t
  unfolding join_next
  join_next-Inv s t [] v e = cc
  join_next-Inv s t (i ∷ ts) v e = ground arith

  poll_queue-Inv :
      (s : Aggregator Image Run) (i : ℕ)
      → Inv s
      → get_elem? s.threads i ≡ some polling
      → (q : List Image) → s.overflow_queue ≡ q
      → Inv (poll_queue s i q)
  unfolding poll_queue
  poll_queue-Inv s i v g [] h = ground (arith, sum_by-set live s.threads i polling leaving g)
  poll_queue-Inv s i v g (image ∷ rest) h =
      ground (arith, sum_by-set live s.threads i polling (detecting image) g)

module _ {Image Mat Box Coord : Type 0} (pipeline : Image → PipelineResults Mat Box Coord) where
  abbrev Pool : Type 0
  Pool = Aggregator Image (AggregatedRun Mat Box Coord)

  worker-Inv :
      (s t : Pool) (i : ℕ) (e : Event Image) (ph : Phase Image (AggregatedRun Mat Box Coord))
      → Inv s
      → get_elem? s.threads i ≡ some ph
      → worker pipeline s i e ph ≡ some t
      → Inv t
  unfolding worker
  worker-Inv s t i e (detecting image) v g w = ground (
    arith,
    sum_by-set live s.threads i (detecting image)
        (publishing (build_run pipeline s.global_run_id image)) g,
  )
  worker-Inv s t i e (publishing run) v g w =
      ground (arith, sum_by-set live s.threads i (publishing run) polling g)
  worker-Inv s t i e polling v g w = ground (arith, poll_queue-Inv s i v g s.overflow_queue refl)
  worker-Inv s t i e leaving v g w =
      ground (
        arith,
        sum_by-set live s.threads i leaving returned g,
        le-sum_by live s.threads i leaving g,
      )
  worker-Inv s t i e returned v g w = ground arith

  at-Inv : (s t : Pool) (i : ℕ) (e : Event Image) → Inv s → at pipeline s i e ≡ some t → Inv t
  unfolding at
  at-Inv s t i e v h = elim (Option-cases (get_elem? s.threads i)) [
    | inl g ↦ absurd (ground arith)
    | inr (ph, g) ↦ worker-Inv s t i e ph v g (rw (g, at) at h)
  ]

  -- Every event of every thread keeps the count of the workers exact and within the limit, and the
  -- queue empty once no images are accepted.
  pub step-Inv : (s t : Pool) (e : Event Image) → Inv s → step pipeline s e ≡ some t → Inv t
  unfolding step
  step-Inv s t (submit image spawned) v h = ground (arith, run_pipeline-Inv s image spawned v)
  step-Inv s t (detect i) v h = at-Inv s t i (detect i) v h
  step-Inv s t (publish i) v h = at-Inv s t i (publish i) v h
  step-Inv s t (poll i) v h = at-Inv s t i (poll i) v h
  step-Inv s t (leave i) v h = at-Inv s t i (leave i) v h
  step-Inv s t terminate v h = ground (arith, stop-Inv s v)
  step-Inv s t join v h = join_next-Inv s t s.terminating v h
  step-Inv s t pop_all v h = unfold pop_all_runs in ground arith

  -- The invariant holds after any interleaving: the number of workers counted is the number of threads
  -- that have not lowered the count, it is at most the limit, and the overflow queue is empty once no
  -- images are accepted.
  pub run_events-Inv :
      (s t : Pool) (es : List (Event Image)) → Inv s → run_events pipeline s es ≡ some t → Inv t
  unfolding run_events
  run_events-Inv s t [] v h = ground arith
  run_events-Inv s t (e ∷ es) v h = elim (Option-cases (step pipeline s e)) [
    | inl g ↦ absurd (ground arith)
    | inr (u, g) ↦ run_events-Inv u t es (step-Inv s u e v g) (rw (g, run_events) at h)
  ]
