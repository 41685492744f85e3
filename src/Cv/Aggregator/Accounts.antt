-- ===== src/Cv/Aggregator/Accounts.antt =====
-- What goes in and what comes out of the aggregator of src/cv/aggregator.cpp over a whole history.
-- Collections are compared as multisets: by the sum of an arbitrary weight over them.
use obcpp.Base.{
  ℕ, ◌+◌, ◌≡◌, refl, List, [], ◌∷◌, ◌++◌, none, some, Bool, ◌&&◌, ◌||◌, leb, get_elem?, sum_by,
  sum_by-set, sum_by-append, map, arith, inl, inr, Option-cases, if◌then◌else◌,
}
use obcpp.Cv.Aggregator.{
  Aggregator, Phase, Event, PipelineResults, AggregatedRun, detecting, publishing, polling, leaving,
  returned, submit, detect, publish, poll, leave, terminate, join, pop_all, build_run, init,
  max_cv_pipelines, run_pipeline, stop, join_next, poll_queue, pop_all_runs, worker, at, step,
  run_events,
}

module _ {Image Mat Box Coord : Type 0} (pipeline : Image → PipelineResults Mat Box Coord) where
  abbrev Pool : Type 0
  Pool = Aggregator Image (AggregatedRun Mat Box Coord)

  -- A run without its identifier.
  abbrev pub Output : Type 0
  Output = Mat × List Box × List Coord

  abbrev pub output : AggregatedRun Mat Box Coord → Output
  output r = (r.annotated_image, r.bboxes, r.coords)

  -- What the pipeline makes of an image.
  abbrev pub expected : Image → Output
  expected image =
      let r = pipeline image in
      (r.image_data, map (λ d. d.bbox) r.targets, map (λ d. d.coord) r.targets)

  -- The images that an event takes in, those that it discards, and the runs that it hands out.
  abbrev pub taken : Pool → Event Image → List Image
  taken s (submit image spawned) =
      if s.accepting_images && (leb max_cv_pipelines s.num_worker_threads || spawned)
      then image ∷ []
      else []
  taken s _ = []

  abbrev pub discarded : Pool → Event Image → List Image
  discarded s terminate = s.overflow_queue
  discarded s _ = []

  abbrev pub popped : Pool → Event Image → List (AggregatedRun Mat Box Coord)
  popped s pop_all = (pop_all_runs s).1
  popped s _ = []

  unfoldable pub gather {ℓ} :
      {A : Type ℓ} → (Pool → Event Image → List A) → Pool → List (Event Image) → List A
  gather f s [] = []
  gather f s (e ∷ es) = elim (step pipeline s e) [ none ↦ [] | some t ↦ f s e ++ gather f t es ]

  module _ (q : Output → ℕ) where
    abbrev in_phase : Phase Image (AggregatedRun Mat Box Coord) → ℕ
    in_phase (detecting image) = q (expected image)
    in_phase (publishing run) = q (output run)
    in_phase _ = 0

    -- The weight of all that is queued, in work, or waiting to be handed out.
    abbrev pub inside : Pool → ℕ
    inside s =
        sum_by in_phase s.threads
        + sum_by (λ i. q (expected i)) s.overflow_queue
        + sum_by (λ r. q (output r)) s.runs

    inside-init : inside init ≡ 0
    unfolding init
    inside-init = refl

    -- One event: what was inside and what it takes in is inside, discarded or handed out.
    abbrev Balanced : Pool → Pool → Event Image → Type 0
    Balanced s t e =
        inside t
          + sum_by (λ r. q (output r)) (popped s e)
          + sum_by (λ i. q (expected i)) (discarded s e)
        ≡ inside s + sum_by (λ i. q (expected i)) (taken s e)

    inside-submit :
        (s : Pool) (image : Image) (spawned : Bool)
        → Balanced s (run_pipeline s image spawned) (submit image spawned)
    unfolding run_pipeline
    inside-submit s image spawned = ground (
      arith,
      sum_by-append in_phase s.threads (detecting image ∷ []),
      sum_by-append (λ i. q (expected i)) s.overflow_queue (image ∷ []),
    )

    inside-poll_queue :
        (s : Pool) (i : ℕ) (images : List Image)
        → get_elem? s.threads i ≡ some polling
        → s.overflow_queue ≡ images
        → inside (poll_queue s i images) ≡ inside s
    unfolding poll_queue
    inside-poll_queue s i [] g h = ground (arith, sum_by-set in_phase s.threads i polling leaving g)
    inside-poll_queue s i (image ∷ rest) g h =
        ground (arith, sum_by-set in_phase s.threads i polling (detecting image) g)

    inside-worker :
        (s t : Pool) (i : ℕ) (e : Event Image) (ph : Phase Image (AggregatedRun Mat Box Coord))
        → get_elem? s.threads i ≡ some ph
        → worker pipeline s i e ph ≡ some t
        → inside t ≡ inside s
    unfolding worker
    inside-worker s t i e (detecting image) g w = ground (
      arith,
      sum_by-set in_phase s.threads i (detecting image)
          (publishing (build_run pipeline s.global_run_id image)) g,
    )
    inside-worker s t i e (publishing run) g w = ground (
      arith,
      sum_by-set in_phase s.threads i (publishing run) polling g,
      sum_by-append (λ r. q (output r)) s.runs (run ∷ []),
    )
    inside-worker s t i e polling g w =
        ground (arith, inside-poll_queue s i s.overflow_queue g refl)
    inside-worker s t i e leaving g w =
        ground (arith, sum_by-set in_phase s.threads i leaving returned g)
    inside-worker s t i e returned g w = ground arith

    inside-at :
        (s t : Pool) (i : ℕ) (e : Event Image) → at pipeline s i e ≡ some t → inside t ≡ inside s
    unfolding at
    inside-at s t i e h = elim (Option-cases (get_elem? s.threads i)) [
      | inl g ↦ absurd (ground arith)
      | inr (ph, g) ↦ inside-worker s t i e ph g (rw (g, at) at h)
    ]

    inside-join : (s t : Pool) (ts : List ℕ) → join_next s ts ≡ some t → inside t ≡ inside s
    unfolding join_next
    inside-join s t [] h = cc
    inside-join s t (i ∷ ts) h = ground arith

    inside-step : (s t : Pool) (e : Event Image) → step pipeline s e ≡ some t → Balanced s t e
    unfolding step
    inside-step s t (submit image spawned) h = ground (arith, inside-submit s image spawned)
    inside-step s t (detect i) h = ground (arith, inside-at s t i (detect i) h)
    inside-step s t (publish i) h = ground (arith, inside-at s t i (publish i) h)
    inside-step s t (poll i) h = ground (arith, inside-at s t i (poll i) h)
    inside-step s t (leave i) h = ground (arith, inside-at s t i (leave i) h)
    inside-step s t terminate h = unfold stop in ground arith
    inside-step s t join h = ground (arith, inside-join s t s.terminating h)
    inside-step s t pop_all h = unfold pop_all_runs in ground arith

    inside-run_events :
        (s t : Pool) (es : List (Event Image))
        → run_events pipeline s es ≡ some t
        → inside t
            + sum_by (λ r. q (output r)) (gather popped s es)
            + sum_by (λ i. q (expected i)) (gather discarded s es)
          ≡ inside s + sum_by (λ i. q (expected i)) (gather taken s es)
    unfolding run_events gather
    inside-run_events s t [] h = ground arith
    inside-run_events s t (e ∷ es) h = elim (Option-cases (step pipeline s e)) [
      | inl g ↦ absurd (ground arith)
      | inr (u, g) ↦
          rw (g, gather)
            (ground (
              arith,
              inside-step s u e g,
              inside-run_events u t es (rw (g, run_events) at h),
              sum_by-append (λ r. q (output r)) (popped s e) (gather popped u es),
              sum_by-append (λ i. q (expected i)) (discarded s e) (gather discarded u es),
              sum_by-append (λ i. q (expected i)) (taken s e) (gather taken u es),
            ))
    ]

    -- From the start, and for every weight `q` of outputs: what the pipeline makes of the images
    -- that were taken in is what was handed out, what `terminate` discarded, and what is still
    -- inside. So no image is lost, duplicated or altered between the calls.
    pub images_accounted :
        (t : Pool) (es : List (Event Image))
        → run_events pipeline init es ≡ some t
        → inside t
            + sum_by (λ r. q (output r)) (gather popped init es)
            + sum_by (λ i. q (expected i)) (gather discarded init es)
          ≡ sum_by (λ i. q (expected i)) (gather taken init es)
    images_accounted t es h = omega (arith, inside-run_events init t es h, inside-init)
