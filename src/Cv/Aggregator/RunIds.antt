-- ===== src/Cv/Aggregator/RunIds.antt =====
-- The run identifiers that the workers of src/cv/aggregator.cpp draw from `global_run_id`.
use obcpp.Base.{
  ◌<◌, ◌-◌, ◌%◌, ◌^◌, ◌⊎◌, ◌≢◌, zero, suc, ap, subst, refl, none, ℕ, ◌+◌, ◌≤◌, ◌≡◌, List, [], ◌∷◌,
  some, Bool, get_elem?, ◌==◌, sum_by, sum_by-set, sum_by-append, arith, inl, inr, Option-cases,
  if◌then◌else◌,
}
use obcpp.Cv.Aggregator.{
  Aggregator, Phase, Event, PipelineResults, AggregatedRun, detecting, publishing, polling, leaving,
  returned, submit, detect, publish, poll, leave, terminate, join, pop_all, build_run, init,
  run_pipeline, stop, join_next, poll_queue, pop_all_runs, worker, at, step, run_events,
}
use obcpp.Cv.Aggregator.Accounts.{gather, popped}

module _ {Image Mat Box Coord : Type 0} (pipeline : Image → PipelineResults Mat Box Coord)
    (k : ℕ) where
  abbrev Pool : Type 0
  Pool = Aggregator Image (AggregatedRun Mat Box Coord)

  abbrev pub has_id : AggregatedRun Mat Box Coord → ℕ
  has_id r = if r.run_id == k then 1 else 0

  abbrev in_phase : Phase Image (AggregatedRun Mat Box Coord) → ℕ
  in_phase (publishing run) = has_id run
  in_phase _ = 0

  -- How many of the runs held by workers or waiting to be handed out carry the identifier.
  abbrev pub held : Pool → ℕ
  held s = sum_by in_phase s.threads + sum_by has_id s.runs

  -- With `n` runs of that identifier handed out before and at most `left` runs to come: one at most,
  -- and if there was one, its identifier is not drawn again by these. It is drawn after `ahead` others.
  record Fresh (n left : ℕ) (s : Pool) : Type 0 where
    ahead : ℕ
    in_range : s.global_run_id < 4294967296
    near : ahead < 4294967296
    drawn_then : (s.global_run_id + ahead) % 4294967296 ≡ k
    few : left ≤ 4294967296
    one : held s + n ≤ 1
    not_again : (held s + n ≡ 0) ⊎ (left ≤ ahead)

  -- Another state with the same runs and the same counter.
  Fresh-same :
      (n n' left left' : ℕ) (s t : Pool)
      → Fresh n left s
      → left' ≤ left
      → held t + n' ≡ held s + n
      → t.global_run_id ≡ s.global_run_id
      → Fresh n' left' t
  Fresh-same n n' left left' s t f fewer h g = record {
    ahead = f.ahead;
    in_range = ground (arith, f.in_range);
    near = f.near;
    drawn_then = ground (arith, f.drawn_then);
    few = omega (arith, f.few, fewer);
    one = omega (arith, f.one, h);
    not_again = elim f.not_again [
      | inl z ↦ inl (omega (arith, z, h))
      | inr l ↦ inr (omega (arith, l, fewer))
    ];
  }

  Fresh-submit :
      (n left : ℕ) (s : Pool) (image : Image) (spawned : Bool)
      → Fresh n left s
      → Fresh n left (run_pipeline s image spawned)
  unfolding run_pipeline
  Fresh-submit n left s image spawned f =
      Fresh-same n n left left s (run_pipeline s image spawned) f (omega arith)
        (ground (arith, sum_by-append in_phase s.threads (detecting image ∷ []))) (ground arith)

  held-poll_queue :
      (s : Pool) (i : ℕ) (images : List Image)
      → get_elem? s.threads i ≡ some polling
      → (held (poll_queue s i images) ≡ held s)
        × ((poll_queue s i images).global_run_id ≡ s.global_run_id)
  unfolding poll_queue
  held-poll_queue s i [] g = ground (arith, sum_by-set in_phase s.threads i polling leaving g)
  held-poll_queue s i (image ∷ rest) g =
      ground (arith, sum_by-set in_phase s.threads i polling (detecting image) g)

  -- How many runs an event draws a number for.
  abbrev pub drawn : Event Image → ℕ
  drawn (detect i) = 1
  drawn _ = 0

  has_id-build_run :
      (s : Pool) (image : Image)
      → has_id (build_run pipeline s.global_run_id image) ≡ (if s.global_run_id == k then 1 else 0)
  unfolding build_run
  has_id-build_run s image = refl

  Fresh-detect :
      (n left : ℕ) (s t : Pool)
      → Fresh n left s
      → 1 ≤ left
      → t.global_run_id ≡ (s.global_run_id + 1) % 4294967296
      → held t ≡ held s + (if s.global_run_id == k then 1 else 0)
      → Fresh n (left - 1) t
  Fresh-detect n left s t f l g h =
      go f.ahead f.in_range f.near f.drawn_then f.few f.one f.not_again
    where
      go :
          (ahead : ℕ)
          → s.global_run_id < 4294967296
          → ahead < 4294967296
          → (s.global_run_id + ahead) % 4294967296 ≡ k
          → left ≤ 4294967296
          → held s + n ≤ 1
          → (held s + n ≡ 0) ⊎ (left ≤ ahead)
          → Fresh n (left - 1) t
      go zero r near d few one (inl z) =
          let same : s.global_run_id ≡ k = omega (arith, r, d) in
          let more : held t ≡ held s + 1 = ground (arith, h, same) in
          record {
            ahead = 4294967295;
            in_range = omega (arith, g);
            near = omega arith;
            drawn_then = omega (arith, g, r, same);
            few = omega (arith, few);
            one = omega (arith, more, z);
            not_again = inr (omega (arith, few));
          }
      go zero r near d few one (inr none_left) = absurd (omega (arith, none_left, l))
      go (suc a) r near d few one again =
          let other : s.global_run_id ≢ k = λ e. omega (arith, e, r, near, d) in
          let as_many : held t ≡ held s = ground (arith, h, other) in
          record {
            ahead = a;
            in_range = omega (arith, g);
            near = omega (arith, near);
            drawn_then = omega (arith, g, r, d, near);
            few = omega (arith, few);
            one = omega (arith, as_many, one);
            not_again = elim again [
              | inl z ↦ inl (omega (arith, z, as_many))
              | inr q ↦ inr (omega (arith, q))
            ];
          }

  Fresh-worker :
      (n left : ℕ) (s t : Pool) (i : ℕ) (e : Event Image)
      (ph : Phase Image (AggregatedRun Mat Box Coord))
      → Fresh n left s
      → drawn e ≤ left
      → get_elem? s.threads i ≡ some ph
      → worker pipeline s i e ph ≡ some t
      → Fresh n (left - drawn e) t
  unfolding worker
  Fresh-worker n left s t i (detect j) (detecting image) f l g w =
      let run = build_run pipeline s.global_run_id image in
      Fresh-detect n left s t f l (ground arith) (
        ground (
          arith,
          sum_by-set in_phase s.threads i (detecting image) (publishing run) g,
          has_id-build_run s image,
        ))
  Fresh-worker n left s t i (publish j) (publishing run) f l g w =
      Fresh-same n n left (left - 0) s t f (omega arith)
        (ground (
          arith,
          sum_by-set in_phase s.threads i (publishing run) polling g,
          sum_by-append has_id s.runs (run ∷ []),
        ))
        (ground arith)
  Fresh-worker n left s t i (poll j) polling f l g w =
      let kept = held-poll_queue s i s.overflow_queue g in
      Fresh-same n n left (left - 0) s t f (omega arith) (ground (arith, kept.0))
        (ground (arith, kept.1))
  Fresh-worker n left s t i (leave j) leaving f l g w =
      Fresh-same n n left (left - 0) s t f (omega arith)
        (ground (arith, sum_by-set in_phase s.threads i leaving returned g)) (ground arith)
  Fresh-worker n left s t i e ph f l g w = ground arith

  Fresh-at :
      (n left : ℕ) (s t : Pool) (i : ℕ) (e : Event Image)
      → Fresh n left s
      → drawn e ≤ left
      → at pipeline s i e ≡ some t
      → Fresh n (left - drawn e) t
  unfolding at
  Fresh-at n left s t i e f l h = elim (Option-cases (get_elem? s.threads i)) [
    | inl g ↦ absurd (ground arith)
    | inr (ph, g) ↦ Fresh-worker n left s t i e ph f l g (rw (g, at) at h)
  ]

  join_next-kept :
      (s t : Pool) (ts : List ℕ)
      → join_next s ts ≡ some t
      → (held t ≡ held s) × (t.global_run_id ≡ s.global_run_id)
  unfolding join_next
  join_next-kept s t [] h = ground arith
  join_next-kept s t (i ∷ ts) h = ground arith

  stop-kept :
      (s t : Pool)
      → some (stop s) ≡ some t
      → (held t ≡ held s) × (t.global_run_id ≡ s.global_run_id)
  unfolding stop
  stop-kept s t h = ground arith

  Fresh-step :
      (n left : ℕ) (s t : Pool) (e : Event Image)
      → Fresh n left s
      → drawn e ≤ left
      → step pipeline s e ≡ some t
      → Fresh (n + sum_by has_id (popped pipeline s e)) (left - drawn e) t
  unfolding step
  Fresh-step n left s t (submit image spawned) f l h =
      let f' = Fresh-submit n left s image spawned f in
      Fresh-same n (n + 0) left (left - 0) (run_pipeline s image spawned) t f' (omega arith)
        (ground arith) (ground arith)
  Fresh-step n left s t (detect i) f l h =
      Fresh-same n (n + 0) (left - 1) (left - 1) t t (Fresh-at n left s t i (detect i) f l h)
        (omega arith) (omega arith) refl
  Fresh-step n left s t (publish i) f l h =
      Fresh-same n (n + 0) (left - 0) (left - 0) t t (Fresh-at n left s t i (publish i) f l h)
        (omega arith) (omega arith) refl
  Fresh-step n left s t (poll i) f l h =
      Fresh-same n (n + 0) (left - 0) (left - 0) t t (Fresh-at n left s t i (poll i) f l h)
        (omega arith) (omega arith) refl
  Fresh-step n left s t (leave i) f l h =
      Fresh-same n (n + 0) (left - 0) (left - 0) t t (Fresh-at n left s t i (leave i) f l h)
        (omega arith) (omega arith) refl
  Fresh-step n left s t terminate f l h =
      let kept = stop-kept s t h in
      Fresh-same n (n + 0) left (left - 0) s t f (omega arith) (omega (arith, kept.0)) kept.1
  Fresh-step n left s t join f l h =
      let kept = join_next-kept s t s.terminating h in
      Fresh-same n (n + 0) left (left - 0) s t f (omega arith) (omega (arith, kept.0)) kept.1
  Fresh-step n left s t pop_all f l h =
      Fresh-same n (n + sum_by has_id s.runs) left (left - 0) s t f (omega arith)
        (unfold pop_all_runs in ground arith) (unfold pop_all_runs in ground arith)

  Fresh-run_events :
      (n left : ℕ) (s t : Pool) (es : List (Event Image))
      → Fresh n left s
      → sum_by drawn es ≤ left
      → run_events pipeline s es ≡ some t
      → held t + (n + sum_by has_id (gather pipeline (popped pipeline) s es)) ≤ 1
  unfolding run_events gather
  Fresh-run_events n left s t [] f l h =
      let same : s ≡ t = ap (λ o. elim o [ none ↦ s | some u ↦ u ]) h in
      subst (λ u. held u + (n + 0) ≤ 1) same (omega (arith, f.one))
  Fresh-run_events n left s t (e ∷ es) f l h = elim (Option-cases (step pipeline s e)) [
    | inl g ↦ absurd (ground arith)
    | inr (u, g) ↦
        rw (g, gather)
          (omega (
            arith,
            Fresh-run_events (n + sum_by has_id (popped pipeline s e)) (left - drawn e) u t es
                (Fresh-step n left s u e f (omega (arith, l)) g) (omega (arith, l))
                (rw (g, run_events) at h),
            sum_by-append has_id (popped pipeline s e) (gather pipeline (popped pipeline) u es),
          ))
  ]

  -- Over any history of a new aggregator in which at most 2 ^ 32 numbers are drawn, wherever the
  -- counter stands when the aggregator is made, at most one of the runs handed out by `popAllRuns`,
  -- held by a worker or waiting carries a given identifier.
  pub run_ids_distinct :
      (start : ℕ) (t : Pool) (es : List (Event Image))
      → start < 2 ^ 32
      → k < 2 ^ 32
      → sum_by drawn es ≤ 2 ^ 32
      → run_events pipeline (record init { global_run_id = start }) es ≡ some t
      → held t
          + sum_by has_id
              (gather pipeline (popped pipeline) (record init { global_run_id = start }) es)
        ≤ 1
  unfolding init
  run_ids_distinct start t es below inside few h = omega (
    arith,
    Fresh-run_events 0 4294967296 (record init { global_run_id = start }) t es
        (record {
          ahead = (k + 4294967296 - start) % 4294967296;
          in_range = below;
          near = omega arith;
          drawn_then = omega (arith, below, inside);
          few = omega arith;
          one = omega arith;
          not_again = inl refl;
        })
        few h,
  )
