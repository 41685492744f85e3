-- ===== src/Cv/Aggregator/Finish.antt =====
-- The loops of the workers of src/cv/aggregator.cpp end, and `terminate` waits for a bounded time.
use native.Mathlib.Decide.{dec_lt}
use obcpp.Base.{
  ne_none-some, ◌⊎◌, false, ap, ◌∙◌, ℕ, suc, ◌+◌, ◌*◌, ◌≤◌, ◌<◌, ◌≡◌, refl, inl, inr, List, [], ◌∷◌,
  some, length, get_elem?, sum_by, sum_by-set, All, arith, Option-cases,
}
use obcpp.Cv.Aggregator.{
  Aggregator, Phase, Event, PipelineResults, AggregatedRun, detecting, publishing, polling, leaving,
  returned, detect, publish, poll, leave, build_run, poll_queue, worker, at, step, run_events,
}
use obcpp.Cv.Aggregator.Bounds.{live, Inv, step-Inv}

module _ {Image : Type 0} where
  -- An event of a worker, as opposed to a call from outside.
  abbrev pub IsWork : Event Image → Type 0
  IsWork (detect i) = Unit {0}
  IsWork (publish i) = Unit {0}
  IsWork (poll i) = Unit {0}
  IsWork (leave i) = Unit {0}
  IsWork _ = ⊥

module _ {Image Run : Type 0} where
  -- The events that a worker has before it, but for the images still queued.
  abbrev remaining : Phase Image Run → ℕ
  remaining (detecting image) = 4
  remaining (publishing run) = 3
  remaining polling = 2
  remaining leaving = 1
  remaining returned = 0

  abbrev pub work : Aggregator Image Run → ℕ
  work s = sum_by remaining s.threads + 3 * length s.overflow_queue

  remaining-le : (ts : List (Phase Image Run)) → sum_by remaining ts ≤ 4 * sum_by live ts
  remaining-le [] = omega arith
  remaining-le (detecting image ∷ ts) = omega (arith, remaining-le ts)
  remaining-le (publishing run ∷ ts) = omega (arith, remaining-le ts)
  remaining-le (polling ∷ ts) = omega (arith, remaining-le ts)
  remaining-le (leaving ∷ ts) = omega (arith, remaining-le ts)
  remaining-le (returned ∷ ts) = omega (arith, remaining-le ts)

  live_thread :
      (ts : List (Phase Image Run))
      → 0 < sum_by live ts
      → (i : ℕ) × (ph : Phase Image Run) × (get_elem? ts i ≡ some ph) × (live ph ≡ 1)
  live_thread [] h = absurd (omega arith)
  live_thread (detecting image ∷ ts) h = (0, detecting image, refl, refl)
  live_thread (publishing run ∷ ts) h = (0, publishing run, refl, refl)
  live_thread (polling ∷ ts) h = (0, polling, refl, refl)
  live_thread (leaving ∷ ts) h = (0, leaving, refl, refl)
  live_thread (returned ∷ ts) h =
      let (i, ph, g, l) = live_thread ts (omega arith) in (suc i, ph, g, l)

  work-poll_queue :
      (s : Aggregator Image Run) (i : ℕ) (q : List Image)
      → get_elem? s.threads i ≡ some polling
      → s.overflow_queue ≡ q
      → work (poll_queue s i q) + 1 ≡ work s
  unfolding poll_queue
  work-poll_queue s i [] g h = ground (arith, sum_by-set remaining s.threads i polling leaving g)
  work-poll_queue s i (image ∷ rest) g h =
      ground (arith, sum_by-set remaining s.threads i polling (detecting image) g)

module _ {Image Mat Box Coord : Type 0} (pipeline : Image → PipelineResults Mat Box Coord) where
  abbrev Pool : Type 0
  Pool = Aggregator Image (AggregatedRun Mat Box Coord)

  work-worker :
      (s t : Pool) (i : ℕ) (e : Event Image) (ph : Phase Image (AggregatedRun Mat Box Coord))
      → get_elem? s.threads i ≡ some ph
      → worker pipeline s i e ph ≡ some t
      → work t + 1 ≡ work s
  unfolding worker
  work-worker s t i e (detecting image) g w = ground (
    arith,
    sum_by-set remaining s.threads i (detecting image)
        (publishing (build_run pipeline s.global_run_id image)) g,
  )
  work-worker s t i e (publishing run) g w =
      ground (arith, sum_by-set remaining s.threads i (publishing run) polling g)
  work-worker s t i e polling g w = ground (arith, work-poll_queue s i s.overflow_queue g refl)
  work-worker s t i e leaving g w =
      ground (arith, sum_by-set remaining s.threads i leaving returned g)
  work-worker s t i e returned g w = ground arith

  work-at :
      (s t : Pool) (i : ℕ) (e : Event Image) → at pipeline s i e ≡ some t → work t + 1 ≡ work s
  unfolding at
  work-at s t i e h = elim (Option-cases (get_elem? s.threads i)) [
    | inl g ↦ absurd (ground arith)
    | inr (ph, g) ↦ work-worker s t i e ph g (rw (g, at) at h)
  ]

  work-step :
      (s t : Pool) (e : Event Image) → IsWork e → step pipeline s e ≡ some t → work t + 1 ≡ work s
  unfolding step
  work-step s t (detect i) w h = work-at s t i (detect i) h
  work-step s t (publish i) w h = work-at s t i (publish i) h
  work-step s t (poll i) w h = work-at s t i (poll i) h
  work-step s t (leave i) w h = work-at s t i (leave i) h
  work-step s t _ w h = absurd w

  accepting-at :
      (s t : Pool) (i : ℕ) (e : Event Image)
      → at pipeline s i e ≡ some t
      → t.accepting_images ≡ s.accepting_images
  unfolding at worker poll_queue
  accepting-at s t i e h = ground arith

  accepting-step :
      (s t : Pool) (e : Event Image)
      → IsWork e
      → step pipeline s e ≡ some t
      → t.accepting_images ≡ s.accepting_images
  unfolding step
  accepting-step s t (detect i) w h = accepting-at s t i (detect i) h
  accepting-step s t (publish i) w h = accepting-at s t i (publish i) h
  accepting-step s t (poll i) w h = accepting-at s t i (poll i) h
  accepting-step s t (leave i) w h = accepting-at s t i (leave i) h
  accepting-step s t _ w h = absurd w

  -- The workers' events number exactly what `work` counts, whatever their order.
  pub work-run_events :
      (s t : Pool) (es : List (Event Image))
      → All IsWork es
      → run_events pipeline s es ≡ some t
      → work t + length es ≡ work s
  unfolding run_events
  work-run_events s t [] w h = ground arith
  work-run_events s t (e ∷ es) w h = elim (Option-cases (step pipeline s e)) [
    | inl g ↦ absurd (ground arith)
    | inr (u, g) ↦
        omega (arith, work-step s u e w.0 g, work-run_events u t es w.1 (rw (g, run_events) at h))
  ]

  can-IsWork :
      (s : Pool) (i : ℕ) (ph : Phase Image (AggregatedRun Mat Box Coord))
      → get_elem? s.threads i ≡ some ph
      → live ph ≡ 1
      → (e : Event Image) × (u : Pool) × IsWork e × (step pipeline s e ≡ some u)
  unfolding step at worker
  can-IsWork s i (detecting image) g l =
      let (u, h) = ne_none-some (step pipeline s (detect i)) (λ h. ground arith) in
      (detect i, u, tt, h)
  can-IsWork s i (publishing run) g l =
      let (u, h) = ne_none-some (step pipeline s (publish i)) (λ h. ground arith) in
      (publish i, u, tt, h)
  can-IsWork s i polling g l =
      let (u, h) = ne_none-some (step pipeline s (poll i)) (λ h. ground arith) in (poll i, u, tt, h)
  can-IsWork s i leaving g l =
      let (u, h) = ne_none-some (step pipeline s (leave i)) (λ h. ground arith) in
      (leave i, u, tt, h)
  can-IsWork s i returned g l = absurd (omega arith)

  accepting-run_events :
      (s t : Pool) (es : List (Event Image))
      → All IsWork es
      → run_events pipeline s es ≡ some t
      → Inv s
      → s.accepting_images ≡ false
      → Inv t × (t.accepting_images ≡ false)
  unfolding run_events
  accepting-run_events s t [] w h v a = ground arith
  accepting-run_events s t (e ∷ es) w h v a = elim (Option-cases (step pipeline s e)) [
    | inl g ↦ absurd (ground arith)
    | inr (u, g) ↦
        accepting-run_events u t es w.1 (rw (g, run_events) at h) (step-Inv pipeline s u e v g)
          (accepting-step s u e w.0 g ∙ a)
  ]

  -- Once no images are accepted, the workers take at most eight steps together, in any order, and
  -- as long as one of them has not returned some worker has a step to take: joining them ends.
  pub stopped_workers_finish :
      (s t : Pool) (es : List (Event Image))
      → Inv s
      → s.accepting_images ≡ false
      → All IsWork es
      → run_events pipeline s es ≡ some t
      → (length es ≤ 8)
        × ((sum_by live t.threads ≡ 0)
            ⊎ ((e : Event Image) × (u : Pool) × IsWork e × (step pipeline t e ≡ some u)))
  stopped_workers_finish s t es v a w h = (
    omega (arith, ap length (v.closed a), remaining-le s.threads, work-run_events s t es w h),
    elim (dec_lt 0 (sum_by live t.threads)) [
      | yes p ↦ let (i, ph, g, l) = live_thread t.threads p in inr (can-IsWork t i ph g l)
      | no p ↦ inl (omega arith)
    ],
  )
