-- ===== src/Network/GcsRoutes/Safety.antt =====
-- Runs of the mission, with ticks (src/core/mission_state.cpp) and requests
-- (src/network/gcs_routes.cpp) in any order.
use obcpp.Base.{
  zero, suc, ◌+◌, false, ◌⊎◌, inl, inr, Option-cases, ℕ, List, [], ◌∷◌, All, Option, none, some,
  Bool, true, ◌≡◌, refl, sym, ◌∙◌, subst, arith, leb, length, if_both,
}
use obcpp.Ticks.Tick.{
  Tick, mission_prep, mav_upload, ValidateStatus, TakeoffStatus, nullptr, path_validate,
  wait_for_takeoff, manual_landing,
}
use obcpp.Ticks.State.{MissionState, Config}
use obcpp.Ticks.Flight.{target_at}
use obcpp.Ticks.Flight.Outcomes.{bind-some, bind-none}
use obcpp.Ticks.Schedule.Safety.{do_tick-Ready}
use obcpp.Ticks.Ready.{
  Ready, EndsWell, Configured, InOrder, none_dropped, water_dropped, all_dropped, safe, staged,
  is_over, is_some,
}
use obcpp.Network.Matches.{put, put_all}
use obcpp.Network.GcsServices.{Camera, run_pipeline_route, rtl_route, run_pictures}
use obcpp.Network.GcsRoutes.{
  Request, Response, Service, Event, rtl, run_pipeline, served, serve, path_initial_new,
  path_initial_validate, takeoff_manual, takeoff_autonomous, targets_matched, mission, ticked,
  requested, handle, happen, run, set_validate_status, set_takeoff_status, match_targets,
}

module _ {Target : Type 0} where
  target_at-put :
      (k a : ℕ) (t : Target) (table : List (ℕ × Target))
      → is_some (target_at k table) ≡ true
      → is_some (target_at k (put a t table)) ≡ true
  unfolding put target_at
  target_at-put k a t [] e = ground arith
  target_at-put k a t ((b, u) ∷ rest) e = ground (arith, target_at-put k a t rest)

  target_at-put_all :
      (k : ℕ) (found table : List (ℕ × Target))
      → is_some (target_at k table) ≡ true
      → is_some (target_at k (put_all found table)) ≡ true
  unfolding put_all
  target_at-put_all k [] table e = e
  target_at-put_all k ((a, t) ∷ rest) table e =
      target_at-put_all k rest (put a t table) (target_at-put k a t table e)

  staged-put_all :
      (c : Config) (found table : List (ℕ × Target))
      → staged c (some table) ≡ true
      → staged c (some (put_all found table)) ≡ true
  unfolding staged
  staged-put_all c found table e =
      ground (arith, target_at-put_all c.water found table, target_at-put_all c.beacon found table)

safe_mono :
    {Route : Type 0} (cv cv' over : Bool) (t : Tick Route)
    → (cv ≡ true → cv' ≡ true)
    → safe cv over t ≡ true
    → safe cv' over t ≡ true
unfolding safe
safe_mono cv cv' over nullptr f e = e
safe_mono cv cv' over mission_prep f e = refl
safe_mono cv cv' over (mav_upload n p g) f e = ground arith
safe_mono cv cv' over (manual_landing nullptr) f e = e
safe_mono cv cv' over (manual_landing t) f e = ground arith
safe_mono cv cv' over t f e = f e

module _ {Route Target : Type 0} (c : Config) (s : MissionState Route Target) (h : Ready c s) where
  match_targets-Ready :
      (found : List (ℕ × Target)) (cv : Option (List (ℕ × Target)))
      → s.cv ≡ cv
      → Ready c (match_targets s found cv).0
  unfolding match_targets
  match_targets-Ready found none e = h
  match_targets-Ready found (some table) e = record {
    connected = h.connected;
    in_order = h.in_order;
    tick_safe =
        safe_mono (staged c s.cv) (staged c (some (put_all found table))) (is_over s) s.tick
          (λ x. staged-put_all c found table (subst (λ y. staged c y ≡ true) e x)) h.tick_safe;
  }

  set_validate_status-Ready :
      (v : ValidateStatus) (t : Tick Route)
      → safe (staged c s.cv) (is_over s) t ≡ true
      → Ready c (set_validate_status s v t).0
  unfolding set_validate_status safe
  set_validate_status-Ready v (path_validate old) e = record {
    connected = h.connected;
    in_order = h.in_order;
    tick_safe = e;
  }
  set_validate_status-Ready v t e = h

  set_takeoff_status-Ready :
      (v : TakeoffStatus) (t : Tick Route)
      → safe (staged c s.cv) (is_over s) t ≡ true
      → Ready c (set_takeoff_status s v t).0
  unfolding set_takeoff_status safe
  set_takeoff_status-Ready v (wait_for_takeoff old) e = record {
    connected = h.connected;
    in_order = h.in_order;
    tick_safe = e;
  }
  set_takeoff_status-Ready v t e = h

  handle-Ready : (is_empty : Route → Bool) (q : Request Target) → Ready c (handle is_empty s q).0
  unfolding handle
  handle-Ready is_empty path_initial_new =
      set_validate_status-Ready ValidateStatus.rejected s.tick h.tick_safe
  handle-Ready is_empty path_initial_validate =
      if_both (λ (x : MissionState Route Target × Response). Ready c x.0) (is_empty s.init_path) h
        (set_validate_status-Ready ValidateStatus.validated s.tick h.tick_safe)
  handle-Ready is_empty takeoff_manual =
      set_takeoff_status-Ready TakeoffStatus.manual s.tick h.tick_safe
  handle-Ready is_empty takeoff_autonomous =
      set_takeoff_status-Ready TakeoffStatus.autonomous s.tick h.tick_safe
  handle-Ready is_empty (targets_matched found) = match_targets-Ready found s.cv refl
  handle-Ready is_empty (mission accepted) =
      if_both (λ (x : MissionState Route Target × Response). Ready c x.0) accepted
        (record { connected = h.connected; in_order = h.in_order; tick_safe = h.tick_safe }) h

over-drops :
    (c : Config) (dropped : List ℕ)
    → InOrder c dropped
    → leb 2 (length dropped) ≡ true
    → dropped ≡ c.water ∷ c.beacon ∷ []
over-drops c _ none_dropped e = ground arith
over-drops c _ water_dropped e = ground arith
over-drops c _ all_dropped e = refl

landing-over :
    {Route : Type 0} (cv over : Bool) (next : Tick Route)
    → safe cv over (manual_landing next) ≡ true
    → over ≡ true
unfolding safe
landing-over cv over nullptr e = e
landing-over cv over next e = ground arith

landed-drops :
    {Route Target : Type 0} (c : Config) (t : MissionState Route Target) (next : Tick Route)
    → Ready c t
    → t.tick ≡ manual_landing next
    → t.dropped_airdrops ≡ c.water ∷ c.beacon ∷ []
landed-drops c t next h q = over-drops c t.dropped_airdrops h.in_order (
    landing-over (staged c t.cv) (is_over t) next
      (subst (λ x. safe (staged c t.cv) (is_over t) x ≡ true) q h.tick_safe))

some-injective : {A : Type 0} (a b : A) → some a ≡ some b → a ≡ b
some-injective a b e = ground arith

-- The aggregator that a tick or a request makes has a dummy for each airdrop.
abbrev pub has_dummies : {Route Target Photo : Type 0} → Config → Event Route Target Photo → Bool
has_dummies c (ticked r r') = staged c (some r.stage)
has_dummies c (requested q) = true
has_dummies c (served rtl) = true
has_dummies c (served (run_pipeline cam stage)) = staged c (some stage)

-- No generation of a path in a tick aborts, throws or goes on for ever, and there is a camera.
abbrev pub GoesWell : {Route Target Photo : Type 0} → Event Route Target Photo → Type 0
GoesWell (ticked r r') = EndsWell r × EndsWell r'
GoesWell (requested q) = Unit
GoesWell (served rtl) = Unit
GoesWell (served (run_pipeline cam stage)) = is_some cam ≡ true

module _ {Photo : Type 0} where
  -- The pictures of a stop that are not saved.
  run_pictures-returns :
      (k i : ℕ) (pictures : ℕ → Option Photo) → is_some (run_pictures k i pictures false) ≡ true
  unfolding run_pictures
  run_pictures-returns zero i pictures = refl
  run_pictures-returns (suc k) i pictures = ground (arith, run_pictures-returns k (i + 1) pictures)

  run_pipeline_route-returns :
      (cam : Option (Camera Photo)) (k : ℕ)
      → is_some cam ≡ true
      → is_some (run_pipeline_route cam k false) ≡ true
  unfolding run_pipeline_route
  run_pipeline_route-returns none k e = ground arith
  run_pipeline_route-returns (some cam) k e = ground (arith, run_pictures-returns k 0 cam.pictures)

module _ {Route Target Photo : Type 0} (is_empty : Route → Bool) (c : Config)
    (k : Configured c) where
  serve-Ready :
      (s : MissionState Route Target) (q : Service Target Photo)
      → Ready c s
      → has_dummies {Route = Route} c (served q) ≡ true
      → ((t : MissionState Route Target) × (serve c s q ≡ some t) × Ready c t)
        ⊎ ((serve c s q ≡ none) × ¬ (GoesWell {Route = Route} (served q)))
  unfolding serve rtl_route
  serve-Ready s rtl h d = inl (s, ground (arith, h.connected), h)
  serve-Ready s (run_pipeline cam stage) h d =
      elim (Option-cases (run_pipeline_route cam c.pictures_per_stop c.save_images_to_file)) [
        | inl gone ↦ inr (
          rw (serve, gone) refl,
          λ w.
              ground (
                arith,
                run_pipeline_route-returns cam c.pictures_per_stop w,
                k.saves_nothing,
                gone,
              ),
        )
        | inr (reply, e) ↦ inl (
          record s { cv = some stage },
          rw (serve, e) refl,
          record {
            connected = h.connected;
            in_order = h.in_order;
            tick_safe =
                safe_mono (staged c s.cv) (staged c (some stage)) (is_over s) s.tick (λ x. d)
                  h.tick_safe;
          },
        )
      ]

  happen-Ready :
      (s : MissionState Route Target) (e : Event Route Target Photo)
      → Ready c s
      → has_dummies c e ≡ true
      → ((t : MissionState Route Target) × (happen is_empty c s e ≡ some t) × Ready c t)
        ⊎ ((happen is_empty c s e ≡ none) × ¬ (GoesWell e))
  unfolding happen
  happen-Ready s (ticked r r') h d = elim (do_tick-Ready c k r d s r' h) [
    | inl (t, acts, wait, e, g) ↦ inl (t, ground arith, g)
    | inr (e, ill) ↦ inr (ground arith, ill)
  ]
  happen-Ready s (requested q) h d = inl (_, refl, handle-Ready c s h is_empty q)
  happen-Ready s (served q) h d = serve-Ready s q h d

  -- A run that comes to an end comes to a ready state, also where generations do not end well.
  run-Ready :
      (s t : MissionState Route Target) (es : List (Event Route Target Photo))
      → Ready c s
      → All (λ e. has_dummies c e ≡ true) es
      → run is_empty c s es ≡ some t
      → Ready c t
  unfolding run
  run-Ready s t [] h ds e = subst (Ready c) (some-injective s t e) h
  run-Ready s t (e ∷ es) h (d, ds) p = elim (happen-Ready s e h d) [
    | inl (u, q, g) ↦
        run-Ready u t es g ds
          (sym (bind-some (λ x. x ≡ run is_empty c u es) (happen is_empty c s e) _ u q refl) ∙ p)
    | inr (q, ill) ↦
        absurd
          (ground (arith, sym (bind-none (happen is_empty c s e) (λ v. run is_empty c v es) q) ∙ p))
  ]

  -- When ticks and requests have led from a ready state to the manual landing, for a configuration that
  -- saves no images and numbers the two airdrops one after the other, and with a dummy for each airdrop
  -- in every new aggregator, exactly the water and the beacon airdrop have been marked as dropped, each
  -- once and in this order.
  pub landing_after_drops :
      (s t : MissionState Route Target) (es : List (Event Route Target Photo)) (next : Tick Route)
      → Ready c s
      → All (λ e. has_dummies c e ≡ true) es
      → run is_empty c s es ≡ some t
      → t.tick ≡ manual_landing next
      → t.dropped_airdrops ≡ c.water ∷ c.beacon ∷ []
  landing_after_drops s t es next h ds p q = landed-drops c t next (run-Ready s t es h ds p) q
