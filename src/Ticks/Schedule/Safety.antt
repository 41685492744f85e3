-- ===== src/Ticks/Schedule/Safety.antt =====
-- The step of the scheduler (src/core/mission_state.cpp) from a ready state.
use obcpp.Base.{
  ◌⊎◌, inl, inr, if_cases, ℕ, Bool, none, if◌then◌else◌, List, ◌++◌, Option, some, true, ◌≡◌, refl,
  arith,
}
use obcpp.Ticks.Tick.{
  Tick, nullptr, mission_prep, path_gen, path_validate, mav_upload, takeoff, fly_waypoints,
  fly_search, cv_loiter, airdrop_prep, airdrop_approach, manual_landing, auto_landing, mission_done,
  active_takeoff, wait_for_takeoff, refueling,
}
use obcpp.Ticks.State.{MissionState, Config, Readings, Action, Outcome, decrement_laps_remaining}
use obcpp.Ticks.Ready.{
  InOrder, Ready, EndsWell, Configured, Comes, staged, is_over, stay-Fine, some-Comes, safe,
  next_safe,
}
use obcpp.Ticks.Schedule.{
  init, path_gen_init, mav_upload_init, active_takeoff_init, fly_waypoints_init, fly_search_init,
  airdrop_approach_init, set_tick, enter, call_tick, get_wait, tick_once, do_tick,
}
use obcpp.Ticks.Flight.{◌>>=◌}
use obcpp.Ticks.Flight.Outcomes.{
  bind-some, bind-none, fly_waypoints_tick-Comes, fly_search_tick-Comes, cv_loiter_tick-Comes,
  airdrop_prep_tick-Comes, airdrop_approach_tick-Comes,
}
use obcpp.Ticks.Ground.Outcomes.{
  mission_prep_tick-Fine, path_gen_tick-Comes, path_validate_tick-Fine, mav_upload_tick-Fine,
  wait_for_takeoff_tick-Fine, takeoff_tick-Comes, active_takeoff_tick-Comes, refueling_tick-Comes,
  manual_landing_tick-Comes,
}

module _ {Route Target Photo : Type 0} (c : Config) (r r' : Readings Route Target Photo) where
  -- A step comes back, in a ready state, or a generation of a path did not end well.
  abbrev Succeeds : Option (MissionState Route Target × List (Action Route Photo)) → Type 0
  Succeeds x =
      ((s : MissionState Route Target) × (acts : List (Action Route Photo)) × (x ≡ some (s, acts))
        × Ready c s)
      ⊎ ((x ≡ none) × ¬ (EndsWell r × EndsWell r'))

  abbrev when :
      Bool
      → MissionState Route Target × List (Action Route Photo)
      → Option (MissionState Route Target × List (Action Route Photo))
  when b x = if b then some x else none

  bind-Ready :
      (mav : Bool) (acts acts' : List (Action Route Photo)) (t : MissionState Route Target)
      → mav ≡ true
      → Ready c t
      → Succeeds (when mav (t, acts') >>= λ x. some (x.0, acts ++ x.1))
  bind-Ready mav acts acts' t p h = inl (t, acts ++ acts', ground arith, h)

  generated-Ready :
      (mav : Bool) (acts acts' : List (Action Route Photo)) (t : MissionState Route Target)
      → mav ≡ true
      → Ready c t
      → Succeeds (
          (if r'.generation_aborts then none else when mav (t, acts')) >>= λ x.
          some (x.0, acts ++ x.1))
  generated-Ready mav acts acts' t p h =
      if_cases (λ x. Succeeds (x >>= λ y. some (y.0, acts ++ y.1))) r'.generation_aborts _ _
        (λ aborts. inr (refl, λ w. ground (arith, aborts, (w.1).goes_on)))
        (λ goes_on. bind-Ready mav acts acts' t p h)

  module _ (o : Outcome Route Target Photo) (p : o.state.mav ≡ true)
      (i : InOrder c o.state.dropped_airdrops) where
    enter-Ready : (t : Tick Route) → next_safe c o.state t ≡ true → Succeeds (enter o t r')
    unfolding enter next_safe safe init path_gen_init mav_upload_init active_takeoff_init
        fly_waypoints_init fly_search_init airdrop_approach_init set_tick decrement_laps_remaining
    enter-Ready nullptr q = inl (_, _, refl, record { connected = p; in_order = i; tick_safe = q })
    enter-Ready path_gen q =
        generated-Ready _ _ _ _ p (record { connected = p; in_order = i; tick_safe = q })
    enter-Ready (mav_upload n w g) q =
        bind-Ready _ _ _ _ p (record { connected = p; in_order = i; tick_safe = q })
    enter-Ready active_takeoff q =
        bind-Ready _ _ _ _ p (record { connected = p; in_order = i; tick_safe = q })
    enter-Ready (fly_waypoints n b l) q =
        bind-Ready _ _ _ _ p (record { connected = p; in_order = i; tick_safe = q })
    enter-Ready (fly_search n b l) q =
        bind-Ready _ _ _ _ p (record { connected = p; in_order = i; tick_safe = q })
    enter-Ready airdrop_approach q =
        bind-Ready _ _ _ _ p (record { connected = p; in_order = i; tick_safe = q })
    enter-Ready (manual_landing nullptr) q =
        inl (_, _, refl, record { connected = p; in_order = i; tick_safe = q })
    enter-Ready t q = inl (_, _, refl, record { connected = p; in_order = i; tick_safe = q })

module _ {Route Target Photo : Type 0} (c : Config) (k : Configured c)
    (r : Readings Route Target Photo) (staging : staged c (some r.stage) ≡ true) where
  module _ (s : MissionState Route Target) (h : Ready c s) where
    call_tick-Comes :
        (t : Tick Route) → safe (staged c s.cv) (is_over s) t ≡ true → Comes c r (call_tick t s c r)
    unfolding call_tick safe
    call_tick-Comes nullptr e = ground arith
    call_tick-Comes mission_prep e = some-Comes c s h _ (mission_prep_tick-Fine c s r h staging)
    call_tick-Comes path_gen e =
        path_gen_tick-Comes c s r h e r.init_path r.coverage_path (λ w. (w.initial, w.coverage))
    call_tick-Comes (path_validate v) e = some-Comes c s h _ (path_validate_tick-Fine c s r h e v)
    call_tick-Comes (mav_upload n p g) e =
        some-Comes c s h _
          (mav_upload_tick-Fine c s r h (ground arith) n p g r.mav_uploaded (ground arith))
    call_tick-Comes takeoff e = takeoff_tick-Comes c s r h e
    call_tick-Comes (fly_waypoints n b l) e = fly_waypoints_tick-Comes c k r s h e n b l
    call_tick-Comes (fly_search i b l) e = fly_search_tick-Comes c k r s h e i b l s.cv_status
    call_tick-Comes cv_loiter e = cv_loiter_tick-Comes c k r s h e s.cv_status
    call_tick-Comes airdrop_prep e = airdrop_prep_tick-Comes c k r s h e
    call_tick-Comes airdrop_approach e = airdrop_approach_tick-Comes c k r s h e
    call_tick-Comes (manual_landing nullptr) e = manual_landing_tick-Comes c s r h e
    call_tick-Comes auto_landing e = some-Comes c s h _ (stay-Fine c s h)
    call_tick-Comes mission_done e = some-Comes c s h _ (stay-Fine c s h)
    call_tick-Comes active_takeoff e = active_takeoff_tick-Comes c s r h e r.takeoff_result
    call_tick-Comes (wait_for_takeoff v) e =
        some-Comes c s h _ (wait_for_takeoff_tick-Fine c s r h e v)
    call_tick-Comes refueling e = refueling_tick-Comes c s r h e
    call_tick-Comes (manual_landing t) e = ground arith

  tick_once-Ready :
      (s : MissionState Route Target) (r' : Readings Route Target Photo)
      → Ready c s
      → Succeeds c r r' (tick_once s c r r')
  unfolding tick_once
  tick_once-Ready s r' h = elim (call_tick-Comes s h s.tick h.tick_safe) [
    | inl (o, e, f) ↦
        bind-some (Succeeds c r r') (call_tick s.tick s c r) _ o e
          (enter-Ready c r r' o f.connected f.in_order o.next f.next_tick_safe)
    | inr (e, ill) ↦ inr (bind-none (call_tick s.tick s c r) _ e, λ w. ill w.0)
  ]

  get_wait-returns :
      (t : Tick Route) (cv over : Bool) → safe cv over t ≡ true → (w : ℕ) × (get_wait t ≡ some w)
  unfolding safe get_wait
  get_wait-returns nullptr cv over e = ground arith
  get_wait-returns mission_prep cv over e = (1000, refl)
  get_wait-returns path_gen cv over e = (1000, refl)
  get_wait-returns (path_validate v) cv over e = (1000, refl)
  get_wait-returns t cv over e = (100, refl)

  -- A tick comes back, in a ready state, unless a generation of a path does not end well.
  pub do_tick-Ready :
      (s : MissionState Route Target) (r' : Readings Route Target Photo)
      → Ready c s
      → ((t : MissionState Route Target) × (acts : List (Action Route Photo)) × (wait : ℕ)
          × (do_tick s c r r' ≡ some (t, acts, wait))
          × Ready c t)
        ⊎ ((do_tick s c r r' ≡ none) × ¬ (EndsWell r × EndsWell r'))
  unfolding do_tick
  do_tick-Ready s r' h = elim (tick_once-Ready s r' h) [
    | inl (t, acts, e, g) ↦
        let (w, f) = get_wait-returns t.tick (staged c t.cv) (is_over t) g.tick_safe in
        inl (
          t,
          acts,
          w,
          bind-some (λ x. x ≡ some (t, acts, w)) (tick_once s c r r') _ (t, acts) e
              (bind-some (λ x. x ≡ some (t, acts, w)) (get_wait t.tick) _ w f refl),
          g,
        )
    | inr (e, ill) ↦ inr (bind-none (tick_once s c r r') _ e, ill)
  ]
