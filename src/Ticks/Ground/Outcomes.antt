-- ===== src/Ticks/Ground/Outcomes.antt =====
-- The ticks before the flight and after it, from a ready state.
use obcpp.Base.{
  inr, not, leb, length, Option, none, some, Bool, true, false, ◌≡◌, refl, arith, if_both, if_true,
}
use obcpp.Ticks.Tick.{
  Tick, ValidateStatus, TakeoffStatus, nullptr, mav_upload, wait_for_takeoff, fly_waypoints,
  fly_search, airdrop_approach,
}
use obcpp.Ticks.State.{MissionState, Config, Readings}
use obcpp.Ticks.Ready.{
  Ready, Fine, Comes, EndsWell, unthrown, safe, after_upload, staged, is_over, next_safe, stay-Fine,
  go-Fine, with_mav-Comes, some-Comes,
}
use obcpp.Ticks.Ground.{
  go, upload_search, mission_prep_tick, path_gen_tick, path_validate_tick, mav_upload_tick,
  wait_for_takeoff_tick, takeoff_tick, airborne, active_takeoff_tick, refueling_tick,
  manual_landing_tick,
}

module _ {Route Target Photo : Type 0} (c : Config) (s : MissionState Route Target)
    (r : Readings Route Target Photo) (h : Ready c s) where
  pub mission_prep_tick-Fine : staged c (some r.stage) ≡ true → Fine c (mission_prep_tick s r)
  unfolding mission_prep_tick next_safe safe
  mission_prep_tick-Fine e =
      if_both (Fine c) s.has_mission
        (record { connected = h.connected; in_order = h.in_order; next_tick_safe = e })
        (stay-Fine c s h)

  pub manual_landing_tick-Comes : is_over s ≡ true → Comes c r (manual_landing_tick s r nullptr)
  unfolding manual_landing_tick next_safe
  manual_landing_tick-Comes over = if_true (Comes c r) (is_over s) _ _ over (
      if_both (Comes c r) s.mapping_is_done (some-Comes c s h _ (stay-Fine c s h)) (
        some-Comes c s h _ (record {
          connected = h.connected;
          in_order = h.in_order;
          next_tick_safe = h.tick_safe;
        })))

  module _ (cv : staged c s.cv ≡ true) where
    pub path_gen_tick-Comes :
        (p q : Option (Option Route))
        → (EndsWell r → (unthrown p ≡ true) × (unthrown q ≡ true))
        → Comes c r (path_gen_tick {Photo = Photo} s p q)
    unfolding path_gen_tick next_safe safe
    path_gen_tick-Comes none q w = some-Comes c s h _ (stay-Fine c s h)
    path_gen_tick-Comes (some none) none w = some-Comes c s h _ (stay-Fine c s h)
    path_gen_tick-Comes (some (some p)) none w = some-Comes c s h _ (stay-Fine c s h)
    path_gen_tick-Comes (some none) (some q) w = inr (refl, λ v. ground (arith, (w v).0))
    path_gen_tick-Comes (some (some p)) (some none) w = inr (refl, λ v. ground (arith, (w v).1))
    path_gen_tick-Comes (some (some p)) (some (some q)) w =
        some-Comes c s h _
          (record { connected = h.connected; in_order = h.in_order; next_tick_safe = cv })

    upload-Fine :
        (t : Tick Route) (p : Route) (g : Bool)
        → after_upload t ≡ true
        → Fine {Photo = Photo} c (go s (mav_upload t p g))
    unfolding next_safe safe
    upload-Fine t p g a = go-Fine c s h (mav_upload t p g) (ground arith)

    after_upload-next_safe : (t : Tick Route) → after_upload t ≡ true → next_safe c s t ≡ true
    unfolding next_safe safe after_upload
    after_upload-next_safe (wait_for_takeoff st) a = cv
    after_upload-next_safe (fly_waypoints n b l) a = cv
    after_upload-next_safe (fly_search n b l) a = cv
    after_upload-next_safe airdrop_approach a = cv
    after_upload-next_safe t a = ground arith

    pub path_validate_tick-Fine :
        (v : ValidateStatus) → Fine c (path_validate_tick {Photo = Photo} s v)
    unfolding path_validate_tick next_safe safe after_upload
    path_validate_tick-Fine ValidateStatus.validated =
        if_both (Fine c) s.mav
          (upload-Fine (wait_for_takeoff TakeoffStatus.none) s.init_path true refl)
          (stay-Fine c s h)
    path_validate_tick-Fine ValidateStatus.rejected = go-Fine c s h _ cv
    path_validate_tick-Fine ValidateStatus.none = stay-Fine c s h

    pub mav_upload_tick-Fine :
        (t : Tick Route) (p : Route) (g : Bool) (u : Option Bool)
        → after_upload t ≡ true
        → Fine c (mav_upload_tick {Photo = Photo} s t p g u)
    unfolding mav_upload_tick
    mav_upload_tick-Fine t p g none a = stay-Fine c s h
    mav_upload_tick-Fine t p g (some false) a = upload-Fine t p g a
    mav_upload_tick-Fine t p g (some true) a = go-Fine c s h t (after_upload-next_safe _ a)

    pub wait_for_takeoff_tick-Fine :
        (v : TakeoffStatus) → Fine c (wait_for_takeoff_tick {Photo = Photo} s v)
    unfolding wait_for_takeoff_tick next_safe safe
    wait_for_takeoff_tick-Fine TakeoffStatus.manual = go-Fine c s h _ cv
    wait_for_takeoff_tick-Fine TakeoffStatus.autonomous = go-Fine c s h _ cv
    wait_for_takeoff_tick-Fine TakeoffStatus.none = stay-Fine c s h

    pub takeoff_tick-Comes : Comes c r (takeoff_tick s r)
    unfolding takeoff_tick next_safe safe
    takeoff_tick-Comes =
        with_mav-Comes c s h _
          (if_both (Fine c) r.in_mission_mode (go-Fine c s h _ cv) (stay-Fine c s h))

    airborne-Fine : Fine c (airborne s c r)
    unfolding airborne next_safe safe after_upload upload_search
    airborne-Fine = record {
      connected = h.connected;
      in_order = h.in_order;
      next_tick_safe =
          if_both (λ t. next_safe c s t ≡ true) (not r.start_mission) refl
            (if_both (λ t. next_safe c s t ≡ true) (leb c.payload_size (length s.dropped_airdrops))
              cv cv);
    }

    pub active_takeoff_tick-Comes : (t : Option Bool) → Comes c r (active_takeoff_tick s c r t)
    unfolding active_takeoff_tick next_safe safe
    active_takeoff_tick-Comes none = some-Comes c s h _ (stay-Fine c s h)
    active_takeoff_tick-Comes (some false) = some-Comes c s h _ (go-Fine c s h _ refl)
    active_takeoff_tick-Comes (some true) = with_mav-Comes c s h _ airborne-Fine

    pub refueling_tick-Comes : Comes c r (refueling_tick s r)
    unfolding refueling_tick next_safe safe after_upload
    refueling_tick-Comes = with_mav-Comes c s h _ (
        if_both (Fine c) r.is_armed
          (upload-Fine (wait_for_takeoff TakeoffStatus.none) s.init_path false refl)
          (stay-Fine c s h))
