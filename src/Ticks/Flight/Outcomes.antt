-- ===== src/Ticks/Flight/Outcomes.antt =====
-- The ticks of the flight, from a ready state.
use obcpp.Base.{
  ℕ, zero, suc, ◌+◌, ◌-◌, not, leb, length, List, [], ◌∷◌, ◌++◌, Option, none, some, Bool, true,
  false, ◌&&◌, ◌≡◌, refl, sym, ◌∙◌, subst, ap, arith, ◌⊎◌, inl, inr, ◌==◌, if_both, if_cases,
  if_false, if_true, if◌then◌else◌,
}
use obcpp.Base.Int.{pos, ltb_ℤ}
use obcpp.Ticks.Tick.{
  Tick, nullptr, mav_upload, fly_waypoints, fly_search, airdrop_prep, manual_landing,
}
use obcpp.Ticks.State.{
  MissionState, Config, Readings, Outcome, Action, CvStatus, contains, num_airdrops,
}
use obcpp.Ticks.Ready.{
  Ready, Fine, Comes, Configured, InOrder, none_dropped, water_dropped, all_dropped, is_some, safe,
  after_upload, EndsWell, staged, is_over, next_safe, stay-Fine, go-Fine, with_mav-Comes,
  some-Comes,
}
use obcpp.Ticks.Ground.{new_fly_search}
use obcpp.Ticks.Flight.{
  ◌>>=◌, wait_for_path, with_photo_time, first_undropped, target_at, take_picture, take_pictures,
  lap_done, with_actions, fly_waypoints_tick, fly_search_tick, cv_loiter_tick, airdrop_prep_tick,
  airdrop_approach_tick,
}

abbrev Returns : {A : Type 0} → Option A → Type 0
Returns {A} x = (a : A) × (x ≡ some a)

bind-holds :
    {A B : Type 0} (P : Option B → Type 0) (x : Option A) (f : A → Option B)
    → Returns x
    → ((a : A) → P (f a))
    → P (x >>= f)
bind-holds P (some b) f h g = g b
bind-holds P none f h g = ground arith

pub bind-some :
    {A B : Type 0} (P : Option B → Type 0) (x : Option A) (f : A → Option B) (a : A)
    → x ≡ some a
    → P (f a)
    → P (x >>= f)
bind-some P x f a e h = subst (λ y. P (y >>= f)) (sym e) h

pub bind-none : {A B : Type 0} (x : Option A) (f : A → Option B) → x ≡ none → (x >>= f) ≡ none
bind-none x f e = rw e refl

aggregator :
    {Target : Type 0} (c : Config) (cv : Option (List (ℕ × Target)))
    → staged c cv ≡ true
    → Returns cv
unfolding staged
aggregator c none e = ground arith
aggregator c (some table) e = (table, refl)

module _ (c : Config) (k : Configured c) where
  abbrev pub upcoming : List ℕ → ℕ
  upcoming dropped = first_undropped dropped c.water c.water (c.beacon + 1 - c.water)

  upcoming-steps : (dropped : List ℕ) → upcoming dropped ≡ first_undropped dropped c.water c.water 2
  upcoming-steps dropped =
      ap (first_undropped dropped c.water c.water) (ground (arith, k.next_to_water))

  -- The airdrop that is dropped next.
  upcoming-water : upcoming [] ≡ c.water
  unfolding first_undropped
  upcoming-water = upcoming-steps []

  upcoming-beacon : upcoming (c.water ∷ []) ≡ c.beacon
  unfolding first_undropped
  upcoming-beacon = upcoming-steps (c.water ∷ []) ∙ ground (arith, k.next_to_water)

  pub upcoming-fresh :
      (dropped : List ℕ)
      → InOrder c dropped
      → leb num_airdrops (length dropped) ≡ false
      → (contains (upcoming dropped) dropped ≡ false)
        × InOrder c (dropped ++ upcoming dropped ∷ [])
        × ((upcoming dropped ≡ c.water) ⊎ (upcoming dropped ≡ c.beacon))
  upcoming-fresh _ none_dropped e =
      (refl, subst (λ a. InOrder c (a ∷ [])) (sym upcoming-water) water_dropped, inl upcoming-water)
  upcoming-fresh _ water_dropped e = (
    ground (arith, upcoming-beacon, k.next_to_water),
    subst (λ a. InOrder c (c.water ∷ a ∷ [])) (sym upcoming-beacon) all_dropped,
    inr upcoming-beacon,
  )
  upcoming-fresh _ all_dropped e = ground arith

  is_some-Returns : {A : Type 0} (x : Option A) → is_some x ≡ true → Returns x
  is_some-Returns none e = ground arith
  is_some-Returns (some a) e = (a, refl)

  pub target_at-Returns :
      {Target : Type 0} (a : ℕ) (table : List (ℕ × Target))
      → staged c (some table) ≡ true
      → (a ≡ c.water) ⊎ (a ≡ c.beacon)
      → Returns (target_at a table)
  unfolding staged
  target_at-Returns a table e (inl p) = is_some-Returns (target_at a table) (ground arith)
  target_at-Returns a table e (inr p) = is_some-Returns (target_at a table) (ground arith)

module _ {Route Target Photo : Type 0} (c : Config) (k : Configured c) where
  module _ (s : MissionState Route Target) (cv : staged c s.cv ≡ true) where
    take_picture-Returns : (photo : Option Photo) → Returns (take_picture s c photo)
    unfolding take_picture
    take_picture-Returns none = ([], ground (arith, k.saves_nothing))
    take_picture-Returns (some p) =
        bind-holds Returns s.cv _ (aggregator c s.cv cv) (λ _. (_, refl))

    take_pictures-Returns :
        (photo : ℕ → Option Photo) (i n : ℕ) → Returns (take_pictures s c photo i n)
    unfolding take_pictures
    take_pictures-Returns photo i zero = ([], refl)
    take_pictures-Returns photo i (suc n) =
        bind-holds Returns (take_picture s c (photo i)) _ (take_picture-Returns (photo i)) (λ _.
          bind-holds Returns (take_pictures s c photo (i + 1) n) _
            (take_pictures-Returns photo (i + 1) n) (λ _. (_, refl)))

  module _ (r : Readings Route Target Photo) where
    -- What is made of the path of a generation.
    made-Comes :
        (path : Option Route) (f : Route → Outcome Route Target Photo)
        → (EndsWell r → is_some path ≡ true)
        → ((p : Route) → Fine c (f p))
        → Comes c r (path >>= λ p. some (f p))
    made-Comes none f h k = inr (refl, λ w. ground (arith, h w))
    made-Comes (some p) f h k = inl (f p, refl, k p)

    taken-Comes :
        (path : Option Route) (f : Route → Outcome Route Target Photo)
        → (EndsWell r → is_some path ≡ true)
        → ((p : Route) → Fine c (f p))
        → Comes c r (elim path [ none ↦ none | some p ↦ some (f p) ])
    taken-Comes none f h k = inr (refl, λ w. ground (arith, h w))
    taken-Comes (some p) f h k = inl (f p, refl, k p)

    lap_done-Comes :
        (s : MissionState Route Target)
        → Ready c s
        → staged c s.cv ≡ true
        → Comes c r (lap_done s r)
    unfolding lap_done next_safe safe after_upload
    lap_done-Comes s h cv =
        if_both (Comes c r) (ltb_ℤ (pos 0) s.laps_remaining)
          (if_cases (Comes c r) r.generation_aborts _ _
            (λ aborts. inr (refl, λ w. ground (arith, aborts, w.goes_on)))
            (λ goes_on.
              if_both (Comes c r) (wait_for_path r.path_ready 0 25 == 0)
                (some-Comes c s h _ (stay-Fine c s h))
                (taken-Comes r.new_path _ (λ w. w.renewed)
                  (λ p. record {
                    connected = h.connected;
                    in_order = h.in_order;
                    next_tick_safe = ground arith;
                  }))))
          (some-Comes c s h _
            (go-Fine c s h (mav_upload new_fly_search s.coverage_path false) (ground arith)))

    with_actions-Comes :
        (acts : List (Action Route Photo)) (x : Option (Outcome Route Target Photo))
        → Comes c r x
        → Comes c r (with_actions acts x)
    with_actions-Comes acts none h = h
    with_actions-Comes acts (some o) (inl (o', e, f)) = inl (
      _,
      refl,
      record {
        connected = (same e f).connected;
        in_order = (same e f).in_order;
        next_tick_safe = (same e f).next_tick_safe;
      },
    )
      where
        same : {o' : Outcome Route Target Photo} → some o ≡ some o' → Fine c o' → Fine c o
        same e f = subst (Fine c) (ap (λ x. elim x [ none ↦ o | some y ↦ y ]) (sym e)) f
    with_actions-Comes acts (some o) (inr (e, w)) = ground arith

    with_photo_time-safe :
        (next : Tick Route) (started : Bool) (last t : ℕ) (photo : Option Photo) (cv over : Bool)
        → safe cv over (with_photo_time (fly_waypoints next started last) photo t) ≡ cv
    unfolding safe with_photo_time
    with_photo_time-safe next started last t none cv over = refl
    with_photo_time-safe next started last t (some p) cv over = refl

    module _ (s : MissionState Route Target) (h : Ready c s) (cv : staged c s.cv ≡ true) where
      moved-Fine :
          (t : Tick Route) {acts : List (Action Route Photo)}
          → safe (staged c s.cv) (is_over s) t ≡ true
          → Fine c (record { state = record s { tick = t }; next = nullptr; actions = acts })
      unfolding next_safe
      moved-Fine t e = record { connected = h.connected; in_order = h.in_order; next_tick_safe = e }

      pub fly_waypoints_tick-Comes :
          (next : Tick Route) (started : Bool) (last : ℕ)
          → Comes c r (fly_waypoints_tick s c r next started last)
      unfolding fly_waypoints_tick
      fly_waypoints_tick-Comes next started last =
          let t = with_photo_time (fly_waypoints next started last) (r.photo 0) r.photo_time in
          let e =
            with_photo_time-safe next started last r.photo_time (r.photo 0) (staged c s.cv)
              (is_over s) in
          if_false (Comes c r) (not s.mav) _ _ (ground (arith, h.connected)) (
            if_both (Comes c r) (r.has_converter && (r.in_zone && leb 300 (r.now - last)))
              (bind-holds (Comes c r) (take_picture s c (r.photo 0)) _
                (take_picture-Returns s cv (r.photo 0))
                (λ acts.
                  if_both (Comes c r) r.is_mission_finished
                    (with_actions-Comes acts (lap_done (record s { tick = t }) r) (
                      lap_done-Comes (record s { tick = t })
                        (record {
                          connected = h.connected;
                          in_order = h.in_order;
                          tick_safe = e ∙ cv;
                        })
                        cv))
                    (some-Comes c s h _ (moved-Fine t (e ∙ cv)))))
              (if_both (Comes c r) r.is_mission_finished (lap_done-Comes s h cv)
                (some-Comes c s h _ (stay-Fine c s h))))

      -- The part of the search that waits for the vision results, as the tick has it for two statuses.
      searching-Comes :
          (item : ℕ) (started : Bool) (last : ℕ)
          → Comes c r (fly_search_tick s c r item started last CvStatus.none)
      unfolding fly_search_tick next_safe safe
      searching-Comes item started last =
          if_false (Comes c r) (not s.mav) _ _ (ground (arith, h.connected)) (
            if_both (Comes c r) (not started)
              (some-Comes c s h _ (moved-Fine (fly_search item r.start_mission last) cv))
              (if_both (Comes c r) r.is_mission_finished (some-Comes c s h _ (go-Fine c s h _ cv)) (
                if_both (Comes c r) (item == r.curr_waypoint) (some-Comes c s h _ (stay-Fine c s h))
                  (bind-holds (Comes c r) (take_pictures s c r.photo 0 c.pictures_per_stop) _
                    (take_pictures-Returns s cv r.photo 0 c.pictures_per_stop)
                    (λ _.
                      some-Comes c s h _ (moved-Fine (fly_search r.curr_waypoint started _) cv))))))

      pub fly_search_tick-Comes :
          (item : ℕ) (started : Bool) (last : ℕ) (v : CvStatus)
          → Comes c r (fly_search_tick s c r item started last v)
      unfolding fly_search_tick next_safe safe
      fly_search_tick-Comes item started last CvStatus.validated =
          some-Comes c s h _
            (record { connected = h.connected; in_order = h.in_order; next_tick_safe = cv })
      fly_search_tick-Comes item started last CvStatus.rejected = searching-Comes item started last
      fly_search_tick-Comes item started last CvStatus.none = searching-Comes item started last

      pub cv_loiter_tick-Comes : (v : CvStatus) → Comes c r (cv_loiter_tick {Photo = Photo} s v)
      unfolding cv_loiter_tick next_safe safe
      cv_loiter_tick-Comes CvStatus.validated =
          bind-holds (Comes c r) s.cv _ (aggregator c s.cv cv)
            (λ _. some-Comes c s h _ (go-Fine c s h _ cv))
      cv_loiter_tick-Comes CvStatus.rejected = some-Comes c s h _ (go-Fine c s h _ cv)
      cv_loiter_tick-Comes CvStatus.none = some-Comes c s h _ (stay-Fine c s h)

      pub airdrop_prep_tick-Comes : Comes c r (airdrop_prep_tick s c r)
      unfolding airdrop_prep_tick next_safe safe after_upload
      airdrop_prep_tick-Comes =
          if_cases (Comes c r) (leb num_airdrops (length s.dropped_airdrops)) _ _
            (λ e. some-Comes c s h _ (go-Fine c s h (manual_landing nullptr) e))
            (λ e.
              let (table, t) = aggregator c s.cv cv in
              let (new, order, which) = upcoming-fresh c k s.dropped_airdrops h.in_order e in
              let (target, found) =
                target_at-Returns c k (upcoming c k s.dropped_airdrops) table
                  (subst (λ x. staged c x ≡ true) t cv) which in
              bind-some (Comes c r) s.cv _ table t (
                bind-some (Comes c r) (target_at (upcoming c k s.dropped_airdrops) table) _ target
                  found
                  (made-Comes (if s.mav then r.approach target else none) _
                    (λ w.
                      if_true (λ (x : Option Route). is_some x ≡ true) s.mav (r.approach target)
                        none h.connected (w.approached target))
                    (λ p. record {
                      connected = h.connected;
                      in_order = if_false (InOrder c) _ _ _ new order;
                      next_tick_safe = ground arith;
                    }))))

      pub airdrop_approach_tick-Comes : Comes c r (airdrop_approach_tick s r)
      unfolding airdrop_approach_tick next_safe safe
      airdrop_approach_tick-Comes = with_mav-Comes c s h _ (record {
        connected = h.connected;
        in_order = h.in_order;
        next_tick_safe =
            if_both (λ t. next_safe c s t ≡ true) r.is_mission_finished
              (if_cases (λ t. next_safe c s t ≡ true) (leb num_airdrops (length s.dropped_airdrops))
                (manual_landing nullptr) airdrop_prep (λ e. e) (λ _. cv))
              h.tick_safe;
      })
