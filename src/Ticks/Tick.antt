-- ===== src/Ticks/Tick.antt =====
-- The tick objects (include/ticks), their identifiers and waiting times.
use obcpp.Base.{ℕ, Bool}

-- The identifiers of include/ticks/ids.hpp.
pub data TickId : Type 0 where
  mission_prep path_gen path_validate mav_upload takeoff fly_waypoints fly_search cv_loiter : TickId
  airdrop_prep airdrop_approach manual_landing auto_landing mission_done active_takeoff : TickId
  wait_for_takeoff refueling : TickId

pub data ValidateStatus : Type 0 where
  rejected none validated : ValidateStatus

pub data TakeoffStatus : Type 0 where
  none manual autonomous : TakeoffStatus

-- A `Tick*`: the null pointer, or an object with the fields that its class keeps. `fly_waypoints`
-- has its next tick, whether its mission was started, and the time of the last photo; `fly_search`
-- the item reached last, whether its mission was started, and that time.
pub data Tick (Route : Type 0) : Type 0 where
  nullptr : Tick Route
  mission_prep path_gen takeoff active_takeoff cv_loiter airdrop_prep airdrop_approach : Tick Route
  auto_landing mission_done refueling : Tick Route
  path_validate : ValidateStatus → Tick Route
  wait_for_takeoff : TakeoffStatus → Tick Route
  mav_upload : Tick Route → Route → Bool → Tick Route
  fly_waypoints : Tick Route → Bool → ℕ → Tick Route
  fly_search : ℕ → Bool → ℕ → Tick Route
  manual_landing : Tick Route → Tick Route
