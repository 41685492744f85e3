-- ===== src/Ticks/Flight/Laps.antt =====
-- The laps over the waypoints (src/ticks/fly_waypoints.cpp): the wait for the next path, the photos,
-- and what the tick's own next tick is used for.
use obcpp.Base.{none, none}
use obcpp.Ticks.Tick.{Tick}
