-- ===== src/Pathing.antt =====
-- Path planning: src/pathing.
pub mod MissionPath
pub mod Environment
pub mod RrtStore
pub mod Rrt
pub mod GoalLists
pub mod ForwardCoverage
pub mod Plans
pub mod Polygons
pub mod HoverCoverage
pub mod DropLocation
