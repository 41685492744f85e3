-- ===== src/Ticks.antt =====
-- The phases of a mission: src/ticks, and the part of src/core/mission_state.cpp that runs them.
pub mod Tick
pub mod State
pub mod Flight
pub mod Ground
pub mod Schedule
pub mod Ready
mod Examples
