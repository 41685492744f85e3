-- ===== src/Core.antt =====
-- The state of a mission: src/core.
pub mod MissionParameters
