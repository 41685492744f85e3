-- ===== src/Cv.antt =====
-- The computer vision side: src/cv.
pub mod Aggregator
pub mod Records
pub mod Mapping
