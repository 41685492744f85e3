-- ===== src/Ticks/Schedule/Connection.antt =====
-- A mission that comes before the Mavlink connection (src/ticks/mission_prep.cpp, path_gen.cpp).
