-- ===== src/Ticks/Flight/Drops.antt =====
-- Which airdrop is dropped next (src/ticks/airdrop_prep.cpp).
