-- ===== src/Network.antt =====
-- The links to the payloads and to the ground station: src/network.
pub mod AirdropClient
pub mod Matches
pub mod GcsRoutes
pub mod GcsUploads
pub mod Mavlink
pub mod GcsServices
