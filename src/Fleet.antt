-- ===== src/Fleet.antt =====
-- internal/service/fleet: the fleet of subscribers, assembled from what the panels returned.
pub mod Build
pub mod Hysteria
pub mod Provenance
pub mod Granted
pub mod Fetch
pub mod Outage
