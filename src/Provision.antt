-- ===== src/Provision.antt =====
-- internal/service/provisioning: subscribers and their clients on the panels.
pub mod Act
pub mod Targets
pub mod Keeps
pub mod Sync
pub mod Service
