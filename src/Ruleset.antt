-- ===== src/Ruleset.antt =====
-- internal/service/ruleset: the mirror of rule-provider files and the probe of one.
pub mod Mirror
pub mod Check
pub mod Checked
pub mod Sources
pub mod Served
