-- ===== src/Tests.antt =====
-- Runs of the model on small inputs, and the theorems at inputs that meet their hypotheses.
mod Drafts
mod Stored
mod Saving
mod Mirrored
mod Probed
mod NodeForms
mod Documents
mod Provisioning
mod Fleets
mod Serving
mod Customs
