-- ===== src/Tests.antt =====
-- Runs of the models at concrete inputs, and the theorems at inputs that meet their hypotheses.
mod Inputs
mod Paths
mod Plans
mod Schedules
mod Approvals
mod Queue
mod Enrichment
mod Vault
mod Links
mod Outbox
mod Proposals
