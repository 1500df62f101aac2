-- ===== src/Policy.antt =====
-- internal/policy: which plans may be applied to the vault, and in which way.
pub mod Conventions
pub mod Errors
pub mod Payload
pub mod Hashes
pub mod Rules
pub mod LowRisk
pub mod Approval
pub mod HighRisk
pub mod Confinement
pub mod Proposal
