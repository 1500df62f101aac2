-- ===== src/Executor.antt =====
-- internal/executor: the changes of the vault. Disk has the state and what the operating system does,
-- Locks the locks of the store on paths, Target and Guard
-- `ResolveVaultPath`, Files the atomic writes of
-- path_guard.go, Prepare and Apply the executor of direct_fs.go.
pub mod Errors
pub mod Disk
pub mod Locks
pub mod Target
pub mod Guard
pub mod Files
pub mod Log
pub mod Prepare
pub mod Proposal
pub mod Frame
pub mod Facts
pub mod Names
pub mod Steps
pub mod Writes
pub mod Written
pub mod Moved
pub mod Preflight
pub mod Applied
pub mod Confined
pub mod Exclusive
pub mod Kept
pub mod Apply
