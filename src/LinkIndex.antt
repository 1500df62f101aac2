-- ===== src/LinkIndex.antt =====
-- internal/vault/linkindex/linkindex.go: which note links to which. Links reads the links of a note,
-- Resolve finds the notes that they name, Index builds the index and updates it, Inverse has its laws.
pub mod Links
pub mod Resolve
pub mod Index
pub mod Inverse
pub mod Related
