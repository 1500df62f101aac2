-- ===== src/EnrichPolicy.antt =====
-- internal/policy/enrich.go: what an enrichment may change in a raw note. Fields splits a frontmatter
-- into its fields, Additions has the rules on tags and related notes, Check the checks of a plan.
pub mod Fields
pub mod Additions
pub mod Check
pub mod FieldRules
pub mod Keys
pub mod Accepted
