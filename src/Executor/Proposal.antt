-- ===== src/Executor/Proposal.antt =====
-- internal/executor/proposal_note.go: the note that an approved high-risk plan leaves. Rows has the
-- rows of affected paths, Texts and Note the text, Write `ApplyAsProposal`.
pub mod Rows
pub mod Texts
pub mod Note
pub mod Write
pub mod Only
pub mod Total
