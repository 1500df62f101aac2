-- ===== src/Tests/Proposals.antt =====
-- The proposal note of a rename.
use open_whisker.Prelude.{◌≡◌, refl, some, [], ok, Passes}
use open_whisker.Prelude.Text.{
  Str, codes, eqb, trim_space, is_blank, trim_of, split, has_prefix, is_empty,
}
use open_whisker.Prelude.Text.Pieces.{lookup}
use open_whisker.Model
use open_whisker.Model.{ProposalKind}
use open_whisker.Policy.Conventions.{default_conventions, normalize, default_to}
use open_whisker.VaultPath.{
  clean, validate_relative_vault_path, check_segment, has_dir_prefix, clean_relative_dir,
}
use open_whisker.Policy.Approval
use open_whisker.Policy.HighRisk
use open_whisker.Policy.HighRisk.{check_for_approval_high_risk}
use open_whisker.Policy.Proposal.{
  classify_proposal_kind, proposal_kind_from_purpose, between_last, cut_last, kind_of_text,
}
use open_whisker.Executor.Proposal.Note.{render_proposal_note}
use open_whisker.Executor.Proposal.Write.{proposal_note_path, apply_as_proposal}
use open_whisker.Executor.Proposal.Only.{Proposed, apply_as_proposal-Proposed}
use open_whisker.Executor.Proposal.Total.{render_proposal_note-total}
use open_whisker.Tests.Inputs.{same, plain_json, operation, rename, restructure}
use open_whisker.Tests.Vault.{posix, vault}

abbrev note_path : Str
note_path = codes "/v/Raw/Agent-Proposals/proposal_1.md"

apply_as_proposal-Proposed_example :
    Proposed posix same
      (λ e. [])
      rename
      note_path
      (proposal_note_path rename.id (normalize same default_conventions).agent_proposals_dir)
      (lookup note_path vault.nodes)
      (lookup note_path
        (apply_as_proposal posix same (λ e. []) rename default_conventions vault).1.nodes)
apply_as_proposal-Proposed_example =
    apply_as_proposal-Proposed posix same (λ e. []) rename note_path default_conventions vault

restructure-Passes :
    Passes (check_for_approval_high_risk same plain_json default_conventions restructure)
unfolding check_for_approval_high_risk Approval.check_plan_fields Approval.check_operation_fields
    HighRisk.check_operation HighRisk.check_type normalize default_to clean_relative_dir clean
    validate_relative_vault_path check_segment has_dir_prefix is_blank trim_of eqb split has_prefix
    is_empty
restructure-Passes = refl

restructure_kind : proposal_kind_from_purpose restructure.purpose ≡ some Model.split_kind
unfolding proposal_kind_from_purpose between_last cut_last kind_of_text trim_space eqb
restructure_kind = refl

render_proposal_note-total_example :
    (kind : ProposalKind) × (content : Str) × (classify_proposal_kind plain_json restructure
      ≡ ok kind)
    × (render_proposal_note posix restructure kind 7 ≡ ok content)
render_proposal_note-total_example =
    render_proposal_note-total posix same default_conventions restructure
      (operation Model.high Model.rename_note (codes "Knowledge/a.md") (codes "Knowledge/a.md")) 7
      restructure-Passes refl (rw restructure_kind refl)
