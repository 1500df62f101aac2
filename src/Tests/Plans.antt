-- ===== src/Tests/Plans.antt =====
-- The policy checks.
use open_whisker.Prelude.{◌≡◌, refl, ok, All, Passes}
use open_whisker.Model.{ProposalKind}
use open_whisker.Policy.Proposal.{classify_proposal_kind}
use open_whisker.Policy.Proposal.Total.{classify_proposal_kind-checked}
use open_whisker.Prelude.Text.{
  split, eqb, has_prefix, trim_of, is_empty, is_blank, elem, contains, trim_suffix,
}
use open_whisker.VaultPath.{
  clean, validate_relative_vault_path, check_segment, has_dir_prefix, clean_relative_dir,
}
use open_whisker.Policy.Conventions.{default_conventions, normalize, default_to}
use open_whisker.Policy.Payload.{
  validate_mutating_before_hash, all_hex, path_referenced_in_note, wikilink, any_referenced,
  validate_processing_note,
}
use open_whisker.Policy.LowRisk
use open_whisker.Policy.LowRisk.{check}
use open_whisker.Policy.LowRisk.Spec.{IsAutoApplicable, check-IsAutoApplicable}
use open_whisker.Policy.Approval
use open_whisker.Policy.Approval.{check_approved, check_for_approval}
use open_whisker.Policy.Approval.Spec.{IsApprovable, IsApplicable}
use open_whisker.Policy.Approval.Decides.{
  check_for_approval-IsApprovable, check_approved-IsApplicable,
}
use open_whisker.Policy.HighRisk
use open_whisker.Policy.HighRisk.{check_for_approval_high_risk}
use open_whisker.Policy.HighRisk.Spec.{IsHighRiskPlan, check_for_approval_high_risk-IsHighRiskPlan}
use open_whisker.Policy.Confinement.{
  IsListed, written_paths, check_approved-written, OutsideKnowledge, check-OutsideKnowledge,
}
use open_whisker.Tests.Inputs.{same, plain_json, capture, archive, rename}

capture-Passes : Passes (check same plain_json default_conventions capture)
unfolding check LowRisk.check_operation LowRisk.check_type normalize default_to clean_relative_dir
    clean validate_relative_vault_path check_segment has_dir_prefix validate_mutating_before_hash
    all_hex is_blank trim_of eqb split has_prefix is_empty
capture-Passes = refl

check-IsAutoApplicable_example :
    IsAutoApplicable plain_json (normalize same default_conventions) capture
check-IsAutoApplicable_example =
    (check-IsAutoApplicable same plain_json default_conventions capture).0 capture-Passes

check-OutsideKnowledge_example : All (OutsideKnowledge same) capture.operations
check-OutsideKnowledge_example = check-OutsideKnowledge same plain_json capture capture-Passes

pub archive-Passes : Passes (check_approved same plain_json default_conventions archive)
unfolding check_approved check_for_approval Approval.check_plan_fields
    Approval.check_operation_fields Approval.check_operation Approval.check_type Approval.check_hash
    Approval.knowledge_targets validate_processing_note path_referenced_in_note wikilink
    any_referenced normalize default_to clean_relative_dir clean validate_relative_vault_path
    check_segment has_dir_prefix validate_mutating_before_hash all_hex is_blank trim_of eqb split
    has_prefix is_empty elem contains trim_suffix
archive-Passes = refl

check_approved-IsApplicable_example :
    IsApplicable plain_json (normalize same default_conventions) archive
check_approved-IsApplicable_example =
    (check_approved-IsApplicable same plain_json default_conventions archive).0 archive-Passes

archive_approvable : Passes (check_for_approval same plain_json default_conventions archive)
unfolding check_for_approval Approval.check_plan_fields Approval.check_operation_fields
    Approval.check_operation Approval.check_type Approval.knowledge_targets validate_processing_note
    path_referenced_in_note wikilink any_referenced normalize default_to clean_relative_dir clean
    validate_relative_vault_path check_segment has_dir_prefix is_blank trim_of eqb split has_prefix
    is_empty elem contains trim_suffix
archive_approvable = refl

check_for_approval-IsApprovable_example :
    IsApprovable plain_json (normalize same default_conventions) archive
check_for_approval-IsApprovable_example =
    (check_for_approval-IsApprovable same plain_json default_conventions archive).0
      archive_approvable

check_approved-written_example :
    All (λ op. All (IsListed archive.target_paths) (written_paths plain_json op)) archive.operations
check_approved-written_example =
    check_approved-written same plain_json default_conventions archive archive-Passes

rename-Passes : Passes (check_for_approval_high_risk same plain_json default_conventions rename)
unfolding check_for_approval_high_risk Approval.check_plan_fields Approval.check_operation_fields
    HighRisk.check_operation HighRisk.check_type normalize default_to clean_relative_dir clean
    validate_relative_vault_path check_segment has_dir_prefix is_blank trim_of eqb split has_prefix
    is_empty
rename-Passes = refl

check_for_approval_high_risk-IsHighRiskPlan_example :
    IsHighRiskPlan plain_json (normalize same default_conventions) rename
check_for_approval_high_risk-IsHighRiskPlan_example =
    (check_for_approval_high_risk-IsHighRiskPlan same plain_json default_conventions rename).0
      rename-Passes

classify_proposal_kind-checked_example :
    (k : ProposalKind) × (classify_proposal_kind plain_json rename ≡ ok k)
classify_proposal_kind-checked_example =
    classify_proposal_kind-checked same plain_json default_conventions rename rename-Passes
