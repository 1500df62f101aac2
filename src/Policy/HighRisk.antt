-- ===== src/Policy/HighRisk.antt =====
-- `Checker.CheckForApprovalHighRisk` of internal/policy/checker.go: the plans that are never applied
-- and only become a proposal note.
pub mod Spec
use open_whisker.Prelude.{
  List, [], ◌∷◌, Check, ok, err, ◌>>=◌, ◌>>◌, require, refuse, wrap, each, Bool, true, false, ◌&&◌,
  ltb, length, not,
}
use open_whisker.Prelude.Text.{Str, eqb}
use open_whisker.Model.{
  VaultPlan, VaultOperation, Json, OpType, rename_note, bulk_retag, bulk_link_rewrite, is_high,
  proposal_bulk_affects_threshold,
}
use open_whisker.VaultPath.{validate_relative_vault_path, has_dir_prefix}
use open_whisker.Policy.Conventions.{Conventions, normalize}
use open_whisker.Policy.Errors.{
  CheckError, plan_risk, operation_risk, target_path_invalid, outside, type_not_allowed,
  source_invalid, destination_invalid, source_inside_drafts, source_mismatch, too_few_affected,
  no_tags, affected_invalid, from_invalid, to_invalid,
}
use open_whisker.Policy.Payload.{decoded}
use open_whisker.Policy.LowRisk.{is_nil}
use open_whisker.Policy.Approval.{check_plan_fields, check_operation_fields}

unfoldable pub check_affected : VaultOperation → List Str → Check CheckError
check_affected op paths =
    each (λ p. wrap (affected_invalid op.id) (validate_relative_vault_path p)) paths

module _ (json : Json) (c : Conventions) where
  -- the `switch op.Type` of `CheckForApprovalHighRisk`
  unfoldable pub check_type : OpType → VaultOperation → Check CheckError
  check_type rename_note op = do
    payload ← decoded rename_note op.id (json.decode_rename op.payload_json)
    wrap (source_invalid op.id) (validate_relative_vault_path payload.source_path)
    wrap (destination_invalid op.id) (validate_relative_vault_path payload.destination_path)
    require (has_dir_prefix payload.source_path c.knowledge_dir)
        (outside rename_note payload.source_path c.knowledge_dir)
    refuse (has_dir_prefix payload.source_path c.knowledge_draft_dir)
        (source_inside_drafts payload.source_path)
    require (eqb payload.source_path op.target_path) (source_mismatch op.id)
  check_type bulk_retag op = do
    payload ← decoded bulk_retag op.id (json.decode_retag op.payload_json)
    refuse (ltb (length payload.affected_paths) proposal_bulk_affects_threshold)
        (too_few_affected op.id)
    refuse (is_nil payload.add_tags && is_nil payload.remove_tags) (no_tags op.id)
    check_affected op payload.affected_paths
  check_type bulk_link_rewrite op = do
    payload ← decoded bulk_link_rewrite op.id (json.decode_link_rewrite op.payload_json)
    wrap (from_invalid op.id) (validate_relative_vault_path payload.from_path)
    wrap (to_invalid op.id) (validate_relative_vault_path payload.to_path)
    refuse (ltb (length payload.affected_paths) proposal_bulk_affects_threshold)
        (too_few_affected op.id)
    check_affected op payload.affected_paths
  check_type t op = err (type_not_allowed t)

  unfoldable pub check_operation : VaultOperation → Check CheckError
  check_operation op = do
    check_operation_fields op
    require (is_high op.risk_level) (operation_risk op.id op.risk_level)
    wrap (target_path_invalid op.id) (validate_relative_vault_path op.target_path)
    check_type op.op_type op

-- Checker.CheckForApprovalHighRisk, on the conventions that the checker was made with
unfoldable pub check_for_approval_high_risk :
    (Str → Str) → Json → Conventions → VaultPlan → Check CheckError
check_for_approval_high_risk unicode json conventions plan = do
  require (is_high plan.risk_level) (plan_risk plan.risk_level)
  check_plan_fields plan
  each (check_operation json (normalize unicode conventions)) plan.operations
