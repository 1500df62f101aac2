-- ===== src/Policy/Approval.antt =====
-- `Checker.CheckForApproval` and `Checker.CheckApproved` of internal/policy/checker.go: the
-- medium-risk plans that a user may approve.
pub mod Spec
pub mod Decides
use open_whisker.Prelude.{
  List, [], ◌∷◌, Check, ok, err, ◌>>=◌, ◌>>◌, require, refuse, wrap, each, Bool, true, false,
  if◌then◌else◌, ◌||◌, Result,
}
use open_whisker.Prelude.Text.{Str, is_blank, elem}
use open_whisker.Model.{
  VaultPlan, VaultOperation, Json, Risk, OpType, create_note, append_note, rewrite_note, move_note,
  is_medium, PlanStatus, approved, applying,
}
use open_whisker.VaultPath.{validate_relative_vault_path, has_dir_prefix}
use open_whisker.Policy.Conventions.{Conventions, normalize}
use open_whisker.Policy.Errors.{
  CheckError, plan_risk, plan_must_require_approval, no_operations, operation_risk,
  target_path_invalid, outside, type_not_allowed, missing_plan_id, missing_job_id, missing_summary,
  missing_source_refs, empty_source_ref, missing_target_paths, plan_target_path, plan_not_approved,
  missing_operation_id, missing_reason, missing_payload, target_not_listed, destination_not_listed,
  destination_invalid, destination_outside,
}
use open_whisker.Policy.Payload.{
  validate_mutating_before_hash, decoded, require_content, validate_knowledge_draft_payload,
  validate_processing_note,
}
use open_whisker.Policy.LowRisk.{is_nil}

-- the tests of the plan's own fields, which the two approval flows share
unfoldable pub check_plan_fields : VaultPlan → Check CheckError
check_plan_fields plan = do
  require plan.requires_approval plan_must_require_approval
  refuse (is_blank plan.id) missing_plan_id
  refuse (is_blank plan.job_id) missing_job_id
  refuse (is_blank plan.summary) missing_summary
  refuse (is_nil plan.source_refs) missing_source_refs
  each (λ ref. refuse (is_blank ref) empty_source_ref) plan.source_refs
  refuse (is_nil plan.target_paths) missing_target_paths
  each (λ path. wrap (plan_target_path path) (validate_relative_vault_path path)) plan.target_paths
  refuse (is_nil plan.operations) no_operations

-- the tests of an operation's own fields, which the two approval flows share
unfoldable pub check_operation_fields : VaultOperation → Check CheckError
check_operation_fields op = do
  refuse (is_blank op.id) missing_operation_id
  refuse (is_blank op.reason) (missing_reason op.id)
  refuse (is_blank op.payload_json) (missing_payload op.id)

-- `knowledgeTargetPaths`
unfoldable pub knowledge_targets : Conventions → List Str → List Str
knowledge_targets c [] = []
knowledge_targets c (p ∷ ps) =
    let rest = knowledge_targets c ps in if has_dir_prefix p c.knowledge_dir then p ∷ rest else rest

module _ (json : Json) (c : Conventions) (targets : List Str) where
  -- the `switch op.Type` of `CheckForApproval`
  unfoldable pub check_type : OpType → VaultOperation → Check CheckError
  check_type create_note op = do
    require (has_dir_prefix op.target_path c.knowledge_draft_dir)
        (outside create_note op.target_path c.knowledge_draft_dir)
    content ← decoded create_note op.id (json.decode_create op.payload_json)
    validate_knowledge_draft_payload op content c
  check_type append_note op = do
    require (has_dir_prefix op.target_path c.knowledge_dir)
        (outside append_note op.target_path c.knowledge_dir)
    content ← decoded append_note op.id (json.decode_append op.payload_json)
    require_content append_note op.id content
  check_type move_note op = do
    require (has_dir_prefix op.target_path c.raw_inbox_dir)
        (outside move_note op.target_path c.raw_inbox_dir)
    payload ← decoded move_note op.id (json.decode_move op.payload_json)
    wrap (destination_invalid op.id) (validate_relative_vault_path payload.destination_path)
    require (has_dir_prefix payload.destination_path c.raw_processed_dir)
        (destination_outside payload.destination_path c.raw_processed_dir)
    require (elem payload.destination_path targets)
        (destination_not_listed op.id payload.destination_path)
    validate_processing_note op payload (knowledge_targets c targets)
  check_type t op = err (type_not_allowed t)

  unfoldable pub check_operation : VaultOperation → Check CheckError
  check_operation op = do
    check_operation_fields op
    require (is_medium op.risk_level) (operation_risk op.id op.risk_level)
    wrap (target_path_invalid op.id) (validate_relative_vault_path op.target_path)
    require (elem op.target_path targets) (target_not_listed op.id op.target_path)
    check_type op.op_type op

-- Checker.CheckForApproval, on the conventions that the checker was made with
unfoldable pub check_for_approval : (Str → Str) → Json → Conventions → VaultPlan → Check CheckError
check_for_approval unicode json conventions plan = do
  require (is_medium plan.risk_level) (plan_risk plan.risk_level)
  check_plan_fields plan
  each (check_operation json (normalize unicode conventions) plan.target_paths) plan.operations

abbrev pub is_approved : PlanStatus → Bool
is_approved approved = true
is_approved applying = true
is_approved _ = false

-- the operations that change a note which is there
abbrev pub is_mutating : OpType → Bool
is_mutating append_note = true
is_mutating rewrite_note = true
is_mutating move_note = true
is_mutating _ = false

unfoldable pub check_hash : VaultOperation → Check CheckError
check_hash op = if is_mutating op.op_type then validate_mutating_before_hash op else ok tt

-- Checker.CheckApproved
unfoldable pub check_approved : (Str → Str) → Json → Conventions → VaultPlan → Check CheckError
check_approved unicode json conventions plan = do
  require (is_approved plan.status) (plan_not_approved plan.status)
  check_for_approval unicode json conventions plan
  each check_hash plan.operations
