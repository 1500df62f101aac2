-- ===== src/Policy/LowRisk.antt =====
-- `Checker.Check` of internal/policy/checker.go: the plans that are applied without approval.
pub mod Spec
use open_whisker.Prelude.{
  List, [], ◌∷◌, Check, ok, err, ◌>>=◌, ◌>>◌, require, refuse, wrap, each, Bool, true, false,
}
use open_whisker.Prelude.Text.{Str}
use open_whisker.Model.{
  VaultPlan, VaultOperation, Json, Risk, OpType, create_note, append_note, rewrite_note,
  write_agent_report, is_low,
}
use open_whisker.VaultPath.{validate_relative_vault_path, has_dir_prefix}
use open_whisker.Policy.Conventions.{Conventions, normalize}
use open_whisker.Policy.Errors.{
  CheckError, plan_risk, plan_requires_approval, no_operations, operation_risk, target_path_invalid,
  outside, type_not_allowed,
}
use open_whisker.Policy.Payload.{validate_mutating_before_hash, decoded, require_content}

module _ {A : Type 0} where
  abbrev pub is_nil : List A → Bool
  is_nil [] = true
  is_nil (x ∷ xs) = false

module _ (json : Json) (conventions : Conventions) where
  -- the `switch op.Type` of `Check`
  unfoldable pub check_type : OpType → VaultOperation → Check CheckError
  check_type create_note op =
      require (has_dir_prefix op.target_path conventions.raw_inbox_dir)
        (outside create_note op.target_path conventions.raw_inbox_dir)
  check_type append_note op = do
    require (has_dir_prefix op.target_path conventions.raw_inbox_dir)
        (outside append_note op.target_path conventions.raw_inbox_dir)
    validate_mutating_before_hash op
    content ← decoded append_note op.id (json.decode_append op.payload_json)
    require_content append_note op.id content
  check_type rewrite_note op = do
    require (has_dir_prefix op.target_path conventions.raw_inbox_dir)
        (outside rewrite_note op.target_path conventions.raw_inbox_dir)
    validate_mutating_before_hash op
    content ← decoded rewrite_note op.id (json.decode_create op.payload_json)
    require_content rewrite_note op.id content
  check_type write_agent_report op =
      require (has_dir_prefix op.target_path conventions.agent_reports_dir)
        (outside write_agent_report op.target_path conventions.agent_reports_dir)
  check_type t op = err (type_not_allowed t)

  unfoldable pub check_operation : VaultOperation → Check CheckError
  check_operation op = do
    require (is_low op.risk_level) (operation_risk op.id op.risk_level)
    wrap (target_path_invalid op.id) (validate_relative_vault_path op.target_path)
    check_type op.op_type op

-- Checker.Check, on the conventions that the checker was made with
unfoldable pub check : (Str → Str) → Json → Conventions → VaultPlan → Check CheckError
check unicode json conventions plan = do
  require (is_low plan.risk_level) (plan_risk plan.risk_level)
  refuse plan.requires_approval plan_requires_approval
  refuse (is_nil plan.operations) no_operations
  each (check_operation json (normalize unicode conventions)) plan.operations
