-- ===== src/Policy/Errors.antt =====
-- The errors of internal/policy/checker.go: a constructor for each message, with the values that the
-- message shows and that tell two errors apart.
use open_whisker.Prelude.Text.{Str}
use open_whisker.Model.{Risk, OpType, PlanStatus}
use open_whisker.VaultPath.{PathError}

pub data CheckError : Type 0 where
  plan_risk : Risk → CheckError
  plan_requires_approval plan_must_require_approval no_operations : CheckError
  missing_plan_id missing_job_id missing_summary : CheckError
  missing_source_refs empty_source_ref missing_target_paths : CheckError
  plan_target_path : Str → PathError → CheckError
  plan_not_approved : PlanStatus → CheckError
  missing_operation_id : CheckError
  missing_reason missing_payload : Str → CheckError
  operation_risk : Str → Risk → CheckError
  target_path_invalid destination_invalid source_invalid : Str → PathError → CheckError
  affected_invalid from_invalid to_invalid : Str → PathError → CheckError
  target_not_listed destination_not_listed : Str → Str → CheckError
  outside : OpType → Str → Str → CheckError
  destination_outside : Str → Str → CheckError
  type_not_allowed : OpType → CheckError
  undecodable empty_content : OpType → Str → CheckError
  hash_missing hash_length hash_not_hex : OpType → Str → CheckError
  draft_without_frontmatter : Str → CheckError
  draft_key_missing draft_tag_missing : Str → Str → CheckError
  draft_processed_path : Str → PathError → CheckError
  draft_processed_outside : Str → Str → CheckError
  draft_link_missing : Str → CheckError
  note_missing note_without_destination note_without_output : Str → CheckError
  source_inside_drafts source_mismatch : Str → CheckError
  too_few_affected no_tags : Str → CheckError
  nothing_to_classify : CheckError
