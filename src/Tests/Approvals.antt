-- ===== src/Tests/Approvals.antt =====
-- The approval of a stored plan.
use open_whisker.Prelude.{◌≡◌, refl, true, false, none, List, [], ◌∷◌, ◌++◌, ok}
use open_whisker.Prelude.Text.{
  Str, codes, is_blank, trim_of, eqb, split, has_prefix, is_empty, elem, contains, trim_suffix,
  trim_space,
}
use open_whisker.Model.{
  applied, VaultPlan, WikiJob, medium, awaiting_approval, move_note, sync_off, organize_raw,
  job_awaiting_approval,
}
use open_whisker.Policy.Conventions.{default_conventions}
use open_whisker.Storage.{
  World, get_plan, call, approve_plan, update_plan, update_job_status, update_plan_status,
  add_outbox_message, find_plan, set_plan, set_job, find_job,
}
use open_whisker.PlanService.{Env}
use open_whisker.Exec.{◌>>=◌, continue, pure, lift, attempt, on_error, handled}
use open_whisker.VaultPath.{
  clean, validate_relative_vault_path, check_segment, has_dir_prefix, clean_relative_dir,
}
use open_whisker.Policy.Conventions.{normalize, default_to}
use open_whisker.Policy.Payload.{
  validate_mutating_before_hash, all_hex, path_referenced_in_note, wikilink, any_referenced,
  validate_processing_note,
}
use open_whisker.Policy.Approval.{
  check_approved, check_for_approval, check_plan_fields, check_operation_fields, check_operation,
  check_type, check_hash, knowledge_targets,
}
use open_whisker.PlanService.{
  resolve_plan, or_by_job, stored, require_awaiting, now, set_job_status, notify, add_message,
  new_id,
}
use open_whisker.PlanService.Reject.{reject}
use open_whisker.PlanService.Reject.Outcome.{RejectsOnly, reject-RejectsOnly}
use open_whisker.PlanService.Approve.{
  approve, approve_awaiting, apply_approved, or_fail_plan, start_applying, sync_first,
  apply_operations, run_apply, sync_last, finish_applied, finish,
}
use open_whisker.PlanService.Approve.Outcome.{Settled}
use open_whisker.PlanService.Approve.Again.{approve-Settled}
use open_whisker.PlanService.Approve.Once.{ChangesOnce, approve-ChangesOnce}
use open_whisker.Tests.Inputs.{
  same, plain_json, plan, operation, knowledge_note, inbox_note, processed_note,
}

-- The vault is the list of the plans that were applied.
abbrev logging : Env (List Str)
logging = record {
  clock = λ n. n;
  fresh_id = λ n. codes "out_" ++ n ∷ [];
  check_text = λ e. codes "refused";
  store_text = λ e. codes "database is locked";
  status_text = λ s. codes "status";
  encode_result = λ r. codes "{}";
  unicode = same;
  json = plain_json;
  conventions = default_conventions;
  sync_mode = sync_off;
  suppress_outbox = false;
  prepare = λ p v. ok p;
  apply = λ p v.
      (ok (record { applied_operations = []; sync_before = none; sync_after = none }), p.id ∷ v);
  apply_as_proposal = λ p c v. (
    ok (record { operation_id = p.id; target_path = codes "proposal.md"; after_hash = [] }),
    p.id ∷ v,
  );
  sync = λ phase v. (
    (
      record {
        mode = sync_off;
        backend = [];
        phase = phase;
        is_ok = true;
        command = [];
        output = [];
        warning = [];
        error = [];
      },
      none,
    ),
    v,
  );
}

abbrev waiting : VaultPlan
waiting =
    plan medium true awaiting_approval (knowledge_note ∷ inbox_note ∷ processed_note ∷ [])
      (operation medium move_note inbox_note processed_note ∷ [])

abbrev job : WikiJob
job = record {
  id = codes "job_1";
  job_type = organize_raw;
  status = job_awaiting_approval;
  source = codes "cli";
  source_key = [];
  input_json = [];
  result_json = [];
  error = [];
  created_at = 0;
  updated_at = 0;
  attempts = 0;
}

abbrev before : World (List Str)
before = record {
  jobs = job ∷ [];
  plans = waiting ∷ [];
  outbox = [];
  faults = [];
  ticks = 0;
  vault = [];
}

approve-ChangesOnce_example :
    ChangesOnce logging (codes "plan_1") before (approve logging (codes "plan_1") before).1
approve-ChangesOnce_example = approve-ChangesOnce logging (codes "plan_1") before

-- With no fault the plan is applied.
applied_vault : (approve logging (codes "plan_1") before).1.vault ≡ codes "plan_1" ∷ []
unfolding approve resolve_plan or_by_job stored get_plan call require_awaiting approve_awaiting now
    approve_plan update_plan apply_approved or_fail_plan start_applying set_job_status
    update_job_status update_plan_status sync_first apply_operations run_apply sync_last
    finish_applied finish notify add_message new_id add_outbox_message find_plan set_plan set_job
    find_job check_approved check_for_approval check_plan_fields check_operation_fields
    check_operation check_type check_hash knowledge_targets validate_processing_note
    path_referenced_in_note wikilink any_referenced normalize default_to clean_relative_dir clean
    validate_relative_vault_path check_segment has_dir_prefix validate_mutating_before_hash all_hex
    is_blank trim_of eqb split has_prefix is_empty elem contains trim_suffix trim_space ◌>>=◌
    continue pure lift attempt on_error handled
applied_vault = refl

reject-RejectsOnly_example :
    RejectsOnly
      (codes "plan_1")
      (codes "no")
      before
      (reject logging (codes "plan_1") (codes "no") before).1
reject-RejectsOnly_example = reject-RejectsOnly logging (codes "plan_1") (codes "no") before

abbrev settled_plan : VaultPlan
settled_plan = record waiting { status = applied }

abbrev afterwards : World (List Str)
afterwards = record before { plans = settled_plan ∷ [] }

afterwards-Settled : Settled (trim_space (codes "plan_1")) afterwards.plans
unfolding trim_space find_plan eqb
afterwards-Settled = record { plan = settled_plan; found = refl; holds = refl }

approve-Settled_example : (approve logging (codes "plan_1") afterwards).1.vault ≡ []
approve-Settled_example = approve-Settled logging (codes "plan_1") afterwards afterwards-Settled
