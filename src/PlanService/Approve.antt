-- ===== src/PlanService/Approve.antt =====
-- internal/core/plans.go: Approve and approveHighRiskAsProposal.
pub mod Frame
pub mod Outcome
pub mod Once
pub mod Again
use open_whisker.Prelude.{
  Bool, true, false, Option, none, some, List, [], ◌∷◌, ◌++◌, ok, err, if◌then◌else◌,
}
use open_whisker.Prelude.Text.{Str, codes, is_empty}
use open_whisker.Model.{
  VaultPlan, PlanStatus, approved, applying, applied, proposal_written, failed, conflict, is_high,
  job_applying, job_done, job_failed, result_kind, error_kind, conflict_kind, SyncResult, SyncPhase,
  before_apply, after_apply, AppliedOperation, VaultApplyResult, OutboxKind,
}
use open_whisker.Policy.Approval.{check_approved}
use open_whisker.Policy.HighRisk.{check_for_approval_high_risk}
use open_whisker.Exec.{Exec, pure, raise, ◌>>=◌, ◌>>◌, ignore, on_error, lift}
use open_whisker.Storage.{World, approve_plan, update_plan_status, mark_plan_failed}
use open_whisker.Executor.Errors.{ExecutorError, message, is_conflict}
use open_whisker.PlanService.{
  Env, Act, PlanError, executor_error, sync_error, PlanActionResult, is_sync_on, stored, checked,
  now, set_job_status, notify, error_text, resolve_plan, require_awaiting,
}

-- planAppliedMessage
abbrev plan_applied_message : Str → Str → Str
plan_applied_message id warning =
    if is_empty warning
    then codes "Plan " ++ id ++ codes " applied"
    else codes "Plan " ++ id ++ codes " applied; post-sync warning: " ++ warning

abbrev pub failed_status : ExecutorError → PlanStatus
failed_status e = if is_conflict e then conflict else failed

abbrev failed_kind : ExecutorError → OutboxKind
failed_kind e = if is_conflict e then conflict_kind else error_kind

abbrev result_messages : Str → List Str
result_messages warning =
    codes "plan approved and applied"
    ∷ (if is_empty warning then [] else (codes "post-sync warning: " ++ warning) ∷ [])

-- the warning of the sync after the apply, and the result that carries it
abbrev pub warned : SyncResult × Option Str → SyncResult × Str
warned (result, none) = (result, [])
warned (result, some text) = (record result { warning = text }, text)

module _ {V : Type 0} (env : Env V) where
  unfoldable pub run_apply : VaultPlan → Exec (World V) ExecutorError VaultApplyResult
  run_apply plan w = ((env.apply plan w.vault).0, record w { vault = (env.apply plan w.vault).1 })

  unfoldable pub run_apply_as_proposal : VaultPlan → Exec (World V) ExecutorError AppliedOperation
  run_apply_as_proposal plan w =
      let r = env.apply_as_proposal plan env.conventions w.vault in (r.0, record w { vault = r.1 })

  unfoldable pub run_sync : SyncPhase → Act V (SyncResult × Option Str)
  run_sync phase w =
      ((ok (env.sync phase w.vault).0), record w { vault = (env.sync phase w.vault).1 })

  -- the checks of the approved plan; the job is left as it is
  unfoldable pub or_fail_plan : VaultPlan → Act V Unit → Act V Unit
  or_fail_plan plan m =
      on_error m (λ e. ignore (stored (mark_plan_failed plan.id failed (error_text env e))))

  unfoldable pub start_applying : VaultPlan → Act V Unit
  start_applying plan = do
    set_job_status env plan.job_id job_applying [] []
    stored (update_plan_status plan.id applying none)

  unfoldable pub stop_applying : VaultPlan → PlanStatus → Str → Str → OutboxKind → Str → Act V Unit
  stop_applying plan status result_json text kind body = do
    ignore (stored (mark_plan_failed plan.id status text))
    ignore (set_job_status env plan.job_id job_failed result_json text)
    ignore (notify env plan.job_id kind body)

  unfoldable pub finish : VaultPlan → PlanStatus → VaultApplyResult → Str → Act V Unit
  finish plan status result body = do
    t ← now env
    stored (update_plan_status plan.id status (some t))
    set_job_status env plan.job_id job_done (env.encode_result result) []
    notify env plan.job_id result_kind body

  unfoldable pub write_proposal : VaultPlan → Act V AppliedOperation
  write_proposal plan = on_error (lift executor_error (run_apply_as_proposal plan)) λ e.
      stop_applying plan failed [] (error_text env e) error_kind
        (codes "Plan " ++ plan.id ++ codes " proposal write failed: " ++ error_text env e)

  unfoldable pub finish_proposal : VaultPlan → AppliedOperation → Act V PlanActionResult
  finish_proposal plan operation = do
    let body = codes "Plan " ++ plan.id ++ codes " wrote proposal note: " ++ operation.target_path
    finish plan proposal_written
        (record { applied_operations = operation ∷ []; sync_before = none; sync_after = none }) body
    pure (record {
      job_id = plan.job_id;
      plan_id = plan.id;
      status = proposal_written;
      sync_before = none;
      sync_after = none;
      messages = body ∷ [];
    })

  -- approveHighRiskAsProposal
  unfoldable pub approve_high_risk_as_proposal : VaultPlan → Act V PlanActionResult
  approve_high_risk_as_proposal plan = do
    or_fail_plan plan
        (checked (check_for_approval_high_risk env.unicode env.json env.conventions plan))
    start_applying plan
    operation ← write_proposal (record plan { status = applying })
    finish_proposal plan operation

  unfoldable pub judge_sync : VaultPlan → SyncResult × Option Str → Act V (Option SyncResult)
  judge_sync plan (result, none) = pure (some result)
  judge_sync plan (result, some text) = do
    stop_applying plan failed
        (env.encode_result
          (record { applied_operations = []; sync_before = some result; sync_after = none }))
        text error_kind (codes "Pre-sync failed for plan " ++ plan.id ++ codes ": " ++ text)
    raise (sync_error text)

  unfoldable pub sync_first : VaultPlan → Act V (Option SyncResult)
  sync_first plan =
      if is_sync_on env.sync_mode then run_sync before_apply >>= judge_sync plan else pure none

  unfoldable pub fail_apply : VaultPlan → ExecutorError → Exec (World V) ExecutorError Unit
  fail_apply plan e w =
      (ok tt, (stop_applying plan (failed_status e) [] (message e) (failed_kind e) (message e) w).1)

  unfoldable pub apply_operations : VaultPlan → Act V VaultApplyResult
  apply_operations plan = lift executor_error (on_error (run_apply plan) (fail_apply plan))

  unfoldable pub sync_last : Act V (Option SyncResult × Str)
  sync_last =
      if is_sync_on env.sync_mode
      then (run_sync after_apply >>= λ r. pure (some (warned r).0, (warned r).1))
      else pure (none, [])

  unfoldable pub finish_applied :
      VaultPlan
      → Option SyncResult
      → VaultApplyResult
      → Option SyncResult × Str
      → Act V PlanActionResult
  finish_applied plan before result (after, warning) = do
    finish plan applied (record result { sync_before = before; sync_after = after })
        (plan_applied_message plan.id warning)
    pure (record {
      job_id = plan.job_id;
      plan_id = plan.id;
      status = applied;
      sync_before = before;
      sync_after = after;
      messages = result_messages warning;
    })

  -- the part of `Approve` behind the test for a high risk
  unfoldable pub apply_approved : VaultPlan → Act V PlanActionResult
  apply_approved plan = do
    or_fail_plan plan (checked (check_approved env.unicode env.json env.conventions plan))
    start_applying plan
    before ← sync_first plan
    result ← apply_operations (record plan { status = applying })
    after ← sync_last
    finish_applied plan before result after

  unfoldable pub approve_awaiting : VaultPlan → Act V PlanActionResult
  approve_awaiting plan = do
    t ← now env
    stored (approve_plan plan.id t)
    let p = record plan { status = approved; approved_at = some t }
    if is_high p.risk_level then approve_high_risk_as_proposal p else apply_approved p

  -- Approve
  unfoldable pub approve : Str → Act V PlanActionResult
  approve identifier = do
    plan ← resolve_plan identifier
    require_awaiting env plan
    approve_awaiting plan
