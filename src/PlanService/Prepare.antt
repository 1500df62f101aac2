-- ===== src/PlanService/Prepare.antt =====
-- internal/core/plans.go: prepareApprovalPlan and prepareHighRiskApprovalPlan.
use open_whisker.Prelude.{some, [], ◌++◌}
use open_whisker.Prelude.Text.{Str, codes}
use open_whisker.Model.{VaultPlan, awaiting_approval, failed, job_awaiting_approval, approval_kind}
use open_whisker.Policy.Approval.{check_for_approval}
use open_whisker.Policy.HighRisk.{check_for_approval_high_risk}
use open_whisker.Exec.{Exec, pure, ◌>>=◌, ◌>>◌, ignore, on_error, lift}
use open_whisker.Storage.{World, save_plan, update_plan_prepared, mark_plan_failed}
use open_whisker.Executor.Errors.{ExecutorError}
use open_whisker.PlanService.{
  Env, Act, executor_error, stored, checked, now, set_job_status, notify, error_text, fail_plan_job,
}

module _ {V : Type 0} (env : Env V) where
  -- `if err := m; err != nil { _ = s.failPlanJob(jobID, err); return err }`
  unfoldable pub or_fail_job : {A : Type 0} → Str → Act V A → Act V A
  or_fail_job job_id m = on_error m (λ e. ignore (fail_plan_job env job_id e))

  unfoldable pub announce : Str → VaultPlan → Str → Act V VaultPlan
  announce job_id plan note = do
    set_job_status env job_id job_awaiting_approval [] []
    notify env job_id approval_kind
        (codes "Plan " ++ plan.id ++ codes " awaits approval" ++ note ++ codes ": " ++ plan.summary)
    pure plan

  -- prepareHighRiskApprovalPlan
  unfoldable pub prepare_high_risk_approval_plan : Str → VaultPlan → Act V VaultPlan
  prepare_high_risk_approval_plan job_id plan = do
    or_fail_job job_id
        (checked (check_for_approval_high_risk env.unicode env.json env.conventions plan))
    t ← now env
    let prepared = record plan { status = awaiting_approval; prepared_at = some t }
    or_fail_job job_id (stored (save_plan prepared))
    announce job_id prepared (codes " (high-risk: proposal only)")

  -- `s.executor.Prepare(ctx, plan)`
  unfoldable pub run_prepare : VaultPlan → Exec (World V) ExecutorError VaultPlan
  run_prepare plan w = (env.prepare plan w.vault, w)

  -- prepareApprovalPlan
  unfoldable pub prepare_approval_plan : Str → VaultPlan → Act V VaultPlan
  prepare_approval_plan job_id plan = do
    or_fail_job job_id (checked (check_for_approval env.unicode env.json env.conventions plan))
    or_fail_job job_id (stored (save_plan plan))
    prepared ← or_fail_job job_id (
        on_error (lift executor_error (run_prepare plan))
          (λ e. ignore (stored (mark_plan_failed plan.id failed (error_text env e)))))
    t ← now env
    let awaiting = record prepared { status = awaiting_approval; prepared_at = some t }
    or_fail_job job_id (stored (update_plan_prepared awaiting))
    announce job_id awaiting []
