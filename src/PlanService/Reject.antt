-- ===== src/PlanService/Reject.antt =====
-- internal/core/plans.go: Reject.
pub mod Outcome
use open_whisker.Prelude.{none, [], ◌∷◌, ◌++◌, if◌then◌else◌}
use open_whisker.Prelude.Text.{Str, codes, is_blank}
use open_whisker.Model.{VaultPlan, rejected, job_rejected, rejected_kind}
use open_whisker.Exec.{pure, ◌>>=◌, ◌>>◌}
use open_whisker.Storage.{reject_plan}
use open_whisker.PlanService.{
  Env, Act, PlanActionResult, stored, now, set_job_status, notify, resolve_plan, require_awaiting,
}

abbrev pub reason_or_default : Str → Str
reason_or_default reason = if is_blank reason then codes "rejected by user" else reason

module _ {V : Type 0} (env : Env V) where
  unfoldable pub reject_awaiting : VaultPlan → Str → Act V PlanActionResult
  reject_awaiting plan reason = do
    t ← now env
    stored (reject_plan plan.id reason t)
    set_job_status env plan.job_id job_rejected [] reason
    notify env plan.job_id rejected_kind (codes "Plan " ++ plan.id ++ codes " rejected: " ++ reason)
    pure (record {
      job_id = plan.job_id;
      plan_id = plan.id;
      status = rejected;
      sync_before = none;
      sync_after = none;
      messages = codes "plan rejected" ∷ [];
    })

  -- Reject
  unfoldable pub reject : Str → Str → Act V PlanActionResult
  reject identifier reason = do
    plan ← resolve_plan identifier
    require_awaiting env plan
    reject_awaiting plan (reason_or_default reason)
