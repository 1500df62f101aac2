-- ===== src/PlanService/Approve/Frame.antt =====
-- What the steps behind an approval leave as it is, whatever they do to the vault.
use open_whisker.Prelude.{◌≡◌, refl, false, List, Option, none, some}
use open_whisker.Prelude.Text.{Str}
use open_whisker.Model.{
  WikiJob, VaultPlan, PlanStatus, OutboxKind, SyncResult, SyncPhase, AppliedOperation,
  VaultApplyResult,
}
use open_whisker.Exec.Keeps.{
  Keeps, Keeps-bind, Keeps-lift, Keeps-ignore, Keeps-pure, Keeps-raise, Keeps-if, Keeps-on_error,
}
use open_whisker.Storage.Frame.{On}
use open_whisker.Executor.Errors.{ExecutorError, conflict_error, other_error}
use open_whisker.PlanService.{Env, is_awaiting}
use open_whisker.PlanService.Frame.{
  Framed, Keeps-stored, Keeps-now, Keeps-notify, Keeps-set_job_status, Keeps-mark_plan_failed,
  Keeps-update_plan_status,
}
use open_whisker.PlanService.Approve.{
  run_apply, run_apply_as_proposal, run_sync, start_applying, stop_applying, finish, write_proposal,
  finish_proposal, judge_sync, sync_first, fail_apply, apply_operations, sync_last, finish_applied,
  failed_status,
}

module _ {V : Type 0} (env : Env V) (Q : List WikiJob → List VaultPlan → V → Type 0)
    (framed : Framed Q)
    (free : (js : List WikiJob) (ps : List VaultPlan) (v v' : V) → Q js ps v → Q js ps v') where
  Keeps-run_apply : (plan : VaultPlan) → Keeps (On Q) (run_apply env plan)
  unfolding run_apply
  Keeps-run_apply plan = record { at = λ w p. free w.jobs w.plans w.vault _ p }

  Keeps-run_apply_as_proposal : (plan : VaultPlan) → Keeps (On Q) (run_apply_as_proposal env plan)
  unfolding run_apply_as_proposal
  Keeps-run_apply_as_proposal plan = record { at = λ w p. free w.jobs w.plans w.vault _ p }

  Keeps-run_sync : (phase : SyncPhase) → Keeps (On Q) (run_sync env phase)
  unfolding run_sync
  Keeps-run_sync phase = record { at = λ w p. free w.jobs w.plans w.vault _ p }

  pub Keeps-start_applying : (plan : VaultPlan) → Keeps (On Q) (start_applying env plan)
  unfolding start_applying
  Keeps-start_applying plan =
      Keeps-bind _ _ (Keeps-set_job_status env Q framed _ _ _ _)
        λ u. Keeps-stored env Q _ (Keeps-update_plan_status env Q framed _ _ _ refl)

  pub Keeps-stop_applying :
      (plan : VaultPlan) (status : PlanStatus) (result text : Str) (kind : OutboxKind) (body : Str)
      → is_awaiting status ≡ false
      → Keeps (On Q) (stop_applying env plan status result text kind body)
  unfolding stop_applying
  Keeps-stop_applying plan status result text kind body h =
      Keeps-bind _ _
        (Keeps-ignore _ (Keeps-stored env Q _ (Keeps-mark_plan_failed env Q framed _ _ _ h)))
        λ u.
          Keeps-bind _ _ (Keeps-ignore _ (Keeps-set_job_status env Q framed _ _ _ _))
            λ u'. Keeps-ignore _ (Keeps-notify env Q _ _ _)

  Keeps-finish :
      (plan : VaultPlan) (status : PlanStatus) (result : VaultApplyResult) (body : Str)
      → is_awaiting status ≡ false
      → Keeps (On Q) (finish env plan status result body)
  unfolding finish
  Keeps-finish plan status result body h = Keeps-bind _ _ (Keeps-now env Q) λ t.
      Keeps-bind _ _ (Keeps-stored env Q _ (Keeps-update_plan_status env Q framed _ _ _ h)) λ u.
        Keeps-bind _ _ (Keeps-set_job_status env Q framed _ _ _ _) λ u'. Keeps-notify env Q _ _ _

  pub Keeps-write_proposal : (plan : VaultPlan) → Keeps (On Q) (write_proposal env plan)
  unfolding write_proposal
  Keeps-write_proposal plan =
      Keeps-on_error _ _ (Keeps-lift _ _ (Keeps-run_apply_as_proposal plan))
        λ e. Keeps-stop_applying plan _ _ _ _ _ refl

  pub Keeps-finish_proposal :
      (plan : VaultPlan) (operation : AppliedOperation)
      → Keeps (On Q) (finish_proposal env plan operation)
  unfolding finish_proposal
  Keeps-finish_proposal plan operation =
      Keeps-bind _ _ (Keeps-finish plan _ _ _ refl) λ u. Keeps-pure _

  Keeps-judge_sync :
      (plan : VaultPlan) (r : SyncResult × Option Str) → Keeps (On Q) (judge_sync env plan r)
  unfolding judge_sync
  Keeps-judge_sync plan (result, none) = Keeps-pure _
  Keeps-judge_sync plan (result, some text) =
      Keeps-bind _ _ (Keeps-stop_applying plan _ _ _ _ _ refl) λ u. Keeps-raise _

  pub Keeps-sync_first : (plan : VaultPlan) → Keeps (On Q) (sync_first env plan)
  unfolding sync_first
  Keeps-sync_first plan =
      Keeps-if _ _ _ (Keeps-bind _ _ (Keeps-run_sync _) (Keeps-judge_sync plan)) (Keeps-pure _)

  failed_status_settles : (e : ExecutorError) → is_awaiting (failed_status e) ≡ false
  failed_status_settles (conflict_error text) = refl
  failed_status_settles (other_error text) = refl

  Keeps-fail_apply : (plan : VaultPlan) (e : ExecutorError) → Keeps (On Q) (fail_apply env plan e)
  unfolding fail_apply
  Keeps-fail_apply plan e = record {
    at = (Keeps-stop_applying plan _ _ _ _ _ (failed_status_settles e)).at;
  }

  pub Keeps-apply_operations : (plan : VaultPlan) → Keeps (On Q) (apply_operations env plan)
  unfolding apply_operations
  Keeps-apply_operations plan =
      Keeps-lift _ _ (Keeps-on_error _ _ (Keeps-run_apply plan) (Keeps-fail_apply plan))

  pub Keeps-sync_last : Keeps (On Q) (sync_last env)
  unfolding sync_last
  Keeps-sync_last =
      Keeps-if _ _ _ (Keeps-bind _ _ (Keeps-run_sync _) λ r. Keeps-pure _) (Keeps-pure _)

  pub Keeps-finish_applied :
      (plan : VaultPlan) (before : Option SyncResult) (result : VaultApplyResult)
      (after : Option SyncResult × Str)
      → Keeps (On Q) (finish_applied env plan before result after)
  unfolding finish_applied
  Keeps-finish_applied plan before result (after, warning) =
      Keeps-bind _ _ (Keeps-finish plan _ _ _ refl) λ u. Keeps-pure _
