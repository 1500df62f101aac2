-- ===== src/PlanService.antt =====
-- internal/core/plans.go: what becomes of a plan. This file has the service's fields, its errors and
-- the actions that its operations share; Prepare, Approve and Reject have the operations. The
-- executor and the sync client are fields that change the vault; `clock` and `fresh_id` are the time
-- and `NewID("out")` at each call, `check_text` and `store_text` the messages of the errors,
-- `status_text` the constant of a status.
pub mod Frame
pub mod Resolve
pub mod Approve
pub mod Prepare
pub mod Reject
use open_whisker.Prelude.{
  ℕ, suc, Bool, true, false, ◌||◌, not, Option, none, some, List, [], ◌∷◌, ◌++◌, Result, ok, err,
  Check, if◌then◌else◌,
}
use open_whisker.Prelude.Text.{Str, codes, is_empty, trim_space}
use open_whisker.Model.{
  Time, Json, Risk, VaultPlan, PlanStatus, awaiting_approval, JobStatus, job_failed, OutboxKind,
  error_kind, pending, SyncMode, sync_on, SyncPhase, SyncResult, AppliedOperation, VaultApplyResult,
}
use open_whisker.Policy.Conventions.{Conventions}
use open_whisker.Policy.Errors.{CheckError}
use open_whisker.Exec.{Exec, pure, raise, ◌>>=◌, ◌>>◌, ignore, when, lift, attempt}
use open_whisker.Executor.Errors.{ExecutorError, message}
use open_whisker.Storage.{
  World, StoreError, no_rows, get_plan, get_plan_by_job_id, update_job_status, add_outbox_message,
}

pub record Env (V : Type 0) : Type 0 where
  pub clock : ℕ → Time
  pub fresh_id : ℕ → Str
  pub check_text : CheckError → Str
  pub store_text : StoreError → Str
  pub status_text : PlanStatus → Str
  pub encode_result : VaultApplyResult → Str
  pub unicode : Str → Str
  pub json : Json
  pub conventions : Conventions
  pub sync_mode : SyncMode
  pub suppress_outbox : Bool
  pub prepare : VaultPlan → V → Result ExecutorError VaultPlan
  pub apply : VaultPlan → V → Result ExecutorError VaultApplyResult × V
  pub apply_as_proposal : VaultPlan → Conventions → V → Result ExecutorError AppliedOperation × V
  pub sync : SyncPhase → V → (SyncResult × Option Str) × V

pub data PlanError : Type 0 where
  store_error : StoreError → PlanError
  missing_identifier : PlanError
  not_awaiting : Str → PlanStatus → PlanError
  refused : CheckError → PlanError
  executor_error : ExecutorError → PlanError
  sync_error : Str → PlanError

-- PlanActionResult
pub record PlanActionResult : Type 0 where
  pub job_id : Str
  pub plan_id : Str
  pub status : PlanStatus
  pub sync_before : Option SyncResult
  pub sync_after : Option SyncResult
  pub messages : List Str

abbrev pub is_awaiting : PlanStatus → Bool
is_awaiting awaiting_approval = true
is_awaiting _ = false

abbrev pub is_sync_on : SyncMode → Bool
is_sync_on sync_on = true
is_sync_on _ = false

abbrev pub Act : Type 0 → Type 0 → Type 0
Act V A = Exec (World V) PlanError A

-- a call of the store
unfoldable pub stored : {V A : Type 0} → Exec (World V) StoreError A → Act V A
stored m = lift store_error m

-- a call of the checker
abbrev pub checked : {V : Type 0} → Check CheckError → Act V Unit
checked (ok tt) = pure tt
checked (err e) = raise (refused e)

unfoldable pub or_by_job : {V : Type 0} → Str → Result StoreError VaultPlan → Act V VaultPlan
or_by_job identifier (ok plan) = pure plan
or_by_job identifier (err no_rows) = stored (get_plan_by_job_id identifier)
or_by_job identifier (err e) = raise (store_error e)

-- resolvePlan
unfoldable pub resolve_plan : {V : Type 0} → Str → Act V VaultPlan
resolve_plan identifier =
    let id = trim_space identifier in
    if is_empty id then raise missing_identifier else (attempt (get_plan id) >>= or_by_job id)

module _ {V : Type 0} (env : Env V) where
  unfoldable pub now : Act V Time
  now w = (ok (env.clock w.ticks), record w { ticks = suc w.ticks })

  unfoldable pub new_id : Act V Str
  new_id w = (ok (env.fresh_id w.ticks), record w { ticks = suc w.ticks })

  unfoldable pub set_job_status : Str → JobStatus → Str → Str → Act V Unit
  set_job_status job_id status result_json err_text = do
    t ← now
    stored (update_job_status t job_id status result_json err_text)

  unfoldable pub add_message : Str → OutboxKind → Str → Act V Unit
  add_message job_id kind body = do
    id ← new_id
    t ← now
    stored (
        add_outbox_message (record {
          id = id;
          job_id = job_id;
          actor = [];
          kind = kind;
          body = body;
          status = pending;
          created_at = t;
        }))

  -- `if !s.suppressOutbox { … }`
  unfoldable pub notify : Str → OutboxKind → Str → Act V Unit
  notify job_id kind body = when (not env.suppress_outbox) (add_message job_id kind body)

  unfoldable pub error_text : PlanError → Str
  error_text (store_error e) = env.store_text e
  error_text missing_identifier = codes "plan id or job id is required"
  error_text (not_awaiting id status) =
      codes "plan "
      ++ id
      ++ codes " status is \""
      ++ env.status_text status
      ++ codes "\", want awaiting_approval"
  error_text (refused e) = env.check_text e
  error_text (executor_error e) = message e
  error_text (sync_error text) = text

  -- failPlanJob, failJobWithError: the message is written even when the outbox is suppressed
  unfoldable pub fail_plan_job : Str → PlanError → Act V Unit
  fail_plan_job job_id e = do
    ignore (add_message job_id error_kind (error_text e))
    set_job_status job_id job_failed [] (error_text e)

  -- what stops an operation on a plan that does not await approval
  unfoldable pub require_awaiting : VaultPlan → Act V Unit
  require_awaiting plan =
      when (not (is_awaiting plan.status)) (raise (not_awaiting plan.id plan.status))
