-- ===== src/Executor/Log.antt =====
-- internal/executor/direct_fs.go: the log of the operations, recordApplied and logRemainingFailed.
use open_whisker.Prelude.{◌||◌, none, some, List, [], ◌∷◌, ◌++◌, if◌then◌else◌}
use open_whisker.Prelude.Text.{Str, codes, is_empty, elem}
use open_whisker.Model.{Time, VaultPlan, VaultOperation, AppliedOperation}
use open_whisker.Exec.{pure, modify, ignore, ◌>>=◌, ◌>>◌}
use open_whisker.Executor.Errors.{ExecutorError, message}
use open_whisker.Executor.Disk.{
  OperationLog, OperationOutcome, no_outcome, outcome_applied, operation_applied, operation_failed,
  Os, Act, call, tick,
}

abbrev or_applied : OperationOutcome → OperationOutcome
or_applied no_outcome = outcome_applied
or_applied outcome = outcome

-- AppendOperationLog
unfoldable pub append_operation_log : OperationLog → Act Unit
append_operation_log log =
    call
    >> modify
        (λ d. record d { logs = d.logs ++ (record log { outcome = or_applied log.outcome }) ∷ [] })

-- the loop of `uniqueStrings`, with the texts that it has seen
unfoldable pub unique_from : List Str → List Str → List Str
unique_from seen [] = []
unique_from seen (v ∷ values) =
    let skip = is_empty v || elem v seen in
    let rest = unique_from (if skip then seen else v ∷ seen) values in
    if skip then rest else v ∷ rest

-- uniqueStrings
unfoldable pub unique_strings : List Str → List Str
unique_strings values = unique_from [] values

module _ (os : Os) where
  unfoldable pub now : Act Time
  now = do n ← tick; pure (os.clock n)

  unfoldable pub new_id : Act Str
  new_id = do n ← tick; pure (os.fresh_id n)

  unfoldable pub applied_of : VaultOperation → Str → AppliedOperation
  applied_of op after_hash = record {
    operation_id = op.id;
    target_path = op.target_path;
    after_hash = after_hash;
  }

  -- recordApplied
  unfoldable pub record_applied : VaultPlan → VaultOperation → Str → Act AppliedOperation
  record_applied plan op after_hash = do
    let applied = applied_of op after_hash
    t ← now
    id ← new_id
    append_operation_log (record {
      id = id;
      plan_id = plan.id;
      job_id = plan.job_id;
      op_type = op.op_type;
      target_path = op.target_path;
      before_hash = op.before_hash;
      after_hash = after_hash;
      payload_json = op.payload_json;
      result_json = os.encode_applied applied;
      reason = op.reason;
      status = operation_applied;
      outcome = no_outcome;
      created_at = t;
      applied_at = some t;
    })
    pure applied

  -- the loop of `logRemainingFailed`
  unfoldable pub log_failed : VaultPlan → Time → Str → List VaultOperation → Act Unit
  log_failed plan t text [] = pure tt
  log_failed plan t text (op ∷ ops) = do
    id ← new_id
    ignore (
        append_operation_log (record {
          id = id;
          plan_id = plan.id;
          job_id = plan.job_id;
          op_type = op.op_type;
          target_path = op.target_path;
          before_hash = op.before_hash;
          after_hash = [];
          payload_json = op.payload_json;
          result_json = codes "{\"error\":" ++ os.quoted text ++ codes "}";
          reason = op.reason;
          status = operation_failed;
          outcome = no_outcome;
          created_at = t;
          applied_at = none;
        }))
    log_failed plan t text ops

  -- logRemainingFailed
  unfoldable pub log_remaining_failed : VaultPlan → List VaultOperation → ExecutorError → Act Unit
  log_remaining_failed plan ops e = do t ← now; log_failed plan t (message e) ops
