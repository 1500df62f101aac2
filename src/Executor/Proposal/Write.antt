-- ===== src/Executor/Proposal/Write.antt =====
-- internal/executor/proposal_note.go: ApplyAsProposal.
use open_whisker.Prelude.{ltb, length, take, some, [], ◌∷◌, ◌++◌, require, refuse, if◌then◌else◌}
use open_whisker.Prelude.Text.{Str, codes, is_blank, trim_prefix, trim_right_of}
use open_whisker.Model.{Time, VaultPlan, AppliedOperation, ProposalKind, is_high, write_proposal}
use open_whisker.Policy.Conventions.{Conventions, normalize}
use open_whisker.Policy.Errors.{CheckError}
use open_whisker.Policy.Proposal.{classify_proposal_kind}
use open_whisker.Exec.{pure, attempt, ignore, ◌>>=◌, ◌>>◌}
use open_whisker.Executor.Errors.{other_error, conflict_error}
use open_whisker.Executor.Disk.{Os, Act, returned, operation_applied, outcome_proposed}
use open_whisker.Executor.Locks.{acquire_locks, release_locks}
use open_whisker.Executor.Target.{error}
use open_whisker.Executor.Guard.{resolve_vault_path}
use open_whisker.Executor.Files.{safe_create_atomic}
use open_whisker.Executor.Log.{now, new_id, append_operation_log}
use open_whisker.Executor.Apply.{require_absent}
use open_whisker.VaultPath.{is_slash}
use open_whisker.Executor.Proposal.Note.{render_proposal_note}

-- `short[:proposalShortIDLen]`
abbrev shortened : Str → Str
shortened short = if ltb 12 (length short) then take 12 short else short

-- ProposalNotePath
unfoldable pub proposal_note_path : Str → Str → Str
proposal_note_path plan_id base_dir =
    trim_right_of is_slash base_dir
    ++ codes "/proposal_"
    ++ shortened (trim_prefix plan_id (codes "plan_"))
    ++ codes ".md"

module _ (os : Os) (unicode : Str → Str) (check_text : CheckError → Str) where
  unfoldable pub proposed_of : VaultPlan → Str → Str → AppliedOperation
  proposed_of plan target content = record {
    operation_id = plan.id;
    target_path = target;
    after_hash = os.hash content;
  }

  -- recording the note that was written at a path
  unfoldable pub record_proposal : VaultPlan → Str → Str → Time → Act AppliedOperation
  record_proposal plan target content t = do
    let applied = proposed_of plan target content
    id ← new_id os
    append_operation_log (record {
      id = id;
      plan_id = plan.id;
      job_id = plan.job_id;
      op_type = write_proposal;
      target_path = target;
      before_hash = [];
      after_hash = os.hash content;
      payload_json = [];
      result_json = os.encode_applied applied;
      reason = codes "Write proposal note for high-risk plan.";
      status = operation_applied;
      outcome = outcome_proposed;
      created_at = t;
      applied_at = some t;
    })
    pure applied

  -- what is done while the path is locked
  unfoldable pub write_note : VaultPlan → ProposalKind → Str → Str → Time → Act AppliedOperation
  write_note plan kind target full t = do
    content ← returned (λ e. e) (render_proposal_note os plan kind t)
    safe_create_atomic full content
    record_proposal plan target content t

  -- the writing of the note at its path
  unfoldable pub propose_at : VaultPlan → ProposalKind → Str → Act AppliedOperation
  propose_at plan kind target = do
    full ← resolve_vault_path os target
    require_absent full (conflict_error (codes "proposal note already exists: " ++ target))
    t ← now os
    acquire_locks os (target ∷ []) plan.id t
    result ← attempt (write_note plan kind target full t)
    ignore (release_locks os plan.id)
    returned (λ e. e) result

  -- ApplyAsProposal
  unfoldable pub apply_as_proposal : VaultPlan → Conventions → Act AppliedOperation
  apply_as_proposal plan conventions = do
    returned (λ e. e)
        (require (is_high plan.risk_level) (error "apply as proposal requires risk high"))
    let base_dir = (normalize unicode conventions).agent_proposals_dir
    returned (λ e. e)
        (refuse (is_blank base_dir)
          (error "apply as proposal requires non-empty proposals directory"))
    kind ← returned (λ e. other_error (check_text e)) (classify_proposal_kind os.json plan)
    propose_at plan kind (proposal_note_path plan.id base_dir)
