-- ===== src/Executor/Apply.antt =====
-- internal/executor/direct_fs.go: Apply. The observer of applied operations and the cancelling of the
-- context are left out, and so are the texts of JSON errors.
use open_whisker.Prelude.{
  ◌&&◌, not, Option, none, some, List, [], ◌∷◌, ◌++◌, String, require, refuse, if◌then◌else◌,
}
use open_whisker.Prelude.Text.{Str, codes, eqb, is_empty, has_suffix}
use open_whisker.Model.{
  VaultPlan, VaultOperation, AppliedOperation, VaultApplyResult, OpType, create_note, append_note,
  rewrite_note, move_note, write_agent_report,
}
use open_whisker.Exec.{pure, raise, on_error, attempt, ignore, lift, ◌>>=◌, ◌>>◌}
use open_whisker.Executor.Errors.{ExecutorError, conflict_error, other_error, prefixed}
use open_whisker.Executor.Disk.{Node, Os, Act, call, node_at, returned}
use open_whisker.Executor.Locks.{acquire_locks, release_locks}
use open_whisker.Executor.Target.{error}
use open_whisker.Executor.Guard.{resolve_vault_path}
use open_whisker.Executor.Files.{
  FileInfo, safe_read_all, safe_create_atomic, safe_move_atomic, safe_write_replace,
}
use open_whisker.Executor.Log.{unique_strings, now, record_applied, log_remaining_failed}

abbrev pub newline : Str
newline = codes "\n"

-- movedContent
unfoldable pub moved_content : Str → Str → Str
moved_content current note =
    if is_empty note
    then current
    else if not (is_empty current) && not (has_suffix current newline)
    then (current ++ newline) ++ note
    else current ++ note

-- `json.Unmarshal` of a payload of the type that is named
abbrev pub decoded : {A : Type 0} → String → Option A → Act A
decoded op_type (some payload) = pure payload
decoded op_type none = raise (other_error (codes "decode " ++ codes op_type ++ codes " payload"))

abbrev pub no_node : ExecutorError → Option Node → Act Unit
no_node exists none = pure tt
no_node exists (some node) = raise exists

-- `os.Lstat`, where the file must not be there
unfoldable pub require_absent : Str → ExecutorError → Act Unit
require_absent full exists = do call; node ← node_at full; no_node exists node

abbrev pub target_exists : Str → ExecutorError
target_exists path = conflict_error (codes "target already exists: " ++ path)

abbrev pub destination_exists : Str → ExecutorError
destination_exists path = conflict_error (codes "destination already exists: " ++ path)

module _ (os : Os) where
  abbrev hash_conflict : Str → Str → Str → ExecutorError
  hash_conflict target before current = conflict_error (
      codes "hash conflict for "
      ++ target
      ++ codes ": plan "
      ++ before
      ++ codes " current "
      ++ current)

  unfoldable pub same_hash : Str → Str → Str × FileInfo → Act (Str × FileInfo)
  same_hash target before read = do
    returned (λ e. e)
        (require (eqb (os.hash read.0) before) (hash_conflict target before (os.hash read.0)))
    pure read

  -- readGuardedFile
  unfoldable pub read_guarded_file : Str → Str → Str → Act (Str × FileInfo)
  read_guarded_file full target before = do
    read ← safe_read_all os full
    same_hash target before read

  -- readGuarded
  unfoldable pub read_guarded : Str → Str → Act Str
  read_guarded target before = do
    full ← resolve_vault_path os target
    read ← read_guarded_file full target before
    pure read.0

  -- the processing note behind a moved note
  unfoldable pub add_processing_note : Str → Str → Str × FileInfo → Act Str
  add_processing_note dest note read =
      if is_empty note
      then pure read.0
      else (safe_write_replace os dest (moved_content read.0 note) read.1
          >> pure (moved_content read.0 note))

  module _ (plan : VaultPlan) (op : VaultOperation) where
    -- createNote
    unfoldable pub apply_create : Act AppliedOperation
    apply_create = do
      full ← resolve_vault_path os op.target_path
      require_absent full (target_exists op.target_path)
      content ← decoded "create_note" (os.json.decode_create op.payload_json)
      returned (λ e. e)
          (refuse (is_empty content) (error "create_note payload content is required"))
      safe_create_atomic full content
      record_applied os plan op (os.hash content)

    -- appendNote
    unfoldable pub apply_append : Act AppliedOperation
    apply_append = do
      full ← resolve_vault_path os op.target_path
      read ← read_guarded_file full op.target_path op.before_hash
      content ← decoded "append_note" (os.json.decode_append op.payload_json)
      safe_write_replace os full (read.0 ++ content) read.1
      record_applied os plan op (os.hash (read.0 ++ content))

    -- rewriteNote
    unfoldable pub apply_rewrite : Act AppliedOperation
    apply_rewrite = do
      full ← resolve_vault_path os op.target_path
      read ← read_guarded_file full op.target_path op.before_hash
      content ← decoded "rewrite_note" (os.json.decode_create op.payload_json)
      safe_write_replace os full content read.1
      record_applied os plan op (os.hash content)

    -- moveNote
    unfoldable pub apply_move : Act AppliedOperation
    apply_move = do
      source ← resolve_vault_path os op.target_path
      guarded ← read_guarded_file source op.target_path op.before_hash
      payload ← decoded "move_note" (os.json.decode_move op.payload_json)
      dest ← resolve_vault_path os payload.destination_path
      safe_move_atomic os source dest
      read ←
          lift
            (prefixed
              (codes "move_note: re-read destination " ++ payload.destination_path ++ codes ": "))
            (safe_read_all os dest)
      final ← add_processing_note dest payload.processing_note read
      record_applied os plan op (os.hash final)

    abbrev unsupported : ExecutorError
    unsupported =
        other_error (codes "unsupported operation type " ++ os.quoted (os.op_text op.op_type))

    -- the `switch` of `applyOperation`
    unfoldable pub apply_type : OpType → Act AppliedOperation
    apply_type create_note = apply_create
    apply_type write_agent_report = apply_create
    apply_type append_note = apply_append
    apply_type rewrite_note = apply_rewrite
    apply_type move_note = apply_move
    apply_type _ = raise unsupported

    -- applyOperation
    unfoldable pub apply_operation : Act AppliedOperation
    apply_operation = apply_type op.op_type

  unfoldable pub preflight_create : VaultOperation → Act Unit
  preflight_create op = do
    full ← resolve_vault_path os op.target_path
    require_absent full (target_exists op.target_path)

  unfoldable pub preflight_change : VaultOperation → Act Unit
  preflight_change op = do content ← read_guarded op.target_path op.before_hash; pure tt

  unfoldable pub preflight_move : VaultOperation → Act Unit
  preflight_move op = do
    content ← read_guarded op.target_path op.before_hash
    payload ← decoded "move_note" (os.json.decode_move op.payload_json)
    dest ← resolve_vault_path os payload.destination_path
    require_absent dest (destination_exists payload.destination_path)

  -- the `switch` of `preflightApply`
  unfoldable pub preflight_type : VaultOperation → OpType → Act Unit
  preflight_type op create_note = preflight_create op
  preflight_type op write_agent_report = preflight_create op
  preflight_type op append_note = preflight_change op
  preflight_type op rewrite_note = preflight_change op
  preflight_type op move_note = preflight_move op
  preflight_type op _ = pure tt

  -- preflightApply
  unfoldable pub preflight_apply : List VaultOperation → Act Unit
  preflight_apply [] = pure tt
  preflight_apply (op ∷ ops) = preflight_type op op.op_type >> preflight_apply ops

  -- the loop of `Apply`
  unfoldable pub apply_all : VaultPlan → List VaultOperation → Act (List AppliedOperation)
  apply_all plan [] = pure []
  apply_all plan (op ∷ ops) = do
    applied ← on_error (apply_operation plan op) (log_remaining_failed os plan (op ∷ ops))
    rest ← apply_all plan ops
    pure (applied ∷ rest)

  -- `Apply` between the taking of the locks and their release
  unfoldable pub apply_locked : VaultPlan → Act VaultApplyResult
  apply_locked plan = do
    preflight_apply plan.operations
    applied ← apply_all plan plan.operations
    pure (record { applied_operations = applied; sync_before = none; sync_after = none })

  -- Apply
  unfoldable pub apply : VaultPlan → Act VaultApplyResult
  apply plan = do
    t ← now os
    acquire_locks os (unique_strings plan.target_paths) plan.id t
    result ← attempt (apply_locked plan)
    ignore (release_locks os plan.id)
    returned (λ e. e) result
