-- ===== src/Executor/Prepare.antt =====
-- internal/executor/direct_fs.go: Prepare, which reads the notes and leaves them as they are. Unlike
-- Apply it follows a link at the note (`os.ReadFile`); `follow` is the node that a link leads to.
use open_whisker.Prelude.{
  leb, Option, none, some, List, [], ◌∷◌, ◌++◌, length, take, refuse, if◌then◌else◌,
}
use open_whisker.Prelude.Text.{Str, codes, is_empty, trim_space}
use open_whisker.Model.{
  VaultPlan, VaultOperation, VaultDiff, DiffEntry, MoveNotePayload, OpType, create_note,
  append_note, rewrite_note, move_note, write_agent_report,
}
use open_whisker.Exec.{pure, raise, ◌>>=◌, ◌>>◌}
use open_whisker.Executor.Errors.{other_error}
use open_whisker.Executor.Disk.{Node, regular, symlink, Os, Act, call, node_at, returned}
use open_whisker.Executor.Target.{error}
use open_whisker.Executor.Guard.{resolve_vault_path}
use open_whisker.Executor.Apply.{
  decoded, require_absent, target_exists, destination_exists, moved_content, newline,
}

-- preview
unfoldable pub preview : Str → Str
preview content =
    let trimmed = trim_space content in
    if leb (length trimmed) 500 then trimmed else take 500 trimmed ++ newline ++ codes "..."

abbrev link_target : Option Node → Option Str
link_target none = none
link_target (some (regular inode content)) = some content
link_target (some _) = none

module _ (os : Os) (follow : Str → Option Node) where
  unfoldable pub read_node : Str → Option Node → Act Str
  read_node path (some (regular inode content)) = call >> pure content
  read_node path (some symlink) = call >> read_link (link_target (follow path))
    where
      read_link : Option Str → Act Str
      read_link none = raise (other_error (os.open_error path))
      read_link (some content) = pure content
  read_node path _ = raise (other_error (os.open_error path))

  -- os.ReadFile
  unfoldable pub read_file : Str → Act Str
  read_file path = do call; node ← node_at path; read_node path node

  unfoldable pub entry : VaultOperation → Str → Str → Str → DiffEntry
  entry op after summary shown = record {
    operation_id = op.id;
    entry_type = op.op_type;
    target_path = op.target_path;
    before_hash = op.before_hash;
    after_hash = after;
    summary = summary;
    preview = preview shown;
  }

  abbrev hashed : VaultOperation → Str → VaultOperation
  hashed op current = record op { before_hash = os.hash current }

  -- prepareCreate
  unfoldable pub prepare_create : VaultOperation → Act (DiffEntry × VaultOperation)
  prepare_create op = do
    full ← resolve_vault_path os op.target_path
    require_absent full (target_exists op.target_path)
    content ← decoded "create_note" (os.json.decode_create op.payload_json)
    returned (λ e. e) (refuse (is_empty content) (error "create_note payload content is required"))
    pure
        (entry (record op { before_hash = [] }) (os.hash content) (codes "create note") content, op)

  -- prepareAppend
  unfoldable pub prepare_append : VaultOperation → Act (DiffEntry × VaultOperation)
  prepare_append op = do
    full ← resolve_vault_path os op.target_path
    current ← read_file full
    content ← decoded "append_note" (os.json.decode_append op.payload_json)
    returned (λ e. e) (refuse (is_empty content) (error "append_note payload content is required"))
    let next = hashed op current
    pure (entry next (os.hash (current ++ content)) (codes "append note") content, next)

  -- prepareRewrite
  unfoldable pub prepare_rewrite : VaultOperation → Act (DiffEntry × VaultOperation)
  prepare_rewrite op = do
    full ← resolve_vault_path os op.target_path
    current ← read_file full
    content ← decoded "rewrite_note" (os.json.decode_create op.payload_json)
    returned (λ e. e) (refuse (is_empty content) (error "rewrite_note payload content is required"))
    let next = hashed op current
    pure (entry next (os.hash content) (codes "rewrite note") content, next)

  abbrev move_preview : VaultOperation → MoveNotePayload → Str
  move_preview op payload =
      op.target_path
      ++ codes " -> "
      ++ payload.destination_path
      ++ newline
      ++ payload.processing_note

  -- prepareMove
  unfoldable pub prepare_move : VaultOperation → Act (DiffEntry × VaultOperation)
  prepare_move op = do
    source ← resolve_vault_path os op.target_path
    current ← read_file source
    payload ← decoded "move_note" (os.json.decode_move op.payload_json)
    dest ← resolve_vault_path os payload.destination_path
    require_absent dest (destination_exists payload.destination_path)
    let next = hashed op current
    let after = os.hash (moved_content current payload.processing_note)
    pure (
      entry next after (codes "move note to " ++ payload.destination_path)
          (move_preview op payload),
      next,
    )

  -- the `switch` of `prepareOperation`
  unfoldable pub prepare_type : VaultOperation → OpType → Act (DiffEntry × VaultOperation)
  prepare_type op create_note = prepare_create op
  prepare_type op write_agent_report = prepare_create op
  prepare_type op append_note = prepare_append op
  prepare_type op rewrite_note = prepare_rewrite op
  prepare_type op move_note = prepare_move op
  prepare_type op _ =
      raise (other_error (codes "unsupported operation type " ++ os.quoted (os.op_text op.op_type)))

  -- the loop of `Prepare`
  unfoldable pub prepare_all : List VaultOperation → Act (List DiffEntry × List VaultOperation)
  prepare_all [] = pure ([], [])
  prepare_all (op ∷ ops) = do
    prepared ← prepare_type op op.op_type
    rest ← prepare_all ops
    pure (prepared.0 ∷ rest.0, prepared.1 ∷ rest.1)

  abbrev diff_of : VaultPlan → List DiffEntry → VaultDiff
  diff_of plan entries = record { plan_id = plan.id; summary = plan.summary; entries = entries }

  -- Prepare
  unfoldable pub prepare : VaultPlan → Act VaultPlan
  prepare plan = do
    prepared ← prepare_all plan.operations
    pure (record plan { operations = prepared.1; diff = some (diff_of plan prepared.0) })
