-- ===== src/Executor/Steps.antt =====
-- How a note may change when an operation is applied.
use open_whisker.Prelude.{◌≡◌, ℕ, Option, none, some, ◌++◌}
use open_whisker.Prelude.Text.{Str}
use open_whisker.Model.{
  VaultOperation, MoveNotePayload, OpType, create_note, append_note, rewrite_note, move_note,
  write_agent_report,
}
use open_whisker.Executor.Disk.{Node, regular, Os}
use open_whisker.Executor.Apply.{moved_content}
use open_whisker.Executor.Facts.{IsPathOf}

-- What stands at `path` before and after an operation of a type: the same, or what the operation may
-- do there. Only a missing note is created; a note is changed or moved away only from a content with
-- the hash that the operation names; the destination of a move was missing, and has the content of
-- the note or that with the processing note behind it.
pub data Step (os : Os) (op : VaultOperation) (path : Str)
    : OpType → Option Node → Option Node → Type 0 where
  same : {t : OpType} (o : Option Node) → Step os op path t o o
  created :
      (i : ℕ) (content : Str)
      → IsPathOf os op.target_path path
      → os.json.decode_create op.payload_json ≡ some content
      → Step os op path create_note none (some (regular i content))
  reported :
      (i : ℕ) (content : Str)
      → IsPathOf os op.target_path path
      → os.json.decode_create op.payload_json ≡ some content
      → Step os op path write_agent_report none (some (regular i content))
  appended :
      (i j : ℕ) (old content : Str)
      → IsPathOf os op.target_path path
      → os.hash old ≡ op.before_hash
      → os.json.decode_append op.payload_json ≡ some content
      → Step os op path append_note (some (regular i old)) (some (regular j (old ++ content)))
  rewritten :
      (i j : ℕ) (old content : Str)
      → IsPathOf os op.target_path path
      → os.hash old ≡ op.before_hash
      → os.json.decode_create op.payload_json ≡ some content
      → Step os op path rewrite_note (some (regular i old)) (some (regular j content))
  moved_away :
      (i : ℕ) (old : Str)
      → IsPathOf os op.target_path path
      → os.hash old ≡ op.before_hash
      → Step os op path move_note (some (regular i old)) none
  moved_here :
      (i : ℕ) (old : Str) (payload : MoveNotePayload)
      → os.json.decode_move op.payload_json ≡ some payload
      → IsPathOf os payload.destination_path path
      → os.hash old ≡ op.before_hash
      → Step os op path move_note none (some (regular i old))
  noted :
      (j : ℕ) (old : Str) (payload : MoveNotePayload)
      → os.json.decode_move op.payload_json ≡ some payload
      → IsPathOf os payload.destination_path path
      → os.hash old ≡ op.before_hash
      → Step os op path move_note none
          (some (regular j (moved_content old payload.processing_note)))
