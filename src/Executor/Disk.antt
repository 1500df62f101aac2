-- ===== src/Executor/Disk.antt =====
-- What the executor of internal/executor/direct_fs.go works on: the files of the vault, and the tables
-- of locks and of operation logs. Only the executor changes the files here. The temporary files of a
-- write have hidden names in the directory of their target and are left out, and so are directories,
-- but for one that stands at the path of a note. Two texts of a path are two paths: a link between
-- directories of the vault does not give a file a second one.
use open_whisker.Prelude.{
  ℕ, suc, Bool, Option, none, some, List, [], ◌∷◌, Result, ok, err, if◌then◌else◌,
}
use open_whisker.Prelude.Text.{Str, eqb}
use open_whisker.Prelude.Text.Pieces.{lookup}
use open_whisker.Model.{Time, Json, OpType, AppliedOperation}
use open_whisker.Exec.{Exec, pure, raise}
use open_whisker.Executor.Errors.{ExecutorError, other_error}

-- what a name in a directory stands for; a regular file has its inode and its content
pub data Node : Type 0 where
  regular : ℕ → Str → Node
  symlink special : Node

-- a row of vault_locks; the times are texts there
pub record Lock : Type 0 where
  pub target_path : Str
  pub plan_id : Str
  pub acquired_at : Str
  pub expires_at : Str

-- OperationStatusApplied and OperationStatusFailed
pub data OperationStatus : Type 0 where
  operation_applied operation_failed : OperationStatus

-- the outcome in a log, which may be left out
pub data OperationOutcome : Type 0 where
  no_outcome outcome_applied outcome_proposed : OperationOutcome

-- VaultOperationLog
pub record OperationLog : Type 0 where
  pub id : Str
  pub plan_id : Str
  pub job_id : Str
  pub op_type : OpType
  pub target_path : Str
  pub before_hash : Str
  pub after_hash : Str
  pub payload_json : Str
  pub result_json : Str
  pub reason : Str
  pub status : OperationStatus
  pub outcome : OperationOutcome
  pub created_at : Time
  pub applied_at : Option Time

-- `nodes` has the full paths. `faults` says of each coming call of the operating system or of the
-- database whether it fails, and with which message; after its end no call fails. A broken constraint
-- of the table of logs is such a failure.
pub record Disk : Type 0 where
  pub nodes : List (Str × Node)
  pub next_inode : ℕ
  pub locks : List Lock
  pub logs : List OperationLog
  pub faults : List (Option Str)
  pub ticks : ℕ

-- What the executor calls: `path/filepath`, `os`, the hash, the decoders and the clock. What can
-- change from call to call takes the number of the call. `eval_symlinks` is filepath.EvalSymlinks,
-- where `err none` is an error of the kind os.IsNotExist; `rel` is filepath.Rel, `is_dir` an os.Stat
-- that finds a directory. `format_time` and `format_seconds` are
-- the times with and without fractions of a second. The last four are the texts of errors and of an operation type.
pub record Os : Type 0 where
  pub vault_root : Str
  pub abs : Str → Result Str Str
  pub eval_symlinks : ℕ → Str → Result (Option Str) Str
  pub is_dir : ℕ → Str → Bool
  pub rel : Str → Str → Option Str
  pub hash : Str → Str
  pub json : Json
  pub lock_ttl : Time
  pub clock : ℕ → Time
  pub fresh_id : ℕ → Str
  pub format_time : Time → Str
  pub format_seconds : Time → Str
  pub encode_applied : AppliedOperation → Str
  pub quoted : Str → Str
  pub open_error : Str → Str
  pub missing_text : Str
  pub op_text : OpType → Str

abbrev pub Act : Type 0 → Type 0
Act A = Exec Disk ExecutorError A

abbrev pub fault_of : List (Option Str) → Option Str
fault_of [] = none
fault_of (f ∷ fs) = f

abbrev pub rest_of : List (Option Str) → List (Option Str)
rest_of [] = []
rest_of (f ∷ fs) = fs

abbrev pub failing : Option Str → Disk → Result ExecutorError (Unit {0}) × Disk
failing none d = (ok tt, d)
failing (some text) d = (err (other_error text), d)

-- one call that may fail before it has an effect
unfoldable pub call : Act Unit
call d = failing (fault_of d.faults) (record d { faults = rest_of d.faults })

-- the number of a call of the clock, the random numbers or the operating system
unfoldable pub tick : Act ℕ
tick d = (ok d.ticks, record d { ticks = suc d.ticks })

unfoldable pub node_at : Str → Act (Option Node)
node_at path d = (ok (lookup path d.nodes), d)

-- a value, or the error of a function without effects
unfoldable pub returned : {E A : Type 0} → (E → ExecutorError) → Result E A → Act A
returned f (ok a) = pure a
returned f (err e) = raise (f e)

-- the names without one of them
unfoldable pub without : Str → List (Str × Node) → List (Str × Node)
without path [] = []
without path ((k, n) ∷ m) = let rest = without path m in if eqb k path then rest else (k, n) ∷ rest
