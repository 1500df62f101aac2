-- ===== src/Executor/Errors.antt =====
-- internal/executor/errors.go: ConflictError and the executor's other errors, with their messages.
use open_whisker.Prelude.{Bool, true, false, ◌++◌}
use open_whisker.Prelude.Text.{Str}

pub data ExecutorError : Type 0 where
  conflict_error other_error : Str → ExecutorError

-- `Error` of either error
abbrev pub message : ExecutorError → Str
message (conflict_error text) = text
message (other_error text) = text

-- IsConflict
abbrev pub is_conflict : ExecutorError → Bool
is_conflict (conflict_error text) = true
is_conflict (other_error text) = false

-- `fmt.Errorf("…: %w", err)`, in which `errors.As` still finds a conflict
abbrev pub prefixed : Str → ExecutorError → ExecutorError
prefixed text (conflict_error rest) = conflict_error (text ++ rest)
prefixed text (other_error rest) = other_error (text ++ rest)
