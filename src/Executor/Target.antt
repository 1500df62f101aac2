-- ===== src/Executor/Target.antt =====
-- internal/executor/path_guard.go: the guards of `ResolveVaultPath` on the text of a path.
use open_whisker.Prelude.{String, ◌||◌, not, Check, ◌>>◌, refuse, each}
use open_whisker.Prelude.Text.{Str, codes, eqb, is_empty, has_prefix, split}
use open_whisker.VaultPath.{slash, is_abs, clean}
use open_whisker.Executor.Errors.{ExecutorError, other_error}

abbrev pub error : String → ExecutorError
error text = other_error (codes text)

-- the loop over the segments
unfoldable pub guard_segment : Str → Check ExecutorError
guard_segment part = do
  refuse (eqb part (codes "..")) (error "path traversal is disabled")
  refuse (has_prefix part (codes ".")) (error "hidden path segments are disabled")

-- the guards on the text of the path
unfoldable pub guard_target : Str → Str → Check ExecutorError
guard_target vault_root target = do
  refuse (is_empty vault_root) (error "vault root is required")
  refuse (is_abs target) (error "absolute target path is disabled")
  refuse (eqb (clean target) (codes ".") || not (eqb (clean target) target))
      (error "target path must already be clean and relative")
  each guard_segment (split slash (clean target))
