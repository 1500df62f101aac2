-- ===== src/Executor/Files.antt =====
-- internal/executor/path_guard.go and path_guard_unix.go: reading, creating, replacing and moving a
-- file. The clean-up of temporary files and `syncParentDir` have no effect that is modelled, and their
-- errors are dropped.
use open_whisker.Prelude.{ℕ, suc, ◌==◌, Bool, ◌&&◌, Option, none, some, ◌++◌, length, ok, require}
use open_whisker.Prelude.Text.{Str, codes}
use open_whisker.Prelude.Text.Pieces.{insert}
use open_whisker.Exec.{pure, raise, modify, ignore, lift, on_error, ◌>>=◌, ◌>>◌}
use open_whisker.Executor.Errors.{ExecutorError, conflict_error, other_error, prefixed}
use open_whisker.Executor.Disk.{
  Node, regular, symlink, special, Os, Act, call, node_at, returned, without,
}

-- os.FileInfo: the inode and the size; the vault is on one device
pub record FileInfo : Type 0 where
  pub inode : ℕ
  pub size : ℕ

-- sameFile
unfoldable pub same_file : FileInfo → FileInfo → Bool
same_file a b = a.inode == b.inode && a.size == b.size

unfoldable pub put : Str → Node → Act Unit
put path node = modify (λ d. record d { nodes = insert path node d.nodes })

unfoldable pub drop : Str → Act Unit
drop path = modify (λ d. record d { nodes = without path d.nodes })

-- writeTempFile: creating, writing, changing the mode, syncing and closing; the new inode
unfoldable pub write_temp_file : Str → Act Node
write_temp_file content = do
  call
  call
  call
  call
  call
  λ d. (ok (regular d.next_inode content), record d { next_inode = suc d.next_inode })

-- `os.OpenFile` with O_NOFOLLOW, `Stat` and the test for a regular file
unfoldable pub opened : Os → Str → Option Node → Act (Str × FileInfo)
opened os path none = raise (other_error (os.open_error path))
opened os path (some symlink) = raise (other_error (os.open_error path))
opened os path (some special) =
    call >> raise (other_error (codes "refusing to read non-regular file " ++ path))
opened os path (some (regular inode content)) = do
  call
  call
  pure (content, record { inode = inode; size = length content })

-- safeReadAll
unfoldable pub safe_read_all : Os → Str → Act (Str × FileInfo)
safe_read_all os path = do call; node ← node_at path; opened os path node

-- `os.Link(…, path)`
unfoldable pub link_new : ExecutorError → Str → Node → Option Node → Act Unit
link_new exists path node (some old) = raise exists
link_new exists path node none = put path node

-- safeCreateAtomic
unfoldable pub safe_create_atomic : Str → Str → Act Unit
safe_create_atomic path content = do
  call
  temp ← write_temp_file content
  call
  old ← node_at path
  link_new (conflict_error (codes "target already exists: " ++ path)) path temp old

-- `os.Link(source, dest)`
unfoldable pub link_source : Os → Str → Str → Option Node → Act Unit
link_source os source dest none = raise (other_error (os.open_error source))
link_source os source dest (some node) = do
  old ← node_at dest
  link_new (conflict_error (codes "destination already exists: " ++ dest)) dest node old

-- `os.Remove(path)`
unfoldable pub remove : Str → Act Unit
remove path = call >> drop path

-- safeMoveAtomic
unfoldable pub safe_move_atomic : Os → Str → Str → Act Unit
safe_move_atomic os source dest = do
  call
  call
  node ← node_at source
  link_source os source dest node
  lift
      (prefixed
        (codes "safe move: link succeeded but failed to unlink source " ++ source ++ codes ": "))
      (on_error (remove source) (λ e. ignore (remove dest)))

-- the guard right before the rename
unfoldable pub guard_replace : Os → Str → FileInfo → Option Node → Act Unit
guard_replace os path guard none =
    raise (other_error (codes "pre-rename re-stat of " ++ path ++ codes ": " ++ os.open_error path))
guard_replace os path guard (some (regular inode content)) =
    returned (λ e. e)
      (require (same_file (record { inode = inode; size = length content }) guard)
        (conflict_error (codes "target " ++ path ++ codes " was modified between read and write")))
guard_replace os path guard (some _) =
    raise (conflict_error (codes "target " ++ path ++ codes " changed type since read"))

-- safeWriteReplace, writeViaTempAndRename
unfoldable pub safe_write_replace : Os → Str → Str → FileInfo → Act Unit
safe_write_replace os path content guard = do
  temp ← write_temp_file content
  lift (prefixed (codes "pre-rename re-stat of " ++ path ++ codes ": ")) call
  node ← node_at path
  guard_replace os path guard node
  call
  put path temp
