-- ===== src/Executor/Guard.antt =====
-- internal/executor/path_guard.go: ResolveVaultPath, which gives the full path of a note.
use open_whisker.Prelude.{
  Bool, false, ◌||◌, ◌&&◌, not, Option, none, some, List, [], ◌∷◌, ◌++◌, Result, ok, err, require,
  refuse, if◌then◌else◌,
}
use open_whisker.Prelude.Text.{Str, codes, eqb, has_prefix, split}
use open_whisker.VaultPath.{slash, is_abs, clean}
use open_whisker.Exec.{pure, raise, ◌>>=◌, ◌>>◌}
use open_whisker.Executor.Errors.{ExecutorError, other_error, prefixed}
use open_whisker.Executor.Disk.{Os, Act, tick, returned}
use open_whisker.Executor.Target.{error, guard_target}

-- filepath.Join(root, target)
unfoldable pub join_path : Str → Str → Str
join_path root target = clean (root ++ slash ∷ target)

-- the paths that end behind one of the parts, the longest first
unfoldable pub above : Str → List Str → List Str
above prefix [] = []
above prefix (part ∷ parts) = let here = prefix ++ slash ∷ part in above here parts ++ here ∷ []

abbrev without_first : List Str → List Str
without_first [] = []
without_first (p ∷ ps) = ps

-- What `filepath.Dir` gives for a clean absolute path, and for what it gave, up to the root.
unfoldable pub parents : Str → List Str
parents path = without_first (above [] (without_first (split slash path)) ++ codes "/" ∷ [])

-- an error of `eval_symlinks` as a text
abbrev pub eval_text : Str → Option Str → Str
eval_text missing none = missing
eval_text missing (some text) = text

module _ (os : Os) where
  -- isWithin
  unfoldable pub is_within : Str → Str → Bool
  is_within root path = within (os.rel root path)
    where
      within : Option Str → Bool
      within none = false
      within (some rel) =
          eqb rel (codes ".") || not (has_prefix rel (codes "..")) && not (is_abs rel)

  abbrev evaluated_or : Str → Result (Option Str) Str → Str
  evaluated_or path (ok evaluated) = evaluated
  evaluated_or path (err e) = path

  -- firstExistingParent, on the path and the directories above it
  unfoldable pub first_existing_parent : List Str → Str → Act Str
  first_existing_parent [] fallback = pure fallback
  first_existing_parent (path ∷ paths) fallback =
      let next = first_existing_parent paths fallback in
      let evaluated = do k ← tick; pure (evaluated_or path (os.eval_symlinks k path))
      in tick >>= λ n. if os.is_dir n path then evaluated else next

  -- the parent directory with its links resolved, or the nearest one that exists
  unfoldable pub resolved_parent : Str → List Str → Result (Option Str) Str → Act Str
  resolved_parent root_eval parents (ok evaluated) = pure evaluated
  resolved_parent root_eval parents (err none) = first_existing_parent parents root_eval
  resolved_parent root_eval parents (err (some text)) =
      raise (prefixed (codes "resolve target parent: ") (other_error text))

  abbrev escapes : Str → Result (Option Str) Str → Bool
  escapes root_eval (ok existing) = not (is_within root_eval existing)
  escapes root_eval (err e) = false

  abbrev parent_of : List Str → Str
  parent_of [] = codes "/"
  parent_of (p ∷ ps) = p

  -- the guards on where the links of a full path lead
  unfoldable pub guard_links : Str → Str → Act Unit
  guard_links root_eval candidate = do
    n ← tick
    parent ←
        resolved_parent root_eval (parents candidate)
          (os.eval_symlinks n (parent_of (parents candidate)))
    returned (λ e. e)
        (require (is_within root_eval parent) (error "target parent escapes vault root"))
    k ← tick
    returned (λ e. e)
        (refuse (escapes root_eval (os.eval_symlinks k candidate))
          (error "target path escapes vault root"))

  abbrev root_error : Option Str → ExecutorError
  root_error e = prefixed (codes "resolve vault root: ") (other_error (eval_text os.missing_text e))

  -- ResolveVaultPath
  unfoldable pub resolve_vault_path : Str → Act Str
  resolve_vault_path target = do
    returned (λ e. e) (guard_target os.vault_root target)
    root ← returned other_error (os.abs os.vault_root)
    n ← tick
    root_eval ← returned root_error (os.eval_symlinks n root)
    let candidate = join_path root_eval target
    guard_links root_eval candidate
    pure candidate
