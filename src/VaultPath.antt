-- ===== src/VaultPath.antt =====
-- Vault paths: `filepath.Clean` as Unix defines it on text, and `validateRelativeVaultPath` of
-- internal/policy/checker.go with `hasDirPrefix` and `cleanRelativeDir`.
pub mod Segments
pub mod Safe
pub mod Dirs
use open_whisker.Prelude.{
  ℕ, Bool, true, false, ◌||◌, List, [], ◌∷◌, ◌++◌, reverse, Check, Result, ok, err, ◌>>=◌, ◌>>◌,
  refuse, not, each, ◌==◌, if◌then◌else◌,
}
use open_whisker.Prelude.Text.{
  Str, codes, eqb, is_empty, has_prefix, split, join, trim_space, trim_of, trim_right_of,
}

abbrev pub slash : ℕ
slash = b'/'

abbrev pub dot : ℕ
dot = b'.'

-- filepath.IsAbs
unfoldable pub is_abs : Str → Bool
is_abs [] = false
is_abs (c ∷ s) = c == slash

-- One element of the path; the elements kept so far are on the stack, the last one first. `..`
-- drops an element, except where nothing is left to drop.
clean_up : Bool → List Str → List Str
unfolding eqb
clean_up rooted [] = if rooted then [] else codes ".." ∷ []
clean_up rooted (top ∷ rest) = if eqb top (codes "..") then codes ".." ∷ top ∷ rest else rest

clean_step : Bool → List Str → Str → List Str
unfolding clean_up is_empty eqb
clean_step rooted stack part =
    if is_empty part || eqb part (codes ".")
    then stack
    else if eqb part (codes "..")
    then clean_up rooted stack
    else part ∷ stack

clean_parts : Bool → List Str → List Str → List Str
unfolding clean_step
clean_parts rooted stack [] = stack
clean_parts rooted stack (p ∷ ps) = clean_parts rooted (clean_step rooted stack p) ps

or_dot : Str → Str
or_dot [] = codes "."
or_dot (c ∷ s) = c ∷ s

-- filepath.Clean
unfoldable pub clean : Str → Str
unfolding clean_parts or_dot is_abs split join
clean path =
    let body = join slash (reverse (clean_parts (is_abs path) [] (split slash path))) in
    if is_abs path then slash ∷ body else or_dot body

pub data PathError : Type 0 where
  empty_path absolute not_clean traversal hidden : PathError

-- one round of the loop over the segments
unfoldable pub check_segment : Str → Check PathError
unfolding eqb has_prefix
check_segment part = do
  refuse (eqb part (codes "..")) traversal
  refuse (has_prefix part (codes ".")) hidden

unfoldable pub validate_relative_vault_path : Str → Check PathError
unfolding is_empty
validate_relative_vault_path path = do
  refuse (is_empty path) empty_path
  refuse (is_abs path) absolute
  let cleaned = clean path
  refuse (eqb cleaned (codes ".") || not (eqb cleaned path)) not_clean
  each check_segment (split slash cleaned)

abbrev pub is_slash : ℕ → Bool
is_slash c = c == slash

-- cleanRelativeDir
unfoldable pub clean_relative_dir : Str → Str
clean_relative_dir path =
    let trimmed = trim_of is_slash (trim_space path) in
    if is_empty trimmed || eqb trimmed (codes ".") then trimmed else clean trimmed

-- hasDirPrefix
unfoldable pub has_dir_prefix : Str → Str → Bool
has_dir_prefix path dir =
    let d = clean_relative_dir dir in eqb path d || has_prefix path (d ++ slash ∷ [])

abbrev last_of : Str → List Str → Str
last_of d [] = d
last_of d (p ∷ ps) = last_of p ps

-- filepath.Base
unfoldable pub base_name : Str → Str
base_name path =
    let trimmed = trim_right_of is_slash path in
    if is_empty path
    then codes "."
    else if is_empty trimmed
    then codes "/"
    else last_of [] (split slash trimmed)

-- the extension, read backwards
extension_from : Str → Str → Str
extension_from after [] = []
extension_from after (c ∷ s) =
    let rest = extension_from (c ∷ after) s in
    if c == slash then [] else if c == dot then c ∷ after else rest

-- filepath.Ext
unfoldable pub extension_of : Str → Str
unfolding extension_from
extension_of path = extension_from [] (reverse path)
