-- ===== src/LinkIndex/Resolve.antt =====
-- internal/vault/linkindex/linkindex.go: the note that the text of a link names, and the paths that
-- the index reads.
use open_whisker.Prelude.{
  ℕ, ◌==◌, Bool, true, false, ◌||◌, ◌&&◌, Option, none, some, List, [], ◌∷◌, ◌++◌, if◌then◌else◌,
}
use open_whisker.Prelude.Text.{
  Str, codes, eqb, elem, is_empty, contains, has_prefix, has_suffix, to_lower, trim_space,
  trim_prefix, trim_suffix, trim_right_of,
}
use open_whisker.Prelude.Text.Pieces.{cut, lookup}
use open_whisker.VaultPath.{is_slash, clean, base_name, extension_of}

-- the text before the first of a byte
abbrev kept_text : Str → Option (Str × Str) → Str
kept_text t none = t
kept_text t (some (left, right)) = left

unfoldable pub before_byte : ℕ → Str → Str
before_byte c t = kept_text t (cut c t)

-- m[k] for a map to lists
abbrev or_nil : {A : Type 0} → Option (List A) → List A
or_nil none = []
or_nil (some xs) = xs

unfoldable pub at : {A : Type 0} → Str → List (Str × List A) → List A
at k m = or_nil (lookup k m)

abbrev only : List Str → Option Str
only (m ∷ []) = some m
only _ = none

module _ (unicode : Str → Str) where
  -- the path that a text stands for
  unfoldable pub path_of_text : Str → Str
  path_of_text t =
      let full = if has_suffix (to_lower unicode t) (codes ".md") then t else t ++ codes ".md" in
      trim_prefix full (codes "/")

  unfoldable pub find_target : Str → List Str → List (Str × List Str) → Option Str
  find_target t notes stems =
      if elem t notes
      then some t
      else if contains t (codes "/")
      then none
      else only (at (to_lower unicode (trim_suffix t (codes ".md"))) stems)

  -- resolveTarget
  unfoldable pub resolve_target : Str → List Str → List (Str × List Str) → Option Str
  resolve_target text notes stems =
      let t = trim_space (before_byte b'#' (before_byte b'|' text)) in
      if is_empty t then none else find_target (path_of_text t) notes stems

  -- the key of a note in the map of stems
  unfoldable pub stem_of : Str → Str
  stem_of rel = to_lower unicode (trim_suffix (base_name rel) (extension_of rel))

-- `strings.EqualFold(…, ".md")`
abbrev is_md_extension : Str → Bool
is_md_extension (a ∷ b ∷ c ∷ []) = a == b'.' && (b == b'm' || b == b'M') && (c == b'd' || c == b'D')
is_md_extension _ = false

unfoldable pub is_note : Str → Bool
is_note rel = is_md_extension (extension_of rel)

abbrev any_prefix : Str → List Str → Bool
any_prefix rel [] = false
any_prefix rel (root ∷ roots) = has_prefix rel root || any_prefix rel roots

abbrev any_equal : Str → List Str → Bool
any_equal rel [] = false
any_equal rel (root ∷ roots) = eqb (trim_right_of is_slash root) rel || any_equal rel roots

abbrev no_roots : List Str → Bool
no_roots [] = true
no_roots (r ∷ rs) = false

-- pathInReadRoots
unfoldable pub path_in_read_roots : List Str → Str → Bool
path_in_read_roots roots rel =
    let dir = trim_right_of is_slash rel ++ codes "/" in
    no_roots roots || any_prefix dir roots || any_equal (trim_right_of is_slash dir) roots

-- normalizeRoots
unfoldable pub normalize_roots : List Str → List Str
normalize_roots [] = []
normalize_roots (r ∷ roots) =
    let root = trim_space r in
    let rest = normalize_roots roots in
    if is_empty root then rest else (trim_right_of is_slash root ++ codes "/") ∷ rest

-- normalizeNotePath
unfoldable pub normalize_note_path : Str → Str
normalize_note_path path = trim_prefix (clean path) (codes "/")
