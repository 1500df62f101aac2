-- ===== src/VaultPath/Dirs.antt =====
-- `hasDirPrefix` is containment segment by segment, not of the texts.
use open_whisker.Prelude.{
  true, List, [], ◌∷◌, ◌++◌, ◌≡◌, ◌↔◌, ◌⊎◌, inl, inr, sym, ◌∙◌, ap, arith, append_assoc, append-nil,
  Bool-cases,
}
use open_whisker.Prelude.Text.{Str, eqb, split, join, has_prefix}
use open_whisker.Prelude.Text.Laws.{
  eqb→eq, eqb_refl, StartsWith, has_prefix→StartsWith, has_prefix-append, join-split, join-append,
  split-append_sep, split-ne-nil,
}
use open_whisker.VaultPath.{slash, clean_relative_dir, has_dir_prefix}

-- The segments of `dir`, cleaned as the program cleans a configured directory, begin the segments
-- of `path`.
abbrev pub IsUnder : Str → Str → Type 0
IsUnder dir path =
    (rest : List Str) × (split slash path ≡ split slash (clean_relative_dir dir) ++ rest)

-- the two ways in which `hasDirPrefix` says yes
DirPrefix : Str → Str → Type 0
DirPrefix d path = (path ≡ d) ⊎ StartsWith (d ++ slash ∷ []) path

DirPrefix-of_has :
    (path dir : Str) → has_dir_prefix path dir ≡ true → DirPrefix (clean_relative_dir dir) path
unfolding has_dir_prefix DirPrefix
DirPrefix-of_has path dir h =
    let d = clean_relative_dir dir in
    elim (Bool-cases (eqb path d)) [
      | inl e ↦ inl (eqb→eq path d e)
      | inr n ↦ inr (has_prefix→StartsWith path (d ++ slash ∷ []) (rw n at h))
    ]

has_of_DirPrefix :
    (path dir : Str) → DirPrefix (clean_relative_dir dir) path → has_dir_prefix path dir ≡ true
unfolding has_dir_prefix DirPrefix
has_of_DirPrefix path dir (inl e) = rw (e, eqb_refl (clean_relative_dir dir))
has_of_DirPrefix path dir (inr (r, e)) = ground (
  arith,
  ap (λ p. has_prefix p (clean_relative_dir dir ++ slash ∷ [])) e,
  has_prefix-append (clean_relative_dir dir ++ slash ∷ []) r,
)

split_of_DirPrefix :
    (path d : Str)
    → DirPrefix d path
    → (rest : List Str) × (split slash path ≡ split slash d ++ rest)
unfolding DirPrefix
split_of_DirPrefix path d (inl e) = ([], rw (e, append-nil))
split_of_DirPrefix path d (inr (r, e)) =
    (split slash r, rw (e, append_assoc) (split-append_sep slash d r))

DirPrefix-of_split :
    (path d : Str) (rest : List Str) → split slash path ≡ split slash d ++ rest → DirPrefix d path
unfolding DirPrefix
DirPrefix-of_split path d [] e =
    inl (cc (join-split slash path, join-split slash d, append-nil (split slash d)))
DirPrefix-of_split path d (q ∷ qs) e = inr (
  join slash (q ∷ qs),
  sym (join-split slash path)
      ∙ ap (join slash) e
      ∙ join-append slash (split slash d) q qs (split-ne-nil slash d)
      ∙ ap (λ x. x ++ slash ∷ join slash (q ∷ qs)) (join-split slash d)
      ∙ sym (append_assoc d (slash ∷ []) (join slash (q ∷ qs))),
)

-- `hasDirPrefix(path, dir)` holds exactly where the segments of `path` begin with the segments of
-- the cleaned `dir`, so that `Raw/Inbox2` is not under `Raw/Inbox`.
pub has_dir_prefix-IsUnder : (path dir : Str) → (has_dir_prefix path dir ≡ true) ↔ IsUnder dir path
has_dir_prefix-IsUnder path dir = (
  λ h. split_of_DirPrefix path (clean_relative_dir dir) (DirPrefix-of_has path dir h),
  λ (rest, e). has_of_DirPrefix path dir (DirPrefix-of_split path (clean_relative_dir dir) rest e),
)
