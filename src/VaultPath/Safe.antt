-- ===== src/VaultPath/Safe.antt =====
-- `validateRelativeVaultPath` accepts exactly the relative paths whose segments are all safe.
use open_whisker.Prelude.{
  ℕ, Bool, true, false, List, [], ◌∷◌, reverse, ◌≡◌, ◌≢◌, ◌↔◌, subst, Bool-cases, inl, inr, refl,
  sym, ◌∙◌, ap, arith, All, All-reverse, ok, each, >>-ok, refuse-ok, refuse, ◌||◌, not,
}
use open_whisker.Prelude.Text.{Str, codes, eqb, split, join, is_empty}
use open_whisker.Prelude.Text.Laws.{eqb→eq, eqb_refl, split-join, split-Lacks, Lacks}
use open_whisker.VaultPath.{
  slash, dot, is_abs, clean_step, clean_parts, clean, or_dot, check_segment,
  validate_relative_vault_path, PathError,
}
use open_whisker.VaultPath.Segments.{IsSafeSegment, clean_safe, safe-is_abs}

-- A relative path of one or more segments, none of them empty, hidden, `.` or `..`.
abbrev pub IsSafePath : Str → Type 0
IsSafePath path = All IsSafeSegment (split slash path)

abbrev NonEmpty : Str → Type 0
NonEmpty s = s ≢ []

-- what `clean_parts` keeps on its stack
abbrev Kept : Str → Type 0
Kept s = (s ≢ []) × Lacks slash s

clean_step-Kept :
    (rooted : Bool) (stack : List Str) (p : Str)
    → All Kept stack
    → Lacks slash p
    → All Kept (clean_step rooted stack p)
unfolding clean_step
clean_step-Kept rooted [] [] h l = h
clean_step-Kept true [] (c ∷ s) h l = ground arith
clean_step-Kept false [] (c ∷ s) h l = ground arith
clean_step-Kept rooted (top ∷ rest) [] h l = h
clean_step-Kept rooted (top ∷ rest) (c ∷ s) h l = ground arith

clean_parts-Kept :
    (rooted : Bool) (stack ps : List Str)
    → All Kept stack
    → All (Lacks slash) ps
    → All Kept (clean_parts rooted stack ps)
unfolding clean_parts
clean_parts-Kept rooted stack [] h l = h
clean_parts-Kept rooted stack (p ∷ ps) h l =
    clean_parts-Kept rooted (clean_step rooted stack p) ps (clean_step-Kept rooted stack p h l.0)
      l.1

check_segment-safe : (p : Str) → IsSafeSegment p → check_segment p ≡ ok tt
unfolding check_segment
check_segment-safe [] h = absurd h
check_segment-safe (c ∷ s) h = ground arith

each-check_segment-safe : (ps : List Str) → All IsSafeSegment ps → each check_segment ps ≡ ok tt
each-check_segment-safe [] h = refl
each-check_segment-safe (p ∷ ps) h = rw (check_segment-safe p h.0) (each-check_segment-safe ps h.1)

check_segment-ok : (c : ℕ) (s : Str) → check_segment (c ∷ s) ≡ ok tt → c ≢ dot
unfolding check_segment
check_segment-ok c s h = ground arith

safe_of_checked :
    (ps : List Str) → All Kept ps → each check_segment ps ≡ ok tt → All IsSafeSegment ps
safe_of_checked [] k h = tt
safe_of_checked ([] ∷ ps) k h = absurd (k.0.0 refl)
safe_of_checked ((c ∷ s) ∷ ps) k h =
    let (first, others) = >>-ok (check_segment (c ∷ s)) (each check_segment ps) h in
    (check_segment-ok c s first, safe_of_checked ps k.1 others)

All-Lacks : (ps : List Str) → All Kept ps → All (Lacks slash) ps
All-Lacks [] h = tt
All-Lacks (p ∷ ps) h = (h.0.1, All-Lacks ps h.1)

or_dot-join :
    (qs : List Str)
    → All Kept qs
    → or_dot (join slash qs) ≢ codes "."
    → split slash (or_dot (join slash qs)) ≡ qs
unfolding or_dot join
or_dot-join [] k h = absurd (h refl)
or_dot-join ([] ∷ qs) k h = absurd (k.0.0 refl)
or_dot-join ((c ∷ s) ∷ []) k h =
    split-join slash ((c ∷ s) ∷ []) (λ e. cc) (All-Lacks ((c ∷ s) ∷ []) k)
or_dot-join ((c ∷ s) ∷ q ∷ qs) k h =
    split-join slash ((c ∷ s) ∷ q ∷ qs) (λ e. cc) (All-Lacks ((c ∷ s) ∷ q ∷ qs) k)

abbrev kept_parts : Str → List Str
kept_parts path = reverse (clean_parts false [] (split slash path))

kept_parts-Kept : (path : Str) → All Kept (kept_parts path)
kept_parts-Kept path =
    All-reverse Kept (clean_parts false [] (split slash path))
      (clean_parts-Kept false [] (split slash path) tt (split-Lacks slash path))

clean_relative :
    (path : Str) → is_abs path ≡ false → clean path ≡ or_dot (join slash (kept_parts path))
unfolding clean
clean_relative path rel = rw rel

split-clean :
    (path : Str)
    → is_abs path ≡ false
    → clean path ≢ codes "."
    → All Kept (split slash (clean path))
split-clean path rel h =
    let e = clean_relative path rel in
    let kept = kept_parts-Kept path in
    rw e (rw (or_dot-join (kept_parts path) kept (λ d. h (e ∙ d))) kept)

safe_of_clean :
    (path : Str)
    → is_abs path ≡ false
    → clean path ≡ path
    → path ≢ codes "."
    → each check_segment (split slash path) ≡ ok tt
    → IsSafePath path
safe_of_clean path rel e h c =
    safe_of_checked (split slash path)
      (subst (λ p. All Kept (split slash p)) e (split-clean path rel (λ d. h (sym e ∙ d)))) c

-- what a path that passes the tests satisfies, before the loop over the segments is read
record Accepted (path : Str) : Type 0 where
  relative : is_abs path ≡ false
  already_clean : clean path ≡ path
  named : path ≢ codes "."
  checked : each check_segment (split slash path) ≡ ok tt

Accepted-of_tests :
    (path : Str)
    → is_abs path ≡ false
    → (eqb (clean path) (codes ".") || not (eqb (clean path) path)) ≡ false
    → each check_segment (split slash (clean path)) ≡ ok tt
    → Accepted path
Accepted-of_tests path rel t c =
    let e : clean path ≡ path = eqb→eq (clean path) path (ground arith) in
    record {
      relative = rel;
      already_clean = e;
      named = λ n. cc (t, ap (λ p. eqb p (codes ".")) (e ∙ n), eqb_refl (codes "."));
      checked = rw e at c;
    }

IsSafePath-of_ok : (path : Str) → validate_relative_vault_path path ≡ ok tt → IsSafePath path
unfolding validate_relative_vault_path
IsSafePath-of_ok path h =
    let (t1, h1) = >>-ok (refuse (is_empty path) PathError.empty_path) _ h in
    let (t2, h2) = >>-ok (refuse (is_abs path) PathError.absolute) _ h1 in
    let (t3, h3) = >>-ok _ (each check_segment (split slash (clean path))) h2 in
    let a = Accepted-of_tests path (refuse-ok _ _ t2) (refuse-ok _ _ t3) h3 in
    safe_of_clean path a.relative a.already_clean a.named a.checked

not-IsSafePath-dot : ¬ IsSafePath (codes ".")
unfolding split
not-IsSafePath-dot h = h.0 refl

not-IsSafePath-nil : ¬ IsSafePath []
unfolding split
not-IsSafePath-nil h = h.0

safe-not_dot : (path : Str) → IsSafePath path → eqb path (codes ".") ≡ false
safe-not_dot path h = elim (Bool-cases (eqb path (codes "."))) [
  | inl t ↦ absurd (not-IsSafePath-dot (subst IsSafePath (eqb→eq path (codes ".") t) h))
  | inr f ↦ f
]

ok_of_IsSafePath : (path : Str) → IsSafePath path → validate_relative_vault_path path ≡ ok tt
unfolding validate_relative_vault_path
ok_of_IsSafePath [] h = absurd (not-IsSafePath-nil h)
ok_of_IsSafePath (c ∷ s) h =
    rw (safe-is_abs (c ∷ s) h, clean_safe (c ∷ s) h, safe-not_dot (c ∷ s) h, eqb_refl (c ∷ s))
      (each-check_segment-safe (split slash (c ∷ s)) h)

-- `validateRelativeVaultPath` returns no error exactly for the paths that consist of segments
-- which are not empty and do not begin with a dot: no absolute path, no `.` or `..`, no hidden
-- segment, no doubled, leading or trailing slash.
pub validate_relative_vault_path-IsSafePath :
    (path : Str) → (validate_relative_vault_path path ≡ ok tt) ↔ IsSafePath path
validate_relative_vault_path-IsSafePath path = (IsSafePath-of_ok path, ok_of_IsSafePath path)
