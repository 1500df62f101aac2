-- ===== src/LinkIndex/Inverse.antt =====
-- The backlinks are the inverse of the outlinks.
use open_whisker.Prelude.{
  ◌≡◌, refl, sym, ◌∙◌, ap, subst, ◌⊎◌, inl, inr, Bool, true, false, ◌||◌, ◌&&◌, not, Option, none,
  some, List, [], ◌∷◌, ◌++◌, Bool-cases, arith, if◌then◌else◌,
}
use open_whisker.Prelude.Text.{Str, eqb, elem, is_empty}
use open_whisker.Prelude.Text.Laws.{eqb_refl}
use open_whisker.Prelude.Text.Pieces.{lookup}
use open_whisker.Prelude.Text.Maps.{
  same_or_not, differ_sym, lookup-insert_same, lookup-insert_other, elem-append,
}
use open_whisker.LinkIndex.Links.{ResolvedLink}
use open_whisker.LinkIndex.Resolve.{at, is_note}
use open_whisker.LinkIndex.Index.{
  Index, Entry, Stat, new_index, changed, settle, add_back, add_links, build_backlinks, build,
  update, update_all, flush_pending,
}

-- one of the links is resolved to a target
unfoldable pub has_target : Str → List ResolvedLink → Bool
has_target t [] = false
has_target t (l ∷ links) =
    (l.resolved && not (is_empty l.target_path) && eqb l.target_path t) || has_target t links

-- a note has such a link
unfoldable pub links_to : Str → Str → List (Str × List ResolvedLink) → Bool
links_to s t [] = false
links_to s t ((source, links) ∷ out) = (eqb s source && has_target t links) || links_to s t out

at-add_back_same :
    (t source s : Str) (back : List (Str × List Str))
    → elem s (at t (add_back t source back)) ≡ elem s (at t back) || eqb s source
unfolding add_back at elem
at-add_back_same t source s back =
    rw (lookup-insert_same t (at t back ++ source ∷ []) back)
      (ground (arith, elem-append s (at t back) (source ∷ [])))

at-add_back_other :
    (t target source : Str) (back : List (Str × List Str))
    → eqb target t ≡ false
    → at t (add_back target source back) ≡ at t back
unfolding add_back at
at-add_back_other t target source back n =
    rw (lookup-insert_other target (at target back ++ source ∷ []) t n back) refl

module _ (s t source : Str) where
  -- what the links of a note add to the sources of a target
  abbrev Adds : List Str → List ResolvedLink → List (Str × List Str) → Type 0
  Adds seen links back =
      elem s (at t (add_links source seen links back))
      ≡ elem s (at t back) || (eqb s source && has_target t links && not (elem t seen))

  abbrev skips : ResolvedLink → List Str → Bool
  skips l seen = not l.resolved || is_empty l.target_path || elem l.target_path seen

  skipped :
      (l : ResolvedLink) (links : List ResolvedLink) (seen : List Str)
      → skips l seen ≡ true
      → (eqb s source && has_target t (l ∷ links) && not (elem t seen))
        ≡ (eqb s source && has_target t links && not (elem t seen))
  unfolding has_target
  skipped l links seen k = elim (same_or_not l.target_path t) [
    | inl e ↦ let f = ap (λ x. elem x seen) e in ground (arith, k, f)
    | inr n ↦ ground (arith, n)
  ]

  added_same :
      (l : ResolvedLink) (links : List ResolvedLink) (seen : List Str)
      (back : List (Str × List Str))
      → skips l seen ≡ false
      → l.target_path ≡ t
      → Adds (l.target_path ∷ seen) links (add_back l.target_path source back)
      → elem s (
          at t (add_links source (l.target_path ∷ seen) links (add_back l.target_path source back)))
        ≡ elem s (at t back) || (eqb s source && has_target t (l ∷ links) && not (elem t seen))
  unfolding has_target elem
  added_same l links seen back k e ih =
      let a = ap (λ x. elem s (at t (add_back x source back))) e in
      let b = at-add_back_same t source s back in
      let f = ap (λ x. elem x seen) e in
      let g = ap (λ x. eqb x t) e in
      let h = ap (λ x. eqb t x) e in ground (arith, ih, a, b, f, g, h, k, eqb_refl t)

  added_other :
      (l : ResolvedLink) (links : List ResolvedLink) (seen : List Str)
      (back : List (Str × List Str))
      → eqb l.target_path t ≡ false
      → Adds (l.target_path ∷ seen) links (add_back l.target_path source back)
      → elem s (
          at t (add_links source (l.target_path ∷ seen) links (add_back l.target_path source back)))
        ≡ elem s (at t back) || (eqb s source && has_target t (l ∷ links) && not (elem t seen))
  unfolding has_target elem
  added_other l links seen back n ih =
      let a = ap (elem s) (at-add_back_other t l.target_path source back n) in
      let m = differ_sym l.target_path t n in ground (arith, ih, a, m, n)

  add_links-Adds :
      (links : List ResolvedLink) (seen : List Str) (back : List (Str × List Str))
      → Adds seen links back
  unfolding add_links has_target
  add_links-Adds [] seen back = ground arith
  add_links-Adds (l ∷ links) seen back = elim (Bool-cases (skips l seen)) [
    | inl k ↦ rw k (
        add_links-Adds links seen back
        ∙ ap (λ x. elem s (at t back) || x) (sym (skipped l links seen k)))
    | inr k ↦
        let ih = add_links-Adds links (l.target_path ∷ seen) (add_back l.target_path source back) in
        elim (same_or_not l.target_path t) [
          | inl e ↦ rw k (added_same l links seen back k e ih)
          | inr n ↦ rw k (added_other l links seen back n ih)
        ]
  ]

build_backlinks-links_to :
    (s t : Str) (out : List (Str × List ResolvedLink))
    → elem s (at t (build_backlinks out)) ≡ links_to s t out
unfolding build_backlinks links_to elem at lookup
build_backlinks-links_to s t [] = refl
build_backlinks-links_to s t ((source, links) ∷ out) = ground (
  arith,
  add_links-Adds s t source links [] (build_backlinks out),
  build_backlinks-links_to s t out,
)

-- The backlinks of a note are the notes with a link that is resolved to it.
abbrev pub Consistent : Index → Type 0
Consistent ix = (s t : Str) → elem s (at t ix.backlinks) ≡ links_to s t ix.outlinks

abbrev Unchanged : Index → Index × Bool → Type 0
Unchanged ix r = (r.1 ≡ true) ⊎ (r.0 ≡ ix)

module _ (unicode : Str → Str) where
  changed-Unchanged :
      (ix : Index) (r : Index × Bool) (o : Option Index)
      → Unchanged ix r
      → Unchanged ix (changed o r)
  changed-Unchanged ix r none h = h
  changed-Unchanged ix r (some new) h = inl refl

  if-Unchanged :
      (ix : Index) (b : Bool) (r q : Index × Bool)
      → Unchanged ix r
      → Unchanged ix q
      → Unchanged ix (if b then r else q)
  if-Unchanged ix true r q h k = h
  if-Unchanged ix false r q h k = k

  update_all-Unchanged :
      (ix : Index) (pending : List (Str × Stat)) (r : Index × Bool)
      → Unchanged ix r
      → Unchanged ix (update_all unicode r pending)
  unfolding update_all
  update_all-Unchanged ix [] r h = h
  update_all-Unchanged ix ((rel, stat) ∷ pending) r h =
      update_all-Unchanged ix pending _ (
        if-Unchanged ix (is_note rel) _ r (changed-Unchanged ix r (update unicode r.0 rel stat) h)
          h)

  settle-Consistent :
      (ix : Index) (r : Index × Bool) → Consistent ix → Unchanged ix r → Consistent (settle r)
  settle-Consistent ix (new, true) c h = λ s t. build_backlinks-links_to s t new.outlinks
  settle-Consistent ix (new, false) c (inl e) = absurd (cc e)
  settle-Consistent ix (new, false) c (inr e) = subst Consistent (sym e) c

  -- what the index may be: an empty one, one that was built from what a walk met, or one that was
  -- updated after changes of files
  pub data IsIndex : Index → Type 0 where
    started : (roots : List Str) → IsIndex (new_index roots)
    built : {ix : Index} (entries : List Entry) → IsIndex ix → IsIndex (build unicode entries ix)
    flushed :
        {ix : Index} (pending : List (Str × Stat))
        → IsIndex ix
        → IsIndex (flush_pending unicode pending ix)

  new-Consistent : (roots : List Str) → Consistent (new_index roots)
  unfolding new_index links_to elem at lookup
  new-Consistent roots s t = refl

  build-Consistent : (entries : List Entry) (ix : Index) → Consistent (build unicode entries ix)
  unfolding build
  build-Consistent entries ix s t = build_backlinks-links_to s t _

  flush_pending-Consistent :
      (pending : List (Str × Stat)) (ix : Index)
      → Consistent ix
      → Consistent (flush_pending unicode pending ix)
  unfolding flush_pending
  flush_pending-Consistent pending ix c =
      settle-Consistent ix (update_all unicode (ix, false) pending) c
        (update_all-Unchanged ix pending (ix, false) (inr refl))

  -- After any builds and updates, a note is among the backlinks of another exactly when one of its
  -- outlinks is resolved to it.
  pub IsIndex-Consistent : (ix : Index) → IsIndex ix → Consistent ix
  IsIndex-Consistent _ (started roots) = new-Consistent roots
  IsIndex-Consistent _ (built {ix = ix} entries h) = build-Consistent entries ix
  IsIndex-Consistent _ (flushed {ix = ix} pending h) =
      flush_pending-Consistent pending ix (IsIndex-Consistent ix h)
