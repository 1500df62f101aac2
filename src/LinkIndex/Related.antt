-- ===== src/LinkIndex/Related.antt =====
-- internal/memory/linkgraph.go: LinkIndexAdapter, the edges that come from the frontmatter.
use open_whisker.Prelude.{
  ◌≡◌, refl, ap, inl, inr, Bool, true, false, ◌||◌, ◌&&◌, not, List, [], ◌∷◌, Result, ok, err,
  Bool-cases, arith, if◌then◌else◌,
}
use open_whisker.Prelude.Text.{Str, eqb, elem, is_empty}
use open_whisker.Prelude.Text.Laws.{eqb→eq, eqb_refl}
use open_whisker.LinkIndex.Links.{SourceKind, frontmatter_related, wikilink, ResolvedLink}
use open_whisker.LinkIndex.Index.{Index, IndexError, query_outlinks, query_backlinks}

abbrev is_related : SourceKind → Bool
is_related frontmatter_related = true
is_related wikilink = false

-- the targets of the resolved links that the frontmatter declares
unfoldable pub related_targets : List ResolvedLink → List Str
related_targets [] = []
related_targets (l ∷ links) =
    let keep = is_related l.source_kind && l.resolved && not (is_empty l.target_path) in
    let rest = related_targets links in if keep then l.target_path ∷ rest else rest

abbrev targets_or_nil : Result IndexError (List ResolvedLink) → List Str
targets_or_nil (ok links) = related_targets links
targets_or_nil (err e) = []

-- OutlinksRelated
unfoldable pub outlinks_related : Index → Str → List Str
outlinks_related ix path = targets_or_nil (query_outlinks ix path)

-- a link of the frontmatter that is resolved to the note
unfoldable pub declares : Str → List ResolvedLink → Bool
declares path [] = false
declares path (l ∷ links) =
    (is_related l.source_kind && l.resolved && eqb l.target_path path) || declares path links

abbrev declared_by : Str → Result IndexError (List ResolvedLink) → Bool
declared_by path (ok links) = declares path links
declared_by path (err e) = false

-- the loop over the sources of a note
unfoldable pub related_sources : Index → Str → List Str → List Str
related_sources ix path [] = []
related_sources ix path (source ∷ sources) =
    let rest = related_sources ix path sources in
    if declared_by path (query_outlinks ix source) then source ∷ rest else rest

abbrev sources_or_nil : Index → Str → Result IndexError (List Str) → List Str
sources_or_nil ix path (ok sources) = related_sources ix path sources
sources_or_nil ix path (err e) = []

-- BacklinksRelated
unfoldable pub backlinks_related : Index → Str → List Str
backlinks_related ix path = sources_or_nil ix path (query_backlinks ix path)

declares-elem :
    (t : Str) (links : List ResolvedLink)
    → is_empty t ≡ false
    → declares t links ≡ elem t (related_targets links)
unfolding declares related_targets elem
declares-elem t [] n = refl
declares-elem t (l ∷ links) n = elim (Bool-cases (eqb l.target_path t)) [
  | inl e ↦
      let f = eqb→eq l.target_path t e in
      let g = ap is_empty f in
      let h = ap (eqb t) f in ground (arith, declares-elem t links n, e, g, h, n, eqb_refl t)
  | inr d ↦ ground (arith, declares-elem t links n, d, eqb→eq t l.target_path, eqb_refl t)
]

declared_by-elem :
    (t : Str) (r : Result IndexError (List ResolvedLink))
    → is_empty t ≡ false
    → declared_by t r ≡ elem t (targets_or_nil r)
unfolding elem
declared_by-elem t (ok links) n = declares-elem t links n
declared_by-elem t (err e) n = refl

elem-related_sources :
    (ix : Index) (t s : Str) (sources : List Str)
    → elem s (related_sources ix t sources) ≡ elem s sources && declared_by t (query_outlinks ix s)
unfolding related_sources elem
elem-related_sources ix t s [] = refl
elem-related_sources ix t s (source ∷ sources) = elim (Bool-cases (eqb s source)) [
  | inl e ↦
      let f = ap (λ x. declared_by t (query_outlinks ix x)) (eqb→eq s source e) in
      ground (arith, elem-related_sources ix t s sources, e, f)
  | inr n ↦ ground (arith, elem-related_sources ix t s sources, n)
]

-- the sources that Backlinks gives
abbrev pub sources_of : Result IndexError (List Str) → List Str
sources_of (ok sources) = sources
sources_of (err e) = []

elem-sources :
    (ix : Index) (t s : Str) (r : Result IndexError (List Str))
    → elem s (sources_or_nil ix t r) ≡ elem s (sources_of r) && declared_by t (query_outlinks ix s)
unfolding elem
elem-sources ix t s (ok sources) = elem-related_sources ix t s sources
elem-sources ix t s (err e) = refl

-- A note is among the related backlinks of another, whose path is not empty, exactly when it is among
-- its backlinks and the other is among its own related outlinks.
pub backlinks_related-outlinks_related :
    (ix : Index) (t s : Str)
    → is_empty t ≡ false
    → elem s (backlinks_related ix t)
      ≡ elem s (sources_of (query_backlinks ix t)) && elem t (outlinks_related ix s)
unfolding backlinks_related outlinks_related
backlinks_related-outlinks_related ix t s n =
    rw⁻¹ (declared_by-elem t (query_outlinks ix s) n) (elem-sources ix t s (query_backlinks ix t))
