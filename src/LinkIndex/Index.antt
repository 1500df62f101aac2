-- ===== src/LinkIndex/Index.antt =====
-- internal/vault/linkindex/linkindex.go: Build, flushPending and the queries. What the walk over the
-- vault and the stats of files give are arguments; a map is an association list.
use open_whisker.Prelude.{
  ℕ, suc, Bool, true, false, ◌||◌, ◌&&◌, not, Option, none, some, List, [], ◌∷◌, ◌++◌, Result, ok,
  err, if◌then◌else◌,
}
use open_whisker.Prelude.Text.{Str, eqb, elem, is_empty}
use open_whisker.Prelude.Text.Pieces.{insert}
use open_whisker.LinkIndex.Links.{ResolvedLink, parse_note_links}
use open_whisker.LinkIndex.Resolve.{
  at, resolve_target, stem_of, is_note, path_in_read_roots, normalize_roots, normalize_note_path,
}

-- Index
pub record Index : Type 0 where
  pub read_roots : List Str
  pub outlinks : List (Str × List ResolvedLink)
  pub backlinks : List (Str × List Str)
  pub note_paths : List Str
  pub stems : List (Str × List Str)
  pub generation : ℕ
  pub ready : Bool

-- New
unfoldable pub new_index : List Str → Index
new_index roots = record {
  read_roots = normalize_roots roots;
  outlinks = [];
  backlinks = [];
  note_paths = [];
  stems = [];
  generation = 0;
  ready = false;
}

-- `back[target] = append(back[target], source)`
unfoldable pub add_back : Str → Str → List (Str × List Str) → List (Str × List Str)
add_back target source back = insert target (at target back ++ source ∷ []) back

-- the inner loop of `buildBacklinks`, with the targets that it has seen
unfoldable pub add_links :
    Str → List Str → List ResolvedLink → List (Str × List Str) → List (Str × List Str)
add_links source seen [] back = back
add_links source seen (link ∷ links) back =
    let t = link.target_path in
    let skip = not link.resolved || is_empty t || elem t seen in
    add_links source (if skip then seen else t ∷ seen) links
      (if skip then back else add_back t source back)

-- buildBacklinks
unfoldable pub build_backlinks : List (Str × List ResolvedLink) → List (Str × List Str)
build_backlinks [] = []
build_backlinks ((source, links) ∷ out) =
    let back = build_backlinks out in add_links source [] links back

-- delete(m, k)
unfoldable pub delete : {A : Type 0} → Str → List (Str × A) → List (Str × A)
delete k [] = []
delete k ((j, v) ∷ m) = let rest = delete k m in if eqb j k then rest else (j, v) ∷ rest

-- removeString
unfoldable pub remove_string : Str → List Str → List Str
remove_string needle [] = []
remove_string needle (s ∷ xs) =
    let rest = remove_string needle xs in if eqb s needle then rest else s ∷ rest

abbrev or_deleted : Str → List Str → List (Str × List Str) → List (Str × List Str)
or_deleted stem [] stems = delete stem stems
or_deleted stem (p ∷ ps) stems = insert stem (p ∷ ps) stems

abbrev found_link : ResolvedLink → Option Str → ResolvedLink
found_link link none = link
found_link link (some target) = record link { target_path = target; resolved = true }

-- a set, whose elements stand once
abbrev add_note : Str → List Str → List Str
add_note rel notes = if elem rel notes then notes else notes ++ rel ∷ []

-- what the walk meets: a directory, or a file with its content where it can be read
pub record Entry : Type 0 where
  pub rel : Str
  pub is_regular : Bool
  pub content : Option Str

-- what `os.Stat` says of a changed path, and the content of a regular file where it can be read
pub data Stat : Type 0 where
  missing other : Stat
  regular_file : Option Str → Stat

abbrev pub changed : Option Index → Index × Bool → Index × Bool
changed none r = r
changed (some ix) r = (ix, true)

abbrev pub settle : Index × Bool → Index
settle (ix, false) = ix
settle (ix, true) = record ix {
  backlinks = build_backlinks ix.outlinks;
  generation = suc ix.generation;
}

module _ (unicode : Str → Str) where
  -- the loop that resolves the links of a note
  unfoldable pub resolve_links :
      List Str → List (Str × List Str) → List ResolvedLink → List ResolvedLink
  resolve_links notes stems [] = []
  resolve_links notes stems (link ∷ links) =
      let target = resolve_target unicode link.original_text notes stems in
      (if link.resolved then link else found_link link target) ∷ resolve_links notes stems links

  abbrev scanned : Index → Str → Option Str → Index
  scanned ix rel none = ix
  scanned ix rel (some content) = record ix {
    outlinks = insert rel (parse_note_links content) ix.outlinks;
    note_paths = add_note rel ix.note_paths;
    stems = insert (stem_of unicode rel) (at (stem_of unicode rel) ix.stems ++ rel ∷ []) ix.stems;
  }

  -- the callback of the walk
  unfoldable pub visit : Index → Entry → Index
  visit ix e =
      if e.is_regular && is_note e.rel && path_in_read_roots ix.read_roots e.rel
      then scanned ix e.rel e.content
      else ix

  unfoldable pub visit_all : Index → List Entry → Index
  visit_all ix [] = ix
  visit_all ix (e ∷ entries) = visit_all (visit ix e) entries

  unfoldable pub resolve_all :
      List Str
      → List (Str × List Str)
      → List (Str × List ResolvedLink)
      → List (Str × List ResolvedLink)
  resolve_all notes stems [] = []
  resolve_all notes stems ((source, links) ∷ out) =
      (source, resolve_links notes stems links) ∷ resolve_all notes stems out

  -- Build, on what the walk meets; the maps of the scan begin empty
  unfoldable pub build : List Entry → Index → Index
  build entries ix =
      let scan = visit_all (record ix { outlinks = []; note_paths = []; stems = [] }) entries in
      let out = resolve_all scan.note_paths scan.stems scan.outlinks in
      record scan {
        outlinks = out;
        backlinks = build_backlinks out;
        generation = suc ix.generation;
        ready = true;
      }

  abbrev forget : Str → Index → Index
  forget rel ix =
      let stem = stem_of unicode rel in
      record ix {
        outlinks = delete rel ix.outlinks;
        note_paths = remove_string rel ix.note_paths;
        stems = or_deleted stem (remove_string rel (at stem ix.stems)) ix.stems;
      }

  abbrev add_stem : Str → List (Str × List Str) → List (Str × List Str)
  add_stem rel stems =
      let stem = stem_of unicode rel in
      if elem rel (at stem stems) then stems else insert stem (at stem stems ++ rel ∷ []) stems

  abbrev reread : Str → Str → Index → Index
  reread rel content ix = record ix {
    outlinks =
        insert rel (resolve_links ix.note_paths ix.stems (parse_note_links content)) ix.outlinks;
    note_paths = add_note rel ix.note_paths;
    stems = add_stem rel ix.stems;
  }

  -- the `switch` of `flushPending`; `none` where nothing changes
  unfoldable pub update : Index → Str → Stat → Option Index
  update ix rel missing = some (forget rel ix)
  update ix rel other = none
  update ix rel (regular_file none) = none
  update ix rel (regular_file (some content)) =
      if path_in_read_roots ix.read_roots rel then some (reread rel content ix) else none

  -- the loop of `flushPending`, with the flag `mutated`
  unfoldable pub update_all : Index × Bool → List (Str × Stat) → Index × Bool
  update_all r [] = r
  update_all r ((rel, stat) ∷ pending) =
      update_all (if is_note rel then changed (update r.0 rel stat) r else r) pending

  -- flushPending
  unfoldable pub flush_pending : List (Str × Stat) → Index → Index
  flush_pending pending ix = settle (update_all (ix, false) pending)

pub data IndexError : Type 0 where
  not_ready : IndexError

-- Outlinks
unfoldable pub query_outlinks : Index → Str → Result IndexError (List ResolvedLink)
query_outlinks ix path =
    if ix.ready then ok (at (normalize_note_path path) ix.outlinks) else err not_ready

-- Backlinks
unfoldable pub query_backlinks : Index → Str → Result IndexError (List Str)
query_backlinks ix path =
    if ix.ready then ok (at (normalize_note_path path) ix.backlinks) else err not_ready
