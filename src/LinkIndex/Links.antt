-- ===== src/LinkIndex/Links.antt =====
-- internal/vault/linkindex/linkindex.go: the links in a note.
use open_whisker.Prelude.{ℕ, ◌==◌, Bool, false, List, [], ◌∷◌, ◌++◌, if◌then◌else◌}
use open_whisker.Prelude.Text.{Str, codes, is_empty, trim_space, trim_prefix, trim_suffix}
use open_whisker.Prelude.Text.Pieces.{unquoted}
use open_whisker.Markdown.{split_frontmatter, parse, list}
use open_whisker.EnrichPolicy.Fields.{is_quote}

-- SourceKindWikilink and SourceKindFrontmatterRelated
pub data SourceKind : Type 0 where
  wikilink frontmatter_related : SourceKind

-- ResolvedLink
pub record ResolvedLink : Type 0 where
  pub target_path : Str
  pub source_kind : SourceKind
  pub original_text : Str
  pub resolved : Bool

-- Where the expression `!?\[\[([^\[\]\n]+?)\]\]` stands in a text: behind so many opening brackets, in
-- the name behind two of them, or behind the first closing bracket.
pub data Place : Type 0 where
  outside one_open : Place
  inside closing : Str → Place

abbrev reopened : ℕ → Place
reopened c = if c == b'[' then one_open else outside

-- the place behind a byte
unfoldable pub next_place : Place → ℕ → Place
next_place outside c = reopened c
next_place one_open c = if c == b'[' then inside [] else outside
next_place (inside name) c =
    if c == b'['
    then (if is_empty name then inside [] else one_open)
    else if c == b']'
    then (if is_empty name then outside else closing name)
    else if c == b'\n'
    then outside
    else inside (name ++ c ∷ [])
next_place (closing name) c = reopened c

abbrev found : Place → ℕ → List Str
found (closing name) c = if c == b']' then name ∷ [] else []
found _ c = []

-- reWikilink.FindAllStringSubmatch, the first group of each match
unfoldable pub find_wikilinks : Place → Str → List Str
find_wikilinks place [] = []
find_wikilinks place (c ∷ s) = found place c ++ find_wikilinks (next_place place c) s

-- cleanRelatedTarget
unfoldable pub clean_related_target : Str → Str
clean_related_target value =
    let bare = trim_space (unquoted is_quote (trim_space value)) in
    trim_space (trim_suffix (trim_prefix bare (codes "[[")) (codes "]]"))

abbrev link_of : SourceKind → Str → ResolvedLink
link_of kind text = record {
  target_path = [];
  source_kind = kind;
  original_text = text;
  resolved = false;
}

-- a link for each text that is not empty
unfoldable pub links_of : SourceKind → List Str → List ResolvedLink
links_of kind [] = []
links_of kind (t ∷ texts) =
    let rest = links_of kind texts in if is_empty t then rest else link_of kind t ∷ rest

unfoldable pub trimmed : List Str → List Str
trimmed [] = []
trimmed (t ∷ texts) = trim_space t ∷ trimmed texts

-- extractFrontmatterRelated
unfoldable pub cleaned : List Str → List Str
cleaned [] = []
cleaned (t ∷ texts) = clean_related_target t ∷ cleaned texts

-- parseNoteLinks, on the content of the note
unfoldable pub parse_note_links : Str → List ResolvedLink
parse_note_links content =
    let parts = split_frontmatter content in
    links_of wikilink (trimmed (find_wikilinks outside parts.body))
    ++ links_of frontmatter_related (cleaned (list (parse parts.block) (codes "related")))
