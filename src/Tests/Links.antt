-- ===== src/Tests/Links.antt =====
-- Two notes, one of which links to the other.
use open_whisker.Prelude.{◌≡◌, refl, true, false, ◌&&◌, true, some, [], ◌∷◌}
use open_whisker.Prelude.Text.{
  Str, codes, eqb, elem, is_empty, contains, has_prefix, has_suffix, to_lower, trim_space,
  trim_prefix, trim_suffix, trim_right_of, trim_of, split, join,
}
use open_whisker.Prelude.Text.Pieces.{cut, lookup, insert}
use open_whisker.VaultPath.{base_name, extension_of}
use open_whisker.Markdown
use open_whisker.Markdown.{split_frontmatter, parse, list}
use open_whisker.LinkIndex.Links
use open_whisker.LinkIndex.Links.{find_wikilinks, outside}
use open_whisker.LinkIndex.Resolve
use open_whisker.LinkIndex.Resolve.{at}
use open_whisker.LinkIndex.Index
use open_whisker.LinkIndex.Index.{Index, Entry, Stat, build, flush_pending, new_index}
use open_whisker.LinkIndex.Inverse.{Consistent, started, built, flushed, IsIndex-Consistent}
use open_whisker.LinkIndex.Index.{query_backlinks}
use open_whisker.LinkIndex.Related.{
  backlinks_related, outlinks_related, sources_of, backlinks_related-outlinks_related,
}
use open_whisker.Tests.Inputs.{same}

abbrev linked_text : Str
linked_text = codes "see [[b|the other]], ![[B]] and [[[c]], [[d\n]], [[]] [[e]f]]"

wikilinks : find_wikilinks outside linked_text ≡ codes "b|the other" ∷ codes "B" ∷ codes "c" ∷ []
unfolding find_wikilinks Links.next_place is_empty
wikilinks = refl

abbrev file : Str → Str → Entry
file rel text = record { rel = rel; is_regular = true; content = some text }

abbrev first_scan : Index
first_scan =
    build same (file (codes "a.md") linked_text ∷ file (codes "b.md") [] ∷ []) (new_index [])

abbrev after_delete : Index
after_delete = flush_pending same ((codes "b.md", Stat.missing) ∷ []) first_scan

-- A link to a note that was deleted stays resolved until the note with the link changes.
stale_backlink : at (codes "b.md") after_delete.backlinks ≡ codes "a.md" ∷ []
unfolding at flush_pending build new_index Index.visit_all Index.visit Index.resolve_all
    Index.resolve_links Index.update_all Index.update Index.build_backlinks Index.add_links
    Index.add_back Index.delete Index.remove_string Links.parse_note_links Links.find_wikilinks
    Links.next_place Links.links_of Links.trimmed Links.cleaned Resolve.resolve_target
    Resolve.before_byte Resolve.path_of_text Resolve.find_target Resolve.stem_of Resolve.is_note
    Resolve.path_in_read_roots Resolve.normalize_roots base_name extension_of split_frontmatter
    Markdown.find_close Markdown.is_closing Markdown.unix_lines Markdown.normalize parse list eqb
    elem is_empty contains has_prefix has_suffix to_lower trim_space trim_prefix trim_suffix
    trim_right_of trim_of split join cut lookup insert
stale_backlink = refl

IsIndex-Consistent_example : Consistent after_delete
IsIndex-Consistent_example = IsIndex-Consistent same after_delete (
    flushed ((codes "b.md", Stat.missing) ∷ [])
      (built (file (codes "a.md") linked_text ∷ file (codes "b.md") [] ∷ []) (started [])))

b_named : is_empty (codes "b.md") ≡ false
unfolding is_empty
b_named = refl

backlinks_related-outlinks_related_example :
    elem (codes "a.md") (backlinks_related first_scan (codes "b.md"))
    ≡ elem (codes "a.md") (sources_of (query_backlinks first_scan (codes "b.md")))
      && elem (codes "b.md") (outlinks_related first_scan (codes "a.md"))
backlinks_related-outlinks_related_example =
    backlinks_related-outlinks_related first_scan (codes "b.md") (codes "a.md") b_named
