-- ===== src/Tests/Paths.antt =====
-- Paths and frontmatter.
use open_whisker.Prelude.{true, false, ◌≡◌, refl, [], ◌∷◌, ◌++◌, arith, err}
use open_whisker.Prelude.Text.{
  Str, codes, split, eqb, trim_space, trim_prefix, has_prefix, trim_of, is_empty,
}
use open_whisker.VaultPath.{
  clean, validate_relative_vault_path, hidden, not_clean, check_segment, has_dir_prefix,
  clean_relative_dir, absolute,
}
use open_whisker.VaultPath.Safe.{IsSafePath, validate_relative_vault_path-IsSafePath}
use open_whisker.VaultPath.Dirs.{IsUnder, has_dir_prefix-IsUnder}
use open_whisker.Markdown.{
  fence, newline, split_frontmatter, Frontmatter, normalize, find_close, is_closing,
}
use open_whisker.Markdown.Split.{split_frontmatter-fenced, IsSplit, split_frontmatter-IsSplit}
use open_whisker.Markdown
use open_whisker.Markdown.BlockStyle.{scalar-inline}

clean_runs :
    (clean (codes "a//b/./c/../d/") ≡ codes "a/b/d")
    × (clean (codes "/../a") ≡ codes "/a")
    × (clean (codes "a/../../b") ≡ codes "../b")
    × (clean [] ≡ codes ".")
unfolding clean
clean_runs = (refl, refl, refl, refl)

validate_runs :
    (validate_relative_vault_path (codes "Raw/.obsidian/x") ≡ err hidden)
    × (validate_relative_vault_path (codes "Raw//x") ≡ err not_clean)
    × (validate_relative_vault_path (codes "/etc") ≡ err absolute)
unfolding validate_relative_vault_path clean check_segment eqb split has_prefix
validate_runs = (refl, refl, refl)

trim_runs : trim_space (0xe2 ∷ 0x80 ∷ 0x83 ∷ 32 ∷ b'a' ∷ 0xc2 ∷ 0xa0 ∷ 10 ∷ []) ≡ codes "a"
unfolding trim_space
trim_runs = refl

validate_relative_vault_path-IsSafePath_example : IsSafePath (codes "Raw/Inbox/a.md")
unfolding validate_relative_vault_path clean check_segment eqb split has_prefix
validate_relative_vault_path-IsSafePath_example =
    (validate_relative_vault_path-IsSafePath (codes "Raw/Inbox/a.md")).0 refl

has_dir_prefix-IsUnder_example : IsUnder (codes "Raw/Inbox/") (codes "Raw/Inbox/a.md")
unfolding has_dir_prefix clean_relative_dir clean trim_space trim_of eqb has_prefix is_empty
has_dir_prefix-IsUnder_example =
    (has_dir_prefix-IsUnder (codes "Raw/Inbox/a.md") (codes "Raw/Inbox/")).0 refl

not_in_inbox : has_dir_prefix (codes "Raw/Inbox2/a.md") (codes "Raw/Inbox") ≡ false
unfolding has_dir_prefix clean_relative_dir clean trim_space trim_of eqb has_prefix is_empty
not_in_inbox = refl

split_frontmatter-fenced_example :
    split_frontmatter
      (fence ++ newline ∷ (codes "title: a" ++ newline ∷ (fence ++ newline ∷ codes "hello")))
    ≡ record { block = codes "title: a"; body = codes "hello"; found = true }
unfolding is_closing trim_space split eqb
split_frontmatter-fenced_example =
    split_frontmatter-fenced (codes "title: a") (codes "hello") (omega arith) (omega arith)
      (refl, tt)

abbrev windows_note : Str
windows_note = codes "---\r\ntitle: a\r\n---\r\nhello"

split_frontmatter-IsSplit_example :
    IsSplit (normalize windows_note) (split_frontmatter windows_note)
unfolding split_frontmatter normalize find_close is_closing trim_space split eqb has_prefix
    trim_prefix
split_frontmatter-IsSplit_example = split_frontmatter-IsSplit windows_note refl

tags_run :
    Markdown.list
      (codes "tags:" ∷ codes "  - a" ∷ codes "  - 'b'" ∷ codes "title: x" ∷ [])
      (codes "tags")
    ≡ codes "a" ∷ codes "b" ∷ []
unfolding Markdown.list Markdown.is_key_line Markdown.key_values Markdown.block_items
    Markdown.keep_value Markdown.clean_scalar Markdown.indented trim_space has_prefix trim_prefix
    trim_of is_empty eqb
tags_run = refl

scalar-inline_example :
    Markdown.scalar
      ((codes "tags: []" ∷ []) ++ (codes "title" ++ codes ":" ++ b' ' ∷ codes "A note") ∷ [])
      (codes "title")
    ≡ codes "A note"
unfolding Markdown.is_key_line trim_space has_prefix
scalar-inline_example =
    scalar-inline (codes "tags: []" ∷ []) (codes "title") (codes "A note") [] (refl, tt)
      (omega arith) (omega arith, omega arith)
