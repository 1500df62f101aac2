-- ===== src/Policy/Payload.antt =====
-- internal/policy/checker.go: the checks of one operation's hash and payload.
use open_whisker.Prelude.{
  ℕ, Bool, true, false, ◌||◌, ◌&&◌, Option, none, some, List, [], ◌∷◌, ◌++◌, ◌==◌, leb, Result,
  Check, ok, err, ◌>>◌, require, refuse, wrap, each, length,
}
use open_whisker.Prelude.Text.{Str, codes, is_empty, is_blank, trim_space, trim_suffix, contains}
use open_whisker.Model.{VaultOperation, OpType, MoveNotePayload}
use open_whisker.VaultPath.{validate_relative_vault_path, has_dir_prefix}
use open_whisker.Markdown
use open_whisker.Markdown.{split_frontmatter, parse, scalar, has_list_value}
use open_whisker.Policy.Conventions.{Conventions}
use open_whisker.Policy.Errors.{
  CheckError, hash_missing, hash_length, hash_not_hex, draft_without_frontmatter, draft_key_missing,
  draft_tag_missing, draft_processed_path, draft_processed_outside, draft_link_missing,
  note_missing, note_without_destination, note_without_output, undecodable, empty_content,
}

abbrev pub min_before_hash_len : ℕ
min_before_hash_len = 64

abbrev pub is_hex_digit : ℕ → Bool
is_hex_digit c = leb b'0' c && leb c b'9' || leb b'a' c && leb c b'f' || leb b'A' c && leb c b'F'

unfoldable pub all_hex : Str → Bool
all_hex [] = true
all_hex (c ∷ s) = is_hex_digit c && all_hex s

-- validateMutatingBeforeHash
unfoldable pub validate_mutating_before_hash : VaultOperation → Check CheckError
validate_mutating_before_hash op = do
  let hash = trim_space op.before_hash
  refuse (is_empty hash) (hash_missing op.op_type op.id)
  require (length hash == min_before_hash_len) (hash_length op.op_type op.id)
  require (all_hex hash) (hash_not_hex op.op_type op.id)

-- `if err := json.Unmarshal(…); err != nil { return … }`
abbrev pub decoded : {A : Type 0} → OpType → Str → Option A → Result CheckError A
decoded t id none = err (undecodable t id)
decoded t id (some a) = ok a

-- `if strings.TrimSpace(payload.Content) == "" { return … }`
abbrev pub require_content : OpType → Str → Str → Check CheckError
require_content t id content = refuse (is_blank content) (empty_content t id)

-- [[path]] without the extension
unfoldable pub wikilink : Str → Str
wikilink path = codes "[[" ++ trim_suffix path (codes ".md") ++ codes "]]"

abbrev pub draft_keys : List Str
draft_keys =
    codes "title"
    ∷ codes "tags"
    ∷ codes "related"
    ∷ codes "openwhisker"
    ∷ codes "job_id"
    ∷ codes "raw_job_id"
    ∷ codes "processed_path"
    ∷ []

-- validateKnowledgeDraftPayload
unfoldable pub validate_knowledge_draft_payload :
    VaultOperation → Str → Conventions → Check CheckError
validate_knowledge_draft_payload op payload_content conventions = do
  let content = trim_space payload_content
  refuse (is_empty content) (empty_content OpType.create_note op.id)
  let fm = split_frontmatter content
  require fm.found (draft_without_frontmatter op.id)
  let doc = parse fm.block
  each (λ key. require (Markdown.has doc key) (draft_key_missing op.id key)) draft_keys
  let processed_path = scalar doc (codes "processed_path")
  wrap (draft_processed_path op.id) (validate_relative_vault_path processed_path)
  require (has_dir_prefix processed_path conventions.raw_processed_dir)
      (draft_processed_outside op.id processed_path)
  each (λ tag. require (has_list_value doc (codes "tags") tag) (draft_tag_missing op.id tag))
      conventions.required_draft_tags
  require (contains fm.body (wikilink processed_path)) (draft_link_missing op.id)

-- pathReferencedInNote
unfoldable pub path_referenced_in_note : Str → Str → Bool
path_referenced_in_note note path = contains note path || contains note (wikilink path)

unfoldable pub any_referenced : Str → List Str → Bool
any_referenced note [] = false
any_referenced note (p ∷ ps) = path_referenced_in_note note p || any_referenced note ps

-- validateProcessingNote
unfoldable pub validate_processing_note :
    VaultOperation → MoveNotePayload → List Str → Check CheckError
validate_processing_note op payload knowledge_target_paths = do
  let note = trim_space payload.processing_note
  refuse (is_empty note) (note_missing op.id)
  require (path_referenced_in_note note payload.destination_path) (note_without_destination op.id)
  require (any_referenced note knowledge_target_paths) (note_without_output op.id)
