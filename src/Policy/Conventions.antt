-- ===== src/Policy/Conventions.antt =====
-- internal/policy/checker.go: the directories that a vault profile fixes. `unicode` stands for Go's
-- lower-casing of text that is not ASCII.
use open_whisker.Prelude.{
  ℕ, Bool, ◌||◌, Option, none, some, List, [], ◌∷◌, ◌++◌, ◌==◌, if◌then◌else◌,
}
use open_whisker.Prelude.Text.{
  Str, codes, eqb, elem, is_empty, is_blank, trim_space, trim_right_of, to_lower,
}
use open_whisker.VaultPath.{slash, clean_relative_dir}

pub record Conventions : Type 0 where
  pub profile_id : Str
  pub raw_inbox_dir : Str
  pub raw_processed_dir : Str
  pub knowledge_dir : Str
  pub knowledge_draft_dir : Str
  pub agent_proposals_dir : Str
  pub agent_reports_dir : Str
  pub required_draft_tags : List Str

-- DefaultConventions
abbrev pub default_conventions : Conventions
default_conventions = record {
  profile_id = codes "generic";
  raw_inbox_dir = codes "Raw/Inbox";
  raw_processed_dir = codes "Raw/Processed";
  knowledge_dir = codes "Knowledge";
  knowledge_draft_dir = codes "Knowledge/Drafts";
  agent_proposals_dir = codes "Raw/Agent-Proposals";
  agent_reports_dir = codes "Meta/Reports";
  required_draft_tags = [];
}

-- KnowledgeVaultConventions
abbrev pub knowledge_vault_conventions : Conventions
knowledge_vault_conventions = record default_conventions {
  profile_id = codes "knowledge-vault";
  required_draft_tags =
      codes "type/knowledge" ∷ codes "status/draft" ∷ codes "status/needs-review" ∷ [];
}

-- ConventionsForProfile; `none` is its error
unfoldable pub conventions_for_profile : (Str → Str) → Str → Option Conventions
conventions_for_profile unicode profile =
    let name = to_lower unicode (trim_space profile) in
    if is_empty name || eqb name (codes "generic")
    then some default_conventions
    else if eqb name (codes "knowledge-vault")
    then some knowledge_vault_conventions
    else none

-- cleanStringList; the first argument is the map `seen`
unfoldable pub clean_list_from : List Str → List Str → List Str
clean_list_from seen [] = []
clean_list_from seen (v ∷ vs) =
    let value = trim_space v in
    let skipped = clean_list_from seen vs in
    let kept = value ∷ clean_list_from (value ∷ seen) vs in
    if is_empty value || elem value seen then skipped else kept

unfoldable pub clean_string_list : List Str → List Str
clean_string_list values = clean_list_from [] values

-- `if strings.TrimSpace(value) == "" { value = fallback }`
unfoldable pub default_to : Str → Str → Str
default_to fallback value = if is_blank value then fallback else value

abbrev is_slash : ℕ → Bool
is_slash c = c == slash

-- Conventions.Normalize
unfoldable pub normalize : (Str → Str) → Conventions → Conventions
normalize unicode c =
    let knowledge = default_to (codes "Knowledge") c.knowledge_dir in
    record {
      profile_id = to_lower unicode (trim_space (default_to (codes "generic") c.profile_id));
      raw_inbox_dir = clean_relative_dir (default_to (codes "Raw/Inbox") c.raw_inbox_dir);
      raw_processed_dir =
          clean_relative_dir (default_to (codes "Raw/Processed") c.raw_processed_dir);
      knowledge_dir = clean_relative_dir knowledge;
      knowledge_draft_dir =
          clean_relative_dir (
            default_to (trim_right_of is_slash knowledge ++ codes "/Drafts") c.knowledge_draft_dir);
      agent_proposals_dir =
          clean_relative_dir (default_to (codes "Raw/Agent-Proposals") c.agent_proposals_dir);
      agent_reports_dir =
          clean_relative_dir (default_to (codes "Meta/Reports") c.agent_reports_dir);
      required_draft_tags = clean_string_list c.required_draft_tags;
    }
