-- ===== src/Tests/Enrichment.antt =====
-- An enrichment that adds a tag to a raw note.
use open_whisker.Prelude.{refl, Bool, false, Option, some, [], ◌∷◌, Passes}
use open_whisker.Prelude.Text.{
  Str, codes, is_blank, trim_of, trim_right_of, eqb, split, join, has_prefix, has_suffix, is_empty,
  elem, trim_prefix, trim_space, to_lower,
}
use open_whisker.Prelude.Text.Pieces.{cut, text_ltb, unquoted, lookup, insert, keys}
use open_whisker.Model.{VaultPlan, low, rewrite_note, proposed}
use open_whisker.VaultPath.{clean, validate_relative_vault_path, check_segment}
use open_whisker.Markdown
use open_whisker.Markdown.{split_frontmatter, find_close, is_closing, unix_lines}
use open_whisker.Policy.Payload.{validate_mutating_before_hash, all_hex}
use open_whisker.EnrichPolicy.Fields
use open_whisker.EnrichPolicy.Additions
use open_whisker.EnrichPolicy.Check
use open_whisker.EnrichPolicy.Check.{check_enrich_plan}
use open_whisker.EnrichPolicy.Accepted.{IsEnrichment, check_enrich_plan-IsEnrichment}
use open_whisker.Tests.Inputs.{same, plain_json, plan, operation, inbox_note}

abbrev note : Str
note = codes "---\ntags: [a]\nid: 1\n---\nbody"

abbrev enriched : Str
enriched = codes "---\ntags: [a, topic/x]\nid: 1\n---\nbody"

abbrev enrichment : VaultPlan
enrichment =
    plan low false proposed (inbox_note ∷ []) (operation low rewrite_note inbox_note enriched ∷ [])

abbrev vocab : Option (Str → Bool)
vocab = some (λ tag. eqb tag (codes "topic/x"))

enrichment-Passes : Passes (check_enrich_plan same vocab same plain_json enrichment inbox_note note)
unfolding check_enrich_plan Check.check_operation Check.check_contents Check.check_field_guard
    Check.check_field Check.all_keys Check.distinct Fields.split_frontmatter_fields
    Fields.fields_from Fields.flush Fields.is_top_level_key_line Fields.key_of_line Fields.has_space
    Fields.ordered_keys Fields.sort_keys Fields.insert_key Fields.normalize_blob Fields.normal_lines
    Fields.parse_yaml_list Fields.flow_values Fields.split_flow_list Fields.flow_items
    Fields.strip_quotes Fields.block_values Additions.validate_tags_append Additions.set_subset
    Additions.set_diff Additions.diff_from Additions.check_tag Additions.check_clean_tag
    Additions.has_topic split_frontmatter find_close is_closing unix_lines Markdown.normalize clean
    validate_relative_vault_path check_segment validate_mutating_before_hash all_hex is_blank
    trim_of trim_right_of eqb split join has_prefix has_suffix is_empty elem trim_prefix trim_space
    to_lower cut text_ltb unquoted lookup insert keys
enrichment-Passes = refl

check_enrich_plan-IsEnrichment_example :
    IsEnrichment same vocab same plain_json enrichment inbox_note note
check_enrich_plan-IsEnrichment_example =
    check_enrich_plan-IsEnrichment same vocab same plain_json enrichment inbox_note note
      enrichment-Passes
