-- ===== src/EnrichPolicy/Check.antt =====
-- internal/policy/enrich.go: CheckEnrichPlan. `hash` is `model.ContentHash`.
use open_whisker.Prelude.{
  Bool, true, false, Option, none, some, List, [], ◌∷◌, ◌++◌, not, length, Result, Check, ok, err,
  ◌>>=◌, ◌>>◌, require, refuse, wrap, each, if◌then◌else◌,
}
use open_whisker.Prelude.Text.{Str, codes, eqb, elem, is_blank}
use open_whisker.Prelude.Text.Pieces.{lookup}
use open_whisker.Model.{VaultPlan, VaultOperation, Json, OpType, rewrite_note, is_low}
use open_whisker.VaultPath.{validate_relative_vault_path}
use open_whisker.Markdown.{split_frontmatter}
use open_whisker.Policy.Payload.{validate_mutating_before_hash}
use open_whisker.EnrichPolicy.Fields.{
  split_frontmatter_fields, ordered_keys, normalize_blob, parse_yaml_list,
}
use open_whisker.EnrichPolicy.Additions.{
  EnrichError, risk_not_low, operation_risk_not_low, needs_approval, operation_count,
  operation_type, other_target, unsafe_target, bad_hash, payload_undecodable, content_empty,
  before_unfenced, after_unfenced, body_changed, field_added_or_removed, field_changed,
  validate_tags_append, validate_related_append,
}

abbrev pub tags_key : Str
tags_key = codes "tags"

abbrev pub related_key : Str
related_key = codes "related"

-- EnrichWritableFields
abbrev pub enrich_writable_fields : List Str
enrich_writable_fields =
    tags_key
    ∷ related_key
    ∷ codes "openwhisker_route_suggestion"
    ∷ codes "openwhisker_new_tag_candidates"
    ∷ codes "openwhisker_enriched_at"
    ∷ codes "openwhisker_enrich_run_id"
    ∷ codes "openwhisker_enrich_attempts"
    ∷ []

-- the keys that `seen` does not have yet
unfoldable pub distinct : List Str → List Str → List Str
distinct seen [] = []
distinct seen (k ∷ ks) =
    let old = elem k seen in
    let rest = distinct (if old then seen else k ∷ seen) ks in if old then rest else k ∷ rest

unfoldable pub all_keys : List (Str × Str) → List (Str × Str) → List Str
all_keys before after = distinct [] (ordered_keys before ++ ordered_keys after)

-- a field that an enrichment may not write
abbrev pub same_field : Str → Option Str → Option Str → Check EnrichError
same_field k (some b) (some a) =
    require (eqb (normalize_blob b) (normalize_blob a)) (field_changed k)
same_field k _ _ = err (field_added_or_removed k)

-- `afterVal` where the key is missing
abbrev pub or_empty : Option Str → Str
or_empty none = []
or_empty (some s) = s

abbrev pub one_operation : List VaultOperation → Result EnrichError VaultOperation
one_operation (op ∷ []) = ok op
one_operation ops = err (operation_count (length ops))

abbrev pub is_rewrite : OpType → Bool
is_rewrite rewrite_note = true
is_rewrite _ = false

abbrev pub decoded : Option Str → Result EnrichError Str
decoded none = err payload_undecodable
decoded (some content) = ok content

module _ (unicode : Str → Str) (vocab : Option (Str → Bool)) where
  -- the body of the loop over the keys
  unfoldable pub check_field : Str → Option Str → Option Str → Check EnrichError
  check_field k before after =
      if not (elem k enrich_writable_fields)
      then same_field k before after
      else if eqb k tags_key
      then validate_tags_append unicode vocab (parse_yaml_list (or_empty before))
          (parse_yaml_list (or_empty after))
      else if eqb k related_key
      then validate_related_append (parse_yaml_list (or_empty before))
          (parse_yaml_list (or_empty after))
      else ok tt

  -- enrichCheckFieldGuard
  unfoldable pub check_field_guard : Str → Str → Check EnrichError
  check_field_guard before_fm after_fm =
      let before = split_frontmatter_fields before_fm in
      let after = split_frontmatter_fields after_fm in
      each (λ k. check_field k (lookup k before) (lookup k after)) (all_keys before after)

  -- the guards on the contents of the note before and after
  unfoldable pub check_contents : (Str → Str) → Str → Str → Check EnrichError
  check_contents hash before_content content = do
    refuse (is_blank content) content_empty
    let before = split_frontmatter before_content
    require before.found before_unfenced
    let after = split_frontmatter content
    require after.found after_unfenced
    require (eqb (hash before.body) (hash after.body)) body_changed
    check_field_guard before.block after.block

  -- the guards on the only operation
  unfoldable pub check_operation :
      (Str → Str) → Json → VaultOperation → Str → Str → Check EnrichError
  check_operation hash json op expected before_content = do
    require (is_rewrite op.op_type) (operation_type op.op_type)
    require (is_low op.risk_level) (operation_risk_not_low op.risk_level)
    require (eqb op.target_path expected) (other_target op.target_path expected)
    wrap unsafe_target (validate_relative_vault_path op.target_path)
    wrap bad_hash (validate_mutating_before_hash op)
    content ← decoded (json.decode_create op.payload_json)
    check_contents hash before_content content

  -- CheckEnrichPlan
  unfoldable pub check_enrich_plan : (Str → Str) → Json → VaultPlan → Str → Str → Check EnrichError
  check_enrich_plan hash json plan expected before_content = do
    require (is_low plan.risk_level) (risk_not_low plan.risk_level)
    refuse plan.requires_approval needs_approval
    op ← one_operation plan.operations
    check_operation hash json op expected before_content
