-- ===== src/EnrichPolicy/Additions.antt =====
-- internal/policy/enrich.go: the tags and the related notes that an enrichment may add.
use open_whisker.Prelude.{
  ℕ, ltb, Bool, true, false, ◌||◌, ◌&&◌, Option, none, some, List, [], ◌∷◌, length, Check, ok, err,
  ◌>>◌, require, refuse, each, if◌then◌else◌,
}
use open_whisker.Prelude.Text.{
  Str, codes, eqb, elem, is_empty, has_prefix, has_suffix, to_lower, trim_space, trim_of,
}
use open_whisker.Model.{enrich_related_append_max, Risk, OpType}
use open_whisker.VaultPath.{PathError}
use open_whisker.Policy.Errors.{CheckError}
use open_whisker.EnrichPolicy.Fields.{is_quote}

-- the errors of `CheckEnrichPlan`
pub data EnrichError : Type 0 where
  risk_not_low operation_risk_not_low : Risk → EnrichError
  needs_approval tag_removed related_removed tag_empty : EnrichError
  operation_count : ℕ → EnrichError
  operation_type : OpType → EnrichError
  other_target : Str → Str → EnrichError
  unsafe_target : PathError → EnrichError
  bad_hash : CheckError → EnrichError
  payload_undecodable content_empty before_unfenced after_unfenced body_changed : EnrichError
  field_added_or_removed field_changed : Str → EnrichError
  tag_unknown tag_status tag_forbidden tag_without_prefix not_wikilink : Str → EnrichError
  too_many_related : ℕ → EnrichError

-- setSubset
unfoldable pub set_subset : List Str → List Str → Bool
set_subset [] big = true
set_subset (v ∷ small) big = elem v big && set_subset small big

-- the loop of `setDiff`, with the values that it has seen
unfoldable pub diff_from : List Str → List Str → List Str → List Str
diff_from seen [] before = []
diff_from seen (v ∷ after) before =
    let skip = elem v before || elem v seen in
    let rest = diff_from (if skip then seen else v ∷ seen) after before in
    if skip then rest else v ∷ rest

-- setDiff
unfoldable pub set_diff : List Str → List Str → List Str
set_diff after before = diff_from [] after before

-- `strings.HasPrefix(clean, p) && len(clean) > len(p)`
unfoldable pub has_topic : Str → Str → Bool
has_topic clean p = has_prefix clean p && ltb (length p) (length clean)

-- `vocab != nil && vocab.HasTag(clean)`
abbrev pub in_vocab : Option (Str → Bool) → Str → Bool
in_vocab none clean = false
in_vocab (some has_tag) clean = has_tag clean

-- the `switch` of `enrichValidateTagsAppend` on a tag in lower case
unfoldable pub check_clean_tag : Option (Str → Bool) → Str → Str → Check EnrichError
check_clean_tag vocab tag clean =
    if has_topic clean (codes "topic/")
    then require (in_vocab vocab clean) (tag_unknown tag)
    else if has_topic clean (codes "skill/")
    then require (in_vocab vocab clean) (tag_unknown tag)
    else if eqb clean (codes "status/needs-review")
    then ok tt
    else if has_prefix clean (codes "status/")
    then err (tag_status tag)
    else if has_topic clean (codes "raw/")
    then ok tt
    else if has_prefix clean (codes "type/") || has_prefix clean (codes "interview/")
    then err (tag_forbidden tag)
    else err (tag_without_prefix tag)

-- the body of the loop over the added tags
unfoldable pub check_tag : (Str → Str) → Option (Str → Bool) → Str → Check EnrichError
check_tag unicode vocab tag = do
  refuse (is_empty (to_lower unicode (trim_space tag))) tag_empty
  check_clean_tag vocab tag (to_lower unicode (trim_space tag))

-- enrichValidateTagsAppend
unfoldable pub validate_tags_append :
    (Str → Str) → Option (Str → Bool) → List Str → List Str → Check EnrichError
validate_tags_append unicode vocab before after = do
  require (set_subset before after) tag_removed
  each (check_tag unicode vocab) (set_diff after before)

unfoldable pub is_wikilink : Str → Bool
is_wikilink item =
    let trimmed = trim_of is_quote (trim_space item) in
    has_prefix trimmed (codes "[[") && has_suffix trimmed (codes "]]")

-- enrichValidateRelatedAppend
unfoldable pub validate_related_append : List Str → List Str → Check EnrichError
validate_related_append before after = do
  require (set_subset before after) related_removed
  let added = set_diff after before
  refuse (ltb enrich_related_append_max (length added)) (too_many_related (length added))
  each (λ item. require (is_wikilink item) (not_wikilink item)) added
