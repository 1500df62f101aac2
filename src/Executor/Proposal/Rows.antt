-- ===== src/Executor/Proposal/Rows.antt =====
-- internal/executor/proposal_note.go: BuildAffectedRows. A slice of an empty list, which stops the
-- program, is an error here.
use open_whisker.Prelude.{
  String, ◌||◌, Option, none, some, List, [], ◌∷◌, ◌++◌, Result, ok, err, ◌>>=◌, if◌then◌else◌,
}
use open_whisker.Prelude.Text.{Str, codes, is_empty, is_blank, elem, trim_space}
use open_whisker.Prelude.Text.Utf8.{utf8, join_with}
use open_whisker.Model.{
  VaultPlan, VaultOperation, Json, RenameNotePayload, BulkRetagPayload, BulkLinkRewritePayload,
  ProposalKind, split_kind, merge_kind, rename_kind, bulk_retag_kind, bulk_link_rewrite_kind,
}
use open_whisker.Executor.Errors.{ExecutorError, other_error}

-- AffectedRow
pub record AffectedRow : Type 0 where
  pub action : ProposalKind
  pub source : Str
  pub target : Str
  pub rationale : Str

abbrev pub error : String → ExecutorError
error text = other_error (codes text)

-- a payload of the type that is named
abbrev pub payload_of : {A : Type 0} → String → VaultOperation → Option A → Result ExecutorError A
payload_of name op none =
    err (other_error (codes "decode " ++ codes name ++ codes " payload for " ++ op.id))
payload_of name op (some payload) = ok payload

-- joinNonEmpty
unfoldable pub non_blank : List Str → List Str
non_blank [] = []
non_blank (v ∷ values) = let rest = non_blank values in if is_blank v then rest else v ∷ rest

unfoldable pub join_non_empty : Str → List Str → Str
join_non_empty sep values = join_with sep (non_blank values)

abbrev pub semicolon : Str
semicolon = utf8 "；"

abbrev part_of : String → List Str → List Str
part_of name [] = []
part_of name (t ∷ tags) = (utf8 name ++ join_with (codes ", ") (t ∷ tags)) ∷ []

-- bulkRetagTagSummary
unfoldable pub bulk_retag_tag_summary : List Str → List Str → Str
bulk_retag_tag_summary add remove = join_with semicolon (part_of "新增 " add ++ part_of "移除 " remove)

-- `slice[1:]`
abbrev pub tail_of : {A : Type 0} → List A → Result ExecutorError (List A)
tail_of [] = err (error "slice bounds out of range")
tail_of (x ∷ xs) = ok xs

-- the loop over the destinations of a split or a merge, with the paths that it has seen
unfoldable pub rows_from : ProposalKind → Str → Str → List Str → List Str → List AffectedRow
rows_from kind source rationale seen [] = []
rows_from kind source rationale seen (t ∷ targets) =
    let skip = is_empty t || elem t seen in
    let rest = rows_from kind source rationale (if skip then seen else t ∷ seen) targets in
    if skip
    then rest
    else record { action = kind; source = source; target = t; rationale = rationale } ∷ rest

abbrev pub or_renamed : AffectedRow → List AffectedRow → List AffectedRow
or_renamed row [] = row ∷ []
or_renamed row (r ∷ rows) = r ∷ rows

abbrev renamed_row : ProposalKind → RenameNotePayload → AffectedRow
renamed_row kind payload = record {
  action = kind;
  source = payload.source_path;
  target = payload.destination_path;
  rationale = trim_space payload.reason;
}

unfoldable pub bulk_rows : ProposalKind → Str → List Str → List AffectedRow
bulk_rows kind rationale [] = []
bulk_rows kind rationale (p ∷ paths) =
    record { action = kind; source = p; target = p; rationale = rationale }
    ∷ bulk_rows kind rationale paths

abbrev retag_rationale : BulkRetagPayload → Str
retag_rationale payload =
    join_non_empty semicolon
      (bulk_retag_tag_summary payload.add_tags payload.remove_tags ∷ trim_space payload.reason ∷ [])

abbrev rewrite_rationale : BulkLinkRewritePayload → Str
rewrite_rationale payload = join_non_empty semicolon (
    (utf8 "链接 " ++ payload.from_path ++ utf8 " → " ++ payload.to_path)
    ∷ trim_space payload.reason
    ∷ [])

module _ (json : Json) (plan : VaultPlan) where
  -- the rows of a split or a merge
  unfoldable pub spread_rows :
      ProposalKind → VaultOperation → Result ExecutorError (List AffectedRow)
  spread_rows kind op = do
    payload ← payload_of "rename" op (json.decode_rename op.payload_json)
    targets ← tail_of plan.target_paths
    ok (
        or_renamed (renamed_row kind payload) (
          rows_from kind payload.source_path (trim_space payload.reason) (payload.source_path ∷ [])
            targets))

  -- the `switch` of `BuildAffectedRows`
  unfoldable pub rows_of : VaultOperation → ProposalKind → Result ExecutorError (List AffectedRow)
  rows_of op split_kind = spread_rows split_kind op
  rows_of op merge_kind = spread_rows merge_kind op
  rows_of op rename_kind = do
    payload ← payload_of "rename" op (json.decode_rename op.payload_json)
    ok (renamed_row rename_kind payload ∷ [])
  rows_of op bulk_retag_kind = do
    payload ← payload_of "bulk_retag" op (json.decode_retag op.payload_json)
    ok (bulk_rows bulk_retag_kind (retag_rationale payload) payload.affected_paths)
  rows_of op bulk_link_rewrite_kind = do
    payload ← payload_of "bulk_link_rewrite" op (json.decode_link_rewrite op.payload_json)
    ok (bulk_rows bulk_link_rewrite_kind (rewrite_rationale payload) payload.affected_paths)

  abbrev pub first_rows :
      ProposalKind → List VaultOperation → Result ExecutorError (List AffectedRow)
  first_rows kind [] = err (error "plan has no operations")
  first_rows kind (op ∷ ops) = rows_of op kind

  -- BuildAffectedRows
  unfoldable pub build_affected_rows : ProposalKind → Result ExecutorError (List AffectedRow)
  build_affected_rows kind = first_rows kind plan.operations
