-- ===== src/Policy/Proposal.antt =====
-- internal/policy/checker.go: ClassifyProposalKind, which names the proposal note of a high-risk plan.
pub mod Total
use open_whisker.Prelude.{
  ◌≡◌, refl, ℕ, zero, suc, ◌+◌, ltb, ◌==◌, Bool, true, false, ◌&&◌, ◌||◌, Option, none, some, List,
  [], ◌∷◌, length, reverse, Result, ok, err, if◌then◌else◌,
}
use open_whisker.Prelude.Text.{Str, codes, eqb, elem, trim_space}
use open_whisker.Model.{
  Risk, OpType, rename_note, bulk_retag, bulk_link_rewrite, VaultOperation, VaultPlan, Json,
  is_high, ProposalKind, split_kind, merge_kind, rename_kind, bulk_retag_kind,
  bulk_link_rewrite_kind, RenameNotePayload,
}
use open_whisker.Policy.Errors.{CheckError, plan_risk, nothing_to_classify}

abbrev pub is_rename : OpType → Bool
is_rename rename_note = true
is_rename _ = false

abbrev pub is_retag : OpType → Bool
is_retag bulk_retag = true
is_retag _ = false

abbrev pub is_link_rewrite : OpType → Bool
is_link_rewrite bulk_link_rewrite = true
is_link_rewrite _ = false

-- `renameCount`, `retagCount` and `linkRewriteCount`, one for each test
unfoldable pub count : (OpType → Bool) → List VaultOperation → ℕ
count f [] = 0
count f (op ∷ ops) = let rest = count f ops in if f op.op_type then suc rest else rest

-- what stands before the last `c` in a text that is read backwards, and what stands after it
unfoldable pub cut_last : ℕ → Str → Option (Str × Str)
cut_last c [] = none
cut_last c (d ∷ s) = let rest = cut_last c s in if d == c then some ([], s) else extend d rest
  where
    extend : ℕ → Option (Str × Str) → Option (Str × Str)
    extend d none = none
    extend d (some (after, before)) = some (d ∷ after, before)

unfoldable pub kind_of_text : Str → Option ProposalKind
kind_of_text s =
    if eqb s (codes "split")
    then some split_kind
    else if eqb s (codes "merge")
    then some merge_kind
    else if eqb s (codes "rename")
    then some rename_kind
    else if eqb s (codes "bulk-retag")
    then some bulk_retag_kind
    else if eqb s (codes "bulk-link-rewrite")
    then some bulk_link_rewrite_kind
    else none

has_byte : ℕ → Str → Bool
has_byte c [] = false
has_byte c (d ∷ s) = d == c || has_byte c s

-- The text between the last `(` and the last `)`, if the `(` comes first: `after` is what follows the
-- last `)`, both in reverse.
unfoldable pub between_last : Str → Option Str
unfolding has_byte
between_last purpose = elim (cut_last 41 (reverse purpose)) [
  | none ↦ none
  | some (after, before) ↦
      if has_byte 40 after
      then none
      else elim (cut_last 40 before) [ none ↦ none | some (inside, start) ↦ some (reverse inside) ]
]

-- proposalKindFromPurpose
unfoldable pub proposal_kind_from_purpose : Str → Option ProposalKind
proposal_kind_from_purpose purpose = elim (between_last purpose) [
  | none ↦ none
  | some kind ↦ kind_of_text (trim_space kind)
]

-- the keys of `destinations`; `none` for a payload that does not decode
unfoldable pub destinations : Json → List VaultOperation → Option (List Str)
destinations json [] = some []
destinations json (op ∷ ops) =
    let rest = destinations json ops in
    if is_rename op.op_type then insert (json.decode_rename op.payload_json) rest else rest
  where
    insert : Option RenameNotePayload → Option (List Str) → Option (List Str)
    insert none rest = none
    insert (some payload) none = none
    insert (some payload) (some keys) =
        if elem payload.destination_path keys
        then some keys
        else some (payload.destination_path ∷ keys)

-- mergeOrSplitKind
unfoldable pub merge_or_split_kind : Json → VaultPlan → ProposalKind
merge_or_split_kind json plan = elim (destinations json plan.operations) [
  | none ↦ rename_kind
  | some keys ↦ if length keys == 1 then merge_kind else split_kind
]

-- the `switch` of `ClassifyProposalKind` on the three counts
unfoldable pub kind_of_counts : ℕ → ℕ → ℕ → ProposalKind → Option ProposalKind
kind_of_counts renames retags rewrites by_destinations =
    if ltb 0 retags && renames == 0 && rewrites == 0
    then some bulk_retag_kind
    else if ltb 0 rewrites && renames == 0 && retags == 0
    then some bulk_link_rewrite_kind
    else if renames == 1 && retags == 0 && rewrites == 0
    then some rename_kind
    else if ltb 1 renames && retags == 0 && rewrites == 0
    then some by_destinations
    else if ltb 0 renames || ltb 0 retags || ltb 0 rewrites
    then some rename_kind
    else none

abbrev pub or_nothing : Option ProposalKind → Result CheckError ProposalKind
or_nothing none = err nothing_to_classify
or_nothing (some kind) = ok kind

unfoldable pub classify_operations : Json → VaultPlan → Result CheckError ProposalKind
classify_operations json plan = or_nothing (
    kind_of_counts (count is_rename plan.operations) (count is_retag plan.operations)
      (count is_link_rewrite plan.operations) (merge_or_split_kind json plan))

-- `if hinted := …; hinted != "" { return hinted, nil }`
abbrev pub or_counted :
    Option ProposalKind → Result CheckError ProposalKind → Result CheckError ProposalKind
or_counted none counted = counted
or_counted (some kind) counted = ok kind

-- ClassifyProposalKind
unfoldable pub classify_proposal_kind : Json → VaultPlan → Result CheckError ProposalKind
classify_proposal_kind json plan =
    let counted = classify_operations json plan in
    if is_high plan.risk_level
    then or_counted (proposal_kind_from_purpose plan.purpose) counted
    else err (plan_risk plan.risk_level)
