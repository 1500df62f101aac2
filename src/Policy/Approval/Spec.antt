-- ===== src/Policy/Approval/Spec.antt =====
-- What a medium-risk plan must be for a user to approve it, and that the checks decide it.
use mathlib.Core.List.{Memᴰ}
use open_whisker.Prelude.{
  true, false, ◌≡◌, ◌↔◌, List, All, Passes, Passes-refuse, Passes-require, Passes-seq, Passes-each,
}
use open_whisker.Prelude.Text.{Str, codes, trim_space, is_blank, is_empty}
use open_whisker.Prelude.Text.Search.{Occurs}
use open_whisker.Model.{
  VaultOperation, VaultPlan, Json, MoveNotePayload, OpType, create_note, append_note, move_note,
  is_medium,
}
use open_whisker.VaultPath.Safe.{IsSafePath}
use open_whisker.VaultPath.Dirs.{IsUnder}
use open_whisker.Markdown
use open_whisker.Markdown.{split_frontmatter, parse, scalar, has_list_value}
use open_whisker.Policy.Conventions.{Conventions}
use open_whisker.Policy.Payload.{draft_keys, wikilink, path_referenced_in_note, any_referenced}
use open_whisker.Policy.Hashes.{IsSha256}
use open_whisker.Policy.LowRisk.{is_nil}
use open_whisker.Policy.Rules.{Holds, IsNamed, Passes-path}
use open_whisker.Policy.Approval.{
  check_plan_fields, check_operation_fields, knowledge_targets, is_approved, is_mutating,
}

-- The note of a draft: frontmatter with all keys and tags that the profile asks for, a processed
-- path in its directory, and a link to that path in the body.
abbrev pub IsDraft : Conventions → Str → Type 0
IsDraft c content =
    let fm = split_frontmatter content in
    let doc = parse fm.block in
    let processed = scalar doc (codes "processed_path") in
    (is_empty content ≡ false)
    × ((fm.found ≡ true)
        × (All (λ key. Markdown.has doc key ≡ true) draft_keys
            × (IsSafePath processed
                × (IsUnder c.raw_processed_dir processed
                    × (All (λ tag. has_list_value doc (codes "tags") tag ≡ true)
                          c.required_draft_tags
                        × Occurs (wikilink processed) fm.body)))))

-- A processing note that is not blank and refers to the destination and to a Knowledge target.
abbrev pub IsProcessingNote : Str → Str → List Str → Type 0
IsProcessingNote note destination knowledge =
    (is_empty note ≡ false)
    × ((path_referenced_in_note note destination ≡ true) × (any_referenced note knowledge ≡ true))

abbrev pub IsMove : Conventions → List Str → MoveNotePayload → Type 0
IsMove c targets payload =
    IsSafePath payload.destination_path
    × (IsUnder c.raw_processed_dir payload.destination_path
        × (Memᴰ payload.destination_path targets
            × IsProcessingNote (trim_space payload.processing_note) payload.destination_path
                (knowledge_targets c targets)))

-- What the type of an operation asks of it.
abbrev pub MayPropose : Json → Conventions → List Str → OpType → VaultOperation → Type 0
MayPropose json c targets create_note op =
    IsUnder c.knowledge_draft_dir op.target_path
    × Holds (λ content. IsDraft c (trim_space content)) (json.decode_create op.payload_json)
MayPropose json c targets append_note op =
    IsUnder c.knowledge_dir op.target_path × Holds IsNamed (json.decode_append op.payload_json)
MayPropose json c targets move_note op =
    IsUnder c.raw_inbox_dir op.target_path
    × Holds (IsMove c targets) (json.decode_move op.payload_json)
MayPropose json c targets _ op = ⊥

abbrev pub HasFields : VaultOperation → Type 0
HasFields op = IsNamed op.id × (IsNamed op.reason × IsNamed op.payload_json)

abbrev pub IsApprovableOperation : Json → Conventions → List Str → VaultOperation → Type 0
IsApprovableOperation json c targets op =
    HasFields op
    × ((is_medium op.risk_level ≡ true)
        × (IsSafePath op.target_path
            × (Memᴰ op.target_path targets × MayPropose json c targets op.op_type op)))

abbrev pub HasPlanFields : VaultPlan → Type 0
HasPlanFields plan =
    (plan.requires_approval ≡ true)
    × (IsNamed plan.id
        × (IsNamed plan.job_id
            × (IsNamed plan.summary
                × ((is_nil plan.source_refs ≡ false)
                    × (All IsNamed plan.source_refs
                        × ((is_nil plan.target_paths ≡ false)
                            × (All IsSafePath plan.target_paths
                                × (is_nil plan.operations ≡ false))))))))

-- A medium-risk plan that requires approval, complete, whose operations stay in the plan's target
-- paths and in the directories that their types may write.
abbrev pub IsApprovable : Json → Conventions → VaultPlan → Type 0
IsApprovable json c plan =
    (is_medium plan.risk_level ≡ true)
    × (HasPlanFields plan × All (IsApprovableOperation json c plan.target_paths) plan.operations)

-- An operation that changes a note carries the hash of the note.
abbrev pub NeedsHash : VaultOperation → Type 0
NeedsHash op = is_mutating op.op_type ≡ true → IsSha256 (trim_space op.before_hash)

abbrev pub IsApplicable : Json → Conventions → VaultPlan → Type 0
IsApplicable json c plan =
    (is_approved plan.status ≡ true) × (IsApprovable json c plan × All NeedsHash plan.operations)

pub check_plan_fields-HasPlanFields :
    (plan : VaultPlan) → Passes (check_plan_fields plan) ↔ HasPlanFields plan
unfolding check_plan_fields
check_plan_fields-HasPlanFields plan = Passes-seq _ _ (Passes-require plan.requires_approval _) (
    Passes-seq _ _ (Passes-refuse (is_blank plan.id) _) (
      Passes-seq _ _ (Passes-refuse (is_blank plan.job_id) _) (
        Passes-seq _ _ (Passes-refuse (is_blank plan.summary) _) (
          Passes-seq _ _ (Passes-refuse (is_nil plan.source_refs) _) (
            Passes-seq _ _ (Passes-each _ (λ ref. Passes-refuse (is_blank ref) _) plan.source_refs)
              (Passes-seq _ _ (Passes-refuse (is_nil plan.target_paths) _) (
                Passes-seq _ _ (Passes-each _ (λ path. Passes-path _ path) plan.target_paths)
                  (Passes-refuse (is_nil plan.operations) _))))))))

pub check_operation_fields-HasFields :
    (op : VaultOperation) → Passes (check_operation_fields op) ↔ HasFields op
unfolding check_operation_fields
check_operation_fields-HasFields op = Passes-seq _ _ (Passes-refuse (is_blank op.id) _) (
    Passes-seq _ _ (Passes-refuse (is_blank op.reason) _)
      (Passes-refuse (is_blank op.payload_json) _))
