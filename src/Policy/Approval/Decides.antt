-- ===== src/Policy/Approval/Decides.antt =====
-- `CheckForApproval` and `CheckApproved` decide what their specification says.
use open_whisker.Prelude.{
  ◌↔◌, List, Passes, Passes-refuse, Passes-require, Passes-seq, Passes-if, Passes-each, ↔-trans,
}
use open_whisker.Prelude.Text.{Str, codes, trim_space, is_empty, contains}
use open_whisker.Prelude.Text.Search.{contains-Occurs}
use open_whisker.Model.{
  VaultOperation, VaultPlan, Json, MoveNotePayload, OpType, create_note, append_note, move_note,
  is_medium,
}
use open_whisker.Markdown
use open_whisker.Markdown.{split_frontmatter, parse, scalar, has_list_value}
use open_whisker.Policy.Conventions.{Conventions, normalize}
use open_whisker.Policy.Errors.{
  draft_key_missing, draft_tag_missing, draft_processed_path, draft_processed_outside,
  draft_link_missing,
}
use open_whisker.Policy.Payload.{
  validate_mutating_before_hash, validate_knowledge_draft_payload, draft_keys, wikilink,
  validate_processing_note, path_referenced_in_note, any_referenced,
}
use open_whisker.Policy.Hashes.{validate_mutating_before_hash-IsSha256}
use open_whisker.Policy.Rules.{
  Passes-path, Passes-IsUnder, Passes-content, Passes-decoded, Passes-listed,
}
use open_whisker.Policy.Approval.Spec.{
  IsDraft, IsProcessingNote, MayPropose, IsApprovableOperation, IsApprovable, IsApplicable,
  NeedsHash, check_plan_fields-HasPlanFields, check_operation_fields-HasFields,
}
use open_whisker.Policy.Approval.{
  check_type, check_operation, check_for_approval, knowledge_targets, check_hash, check_approved,
  is_approved, is_mutating,
}

module _ (c : Conventions) where
  validate_knowledge_draft_payload-IsDraft :
      (op : VaultOperation) (content : Str)
      → Passes (validate_knowledge_draft_payload op content c) ↔ IsDraft c (trim_space content)
  unfolding validate_knowledge_draft_payload
  validate_knowledge_draft_payload-IsDraft op content =
      let text = trim_space content in
      let fm = split_frontmatter text in
      let doc = parse fm.block in
      let processed = scalar doc (codes "processed_path") in
      Passes-seq _ _ (Passes-refuse (is_empty text) _) (
        Passes-seq _ _ (Passes-require fm.found _) (
          Passes-seq _ _
            (Passes-each _
              (λ key. Passes-require (Markdown.has doc key) (draft_key_missing op.id key))
              draft_keys)
            (Passes-seq _ _ (Passes-path (draft_processed_path op.id) processed) (
              Passes-seq _ _
                (Passes-IsUnder (draft_processed_outside op.id processed) processed
                  c.raw_processed_dir)
                (Passes-seq _ _
                  (Passes-each _
                    (λ tag.
                      Passes-require (has_list_value doc (codes "tags") tag)
                        (draft_tag_missing op.id tag))
                    c.required_draft_tags)
                  (↔-trans
                    (Passes-require (contains fm.body (wikilink processed))
                      (draft_link_missing op.id))
                    (contains-Occurs fm.body (wikilink processed))))))))

  validate_processing_note-IsProcessingNote :
      (op : VaultOperation) (payload : MoveNotePayload) (knowledge : List Str)
      → Passes (validate_processing_note op payload knowledge)
        ↔ IsProcessingNote (trim_space payload.processing_note) payload.destination_path knowledge
  unfolding validate_processing_note
  validate_processing_note-IsProcessingNote op payload knowledge =
      let note = trim_space payload.processing_note in
      Passes-seq _ _ (Passes-refuse (is_empty note) _) (
        Passes-seq _ _ (Passes-require (path_referenced_in_note note payload.destination_path) _)
          (Passes-require (any_referenced note knowledge) _))

module _ (json : Json) (c : Conventions) (targets : List Str) where
  check_type-MayPropose :
      (t : OpType) (op : VaultOperation)
      → Passes (check_type json c targets t op) ↔ MayPropose json c targets t op
  unfolding check_type
  check_type-MayPropose create_note op =
      Passes-seq _ _ (Passes-IsUnder _ op.target_path c.knowledge_draft_dir) (
        Passes-decoded create_note op.id (json.decode_create op.payload_json) _
          (validate_knowledge_draft_payload-IsDraft c op))
  check_type-MayPropose append_note op =
      Passes-seq _ _ (Passes-IsUnder _ op.target_path c.knowledge_dir)
        (Passes-content append_note op.id (json.decode_append op.payload_json))
  check_type-MayPropose move_note op =
      Passes-seq _ _ (Passes-IsUnder _ op.target_path c.raw_inbox_dir) (
        Passes-decoded move_note op.id (json.decode_move op.payload_json) _ (λ payload.
          Passes-seq _ _ (Passes-path _ payload.destination_path) (
            Passes-seq _ _ (Passes-IsUnder _ payload.destination_path c.raw_processed_dir) (
              Passes-seq _ _ (Passes-listed _ payload.destination_path targets) (
                validate_processing_note-IsProcessingNote c op payload
                  (knowledge_targets c targets))))))
  check_type-MayPropose _ op = (λ h. cc, λ h. absurd h)

  check_operation-IsApprovableOperation :
      (op : VaultOperation)
      → Passes (check_operation json c targets op) ↔ IsApprovableOperation json c targets op
  unfolding check_operation
  check_operation-IsApprovableOperation op = Passes-seq _ _ (check_operation_fields-HasFields op) (
      Passes-seq _ _ (Passes-require (is_medium op.risk_level) _) (
        Passes-seq _ _ (Passes-path _ op.target_path) (
          Passes-seq _ _ (Passes-listed _ op.target_path targets)
            (check_type-MayPropose op.op_type op))))

-- `CheckForApproval` returns no error exactly for the plans that a user may approve.
pub check_for_approval-IsApprovable :
    (unicode : Str → Str) (json : Json) (conventions : Conventions) (plan : VaultPlan)
    → Passes (check_for_approval unicode json conventions plan)
      ↔ IsApprovable json (normalize unicode conventions) plan
unfolding check_for_approval
check_for_approval-IsApprovable unicode json conventions plan =
    let c = normalize unicode conventions in
    Passes-seq _ _ (Passes-require (is_medium plan.risk_level) _) (
      Passes-seq _ _ (check_plan_fields-HasPlanFields plan) (
        Passes-each (check_operation json c plan.target_paths)
          (check_operation-IsApprovableOperation json c plan.target_paths) plan.operations))

check_hash-NeedsHash : (op : VaultOperation) → Passes (check_hash op) ↔ NeedsHash op
unfolding check_hash
check_hash-NeedsHash op =
    Passes-if (is_mutating op.op_type) (validate_mutating_before_hash op)
      (validate_mutating_before_hash-IsSha256 op)

-- `CheckApproved` returns no error exactly for the approvable plans that are approved or being
-- applied and whose changing operations carry the hash of the note that they change.
pub check_approved-IsApplicable :
    (unicode : Str → Str) (json : Json) (conventions : Conventions) (plan : VaultPlan)
    → Passes (check_approved unicode json conventions plan)
      ↔ IsApplicable json (normalize unicode conventions) plan
unfolding check_approved
check_approved-IsApplicable unicode json conventions plan =
    Passes-seq _ _ (Passes-require (is_approved plan.status) _) (
      Passes-seq _ _ (check_for_approval-IsApprovable unicode json conventions plan)
        (Passes-each check_hash check_hash-NeedsHash plan.operations))
