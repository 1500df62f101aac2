-- ===== src/Policy/HighRisk/Spec.antt =====
-- What a high-risk plan must be for a user to approve its proposal note, and that the check decides
-- it.
use open_whisker.Prelude.{
  ℕ, Bool, true, false, ◌≤◌, ◌≡◌, ◌↔◌, refl, arith, List, [], ◌∷◌, All, Passes, Passes-refuse,
  Passes-require, Passes-seq, Passes-each, ↔-trans, ltb, length, refuse, ◌&&◌,
}
use open_whisker.Prelude.Text.{Str, eqb}
use open_whisker.Prelude.Text.Laws.{eqb_iff}
use open_whisker.Model.{
  VaultOperation, VaultPlan, Json, RenameNotePayload, BulkRetagPayload, BulkLinkRewritePayload,
  OpType, rename_note, bulk_retag, bulk_link_rewrite, is_high, proposal_bulk_affects_threshold,
}
use open_whisker.VaultPath.{has_dir_prefix}
use open_whisker.VaultPath.Safe.{IsSafePath}
use open_whisker.VaultPath.Dirs.{IsUnder, has_dir_prefix-IsUnder}
use open_whisker.Policy.Conventions.{Conventions, normalize}
use open_whisker.Policy.Errors.{CheckError}
use open_whisker.Policy.LowRisk.{is_nil}
use open_whisker.Policy.Rules.{Holds, Passes-path, Passes-IsUnder, Passes-decoded}
use open_whisker.Policy.Approval.Spec.{
  HasFields, HasPlanFields, check_plan_fields-HasPlanFields, check_operation_fields-HasFields,
}
use open_whisker.Policy.HighRisk.{
  check_type, check_operation, check_affected, check_for_approval_high_risk,
}

-- A rename of the target itself, from a Knowledge note that is no draft, to a safe path.
abbrev pub IsRename : Conventions → Str → RenameNotePayload → Type 0
IsRename c target payload =
    IsSafePath payload.source_path
    × (IsSafePath payload.destination_path
        × (IsUnder c.knowledge_dir payload.source_path
            × (¬ IsUnder c.knowledge_draft_dir payload.source_path
                × (payload.source_path ≡ target))))

-- At least five safe paths and at least one tag to add or to remove.
abbrev pub IsRetag : BulkRetagPayload → Type 0
IsRetag payload =
    (proposal_bulk_affects_threshold ≤ length payload.affected_paths)
    × (¬ ((payload.add_tags ≡ []) × (payload.remove_tags ≡ []))
        × All IsSafePath payload.affected_paths)

abbrev pub IsLinkRewrite : BulkLinkRewritePayload → Type 0
IsLinkRewrite payload =
    IsSafePath payload.from_path
    × (IsSafePath payload.to_path
        × ((proposal_bulk_affects_threshold ≤ length payload.affected_paths)
            × All IsSafePath payload.affected_paths))

abbrev pub MayRestructure : Json → Conventions → OpType → VaultOperation → Type 0
MayRestructure json c rename_note op =
    Holds (IsRename c op.target_path) (json.decode_rename op.payload_json)
MayRestructure json c bulk_retag op = Holds IsRetag (json.decode_retag op.payload_json)
MayRestructure json c bulk_link_rewrite op =
    Holds IsLinkRewrite (json.decode_link_rewrite op.payload_json)
MayRestructure json c _ op = ⊥

abbrev pub IsHighRiskOperation : Json → Conventions → VaultOperation → Type 0
IsHighRiskOperation json c op =
    HasFields op
    × ((is_high op.risk_level ≡ true)
        × (IsSafePath op.target_path × MayRestructure json c op.op_type op))

abbrev pub IsHighRiskPlan : Json → Conventions → VaultPlan → Type 0
IsHighRiskPlan json c plan =
    (is_high plan.risk_level ≡ true)
    × (HasPlanFields plan × All (IsHighRiskOperation json c) plan.operations)

Passes-not-IsUnder :
    (e : CheckError) (path dir : Str)
    → Passes (refuse (has_dir_prefix path dir) e) ↔ (¬ IsUnder dir path)
Passes-not-IsUnder e path dir =
    let i = has_dir_prefix-IsUnder path dir in
    let r = Passes-refuse (has_dir_prefix path dir) e in
    (λ h u. cc (r.0 h, i.1 u), λ n. r.1 (not_true (has_dir_prefix path dir) (λ t. n (i.0 t))))
  where
    not_true : (b : Bool) → (b ≡ true → ⊥) → b ≡ false
    not_true true h = absurd (h refl)
    not_true false h = refl

enough_iff :
    (n : ℕ)
    → (ltb n proposal_bulk_affects_threshold ≡ false) ↔ (proposal_bulk_affects_threshold ≤ n)
enough_iff n = (λ h. ground arith, λ h. ground arith)

some_tag_iff : (xs ys : List Str) → ((is_nil xs && is_nil ys) ≡ false) ↔ (¬ ((xs ≡ []) × (ys ≡ [])))
some_tag_iff [] [] = (λ h. cc, λ n. absurd (n (refl, refl)))
some_tag_iff [] (y ∷ ys) = (λ h (a, b). cc b, λ n. refl)
some_tag_iff (x ∷ xs) ys = (λ h (a, b). cc a, λ n. refl)

check_affected-safe :
    (op : VaultOperation) (paths : List Str)
    → Passes (check_affected op paths) ↔ All IsSafePath paths
unfolding check_affected
check_affected-safe op paths =
    Passes-each _ (λ p. Passes-path (CheckError.affected_invalid op.id) p) paths

Passes-enough :
    (e : CheckError) (paths : List Str)
    → Passes (refuse (ltb (length paths) proposal_bulk_affects_threshold) e)
      ↔ (proposal_bulk_affects_threshold ≤ length paths)
Passes-enough e paths = ↔-trans (Passes-refuse _ e) (enough_iff (length paths))

module _ (json : Json) (c : Conventions) where
  check_type-MayRestructure :
      (t : OpType) (op : VaultOperation)
      → Passes (check_type json c t op) ↔ MayRestructure json c t op
  unfolding check_type
  check_type-MayRestructure rename_note op =
      Passes-decoded rename_note op.id (json.decode_rename op.payload_json) _ (λ p.
        Passes-seq _ _ (Passes-path _ p.source_path) (
          Passes-seq _ _ (Passes-path _ p.destination_path) (
            Passes-seq _ _ (Passes-IsUnder _ p.source_path c.knowledge_dir) (
              Passes-seq _ _ (Passes-not-IsUnder _ p.source_path c.knowledge_draft_dir) (
                ↔-trans (Passes-require (eqb p.source_path op.target_path) _)
                  (eqb_iff p.source_path op.target_path))))))
  check_type-MayRestructure bulk_retag op =
      Passes-decoded bulk_retag op.id (json.decode_retag op.payload_json) _ (λ p.
        Passes-seq _ _ (Passes-enough _ p.affected_paths) (
          Passes-seq _ _
            (↔-trans (Passes-refuse (is_nil p.add_tags && is_nil p.remove_tags) _)
              (some_tag_iff p.add_tags p.remove_tags))
            (check_affected-safe op p.affected_paths)))
  check_type-MayRestructure bulk_link_rewrite op =
      Passes-decoded bulk_link_rewrite op.id (json.decode_link_rewrite op.payload_json) _ (λ p.
        Passes-seq _ _ (Passes-path _ p.from_path) (
          Passes-seq _ _ (Passes-path _ p.to_path) (
            Passes-seq _ _ (Passes-enough _ p.affected_paths)
              (check_affected-safe op p.affected_paths))))
  check_type-MayRestructure _ op = (λ h. cc, λ h. absurd h)

  check_operation-IsHighRiskOperation :
      (op : VaultOperation) → Passes (check_operation json c op) ↔ IsHighRiskOperation json c op
  unfolding check_operation
  check_operation-IsHighRiskOperation op = Passes-seq _ _ (check_operation_fields-HasFields op) (
      Passes-seq _ _ (Passes-require (is_high op.risk_level) _)
        (Passes-seq _ _ (Passes-path _ op.target_path) (check_type-MayRestructure op.op_type op)))

-- `CheckForApprovalHighRisk` returns no error exactly for the high-risk plans of its specification.
pub check_for_approval_high_risk-IsHighRiskPlan :
    (unicode : Str → Str) (json : Json) (conventions : Conventions) (plan : VaultPlan)
    → Passes (check_for_approval_high_risk unicode json conventions plan)
      ↔ IsHighRiskPlan json (normalize unicode conventions) plan
unfolding check_for_approval_high_risk
check_for_approval_high_risk-IsHighRiskPlan unicode json conventions plan =
    let c = normalize unicode conventions in
    Passes-seq _ _ (Passes-require (is_high plan.risk_level) _) (
      Passes-seq _ _ (check_plan_fields-HasPlanFields plan) (
        Passes-each (check_operation json c) (check_operation-IsHighRiskOperation json c)
          plan.operations))
