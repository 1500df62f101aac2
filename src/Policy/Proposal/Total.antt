-- ===== src/Policy/Proposal/Total.antt =====
-- internal/policy/checker.go: a plan that the high-risk check accepts has a kind of proposal.
use open_whisker.Prelude.{
  ◌≡◌, refl, ap, inl, inr, ℕ, ◌+◌, ◌≤◌, true, false, ◌||◌, Option, none, some, List, [], ◌∷◌, ok,
  Option-cases, arith, Passes, All,
}
use open_whisker.Prelude.Text.{Str}
use open_whisker.Model.{OpType, VaultOperation, VaultPlan, Json, ProposalKind, is_high}
use open_whisker.Policy.Conventions.{Conventions, normalize}
use open_whisker.Policy.LowRisk.{is_nil}
use open_whisker.Policy.Approval.Spec.{HasPlanFields}
use open_whisker.Policy.HighRisk.{check_for_approval_high_risk}
use open_whisker.Policy.HighRisk.Spec.{
  IsHighRiskOperation, MayRestructure, check_for_approval_high_risk-IsHighRiskPlan,
}
use open_whisker.Policy.Proposal.{
  is_rename, is_retag, is_link_rewrite, count, kind_of_counts, classify_operations,
  classify_proposal_kind, or_nothing, or_counted, merge_or_split_kind, proposal_kind_from_purpose,
}

restructures :
    (json : Json) (c : Conventions) (t : OpType) (op : VaultOperation)
    → MayRestructure json c t op
    → (is_rename t || is_retag t || is_link_rewrite t) ≡ true
restructures json c OpType.rename_note op h = refl
restructures json c OpType.bulk_retag op h = refl
restructures json c OpType.bulk_link_rewrite op h = refl
restructures json c OpType.create_note op h = absurd h
restructures json c OpType.append_note op h = absurd h
restructures json c OpType.rewrite_note op h = absurd h
restructures json c OpType.move_note op h = absurd h
restructures json c OpType.write_agent_report op h = absurd h
restructures json c OpType.write_proposal op h = absurd h
restructures json c (OpType.other_type s) op h = absurd h

counted :
    (op : VaultOperation) (ops : List VaultOperation)
    → (is_rename op.op_type || is_retag op.op_type || is_link_rewrite op.op_type) ≡ true
    → 1 ≤ count is_rename (op ∷ ops) + count is_retag (op ∷ ops) + count is_link_rewrite (op ∷ ops)
unfolding count
counted op ops h = ground arith

named :
    (a b c : ℕ) (k : ProposalKind)
    → 1 ≤ a + b + c
    → (r : ProposalKind) × (kind_of_counts a b c k ≡ some r)
unfolding kind_of_counts
named a b c k h = elim (Option-cases (kind_of_counts a b c k)) [
  | inl e ↦ absurd (ground (arith, e))
  | inr r ↦ r
]

classified_operations :
    (json : Json) (plan : VaultPlan) (r : ProposalKind)
    → kind_of_counts
        (count is_rename plan.operations)
        (count is_retag plan.operations)
        (count is_link_rewrite plan.operations)
        (merge_or_split_kind json plan)
      ≡ some r
    → classify_operations json plan ≡ ok r
unfolding classify_operations
classified_operations json plan r h = ap or_nothing h

some_counted :
    (json : Json) (c : Conventions) (ops : List VaultOperation)
    → is_nil ops ≡ false
    → All (IsHighRiskOperation json c) ops
    → 1 ≤ count is_rename ops + count is_retag ops + count is_link_rewrite ops
some_counted json c [] h hs = absurd (cc h)
some_counted json c (op ∷ ops) h ((fields, (risk, (path, may))), hs) =
    counted op ops (restructures json c op.op_type op may)

classified_plan :
    (json : Json) (plan : VaultPlan) (r : ProposalKind)
    → is_high plan.risk_level ≡ true
    → classify_operations json plan ≡ ok r
    → (k : ProposalKind) × (classify_proposal_kind json plan ≡ ok k)
unfolding classify_proposal_kind
classified_plan json plan r h e =
    let (k, s) = hinted (proposal_kind_from_purpose plan.purpose) in (k, rw (h) s)
  where
    hinted :
        (o : Option ProposalKind)
        → (k : ProposalKind) × (or_counted o (classify_operations json plan) ≡ ok k)
    hinted none = (r, e)
    hinted (some k) = (k, refl)

-- A plan that `CheckForApprovalHighRisk` accepts has a kind of proposal: `ClassifyProposalKind` returns
-- no error for it, whatever its purpose says.
pub classify_proposal_kind-checked :
    (unicode : Str → Str) (json : Json) (conventions : Conventions) (plan : VaultPlan)
    → Passes (check_for_approval_high_risk unicode json conventions plan)
    → (k : ProposalKind) × (classify_proposal_kind json plan ≡ ok k)
classify_proposal_kind-checked unicode json conventions plan h =
    let c = normalize unicode conventions in
    let (risk, (fields, ops)) =
      (check_for_approval_high_risk-IsHighRiskPlan unicode json conventions plan).0 h in
    let (r, e) =
      named _ _ _ (merge_or_split_kind json plan)
        (some_counted json c plan.operations (has_operations plan fields) ops) in
    classified_plan json plan r risk (classified_operations json plan r e)
  where
    has_operations : (p : VaultPlan) → HasPlanFields p → is_nil p.operations ≡ false
    has_operations p (a, (b, (d, (f, (g, (i, (j, (k, l)))))))) = l
