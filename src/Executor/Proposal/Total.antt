-- ===== src/Executor/Proposal/Total.antt =====
-- internal/executor/proposal_note.go: an accepted plan of one operation has a proposal note.
use open_whisker.Prelude.{
  ◌≡◌, refl, sym, ap, subst, ℕ, ◌≤◌, Bool, false, Option, none, some, List, [], ◌∷◌, Result, ok,
  Passes, All, length, arith, if◌then◌else◌,
}
use open_whisker.Prelude.Text.{Str, is_blank}
use open_whisker.Model.{
  Time, VaultPlan, VaultOperation, Json, OpType, rename_note, bulk_retag, bulk_link_rewrite,
  ProposalKind, split_kind, merge_kind, rename_kind, bulk_retag_kind, bulk_link_rewrite_kind,
}
use open_whisker.Policy.Conventions.{Conventions, normalize}
use open_whisker.Policy.LowRisk
use open_whisker.Policy.Rules.{Holds}
use open_whisker.Policy.HighRisk.{check_for_approval_high_risk}
use open_whisker.Policy.HighRisk.Spec.{
  IsRetag, IsLinkRewrite, IsRename, IsHighRiskOperation, MayRestructure, IsHighRiskPlan,
  check_for_approval_high_risk-IsHighRiskPlan,
}
use open_whisker.Policy.Proposal.{
  is_rename, is_retag, is_link_rewrite, count, kind_of_counts, classify_operations, or_nothing,
  classify_proposal_kind, proposal_kind_from_purpose, or_counted,
}
use open_whisker.Executor.Errors.{ExecutorError}
use open_whisker.Executor.Disk.{Os}
use open_whisker.Executor.Proposal.Rows.{
  AffectedRow, first_rows, bulk_rows, rows_of, build_affected_rows, spread_rows, or_renamed,
}
use open_whisker.Executor.Proposal.Texts.{
  kind_questions, proposal_open_questions, vault_source_candidates,
}
use open_whisker.Executor.Proposal.Note.{is_nil, render_proposal_note}

-- the kind of a plan with one operation of a type
abbrev kind_of_type : OpType → ProposalKind
kind_of_type rename_note = rename_kind
kind_of_type bulk_retag = bulk_retag_kind
kind_of_type _ = bulk_link_rewrite_kind

one_or_none : Bool → ℕ
one_or_none b = if b then 1 else 0

counted_kind :
    (json : Json) (c : Conventions) (op : VaultOperation) (t : OpType) (k : ProposalKind)
    → MayRestructure json c t op
    → kind_of_counts
        (if is_rename t then 1 else 0)
        (if is_retag t then 1 else 0)
        (if is_link_rewrite t then 1 else 0)
        k
      ≡ some (kind_of_type t)
unfolding kind_of_counts
counted_kind json c op rename_note k h = refl
counted_kind json c op bulk_retag k h = refl
counted_kind json c op bulk_link_rewrite k h = refl
counted_kind json c op OpType.create_note k h = absurd h
counted_kind json c op OpType.append_note k h = absurd h
counted_kind json c op OpType.rewrite_note k h = absurd h
counted_kind json c op OpType.move_note k h = absurd h
counted_kind json c op OpType.write_agent_report k h = absurd h
counted_kind json c op OpType.write_proposal k h = absurd h
counted_kind json c op (OpType.other_type s) k h = absurd h

count_one :
    (f : OpType → Bool) (op : VaultOperation) → count f (op ∷ []) ≡ (if f op.op_type then 1 else 0)
unfolding count
count_one f op = refl

held : {A : Type 0} (P : A → Type 0) (o : Option A) → Holds P o → (a : A) × (o ≡ some a) × P a
held P none h = absurd h
held P (some a) h = (a, refl, h)

not_nil : (xs : List Str) → LowRisk.is_nil xs ≡ false → (x : Str) × (ys : List Str) × (xs ≡ x ∷ ys)
not_nil [] h = absurd (cc h)
not_nil (x ∷ xs) h = (x, xs, refl)

abbrev HasRows : Result ExecutorError (List AffectedRow) → Type 0
HasRows r = (row : AffectedRow) × (rows : List AffectedRow) × (r ≡ ok (row ∷ rows))

bulk_rows-HasRows :
    (kind : ProposalKind) (rationale : Str) (paths : List Str)
    → 5 ≤ length paths
    → HasRows (ok (bulk_rows kind rationale paths))
unfolding bulk_rows
bulk_rows-HasRows kind rationale [] h = absurd (omega arith)
bulk_rows-HasRows kind rationale (p ∷ paths) h = (_, _, refl)

module _ (json : Json) (c : Conventions) (plan : VaultPlan) (op : VaultOperation) where
  rows_of-HasRows :
      (t : OpType) → MayRestructure json c t op → HasRows (rows_of json plan op (kind_of_type t))
  unfolding rows_of
  rows_of-HasRows rename_note h =
      let (payload, e, f) = held (IsRename c op.target_path) _ h in rw e (_, _, refl)
  rows_of-HasRows bulk_retag h =
      let (payload, e, f) = held IsRetag _ h in
      rw e (bulk_rows-HasRows bulk_retag_kind _ payload.affected_paths f.0)
  rows_of-HasRows bulk_link_rewrite h =
      let (payload, e, f) = held IsLinkRewrite _ h in
      rw e (bulk_rows-HasRows bulk_link_rewrite_kind _ payload.affected_paths f.1.1.0)
  rows_of-HasRows OpType.create_note h = absurd h
  rows_of-HasRows OpType.append_note h = absurd h
  rows_of-HasRows OpType.rewrite_note h = absurd h
  rows_of-HasRows OpType.move_note h = absurd h
  rows_of-HasRows OpType.write_agent_report h = absurd h
  rows_of-HasRows OpType.write_proposal h = absurd h
  rows_of-HasRows (OpType.other_type s) h = absurd h

  build_affected_rows-HasRows :
      plan.operations ≡ op ∷ []
      → MayRestructure json c op.op_type op
      → HasRows (build_affected_rows json plan (kind_of_type op.op_type))
  unfolding build_affected_rows
  build_affected_rows-HasRows only may =
      subst (λ ops. HasRows (first_rows json plan (kind_of_type op.op_type) ops)) (sym only)
        (rows_of-HasRows op.op_type may)

  classified :
      plan.operations ≡ op ∷ []
      → MayRestructure json c op.op_type op
      → classify_operations json plan ≡ ok (kind_of_type op.op_type)
  unfolding classify_operations
  classified only may = rw only (
      rw (count_one is_rename op) (
        rw (count_one is_retag op) (
          rw (count_one is_link_rewrite op)
            (ap or_nothing (counted_kind json c op op.op_type _ may)))))

sources_found :
    (plan : VaultPlan)
    → LowRisk.is_nil plan.target_paths ≡ false
    → (sources : List Str) × (vault_source_candidates plan ≡ ok sources)
unfolding vault_source_candidates
sources_found plan h = found plan.target_paths h
  where
    found :
        (ts : List Str)
        → LowRisk.is_nil ts ≡ false
        → (sources : List Str) × (vault_source_candidates (record plan { target_paths = ts })
            ≡ ok sources)
    found [] h = absurd (cc h)
    found (t ∷ ts) h = (_, refl)

some_question :
    (plan : VaultPlan) (kind : ProposalKind) → is_nil (proposal_open_questions plan kind) ≡ false
unfolding proposal_open_questions kind_questions
some_question plan split_kind = refl
some_question plan merge_kind = refl
some_question plan rename_kind = refl
some_question plan bulk_retag_kind = refl
some_question plan bulk_link_rewrite_kind = refl

rendered :
    (os : Os) (plan : VaultPlan) (kind : ProposalKind) (t : Time) (sources : List Str)
    → is_blank plan.id ≡ false
    → is_blank plan.job_id ≡ false
    → is_blank plan.summary ≡ false
    → HasRows (build_affected_rows os.json plan kind)
    → vault_source_candidates plan ≡ ok sources
    → (content : Str) × (render_proposal_note os plan kind t ≡ ok content)
unfolding render_proposal_note
rendered os plan kind t sources a b c (row, rows, d) e =
    rw a (rw b (rw c (rw d (rw e (rw (some_question plan kind) (_, refl))))))

-- the operation has the type that a note of the kind is rendered from
abbrev pub Renders : Option ProposalKind → OpType → Type 0
Renders none t = Unit
Renders (some split_kind) t = t ≡ rename_note
Renders (some merge_kind) t = t ≡ rename_note
Renders (some rename_kind) t = t ≡ rename_note
Renders (some bulk_retag_kind) t = t ≡ bulk_retag
Renders (some bulk_link_rewrite_kind) t = t ≡ bulk_link_rewrite

or_renamed-HasRows :
    (row : AffectedRow) (rows : List AffectedRow) → HasRows (ok (or_renamed row rows))
or_renamed-HasRows row [] = (row, [], refl)
or_renamed-HasRows row (r ∷ rows) = (r, rows, refl)

module _ (json : Json) (c : Conventions) (plan : VaultPlan) (op : VaultOperation) where
  spread_rows-HasRows :
      (kind : ProposalKind)
      → LowRisk.is_nil plan.target_paths ≡ false
      → MayRestructure json c rename_note op
      → HasRows (spread_rows json plan kind op)
  unfolding spread_rows
  spread_rows-HasRows kind targets h =
      let (payload, e, f) = held (IsRename c op.target_path) _ h in
      let (t, ts, d) = not_nil plan.target_paths targets in rw (e, d) (or_renamed-HasRows _ _)

  named_rows :
      (kind : ProposalKind) (t : OpType)
      → LowRisk.is_nil plan.target_paths ≡ false
      → MayRestructure json c t op
      → Renders (some kind) t
      → HasRows (rows_of json plan op kind)
  unfolding rows_of
  named_rows split_kind t targets may e =
      spread_rows-HasRows split_kind targets (subst (λ x. MayRestructure json c x op) e may)
  named_rows merge_kind t targets may e =
      spread_rows-HasRows merge_kind targets (subst (λ x. MayRestructure json c x op) e may)
  named_rows rename_kind t targets may e =
      rows_of-HasRows json c plan op rename_note (subst (λ x. MayRestructure json c x op) e may)
  named_rows bulk_retag_kind t targets may e =
      rows_of-HasRows json c plan op bulk_retag (subst (λ x. MayRestructure json c x op) e may)
  named_rows bulk_link_rewrite_kind t targets may e =
      rows_of-HasRows json c plan op bulk_link_rewrite
        (subst (λ x. MayRestructure json c x op) e may)

  -- the kind that the purpose or the count gives, with the rows of it
  kind_with_rows :
      (o : Option ProposalKind)
      → LowRisk.is_nil plan.target_paths ≡ false
      → plan.operations ≡ op ∷ []
      → MayRestructure json c op.op_type op
      → Renders o op.op_type
      → (kind : ProposalKind) × (or_counted o (classify_operations json plan) ≡ ok kind)
        × HasRows (build_affected_rows json plan kind)
  unfolding build_affected_rows
  kind_with_rows none targets only may r = (
    kind_of_type op.op_type,
    classified json c plan op only may,
    build_affected_rows-HasRows json c plan op only may,
  )
  kind_with_rows (some kind) targets only may r = (
    kind,
    refl,
    subst (λ ops. HasRows (first_rows json plan kind ops)) (sym only)
        (named_rows kind op.op_type targets may r),
  )

-- what the check says of a plan, and the note of it
rendered_plan :
    (os : Os) (c : Conventions) (plan : VaultPlan) (op : VaultOperation) (t : Time)
    → plan.operations ≡ op ∷ []
    → Renders (proposal_kind_from_purpose plan.purpose) op.op_type
    → IsHighRiskPlan os.json c plan
    → (kind : ProposalKind) × (content : Str) × (classify_proposal_kind os.json plan ≡ ok kind)
      × (render_proposal_note os plan kind t ≡ ok content)
unfolding classify_proposal_kind
rendered_plan os c plan op t only fits
      (high, ((approval, (id, (job, (summary, (s, (r, (targets, rest))))))), all)) =
    let may = (subst (λ ops. All (IsHighRiskOperation os.json c) ops) only all).0.1.1.1 in
    let (sources, e) = sources_found plan targets in
    let (kind, k, rows) = kind_with_rows os.json c plan op _ targets only may fits in
    let (content, f) = rendered os plan kind t sources id job summary rows e in
    (kind, content, rw high k, f)

-- A plan of one operation that CheckForApprovalHighRisk accepts has a kind of proposal, and
-- RenderProposalNote gives its note, where the purpose of the plan names no kind, names split, merge or
-- rename and the operation is rename_note, or names the bulk kind of the type of the operation.
pub render_proposal_note-total :
    (os : Os) (unicode : Str → Str) (conventions : Conventions) (plan : VaultPlan)
    (op : VaultOperation) (t : Time)
    → Passes (check_for_approval_high_risk unicode os.json conventions plan)
    → plan.operations ≡ op ∷ []
    → Renders (proposal_kind_from_purpose plan.purpose) op.op_type
    → (kind : ProposalKind) × (content : Str) × (classify_proposal_kind os.json plan ≡ ok kind)
      × (render_proposal_note os plan kind t ≡ ok content)
render_proposal_note-total os unicode conventions plan op t passes only fits =
    rendered_plan os (normalize unicode conventions) plan op t only fits
      ((check_for_approval_high_risk-IsHighRiskPlan unicode os.json conventions plan).0 passes)
