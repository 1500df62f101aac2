-- ===== src/Executor/Proposal/Only.antt =====
-- An approved high-risk plan changes nothing but its proposal note.
use open_whisker.Prelude.{
  ◌≡◌, refl, sym, ◌∙◌, subst, ◌⊎◌, inl, inr, ℕ, Option, none, some, List, ok,
}
use open_whisker.Prelude.Text.{Str}
use open_whisker.Prelude.Text.Pieces.{lookup}
use open_whisker.Model.{Time, VaultPlan, ProposalKind}
use open_whisker.Policy.Conventions.{Conventions, normalize}
use open_whisker.Policy.Errors.{CheckError}
use open_whisker.Policy.Proposal.{classify_proposal_kind}
use open_whisker.Exec.Keeps.{Keeps, Keeps-bind, Keeps-pure, Keeps-ignore}
use open_whisker.Exec.Triples.{Triple, Triple-bind, Triple-attempt, Triple-state}
use open_whisker.Executor.Disk.{Node, regular, Disk, Os}
use open_whisker.Executor.Frame.{
  On, Keeps-now, Keeps-new_id, Keeps-append_operation_log, Keeps-acquire_locks, Keeps-release_locks,
  Keeps-returned,
}
use open_whisker.Executor.Facts.{
  IsPathOf, kept, Triple-fact, Triple-returned, Triple-resolve, Triple-absent,
}
use open_whisker.Executor.Writes.{after_put, Triple-create}
use open_whisker.Executor.Proposal.Note.{render_proposal_note}
use open_whisker.Executor.Proposal.Write.{
  proposal_note_path, record_proposal, write_note, propose_at, apply_as_proposal,
}

module _ (os : Os) (unicode : Str → Str) (check_text : CheckError → Str) (plan : VaultPlan)
    (path : Str) where
  -- The same, or a note that was missing and has the text of the plan's proposal.
  abbrev pub Proposed : Str → Option Node → Option Node → Type 0
  Proposed target old new =
      (old ≡ new)
      ⊎ ((i : ℕ) × (content : Str) × (kind : ProposalKind) × (t : Time) × (old ≡ none)
          × IsPathOf os target path
          × (classify_proposal_kind os.json plan ≡ ok kind)
          × (render_proposal_note os plan kind t ≡ ok content)
          × (new ≡ some (regular i content)))

  Keeps-record_proposal :
      (N : List (Str × Node) → Type 0) (target content : Str) (t : Time)
      → Keeps (On N) (record_proposal os unicode check_text plan target content t)
  unfolding record_proposal
  Keeps-record_proposal N target content t =
      Keeps-bind _ _ (Keeps-new_id N os)
        λ id. Keeps-bind _ _ (Keeps-append_operation_log N os _) λ u. Keeps-pure _

  module _ (target : Str) (old : Option Node) where
    abbrev B : List (Str × Node) → Type 0
    B n = lookup path n ≡ old

    abbrev S : List (Str × Node) → Type 0
    S n = Proposed target old (lookup path n)

    same_before : (n : List (Str × Node)) → B n → S n
    same_before n p = inl (sym p)

    Triple-write_note :
        (kind : ProposalKind) (full : Str) (t : Time)
        → classify_proposal_kind os.json plan ≡ ok kind
        → IsPathOf os target full
        → Triple
            (On B)
            (write_note os unicode check_text plan kind target full t)
            (λ a. On S)
            (λ e. On S)
    unfolding write_note
    Triple-write_note kind full t is_kind at =
        Triple-bind (Triple-returned B S same_before _ _) λ content. Triple-fact λ rendered.
          Triple-bind
            (Triple-create B S same_before full content λ i n p absent.
              after_put (Proposed target old) path full _ n (same_before n p) λ e. inr (
                i,
                content,
                kind,
                t,
                sym p ∙ subst (λ x. lookup x n ≡ none) e absent,
                subst (IsPathOf os target) e at,
                is_kind,
                rendered,
                refl,
              ))
            λ u. kept S S (λ n p. p) (Keeps-record_proposal S target content t)

    Triple-propose_at :
        (kind : ProposalKind)
        → classify_proposal_kind os.json plan ≡ ok kind
        → Triple (On B) (propose_at os unicode check_text plan kind target) (λ a. On S) (λ e. On S)
    unfolding propose_at
    Triple-propose_at kind is_kind = Triple-bind (Triple-resolve B S same_before os target) λ full.
        Triple-fact λ at. Triple-bind (Triple-absent B S same_before full _) λ u.
          Triple-bind (kept B S same_before (Keeps-now B os)) λ t.
            Triple-bind (kept B S same_before (Keeps-acquire_locks B os _ _ t)) λ u.
              Triple-bind
                (Triple-attempt {Q = λ r. On S} _
                  (Triple-state {G = On S} (Triple-write_note kind full t is_kind at)))
                λ result.
                  Triple-bind
                    (kept S S (λ n p. p) (Keeps-ignore _ (Keeps-release_locks S os plan.id)))
                    λ u. kept S S (λ n p. p) (Keeps-returned S _ result)

  -- Whatever calls of the operating system and of the database fail, ApplyAsProposal leaves what stands
  -- at a path as it is, or the path is that of the proposal note of the plan in the directory for
  -- proposals, nothing stood there, and the note has the text that RenderProposalNote gives.
  pub apply_as_proposal-Proposed :
      (conventions : Conventions) (d : Disk)
      → Proposed
          (proposal_note_path plan.id (normalize unicode conventions).agent_proposals_dir)
          (lookup path d.nodes)
          (lookup path (apply_as_proposal os unicode check_text plan conventions d).1.nodes)
  unfolding apply_as_proposal
  apply_as_proposal-Proposed conventions d =
      let target = proposal_note_path plan.id (normalize unicode conventions).agent_proposals_dir in
      let old = lookup path d.nodes in
      let C = B target old in
      let weak = same_before target old in
      Triple-state {G = On (S target old)}
        (Triple-bind (kept C (S target old) weak (Keeps-returned C _ _)) λ u.
          Triple-bind (kept C (S target old) weak (Keeps-returned C _ _)) λ u.
            Triple-bind (Triple-returned C (S target old) weak _ _)
              λ kind. Triple-fact λ is_kind. Triple-propose_at target old kind is_kind)
        d refl
