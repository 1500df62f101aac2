-- ===== src/Executor/Confined.antt =====
-- Where a plan does not write.
use mathlib.Core.List.{Memᴰ}
use open_whisker.Prelude.{◌≡◌, refl, sym, ◌∙◌, subst, ◌≢◌, Option, List, [], ◌∷◌, All, Passes}
use open_whisker.Prelude.Text.{Str}
use open_whisker.Prelude.Text.Pieces.{lookup}
use open_whisker.Model.{VaultPlan, VaultOperation, OpType}
use open_whisker.Policy.Conventions.{Conventions}
use open_whisker.Policy.Approval.{check_approved}
use open_whisker.Policy.Confinement.{
  written_paths, written_by, moved_to, IsListed, check_approved-written,
}
use open_whisker.Executor.Disk.{Node, Disk, Os}
use open_whisker.Executor.Guard.{join_path}
use open_whisker.Executor.Apply.{apply}
use open_whisker.Executor.Facts.{IsRoot}
use open_whisker.Executor.Steps.{Step}
use open_whisker.Executor.Applied.{History, stopped, next, apply-History}

module _ (os : Os) (path : Str) where
  -- what the root of the vault resolves to does not lead from the text to the path
  abbrev pub Elsewhere : Str → Type 0
  Elsewhere target = (root : Str) → IsRoot os root → path ≢ join_path root target

  step-Elsewhere :
      (op : VaultOperation) (t : OpType) (a b : Option Node)
      → Step os op path t a b
      → All Elsewhere (written_by os.json t op)
      → a ≡ b
  unfolding written_by moved_to
  step-Elsewhere op t a b (Step.same o) h = refl
  step-Elsewhere op t a b (Step.created i c (root, is_root, at) e) h = absurd (h.0 root is_root at)
  step-Elsewhere op t a b (Step.reported i c (root, is_root, at) e) h = absurd (h.0 root is_root at)
  step-Elsewhere op t a b (Step.appended i j c d (root, is_root, at) e f) h =
      absurd (h.0 root is_root at)
  step-Elsewhere op t a b (Step.rewritten i j c d (root, is_root, at) e f) h =
      absurd (h.0 root is_root at)
  step-Elsewhere op t a b (Step.moved_away i c (root, is_root, at) e) h =
      absurd (h.0 root is_root at)
  step-Elsewhere op t a b (Step.moved_here i c p e (root, is_root, at) f) h =
      absurd ((subst (λ o. All Elsewhere (moved_to o)) e h.1).0 root is_root at)
  step-Elsewhere op t a b (Step.noted j c p e (root, is_root, at) f) h =
      absurd ((subst (λ o. All Elsewhere (moved_to o)) e h.1).0 root is_root at)

  History-Elsewhere :
      (plan : VaultPlan) (ops : List VaultOperation) (a b : Option Node)
      → History os plan path ops a b
      → All (λ op. All Elsewhere (written_paths os.json op)) ops
      → a ≡ b
  unfolding written_paths
  History-Elsewhere plan ops a b (stopped o) h = refl
  History-Elsewhere plan (op ∷ ops) a b (next {b = m} s r) h =
      step-Elsewhere op op.op_type a m s h.0 ∙ History-Elsewhere plan ops m b r h.1

  -- What stands at a path that is not the path of any note that an operation of the plan writes stays
  -- as it is when the plan is applied, whatever fails.
  pub apply-Elsewhere :
      (plan : VaultPlan) (d : Disk)
      → All (λ op. All Elsewhere (written_paths os.json op)) plan.operations
      → lookup path (apply os plan d).1.nodes ≡ lookup path d.nodes
  apply-Elsewhere plan d h =
      sym (History-Elsewhere plan plan.operations _ _ (apply-History os plan path d) h)

  at_member : (targets : List Str) (t : Str) → All Elsewhere targets → Memᴰ t targets → Elsewhere t
  at_member [] t h m = elim m [ ]
  at_member (x ∷ targets) t h (Memᴰ.head e) = subst Elsewhere (sym e) h.0
  at_member (x ∷ targets) t h (Memᴰ.tail m) = at_member targets t h.1 m

  all-Elsewhere :
      (targets ts : List Str) → All Elsewhere targets → All (IsListed targets) ts → All Elsewhere ts
  all-Elsewhere targets [] h a = tt
  all-Elsewhere targets (t ∷ ts) h a = (at_member targets t h a.0.1, all-Elsewhere targets ts h a.1)

  ops-Elsewhere :
      (targets : List Str) (ops : List VaultOperation)
      → All Elsewhere targets
      → All (λ op. All (IsListed targets) (written_paths os.json op)) ops
      → All (λ op. All Elsewhere (written_paths os.json op)) ops
  ops-Elsewhere targets [] h a = tt
  ops-Elsewhere targets (op ∷ ops) h a =
      (all-Elsewhere targets _ h a.0, ops-Elsewhere targets ops h a.1)

  -- Applying a plan that CheckApproved accepts leaves what stands at a path as it is, whatever fails,
  -- where the path is not that of one of the plan's target paths.
  pub apply-OnlyTargets :
      (unicode : Str → Str) (conventions : Conventions) (plan : VaultPlan) (d : Disk)
      → Passes (check_approved unicode os.json conventions plan)
      → All Elsewhere plan.target_paths
      → lookup path (apply os plan d).1.nodes ≡ lookup path d.nodes
  apply-OnlyTargets unicode conventions plan d passes h = apply-Elsewhere plan d (
      ops-Elsewhere plan.target_paths plan.operations h
        (check_approved-written unicode os.json conventions plan passes))
