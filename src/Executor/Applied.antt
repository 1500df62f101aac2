-- ===== src/Executor/Applied.antt =====
-- What stands at a path after a plan is applied, whatever fails.
use open_whisker.Prelude.{◌≡◌, refl, sym, subst, Option, List, [], ◌∷◌}
use open_whisker.Prelude.Text.{Str}
use open_whisker.Prelude.Text.Pieces.{lookup}
use open_whisker.Model.{
  VaultPlan, VaultOperation, OpType, create_note, append_note, rewrite_note, move_note,
  write_agent_report,
}
use open_whisker.Exec.{pure, on_error}
use open_whisker.Exec.Keeps.{Keeps-ignore}
use open_whisker.Exec.Triples.{
  Triple-bind, Triple-attempt, Triple-raise, Triple-Keeps, Triple-on_error, Triple-state,
  after-bind,
}
use open_whisker.Executor.Disk.{Node, Disk, Os}
use open_whisker.Executor.Log.{log_remaining_failed}
use open_whisker.Executor.Apply.{
  apply_type, apply_operation, preflight_apply, apply_all, apply_locked, apply,
}
use open_whisker.Executor.Frame.{
  On, Keeps-now, Keeps-acquire_locks, Keeps-release_locks, Keeps-returned,
  Keeps-log_remaining_failed,
}
use open_whisker.Executor.Steps.{Step, same}
use open_whisker.Executor.Written.{
  Turns, apply_create-created, apply_create-reported, apply_append-appended,
  apply_rewrite-rewritten,
}
use open_whisker.Executor.Preflight.{Keeps-preflight_apply}
use open_whisker.Executor.Moved.{apply_move-moved}

module _ (os : Os) (plan : VaultPlan) (path : Str) where
  module _ (op : VaultOperation) (old : Option Node) where
    apply_type-Turns :
        (t : OpType) → Turns os plan op path old (apply_type os plan op t) (Step os op path t old)
    unfolding apply_type
    apply_type-Turns create_note = apply_create-created os plan op path old
    apply_type-Turns write_agent_report = apply_create-reported os plan op path old
    apply_type-Turns append_note = apply_append-appended os plan op path old
    apply_type-Turns rewrite_note = apply_rewrite-rewritten os plan op path old
    apply_type-Turns move_note = apply_move-moved os plan op path old
    apply_type-Turns t = Triple-raise _ λ d p. subst (Step os op path t old) (sym p) (same old)

  -- Whatever calls of the operating system and of the database fail, an operation changes what stands
  -- at a path only by a step of its type: it creates what was missing, changes or moves away a note
  -- with the hash that it names, or fills the missing destination of its move.
  pub apply_operation-Step :
      (op : VaultOperation) (d : Disk)
      → Step os op path op.op_type
          (lookup path d.nodes)
          (lookup path (apply_operation os plan op d).1.nodes)
  unfolding apply_operation
  apply_operation-Step op d =
      Triple-state {G = λ e. Step os op path op.op_type (lookup path d.nodes) (lookup path e.nodes)}
        (apply_type-Turns op (lookup path d.nodes) op.op_type) d refl

  -- What stands at a path after the operations in their order, of which the last ones may be missing.
  pub data History : List VaultOperation → Option Node → Option Node → Type 0 where
    stopped : {ops : List VaultOperation} (o : Option Node) → History ops o o
    next :
        {op : VaultOperation} {ops : List VaultOperation} {a b c : Option Node}
        → Step os op path op.op_type a b
        → History ops b c
        → History (op ∷ ops) a c

  abbrev pub Ran : List VaultOperation → Disk → Disk → Type 0
  Ran ops d e = History ops (lookup path d.nodes) (lookup path e.nodes)

  -- an operation with the log of its failure
  logged-Step :
      (op : VaultOperation) (ops : List VaultOperation) (d : Disk)
      → Step os op path op.op_type (lookup path d.nodes) (
          lookup path
            (on_error (apply_operation os plan op) (log_remaining_failed os plan ops) d).1.nodes)
  unfolding apply_operation
  logged-Step op ops d =
      let G = λ (n : List (Str × Node)).
        Step os op path op.op_type (lookup path d.nodes) (lookup path n) in
      Triple-state {G = On G}
        (Triple-on_error {R' = λ e. On G} _ _ (apply_type-Turns op (lookup path d.nodes) op.op_type)
          λ e s. (Keeps-log_remaining_failed G os plan ops e).at s)
        d refl

  apply_all-Ran : (ops : List VaultOperation) (d : Disk) → Ran ops d (apply_all os plan ops d).1
  unfolding apply_all pure
  apply_all-Ran [] d = stopped _
  apply_all-Ran (op ∷ ops) d =
      let s = logged-Step op (op ∷ ops) d in
      after-bind _ _ (Ran (op ∷ ops) d) d
        (λ applied e.
          after-bind (apply_all os plan ops) _ (Ran (op ∷ ops) d) _
            (λ rest f. next s (apply_all-Ran ops _)) (λ e f. next s (apply_all-Ran ops _)))
        (λ e f. next s (stopped _))

  apply_locked-Ran : (d : Disk) → Ran plan.operations d (apply_locked os plan d).1
  unfolding apply_locked pure
  apply_locked-Ran d =
      let G = Ran plan.operations d in
      let e = (preflight_apply os plan.operations d).1 in
      let N = λ (n : List (Str × Node)). lookup path n ≡ lookup path d.nodes in
      let kept = (Keeps-preflight_apply os N plan.operations).at d refl in
      let ran =
        subst
          (λ o.
            History plan.operations o (lookup path (apply_all os plan plan.operations e).1.nodes))
          kept (apply_all-Ran plan.operations e) in
      after-bind (preflight_apply os plan.operations) _ G d
        (λ u f. after-bind (apply_all os plan plan.operations) _ G e (λ rest g. ran) (λ x g. ran))
        (λ x f. subst (History plan.operations (lookup path d.nodes)) (sym kept) (stopped _))

  -- Whatever calls of the operating system and of the database fail, Apply changes what stands at a
  -- path only by steps of the plan's operations, one after the other in their order.
  pub apply-History : (d : Disk) → Ran plan.operations d (apply os plan d).1
  unfolding apply
  apply-History d =
      let old = lookup path d.nodes in
      let N = λ (n : List (Str × Node)). lookup path n ≡ old in
      let S = λ (n : List (Str × Node)). History plan.operations old (lookup path n) in
      let weak = λ (n : List (Str × Node)) (p : N n).
        subst (History plan.operations old) (sym p) (stopped old) in
      Triple-state {G = On S}
        (Triple-bind (Triple-Keeps (Keeps-now N os) (λ e s. weak s.nodes)) λ t.
          Triple-bind (Triple-Keeps (Keeps-acquire_locks N os _ _ t) (λ e s. weak s.nodes)) λ u.
            Triple-bind
              (Triple-attempt {Q = λ r. On S} (apply_locked os plan) λ s p.
                subst
                  (λ o. History plan.operations o (lookup path (apply_locked os plan s).1.nodes)) p
                  (apply_locked-Ran s))
              λ result.
                Triple-bind
                  (Triple-Keeps (Keeps-ignore _ (Keeps-release_locks S os plan.id)) (λ e s p. p))
                  λ u. Triple-Keeps (Keeps-returned S _ result) (λ e s p. p))
        d refl
