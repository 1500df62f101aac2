-- ===== src/Executor/Frame.antt =====
-- What does not touch the files: calls that fail or return, the clock, the locks, the log, and the
-- resolution of paths.
use open_whisker.Prelude.{Option, none, some, List, [], ◌∷◌, Result, ok, err}
use open_whisker.Prelude.Text.{Str}
use open_whisker.Model.{Time, VaultPlan, VaultOperation}
use open_whisker.Exec.{modify}
use open_whisker.Exec.Keeps.{
  Keeps, Keeps-pure, Keeps-raise, Keeps-gets, Keeps-ignore, Keeps-if, Keeps-bind, Keeps-lift,
}
use open_whisker.Executor.Errors.{ExecutorError}
use open_whisker.Executor.Disk.{
  Node, Lock, OperationLog, Disk, Os, failing, fault_of, rest_of, call, tick, node_at, returned,
}
use open_whisker.Executor.Locks.{
  try_insert, insert_lock, lock_of, insert_locks, acquire_locks, release_locks,
}
use open_whisker.Executor.Guard.{first_existing_parent, resolved_parent, guard_links}
use open_whisker.Executor.Log.{
  append_operation_log, now, new_id, record_applied, log_failed, log_remaining_failed,
}

module _ (N : List (Str × Node) → Type 0) where
  -- a property of the files
  abbrev pub On : Disk → Type 0
  On d = N d.nodes

  failing-On : (f : Option Str) (d : Disk) → On d → On (failing f d).1
  failing-On none d p = p
  failing-On (some text) d p = p

  pub Keeps-call : Keeps On call
  unfolding call
  Keeps-call = record {
    at = λ d p. failing-On (fault_of d.faults) (record d { faults = rest_of d.faults }) p;
  }

  pub Keeps-tick : Keeps On tick
  unfolding tick
  Keeps-tick = record { at = λ d p. p }

  pub Keeps-node_at : (path : Str) → Keeps On (node_at path)
  unfolding node_at
  Keeps-node_at path = record { at = λ d p. p }

  pub Keeps-returned :
      {E A : Type 0} (f : E → ExecutorError) (r : Result E A) → Keeps On (returned f r)
  unfolding returned
  Keeps-returned f (ok a) = Keeps-pure a
  Keeps-returned f (err e) = Keeps-raise (f e)

  Keeps-modify :
      (f : Disk → Disk) → ((d : Disk) → On d → On (f d)) → Keeps {E = ExecutorError} On (modify f)
  unfolding modify
  Keeps-modify f k = record { at = k }

  Keeps-try_insert : (l : Lock) (ls : List Lock) → Keeps On (try_insert l ls)
  unfolding try_insert
  Keeps-try_insert l ls = Keeps-bind _ _ Keeps-call λ u. Keeps-returned (λ e. e) (insert_lock l ls)

  Keeps-insert_locks :
      (paths : List Str) (plan_id t expires : Str) (ls : List Lock)
      → Keeps On (insert_locks paths plan_id t expires ls)
  unfolding insert_locks
  Keeps-insert_locks [] plan_id t expires ls = Keeps-pure ls
  Keeps-insert_locks (path ∷ paths) plan_id t expires ls =
      Keeps-bind _ _ (Keeps-lift _ _ (Keeps-try_insert (lock_of path plan_id t expires) ls))
        λ next. Keeps-insert_locks paths plan_id t expires next

  module _ (os : Os) where
    pub Keeps-acquire_locks :
        (paths : List Str) (plan_id : Str) (t : Time) → Keeps On (acquire_locks os paths plan_id t)
    unfolding acquire_locks
    Keeps-acquire_locks paths plan_id t = Keeps-bind _ _ Keeps-call λ u.
        Keeps-bind _ _ (Keeps-lift _ _ Keeps-call) λ u. Keeps-bind _ _ (Keeps-gets _) λ old.
          Keeps-bind _ _ (Keeps-insert_locks paths plan_id _ _ old)
            λ rows. Keeps-bind _ _ Keeps-call λ u. Keeps-modify _ λ d p. p

    pub Keeps-release_locks : (plan_id : Str) → Keeps On (release_locks os plan_id)
    unfolding release_locks
    Keeps-release_locks plan_id = Keeps-bind _ _ Keeps-call λ u. Keeps-modify _ λ d p. p

    pub Keeps-now : Keeps On (now os)
    unfolding now
    Keeps-now = Keeps-bind _ _ Keeps-tick λ n. Keeps-pure _

    pub Keeps-new_id : Keeps On (new_id os)
    unfolding new_id
    Keeps-new_id = Keeps-bind _ _ Keeps-tick λ n. Keeps-pure _

    pub Keeps-append_operation_log : (log : OperationLog) → Keeps On (append_operation_log log)
    unfolding append_operation_log
    Keeps-append_operation_log log = Keeps-bind _ _ Keeps-call λ u. Keeps-modify _ λ d p. p

    pub Keeps-record_applied :
        (plan : VaultPlan) (op : VaultOperation) (after : Str)
        → Keeps On (record_applied os plan op after)
    unfolding record_applied
    Keeps-record_applied plan op after = Keeps-bind _ _ Keeps-now λ t.
        Keeps-bind _ _ Keeps-new_id
          λ id. Keeps-bind _ _ (Keeps-append_operation_log _) λ u. Keeps-pure _

    Keeps-log_failed :
        (plan : VaultPlan) (t : Time) (text : Str) (ops : List VaultOperation)
        → Keeps On (log_failed os plan t text ops)
    unfolding log_failed
    Keeps-log_failed plan t text [] = Keeps-pure tt
    Keeps-log_failed plan t text (op ∷ ops) = Keeps-bind _ _ Keeps-new_id λ id.
        Keeps-bind _ _ (Keeps-ignore _ (Keeps-append_operation_log _))
          λ u. Keeps-log_failed plan t text ops

    pub Keeps-log_remaining_failed :
        (plan : VaultPlan) (ops : List VaultOperation) (e : ExecutorError)
        → Keeps On (log_remaining_failed os plan ops e)
    unfolding log_remaining_failed
    Keeps-log_remaining_failed plan ops e =
        Keeps-bind _ _ Keeps-now λ t. Keeps-log_failed plan t _ ops

    Keeps-first_existing_parent :
        (paths : List Str) (fallback : Str) → Keeps On (first_existing_parent os paths fallback)
    unfolding first_existing_parent
    Keeps-first_existing_parent [] fallback = Keeps-pure fallback
    Keeps-first_existing_parent (path ∷ paths) fallback = Keeps-bind _ _ Keeps-tick λ n.
        Keeps-if _ _ _ (Keeps-bind _ _ Keeps-tick λ k. Keeps-pure _)
          (Keeps-first_existing_parent paths fallback)

    Keeps-resolved_parent :
        (root : Str) (paths : List Str) (r : Result (Option Str) Str)
        → Keeps On (resolved_parent os root paths r)
    unfolding resolved_parent
    Keeps-resolved_parent root paths (ok evaluated) = Keeps-pure evaluated
    Keeps-resolved_parent root paths (err none) = Keeps-first_existing_parent paths root
    Keeps-resolved_parent root paths (err (some text)) = Keeps-raise _

    pub Keeps-guard_links : (root candidate : Str) → Keeps On (guard_links os root candidate)
    unfolding guard_links
    Keeps-guard_links root candidate = Keeps-bind _ _ Keeps-tick λ n.
        Keeps-bind _ _ (Keeps-resolved_parent root _ _) λ parent.
          Keeps-bind _ _ (Keeps-returned _ _) λ u. Keeps-bind _ _ Keeps-tick λ k. Keeps-returned _ _
