-- ===== src/Executor/Exclusive.antt =====
-- The locks of AcquireLocks are exclusive.
use open_whisker.Prelude.{
  ◌≡◌, refl, sym, ◌∙◌, ap, subst, inl, inr, Bool, true, false, ◌||◌, Option, none, some, List, [],
  ◌∷◌, ◌++◌, append-nil, append_assoc, Bool-cases, arith, Result, ok, err, ◌+◌,
}
use open_whisker.Prelude.Text.{Str, eqb}
use open_whisker.Prelude.Text.Maps.{differ_sym}
use open_whisker.Model.{Time}
use open_whisker.Exec.{gets, modify}
use open_whisker.Exec.Keeps.{Keeps}
use open_whisker.Exec.Triples.{
  Post, Triple, Triple-bind, Triple-Keeps, Triple-pure, Triple-raise, Triple-lift, Triple-weaken,
}
use open_whisker.Executor.Errors.{ExecutorError}
use open_whisker.Executor.Disk.{Lock, Disk, Os, Act, failing, fault_of, rest_of, call, returned}
use open_whisker.Executor.Locks.{
  is_stale, reap, is_locked, insert_lock, lock_of, try_insert, insert_locks, lock_lifetime,
  acquire_locks,
}

-- no path has two locks
abbrev pub Distinct : List Lock → Type 0
Distinct [] = Unit
Distinct (l ∷ ls) = (is_locked l.target_path ls ≡ false) × Distinct ls

locked_append :
    (path : Str) (ls : List Lock) (l : Lock)
    → is_locked path ls ≡ false
    → eqb l.target_path path ≡ false
    → is_locked path (ls ++ l ∷ []) ≡ false
unfolding is_locked
locked_append path [] l h n = ground (arith, n)
locked_append path (x ∷ ls) l h n = ground (arith, locked_append path ls l, n, h)

or_false : (a b : Bool) → a || b ≡ false → (a ≡ false) × (b ≡ false)
or_false true b h = absurd (cc h)
or_false false b h = (refl, h)

pub Distinct-append :
    (ls : List Lock) (l : Lock)
    → Distinct ls
    → is_locked l.target_path ls ≡ false
    → Distinct (ls ++ l ∷ [])
unfolding is_locked
Distinct-append [] l d n = (refl, tt)
Distinct-append (x ∷ ls) l d n =
    let (a, b) = or_false _ _ n in
    (
      locked_append x.target_path ls l d.0 (differ_sym x.target_path l.target_path a),
      Distinct-append ls l d.1 b,
    )

locked_reap :
    (now path : Str) (ls : List Lock)
    → is_locked path ls ≡ false
    → is_locked path (reap now ls) ≡ false
unfolding is_locked reap
locked_reap now path [] h = refl
locked_reap now path (l ∷ ls) h = ground (arith, locked_reap now path ls, h)

pub Distinct-reap : (now : Str) (ls : List Lock) → Distinct ls → Distinct (reap now ls)
unfolding reap
Distinct-reap now [] d = tt
Distinct-reap now (l ∷ ls) d = elim (Bool-cases (is_stale now l)) [
  | inl s ↦ rw s (Distinct-reap now ls d.1)
  | inr f ↦ rw f (locked_reap now l.target_path ls d.0, Distinct-reap now ls d.1)
]

-- the rows of a transaction, one for each path
unfoldable pub granted : Str → Str → Str → List Str → List Lock
granted plan_id now expires [] = []
granted plan_id now expires (path ∷ paths) =
    lock_of path plan_id now expires ∷ granted plan_id now expires paths

module _ (old : List Lock) where
  abbrev pub Table : Disk → Type 0
  Table d = d.locks ≡ old

  failing-Table : (f : Option Str) (d : Disk) → Table d → Table (failing f d).1
  failing-Table none d p = p
  failing-Table (some text) d p = p

  Keeps-call : Keeps Table call
  unfolding call
  Keeps-call = record {
    at = λ d p. failing-Table (fault_of d.faults) (record d { faults = rest_of d.faults }) p;
  }

  abbrev Raised : ExecutorError → Disk → Type 0
  Raised e = Table

  abbrev Gives : (List Lock → Type 0) → Act (List Lock) → Type 0
  Gives F m = Triple Table m (λ rows d. Table d × F rows) Raised

  abbrev Inserted : List Lock → Lock → List Lock → Type 0
  Inserted ls l rows = (rows ≡ ls ++ l ∷ []) × (is_locked l.target_path ls ≡ false)

  Triple-insert_lock :
      (l : Lock) (ls : List Lock) → Gives (Inserted ls l) (returned (λ e. e) (insert_lock l ls))
  unfolding insert_lock returned
  Triple-insert_lock l ls = elim (Bool-cases (is_locked l.target_path ls)) [
    | inl t ↦ rw t (Triple-raise _ λ d p. p)
    | inr f ↦ rw f (Triple-pure _ λ d p. (p, (refl, refl)))
  ]

  Triple-try_insert : (l : Lock) (ls : List Lock) → Gives (Inserted ls l) (try_insert l ls)
  unfolding try_insert
  Triple-try_insert l ls =
      Triple-bind (Triple-Keeps Keeps-call λ e d p. p) λ u. Triple-insert_lock l ls

  abbrev Extended : List Lock → List Lock → List Lock → Type 0
  Extended ls new rows = (rows ≡ ls ++ new) × Distinct rows

  Triple-insert_locks :
      (paths : List Str) (plan_id now expires : Str) (ls : List Lock)
      → Distinct ls
      → Gives
          (Extended ls (granted plan_id now expires paths))
          (insert_locks paths plan_id now expires ls)
  unfolding insert_locks granted
  Triple-insert_locks [] plan_id now expires ls d =
      Triple-pure ls λ s p. (p, (sym (append-nil ls), d))
  Triple-insert_locks (path ∷ paths) plan_id now expires ls d =
      let l = lock_of path plan_id now expires in
      Triple-bind (Triple-lift _ _ (Triple-try_insert l ls)) λ rows. record {
        at = λ s (p, (e, free)).
            let distinct = subst Distinct (sym e) (Distinct-append ls l d free) in
            (Triple-weaken (Triple-insert_locks paths plan_id now expires rows distinct)
                (λ out t (q, (f, g)). (
                  q,
                  (
                    f
                        ∙ ap (λ x. x ++ granted plan_id now expires paths) e
                        ∙ append_assoc ls (l ∷ []) _,
                    g,
                  ),
                ))
                (λ x t q. q)).at
              s p;
      }

module _ (os : Os) (paths : List Str) (plan_id : Str) (t : Time) where
  -- The table after the taking of locks: without the stale locks and with one for each path, no path
  -- having two; or, after an error, as it was.
  abbrev pub Taken : List Lock → Result ExecutorError (Unit {0}) → Disk → Type 0
  Taken old (ok u) d =
      Distinct d.locks
      × (d.locks
          ≡ reap (os.format_time t) old
            ++ granted plan_id (os.format_time t) (os.format_time (t + lock_lifetime os)) paths)
  Taken old (err e) d = d.locks ≡ old

  Triple-acquire_locks :
      (old : List Lock)
      → Distinct old
      → Triple
          (Table old)
          (acquire_locks os paths plan_id t)
          (λ u. Taken old (ok u))
          (λ e. Taken old (err e))
  unfolding acquire_locks gets modify
  Triple-acquire_locks old distinct =
      let c = Triple-Keeps (Keeps-call old) (λ e d (p : Table old d). p) in
      let now = os.format_time t in
      let expires = os.format_time (t + lock_lifetime os) in
      Triple-bind c λ u. Triple-bind (Triple-lift _ _ c) λ u.
        Triple-bind {Q = λ rows d. Table old d × (rows ≡ reap now old)}
          (record { at = λ d p. (p, ap (reap now) p) })
          λ rows. record {
            at = λ s (p, e).
                (Triple-bind
                    (Triple-insert_locks old paths plan_id now _ rows
                      (subst Distinct (sym e) (Distinct-reap now old distinct)))
                    λ out.
                      Triple-bind {Q = λ u d. Extended old rows (granted plan_id now _ paths) out}
                        (record {
                          at = λ d (q, f). (Triple-weaken c (λ u d2 x. f) (λ x d2 y. y)).at d q;
                        })
                        λ u. record {
                          at = λ d (f, g). (
                            subst Distinct refl g,
                            f ∙ ap (λ x. x ++ granted plan_id now expires paths) e,
                          );
                        }).at
                  s p;
          }

  Post-Taken :
      (old : List Lock) (r : Result ExecutorError (Unit {0})) (d : Disk)
      → Post (λ u. Taken old (ok u)) (λ e. Taken old (err e)) r d
      → Taken old r d
  Post-Taken old (ok u) d p = p
  Post-Taken old (err e) d p = p

  -- Whatever calls of the database fail, the taking of locks for a plan leaves the table as it was where
  -- it returns an error, and otherwise a table without the stale locks, with a lock of the plan for
  -- each path, in which no path has two locks, where no path had two before.
  pub acquire_locks-Taken :
      (d : Disk)
      → Distinct d.locks
      → Taken d.locks (acquire_locks os paths plan_id t d).0 (acquire_locks os paths plan_id t d).1
  acquire_locks-Taken d distinct =
      Post-Taken d.locks _ _ ((Triple-acquire_locks d.locks distinct).at d refl)
