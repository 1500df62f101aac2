-- ===== src/Storage/Frame.antt =====
-- What the calls of the store leave as it is.
use open_whisker.Prelude.{ok, ◌≡◌, refl, Bool, true, false, List, Result, err, if◌then◌else◌}
use open_whisker.Prelude.Text.{Str}
use open_whisker.Model.{Time, WikiJob, VaultPlan, JobStatus, OutboxMessage}
use open_whisker.Exec.Keeps.{Keeps}
use open_whisker.Exec.Triples.{Post, Triple}
use open_whisker.Storage.{
  World, StoreError, fails, rest_of, call, set_plan, set_job, update_plan, update_job_status,
  add_outbox_message, get_plan, get_plan_by_job_id,
}

module _ {V : Type 0} (Q : List WikiJob → List VaultPlan → V → Type 0) where
  -- a property of the tables of jobs and plans and of the vault
  abbrev pub On : World V → Type 0
  On w = Q w.jobs w.plans w.vault

  branch-On :
      {A : Type 0} (b : Bool) (r s : Result StoreError A × World V)
      → On r.1
      → On s.1
      → On (if b then r else s).1
  branch-On true r s p q = p
  branch-On false r s p q = q

  pub Keeps-call :
      {A : Type 0} (f : World V → Result StoreError A × World V)
      → ((w : World V) → On w → On (f w).1)
      → Keeps On (call f)
  unfolding call
  Keeps-call f k = record {
    at = λ w p.
        let next = record w { faults = rest_of w.faults } in
        branch-On (fails w.faults) (err StoreError.fault, next) (f next) p (k next p);
  }

  pub Keeps-get_plan : (id : Str) → Keeps On (get_plan id)
  unfolding get_plan
  Keeps-get_plan id = Keeps-call _ λ w p. p

  pub Keeps-get_plan_by_job_id : (id : Str) → Keeps On (get_plan_by_job_id id)
  unfolding get_plan_by_job_id
  Keeps-get_plan_by_job_id id = Keeps-call _ λ w p. p

  pub Keeps-add_outbox_message : (m : OutboxMessage) → Keeps On (add_outbox_message m)
  unfolding add_outbox_message
  Keeps-add_outbox_message m = Keeps-call _ λ w p. branch-On _ _ _ p p

  pub Keeps-update_plan :
      (id : Str) (f : VaultPlan → VaultPlan)
      → ((js : List WikiJob) (ps : List VaultPlan) (v : V) → Q js ps v → Q js (set_plan id f ps) v)
      → Keeps On (update_plan id f)
  unfolding update_plan
  Keeps-update_plan id f k = Keeps-call _ λ w p. k w.jobs w.plans w.vault p

  pub Keeps-update_job_status :
      (t : Time) (id : Str) (status : JobStatus) (result text : Str)
      → ((f : WikiJob → WikiJob) (js : List WikiJob) (ps : List VaultPlan) (v : V)
          → ((j : WikiJob) → (f j).id ≡ j.id)
          → ((j : WikiJob) → (f j).status ≡ status)
          → Q js ps v
          → Q (set_job id f js) ps v)
      → Keeps On (update_job_status t id status result text)
  unfolding update_job_status
  Keeps-update_job_status t id status result text k =
      Keeps-call _ λ w p. k _ w.jobs w.plans w.vault (λ j. refl) (λ j. refl) p

module _ {V : Type 0} (Q R : List WikiJob → List VaultPlan → V → Type 0) where
  abbrev Ends : Result StoreError (Unit {0}) × World V → Type 0
  Ends (r, w) = Post {A = Unit {0}} (λ u. On R) (λ e. On Q) r w

  called :
      (b : Bool) (w next : World V)
      → On Q w
      → On R next
      → Ends (if b then (err StoreError.fault, w) else (ok tt, next))
  called true w next p q = p
  called false w next p q = q

  -- An update of a plan that a fault does not stop takes `Q` to `R`.
  pub Triple-update_plan :
      (id : Str) (f : VaultPlan → VaultPlan)
      → ((js : List WikiJob) (ps : List VaultPlan) (v : V) → Q js ps v → R js (set_plan id f ps) v)
      → Triple (On Q) (update_plan id f) (λ u. On R) (λ e. On Q)
  unfolding update_plan call
  Triple-update_plan id f k = record {
    at = λ w p.
        called (fails w.faults) (record w { faults = rest_of w.faults }) _ p
          (k w.jobs w.plans w.vault p);
  }
