-- ===== src/PlanService/Frame.antt =====
-- Properties of the tables of jobs and plans that no status change behind an approval breaks.
use open_whisker.Prelude.{◌≡◌, refl, false, List, Option, ℕ, Result, ok, err}
use open_whisker.Prelude.Text.{Str}
use open_whisker.Model.{WikiJob, VaultPlan, PlanStatus, JobStatus, OutboxKind}
use open_whisker.Exec.{Exec}
use open_whisker.Exec.Keeps.{
  Keeps, Keeps-bind, Keeps-lift, Keeps-when, Keeps-pure, Keeps-raise, Keeps-attempt, Keeps-if,
}
use open_whisker.Storage.{
  World, StoreError, set_plan, set_job, update_plan_status, mark_plan_failed,
}
use open_whisker.Storage.Frame.{
  On, Keeps-update_plan, Keeps-update_job_status, Keeps-add_outbox_message, Keeps-get_plan,
  Keeps-get_plan_by_job_id,
}
use open_whisker.PlanService.{
  Env, is_awaiting, stored, now, new_id, set_job_status, add_message, notify, resolve_plan,
  or_by_job, require_awaiting,
}

-- Closed under a change of a plan to a status other than awaiting approval, and of any job.
pub record Framed {V : Type 0} (Q : List WikiJob → List VaultPlan → V → Type 0) : Type 0 where
  pub plan_step :
      (id : Str) (f : VaultPlan → VaultPlan) (js : List WikiJob) (ps : List VaultPlan) (v : V)
      → ((p : VaultPlan) → (f p).id ≡ p.id)
      → ((p : VaultPlan) → is_awaiting (f p).status ≡ false)
      → Q js ps v
      → Q js (set_plan id f ps) v
  pub job_step :
      (id : Str) (f : WikiJob → WikiJob) (js : List WikiJob) (ps : List VaultPlan) (v : V)
      → Q js ps v
      → Q (set_job id f js) ps v

module _ {V : Type 0} (env : Env V) (Q : List WikiJob → List VaultPlan → V → Type 0) where
  pub Keeps-stored :
      {A : Type 0} (m : Exec (World V) StoreError A) → Keeps (On Q) m → Keeps (On Q) (stored m)
  unfolding stored
  Keeps-stored m k = Keeps-lift _ m k

  pub Keeps-now : Keeps (On Q) (now env)
  unfolding now
  Keeps-now = record { at = λ w p. p }

  pub Keeps-new_id : Keeps (On Q) (new_id env)
  unfolding new_id
  Keeps-new_id = record { at = λ w p. p }

  pub Keeps-add_message :
      (job_id : Str) (kind : OutboxKind) (body : Str)
      → Keeps (On Q) (add_message env job_id kind body)
  unfolding add_message
  Keeps-add_message job_id kind body =
      Keeps-bind _ _ Keeps-new_id
        λ id. Keeps-bind _ _ Keeps-now λ t. Keeps-stored _ (Keeps-add_outbox_message Q _)

  pub Keeps-notify :
      (job_id : Str) (kind : OutboxKind) (body : Str) → Keeps (On Q) (notify env job_id kind body)
  unfolding notify
  Keeps-notify job_id kind body = Keeps-when _ _ (Keeps-add_message job_id kind body)

  pub Keeps-or_by_job : (id : Str) (r : Result StoreError VaultPlan) → Keeps (On Q) (or_by_job id r)
  unfolding or_by_job
  Keeps-or_by_job id (ok plan) = Keeps-pure plan
  Keeps-or_by_job id (err StoreError.no_rows) = Keeps-stored _ (Keeps-get_plan_by_job_id Q id)
  Keeps-or_by_job id (err StoreError.fault) = Keeps-raise _
  Keeps-or_by_job id (err StoreError.constraint) = Keeps-raise _

  pub Keeps-resolve_plan : (identifier : Str) → Keeps (On Q) (resolve_plan identifier)
  unfolding resolve_plan
  Keeps-resolve_plan identifier =
      Keeps-if _ _ _ (Keeps-raise _)
        (Keeps-bind _ _ (Keeps-attempt _ (Keeps-get_plan Q _)) (Keeps-or_by_job _))

  pub Keeps-require_awaiting : (plan : VaultPlan) → Keeps (On Q) (require_awaiting env plan)
  unfolding require_awaiting
  Keeps-require_awaiting plan = Keeps-when _ _ (Keeps-raise _)

  module _ (framed : Framed Q) where
    pub Keeps-set_job_status :
        (id : Str) (status : JobStatus) (result text : Str)
        → Keeps (On Q) (set_job_status env id status result text)
    unfolding set_job_status
    Keeps-set_job_status id status result text = Keeps-bind _ _ Keeps-now λ t. Keeps-stored _ (
        Keeps-update_job_status Q t id status result text
          λ f js ps v g h q. framed.job_step id f js ps v q)

    pub Keeps-mark_plan_failed :
        (id : Str) (status : PlanStatus) (text : Str)
        → is_awaiting status ≡ false
        → Keeps (On Q) (mark_plan_failed {V = V} id status text)
    unfolding mark_plan_failed
    Keeps-mark_plan_failed id status text h =
        Keeps-update_plan Q id _ λ js ps v q. framed.plan_step id _ js ps v (λ p. refl) (λ p. h) q

    pub Keeps-update_plan_status :
        (id : Str) (status : PlanStatus) (t : Option ℕ)
        → is_awaiting status ≡ false
        → Keeps (On Q) (update_plan_status {V = V} id status t)
    unfolding update_plan_status
    Keeps-update_plan_status id status t h =
        Keeps-update_plan Q id _ λ js ps v q. framed.plan_step id _ js ps v (λ p. refl) (λ p. h) q
