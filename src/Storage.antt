-- ===== src/Storage.antt =====
-- internal/storage/store.go: the tables of jobs, plans and outbox messages, with the constraints of
-- internal/storage/schema.go that the inserts meet. A table is the list of its rows in the order in
-- which they were inserted. `faults` says of each coming database call whether it fails; after its
-- end no call fails. `vault` is what the executor and the sync client change.
pub mod Rows
pub mod Sorted
pub mod Lists
pub mod Page
pub mod Frame
use open_whisker.Prelude.{
  ℕ, ltb, Bool, true, false, ◌||◌, ◌&&◌, not, Option, none, some, List, [], ◌∷◌, ◌++◌, Result, ok,
  err, if◌then◌else◌,
}
use open_whisker.Prelude.Text.{Str, codes, eqb, is_blank, trim_space}
use open_whisker.Model.{
  VaultPlan, WikiJob, OutboxMessage, Time, PlanStatus, approved, rejected, JobStatus,
}
use open_whisker.Exec.{Exec}

pub record World (Vault : Type 0) : Type 0 where
  pub jobs : List WikiJob
  pub plans : List VaultPlan
  pub outbox : List OutboxMessage
  pub faults : List Bool
  pub ticks : ℕ
  pub vault : Vault

-- the errors of a database call: a fault, a broken constraint, and `sql.ErrNoRows`
pub data StoreError : Type 0 where
  fault constraint no_rows : StoreError

-- `UPDATE … WHERE id = ?` on each of the two tables
unfoldable pub set_plan : Str → (VaultPlan → VaultPlan) → List VaultPlan → List VaultPlan
set_plan id f [] = []
set_plan id f (p ∷ ps) = (if eqb p.id id then f p else p) ∷ set_plan id f ps

unfoldable pub set_job : Str → (WikiJob → WikiJob) → List WikiJob → List WikiJob
set_job id f [] = []
set_job id f (j ∷ js) = (if eqb j.id id then f j else j) ∷ set_job id f js

-- `SELECT … WHERE id = ?`; the id is the primary key
unfoldable pub find_plan : Str → List VaultPlan → Option VaultPlan
find_plan id [] = none
find_plan id (p ∷ ps) = if eqb p.id id then some p else find_plan id ps

unfoldable pub find_job : Str → List WikiJob → Option WikiJob
find_job id [] = none
find_job id (j ∷ js) = if eqb j.id id then some j else find_job id js

-- `ORDER BY created_at DESC LIMIT 1` over the plans of a job
abbrev newer : VaultPlan → Option VaultPlan → Option VaultPlan
newer p none = some p
newer p (some q) = if ltb p.created_at q.created_at then some q else some p

unfoldable pub latest_plan_of : Str → List VaultPlan → Option VaultPlan
latest_plan_of job_id [] = none
latest_plan_of job_id (p ∷ ps) =
    let rest = latest_plan_of job_id ps in if eqb p.job_id job_id then newer p rest else rest

abbrev pub is_none : {A : Type 0} → Option A → Bool
is_none none = true
is_none (some a) = false

abbrev rest_of : List Bool → List Bool
rest_of [] = []
rest_of (b ∷ bs) = bs

abbrev pub fails : List Bool → Bool
fails [] = false
fails (b ∷ bs) = b

-- the outcome of a `SELECT` of one row
abbrev pub one_row : {A : Type 0} → Option A → Result StoreError A
one_row none = err no_rows
one_row (some a) = ok a

abbrev known_actor : Str → Str
known_actor actor = if is_blank actor then codes "knowledge" else trim_space actor

abbrev has_message : Str → List OutboxMessage → Bool
has_message id [] = false
has_message id (m ∷ ms) = eqb m.id id || has_message id ms

module _ {V : Type 0} where
  -- one database call
  unfoldable pub call :
      {A : Type 0} → (World V → Result StoreError A × World V) → Exec (World V) StoreError A
  call f w =
      let next = record w { faults = rest_of w.faults } in
      if fails w.faults then (err fault, next) else f next

  -- CreateJob
  unfoldable pub create_job : WikiJob → Exec (World V) StoreError Unit
  create_job job = call λ w.
      if is_none (find_job job.id w.jobs)
      then (ok tt, record w { jobs = w.jobs ++ job ∷ [] })
      else (err constraint, w)

  -- UpdateJobStatus; `now` is the time of the call
  unfoldable pub update_job_status :
      Time → Str → JobStatus → Str → Str → Exec (World V) StoreError Unit
  update_job_status now id status result_json err_text = call λ w. (
    ok tt,
    record w {
      jobs =
          set_job id
            (λ j. record j {
              status = status;
              result_json = result_json;
              error = err_text;
              updated_at = now;
            })
            w.jobs;
    },
  )

  -- SavePlan
  unfoldable pub save_plan : VaultPlan → Exec (World V) StoreError Unit
  save_plan plan = call λ w.
      if is_none (find_plan plan.id w.plans) && not (is_none (find_job plan.job_id w.jobs))
      then (ok tt, record w { plans = w.plans ++ plan ∷ [] })
      else (err constraint, w)

  -- an `UPDATE vault_plans SET … WHERE id = ?`
  unfoldable pub update_plan : Str → (VaultPlan → VaultPlan) → Exec (World V) StoreError Unit
  update_plan id f = call λ w. (ok tt, record w { plans = set_plan id f w.plans })

  -- UpdatePlanStatus
  unfoldable pub update_plan_status :
      Str → PlanStatus → Option Time → Exec (World V) StoreError Unit
  update_plan_status id status applied_at =
      update_plan id (λ p. record p { status = status; applied_at = applied_at })

  -- UpdatePlanPrepared
  unfoldable pub update_plan_prepared : VaultPlan → Exec (World V) StoreError Unit
  update_plan_prepared plan = update_plan plan.id (λ p. record p {
    operations = plan.operations;
    diff = plan.diff;
    status = plan.status;
    prepared_at = plan.prepared_at;
    error = [];
  })

  -- ApprovePlan
  unfoldable pub approve_plan : Str → Time → Exec (World V) StoreError Unit
  approve_plan id approved_at =
      update_plan id
        (λ p. record p { status = approved; approved_at = some approved_at; error = [] })

  -- RejectPlan
  unfoldable pub reject_plan : Str → Str → Time → Exec (World V) StoreError Unit
  reject_plan id reason rejected_at = update_plan id (λ p. record p {
    status = rejected;
    rejected_at = some rejected_at;
    rejected_reason = reason;
  })

  -- MarkPlanFailed
  unfoldable pub mark_plan_failed : Str → PlanStatus → Str → Exec (World V) StoreError Unit
  mark_plan_failed id status err_text =
      update_plan id (λ p. record p { status = status; error = err_text })

  -- GetJob
  unfoldable pub get_job : Str → Exec (World V) StoreError WikiJob
  get_job id = call λ w. (one_row (find_job id w.jobs), w)

  -- GetPlan
  unfoldable pub get_plan : Str → Exec (World V) StoreError VaultPlan
  get_plan id = call λ w. (one_row (find_plan id w.plans), w)

  -- GetPlanByJobID
  unfoldable pub get_plan_by_job_id : Str → Exec (World V) StoreError VaultPlan
  get_plan_by_job_id job_id = call λ w. (one_row (latest_plan_of job_id w.plans), w)

  -- AddOutboxMessage
  unfoldable pub add_outbox_message : OutboxMessage → Exec (World V) StoreError Unit
  add_outbox_message msg = call λ w.
      if not (has_message msg.id w.outbox) && not (is_none (find_job msg.job_id w.jobs))
      then (
        ok tt,
        record w { outbox = w.outbox ++ (record msg { actor = known_actor msg.actor }) ∷ [] },
      )
      else (err constraint, w)
