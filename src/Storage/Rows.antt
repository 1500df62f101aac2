-- ===== src/Storage/Rows.antt =====
-- Rows: what an `UPDATE … WHERE id = ?` does to the row that a `SELECT … WHERE id = ?` finds.
use open_whisker.Prelude.{
  ◌≡◌, refl, ap, ◌∙◌, ◌⊎◌, inl, inr, true, some, List, [], ◌∷◌, if◌then◌else◌, Bool-cases,
  Option-cases, arith,
}
use open_whisker.Prelude.Text.{Str, eqb}
use open_whisker.Prelude.Text.Laws.{eqb→eq, eqb_refl}
use open_whisker.Model.{VaultPlan, WikiJob}
use open_whisker.Storage.{find_plan, set_plan, find_job, set_job, latest_plan_of}

-- The row with the id has the property.
pub record HasPlan (id : Str) (P : VaultPlan → Type 0) (plans : List VaultPlan) : Type 0 where
  pub plan : VaultPlan
  pub found : find_plan id plans ≡ some plan
  pub holds : P plan

pub find_plan-id :
    (id : Str) (ps : List VaultPlan) {p : VaultPlan} → find_plan id ps ≡ some p → p.id ≡ id
unfolding find_plan
find_plan-id id [] h = cc
find_plan-id id (q ∷ qs) {p = p} h = ground (arith, eqb→eq q.id id, find_plan-id id qs {p = p})

pub find_plan-set_plan :
    (id x : Str) (f : VaultPlan → VaultPlan)
    → ((p : VaultPlan) → (f p).id ≡ p.id)
    → (ps : List VaultPlan) {p : VaultPlan} → find_plan x ps ≡ some p
    → find_plan x (set_plan id f ps) ≡ some (if eqb p.id id then f p else p)
unfolding find_plan set_plan
find_plan-set_plan id x f k [] h = cc
find_plan-set_plan id x f k (q ∷ qs) {p = p} h =
    ground (arith, k q, find_plan-set_plan id x f k qs {p = p})

pub set_plan-sets :
    (id : Str) (f : VaultPlan → VaultPlan)
    → ((p : VaultPlan) → (f p).id ≡ p.id)
    → (ps : List VaultPlan) (p : VaultPlan) → find_plan id ps ≡ some p
    → find_plan id (set_plan id f ps) ≡ some (f p)
set_plan-sets id f k ps p h =
    find_plan-set_plan id id f k ps h
    ∙ ap (λ b. some (if b then f p else p))
        (ap (λ x. eqb x id) (find_plan-id id ps h) ∙ eqb_refl id)

latest_is_first_or_later :
    (job_id : Str) (p : VaultPlan) (ps : List VaultPlan) (r : VaultPlan)
    → latest_plan_of job_id (p ∷ ps) ≡ some r
    → (r ≡ p) ⊎ (latest_plan_of job_id ps ≡ some r)
unfolding latest_plan_of
latest_is_first_or_later job_id p ps r h = elim (Option-cases (latest_plan_of job_id ps)) [
  | inl e ↦ ground (arith, e)
  | inr (q, e) ↦ ground (arith, e)
]

found_at :
    (x : Str) (p : VaultPlan) (ps : List VaultPlan)
    → (eqb p.id x ≡ true) ⊎ ((q : VaultPlan) × (find_plan x ps ≡ some q))
    → (q : VaultPlan) × (find_plan x (p ∷ ps) ≡ some q)
unfolding find_plan
found_at x p ps h = elim (Bool-cases (eqb p.id x)) [
  | inl e ↦ (p, rw e refl)
  | inr e ↦ elim h [ inl t ↦ (p, rw t refl) | inr (q, t) ↦ (q, rw e t) ]
]

pub latest_plan_of-found :
    (job_id : Str) (ps : List VaultPlan) (r : VaultPlan)
    → latest_plan_of job_id ps ≡ some r
    → (q : VaultPlan) × (find_plan r.id ps ≡ some q)
unfolding latest_plan_of
latest_plan_of-found job_id [] r h = cc
latest_plan_of-found job_id (p ∷ ps) r h =
    found_at r.id p ps (elim (latest_is_first_or_later job_id p ps r h) [
      | inl e ↦ inl (rw e (eqb_refl p.id))
      | inr e ↦ inr (latest_plan_of-found job_id ps r e)
    ])

pub find_job-set_job :
    (id x : Str) (f : WikiJob → WikiJob)
    → ((j : WikiJob) → (f j).id ≡ j.id)
    → (js : List WikiJob) {j : WikiJob} → find_job x js ≡ some j
    → find_job x (set_job id f js) ≡ some (if eqb j.id id then f j else j)
unfolding find_job set_job
find_job-set_job id x f k [] h = cc
find_job-set_job id x f k (i ∷ is) {j = j} h =
    ground (arith, k i, find_job-set_job id x f k is {j = j})
