-- ===== src/PlanService/Resolve.antt =====
-- What `resolvePlan` returns is a stored plan.
use open_whisker.Prelude.{
  ◌≡◌, refl, sym, subst, inl, inr, Bool, true, false, Option, none, some, List, Result, ok, err,
  wrap, if◌then◌else◌, Bool-cases, arith,
}
use open_whisker.Prelude.Text.{Str, trim_space, is_empty}
use open_whisker.Model.{VaultPlan}
use open_whisker.Exec.{◌>>=◌, continue, attempt, pure, raise, lift}
use open_whisker.Storage.{
  World, StoreError, fault, no_rows, constraint, fails, call, one_row, find_plan, latest_plan_of,
  get_plan, get_plan_by_job_id,
}
use open_whisker.Storage.Rows.{HasPlan, find_plan-id, latest_plan_of-found}
use open_whisker.Storage.Frame.{Keeps-get_plan}
use open_whisker.PlanService.{
  PlanError, resolve_plan, or_by_job, stored, is_awaiting, require_awaiting, Env,
}

abbrev pub Stored : Str → List VaultPlan → Type 0
Stored id ps = HasPlan id (λ p. Unit) ps

-- If the result is a plan, a row with its id is stored.
abbrev Found : {E : Type 0} → Result E VaultPlan → List VaultPlan → Type 0
Found r ps = (p : VaultPlan) → r ≡ ok p → Stored p.id ps

row_of :
    {V : Type 0} (b : Bool) (o : Option VaultPlan) (w : World V) {p : VaultPlan}
    → (if◌then◌else◌ {A = Result StoreError VaultPlan × World V} b (err fault, w) (one_row o, w)).0
      ≡ ok p
    → o ≡ some p
row_of true o w h = cc
row_of false none w h = cc
row_of false (some q) w h = cc

wrap-Found :
    {E F : Type 0} (f : E → F) (r : Result E VaultPlan) (ps : List VaultPlan)
    → Found r ps
    → Found (wrap f r) ps
wrap-Found f (ok q) ps k p h = k p cc
wrap-Found f (err e) ps k p h = cc

module _ {V : Type 0} where
  get_plan-Found : (id : Str) (w : World V) → Found (get_plan id w).0 w.plans
  unfolding get_plan call
  get_plan-Found id w p h =
      let found = row_of (fails w.faults) (find_plan id w.plans) _ h in
      record {
        plan = p;
        found =
            subst (λ x. find_plan x w.plans ≡ some p) (sym (find_plan-id id w.plans found)) found;
        holds = tt;
      }

  get_plan_by_job_id-Found : (id : Str) (w : World V) → Found (get_plan_by_job_id id w).0 w.plans
  unfolding get_plan_by_job_id call
  get_plan_by_job_id-Found id w p h =
      let found = row_of (fails w.faults) (latest_plan_of id w.plans) _ h in
      let (q, e) = latest_plan_of-found id w.plans p found in
      record { plan = q; found = e; holds = tt }

  or_by_job-Found :
      (id : Str) (r : Result StoreError VaultPlan) (w : World V)
      → Found r w.plans
      → Found (or_by_job id r w).0 w.plans
  unfolding or_by_job pure raise stored lift
  or_by_job-Found id (ok q) w k p h = k p cc
  or_by_job-Found id (err no_rows) w k p h =
      wrap-Found _ (get_plan_by_job_id id w).0 w.plans (get_plan_by_job_id-Found id w) p h
  or_by_job-Found id (err fault) w k p h = cc
  or_by_job-Found id (err constraint) w k p h = cc

  resolve_in :
      (b : Bool) (id : Str) (w : World V)
      → Found
          ((if b
              then raise {S = World V} PlanError.missing_identifier
              else (attempt (get_plan id) >>= or_by_job id))
            w).0
          w.plans
  unfolding ◌>>=◌ continue attempt raise
  resolve_in true id w p h = cc
  resolve_in false id w p h =
      let same = (Keeps-get_plan (λ js ps v. ps ≡ w.plans) id).at w refl in
      let found =
        or_by_job-Found id (get_plan id w).0 (get_plan id w).1
          (λ q e. rw same (get_plan-Found id w q e)) p h in
      rw (sym same) found

  pub resolve_plan-Stored :
      (identifier : Str) (w : World V) (p : VaultPlan)
      → (resolve_plan identifier w).0 ≡ ok p
      → Stored p.id w.plans
  unfolding resolve_plan
  resolve_plan-Stored identifier w p h =
      resolve_in (is_empty (trim_space identifier)) (trim_space identifier) w p h

  pub require_awaiting-awaits :
      (env : Env V) (plan : VaultPlan) (w : World V)
      → (require_awaiting env plan w).0 ≡ ok tt
      → is_awaiting plan.status ≡ true
  unfolding require_awaiting raise
  require_awaiting-awaits env plan w h = elim (Bool-cases (is_awaiting plan.status)) [
    | inl e ↦ e
    | inr e ↦ grind (arith, e)
  ]
