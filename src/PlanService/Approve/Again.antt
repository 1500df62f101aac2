-- ===== src/PlanService/Approve/Again.antt =====
-- internal/core/plans.go: a plan that was approved is not applied again.
use open_whisker.Prelude.{
  ◌≡◌, refl, sym, subst, inl, inr, Bool, true, false, some, Result, ok, err, if◌then◌else◌, ap, ◌∙◌,
}
use open_whisker.Prelude.Text.{Str, trim_space, is_empty}
use open_whisker.Model.{VaultPlan}
use open_whisker.Exec.{◌>>=◌, continue, attempt, pure, raise}
use open_whisker.Storage.{World, StoreError, fault, fails, call, one_row, find_plan, get_plan}
use open_whisker.PlanService.{Env, PlanError, is_awaiting, resolve_plan, or_by_job}
use open_whisker.PlanService.Approve.{approve}
use open_whisker.PlanService.Approve.Outcome.{Settled}
use open_whisker.PlanService.Approve.Once.{approve-ChangesOnce}

module _ {V : Type 0} where
  found_row :
      (b : Bool) (id : Str) (q p : VaultPlan) (w : World V)
      → (or_by_job {V = V} id (if b then err fault else ok q) w).0 ≡ ok p
      → p ≡ q
  unfolding or_by_job raise pure
  found_row true id q p w h = cc
  found_row false id q p w h = cc

  abbrev result : Result StoreError VaultPlan × World V → Result StoreError VaultPlan
  result (r, w) = r

  got :
      (b : Bool) (r : Result StoreError VaultPlan) (q : VaultPlan) (w w' : World V)
      → r ≡ ok q
      → result (if b then (err fault, w) else (r, w')) ≡ (if b then err fault else ok q)
  got true r q w w' h = refl
  got false r q w w' h = h

  get_plan-row :
      (id : Str) (q : VaultPlan) (w : World V)
      → find_plan id w.plans ≡ some q
      → (get_plan id w).0 ≡ (if fails w.faults then err fault else ok q)
  unfolding get_plan call
  get_plan-row id q w h = got (fails w.faults) _ q _ _ (ap one_row h)

  resolve_row :
      (b : Bool) (id : Str) (q p : VaultPlan) (w : World V)
      → find_plan id w.plans ≡ some q
      → ((if b
            then raise {S = World V} PlanError.missing_identifier
            else (attempt (get_plan id) >>= or_by_job id))
          w).0
        ≡ ok p
      → p ≡ q
  unfolding ◌>>=◌ continue attempt raise
  resolve_row true id q p w f h = cc
  resolve_row false id q p w f h =
      found_row (fails w.faults) id q p (get_plan id w).1
        (subst (λ r. (or_by_job id r (get_plan id w).1).0 ≡ ok p) (get_plan-row id q w f) h)

  resolve_plan-row :
      (identifier : Str) (q p : VaultPlan) (w : World V)
      → find_plan (trim_space identifier) w.plans ≡ some q
      → (resolve_plan identifier w).0 ≡ ok p
      → p ≡ q
  unfolding resolve_plan
  resolve_plan-row identifier q p w f h =
      resolve_row (is_empty (trim_space identifier)) (trim_space identifier) q p w f h

-- `Approve` by the id of a stored plan that does not await approval leaves the vault as it is,
-- whatever the database, the executor and the sync client do.
pub approve-Settled :
    {V : Type 0} (env : Env V) (identifier : Str) (w : World V)
    → Settled (trim_space identifier) w.plans
    → (approve env identifier w).1.vault ≡ w.vault
approve-Settled env identifier w s = elim (approve-ChangesOnce env identifier w) [
  | inl e ↦ e
  | inr (plan, found, awaits, settled, t, authorised) ↦
      let same = resolve_plan-row identifier s.plan plan w s.found found in
      absurd (cc (sym awaits ∙ (ap (λ p. is_awaiting p.status) same ∙ s.holds)))
]
