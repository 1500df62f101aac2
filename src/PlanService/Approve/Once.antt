-- ===== src/PlanService/Approve/Once.antt =====
-- internal/core/plans.go: `Approve` changes the vault for a plan once, after the check of its risk level.
use open_whisker.Prelude.{
  ◌≡◌, refl, ◌⊎◌, inl, inr, Bool, true, false, List, [], some, ok, if◌then◌else◌,
}
use open_whisker.Prelude.Text.{Str}
use open_whisker.Model.{Time, WikiJob, VaultPlan, approved, is_high}
use open_whisker.Exec.Triples.{
  Triple, Triple-Keeps, Triple-bind, Triple-weaken, Triple-state, Triple-lift, after-bind,
}
use open_whisker.Storage.{World, approve_plan}
use open_whisker.Storage.Rows.{set_plan-sets}
use open_whisker.Storage.Frame.{On, Triple-update_plan}
use open_whisker.PlanService.{Env, is_awaiting, stored, resolve_plan}
use open_whisker.PlanService.Frame.{Keeps-now, Keeps-resolve_plan, Keeps-require_awaiting}
use open_whisker.PlanService.Resolve.{Stored, resolve_plan-Stored, require_awaiting-awaits}
use open_whisker.PlanService.Approve.{
  approve_high_risk_as_proposal, apply_approved, approve_awaiting, approve,
}
use open_whisker.PlanService.Approve.Outcome.{
  Settled, Authorised, Untouched, Lawful, approve_high_risk-Lawful, apply_approved-Lawful,
}

-- the plan as `Approve` hands it to the checks
abbrev pub as_approved : VaultPlan → Time → VaultPlan
as_approved plan t = record plan { status = approved; approved_at = some t }

module _ {V : Type 0} (env : Env V) (plan : VaultPlan) (v₀ : V) where
  abbrev pub Before : List WikiJob → List VaultPlan → V → Type 0
  Before js ps v = Stored plan.id ps × (v ≡ v₀)

  abbrev pub ApprovedOnce : World V → Type 0
  ApprovedOnce w =
      (w.vault ≡ v₀)
      ⊎ (Settled plan.id w.plans × ((t : Time) × Authorised env (as_approved plan t)))

  approve_plan-settles :
      (t : Time)
      → Triple
          (On Before)
          (approve_plan plan.id t)
          (λ u. On (Untouched env plan.id v₀))
          (λ e. On Before)
  unfolding approve_plan
  approve_plan-settles t =
      Triple-update_plan Before (Untouched env plan.id v₀) plan.id _ λ js ps v (p, e). (
        record {
          plan = record p.plan { status = approved; approved_at = some t; error = [] };
          found = set_plan-sets plan.id _ (λ q. refl) ps p.plan p.found;
          holds = refl;
        },
        e,
      )

  by_risk :
      (p : VaultPlan) (b : Bool)
      → is_high p.risk_level ≡ b
      → Triple
          (On (Untouched env plan.id v₀))
          (if b then approve_high_risk_as_proposal env p else apply_approved env p)
          (λ r. On (Lawful env plan.id v₀ (Authorised env p)))
          (λ e. On (Lawful env plan.id v₀ (Authorised env p)))
  by_risk p true h = approve_high_risk-Lawful env plan.id v₀ p h
  by_risk p false h = apply_approved-Lawful env plan.id v₀ p h

  some_time :
      (t : Time) (w : World V)
      → On (Lawful env plan.id v₀ (Authorised env (as_approved plan t))) w
      → ApprovedOnce w
  some_time t w (inl e) = inl e
  some_time t w (inr (s, a)) = inr (s, (t, a))

  pub approve_awaiting-Once :
      Triple (On Before) (approve_awaiting env plan) (λ r. ApprovedOnce) (λ e. ApprovedOnce)
  unfolding approve_awaiting stored
  approve_awaiting-Once = Triple-bind (Triple-Keeps (Keeps-now env Before) λ e w p. inl p.1) λ t.
      Triple-bind
        (Triple-lift _ _ (Triple-weaken (approve_plan-settles t) (λ u w p. p) λ e w p. inl p.1))
        λ u.
          Triple-weaken (by_risk (as_approved plan t) _ refl) (λ r. some_time t) (λ e. some_time t)

-- The vault is as it was, or `Approve` found a plan that awaited approval, which does not await it
-- any more and has passed the check of its risk level.
abbrev pub ChangesOnce : {V : Type 0} → Env V → Str → World V → World V → Type 0
ChangesOnce env identifier w after =
    (after.vault ≡ w.vault)
    ⊎ ((plan : VaultPlan) × ((resolve_plan identifier w).0 ≡ ok plan)
        × (is_awaiting plan.status ≡ true)
        × Settled plan.id after.plans
        × (t : Time) × Authorised env (as_approved plan t))

module _ {V : Type 0} (env : Env V) where
  -- Whatever the database's faults and whatever the executor and the sync client do: after `Approve`
  -- the vault is unchanged, or the identifier named a plan that awaited approval, whose row now has
  -- another status, and which passed `CheckForApprovalHighRisk` if its risk is high and `CheckApproved`
  -- if not.
  pub approve-ChangesOnce :
      (identifier : Str) (w : World V) → ChangesOnce env identifier w (approve env identifier w).1
  unfolding approve
  approve-ChangesOnce identifier w =
      let kept =
        (Keeps-resolve_plan env (λ js ps v. (ps ≡ w.plans) × (v ≡ w.vault)) identifier).at w
          (refl, refl) in
      after-bind _ _ (ChangesOnce env identifier w) w
        (λ plan found.
          let w₁ = (resolve_plan identifier w).1 in
          let has = resolve_plan-Stored identifier w plan found in
          let before =
            (Keeps-require_awaiting env (Before env plan w.vault) plan).at w₁
              (rw kept.0 has, kept.1) in
          after-bind _ _ (ChangesOnce env identifier w) w₁
            (λ u awaits. elim ((Triple-state (approve_awaiting-Once env plan w.vault) _ before)) [
              | inl e ↦ inl e
              | inr (s, (t, a)) ↦
                  inr (plan, found, require_awaiting-awaits env plan w₁ awaits, s, t, a)
            ])
            (λ e h. inl before.1))
        (λ e h. inl kept.1)
