-- ===== src/PlanService/Approve/Outcome.antt =====
-- internal/core/plans.go: when `Approve` may change the vault.
use open_whisker.Prelude.{
  ◌≡◌, refl, ◌⊎◌, inl, inr, Bool, true, false, List, ok, err, Check, if◌then◌else◌, Passes,
}
use open_whisker.Prelude.Text.{Str, eqb}
use open_whisker.Model.{WikiJob, VaultPlan, is_high}
use open_whisker.Policy.Errors.{CheckError}
use open_whisker.Policy.Approval.{check_approved}
use open_whisker.Policy.HighRisk.{check_for_approval_high_risk}
use open_whisker.Exec.Keeps.{Keeps, Keeps-bind, Keeps-ignore}
use open_whisker.Exec.Triples.{
  Triple, Triple-Keeps, Triple-pure, Triple-raise, Triple-bind, Triple-on_error, Triple-weaken,
}
use open_whisker.Storage.{set_plan}
use open_whisker.Storage.Rows.{HasPlan, find_plan-set_plan}
use open_whisker.Storage.Frame.{On}
use open_whisker.PlanService.{Env, Act, is_awaiting, checked}
use open_whisker.PlanService.Frame.{Framed, Keeps-stored, Keeps-mark_plan_failed}
use open_whisker.PlanService.Approve.{or_fail_plan, approve_high_risk_as_proposal, apply_approved}
use open_whisker.PlanService.Approve.Frame.{
  Keeps-start_applying, Keeps-write_proposal, Keeps-finish_proposal, Keeps-sync_first,
  Keeps-apply_operations, Keeps-sync_last, Keeps-finish_applied,
}

-- The stored plan does not await approval.
abbrev pub Settled : Str → List VaultPlan → Type 0
Settled id ps = HasPlan id (λ p. is_awaiting p.status ≡ false) ps

settles :
    (b : Bool) (p q : VaultPlan)
    → is_awaiting p.status ≡ false
    → is_awaiting q.status ≡ false
    → is_awaiting (if b then p else q).status ≡ false
settles true p q h k = h
settles false p q h k = k

set_plan-Settled :
    (x id : Str) (f : VaultPlan → VaultPlan) (ps : List VaultPlan)
    → ((p : VaultPlan) → (f p).id ≡ p.id)
    → ((p : VaultPlan) → is_awaiting (f p).status ≡ false)
    → Settled x ps
    → Settled x (set_plan id f ps)
set_plan-Settled x id f ps k h s = record {
  plan = if eqb s.plan.id id then f s.plan else s.plan;
  found = find_plan-set_plan id x f k ps s.found;
  holds = settles (eqb s.plan.id id) (f s.plan) s.plan (h s.plan) s.holds;
}

pub Framed-Settled :
    {V : Type 0} (x : Str) (C : V → Type 0) → Framed {V = V} (λ js ps v. Settled x ps × C v)
Framed-Settled x C = record {
  plan_step = λ id f js ps v k h (s, c). (set_plan-Settled x id f ps k h s, c);
  job_step = λ id f js ps v q. q;
}

-- The approved plan passes the check that its risk level calls for.
abbrev pub Authorised : {V : Type 0} → Env V → VaultPlan → Type 0
Authorised env p =
    ((is_high p.risk_level ≡ true)
      × Passes (check_for_approval_high_risk env.unicode env.json env.conventions p))
    ⊎ ((is_high p.risk_level ≡ false)
        × Passes (check_approved env.unicode env.json env.conventions p))

module _ {V : Type 0} (env : Env V) (x : Str) (v₀ : V) where
  abbrev pub Untouched : List WikiJob → List VaultPlan → V → Type 0
  Untouched js ps v = Settled x ps × (v ≡ v₀)

  abbrev pub Cleared : Type 0 → List WikiJob → List VaultPlan → V → Type 0
  Cleared C js ps v = Settled x ps × C

  abbrev pub Lawful : Type 0 → List WikiJob → List VaultPlan → V → Type 0
  Lawful C js ps v = (v ≡ v₀) ⊎ (Settled x ps × C)

  checked-Passes :
      (c : Check CheckError) (C : Type 0)
      → (Passes c → C)
      → Triple (On Untouched) (checked c) (λ u. On (Cleared C)) (λ e. On Untouched)
  checked-Passes (ok tt) C f = Triple-pure tt λ w p. (p.0, f refl)
  checked-Passes (err e) C f = Triple-raise _ λ w p. p

  or_fail_plan-Passes :
      (plan : VaultPlan) (c : Check CheckError) (C : Type 0)
      → (Passes c → C)
      → Triple
          (On Untouched)
          (or_fail_plan env plan (checked c))
          (λ u. On (Cleared C))
          (λ e. On (Lawful C))
  unfolding or_fail_plan
  or_fail_plan-Passes plan c C f = Triple-on_error _ _ (checked-Passes c C f) λ e w p.
      inl
        ((Keeps-ignore _ (
            Keeps-stored env Untouched _ (
              Keeps-mark_plan_failed env Untouched (Framed-Settled x (λ v. v ≡ v₀)) _ _ _ refl))).at
          w p).1

  behind :
      {A : Type 0} (C : Type 0) (m : Act V A)
      → Keeps (On (Cleared C)) m
      → Triple (On (Cleared C)) m (λ a. On (Lawful C)) (λ e. On (Lawful C))
  behind C m k =
      Triple-weaken (Triple-Keeps {R = λ e. On (Cleared C)} k λ e w p. p) (λ a w p. inr p)
        (λ e w p. inr p)

  framed : (C : Type 0) → Framed (Cleared C)
  framed C = Framed-Settled x (λ v. C)

  free :
      (C : Type 0) (js : List WikiJob) (ps : List VaultPlan) (v v' : V)
      → Cleared C js ps v
      → Cleared C js ps v'
  free C js ps v v' p = p

  pub approve_high_risk-Lawful :
      (plan : VaultPlan)
      → is_high plan.risk_level ≡ true
      → Triple
          (On Untouched)
          (approve_high_risk_as_proposal env plan)
          (λ r. On (Lawful (Authorised env plan)))
          (λ e. On (Lawful (Authorised env plan)))
  unfolding approve_high_risk_as_proposal
  approve_high_risk-Lawful plan h =
      let C = Authorised env plan in
      Triple-bind (or_fail_plan-Passes plan _ C λ c. inl (h, c)) λ u. behind C _ (
        Keeps-bind _ _ (Keeps-start_applying env (Cleared C) (framed C) (free C) plan) λ u'.
          Keeps-bind _ _ (Keeps-write_proposal env (Cleared C) (framed C) (free C) _)
            (Keeps-finish_proposal env (Cleared C) (framed C) (free C) plan))

  pub apply_approved-Lawful :
      (plan : VaultPlan)
      → is_high plan.risk_level ≡ false
      → Triple
          (On Untouched)
          (apply_approved env plan)
          (λ r. On (Lawful (Authorised env plan)))
          (λ e. On (Lawful (Authorised env plan)))
  unfolding apply_approved
  apply_approved-Lawful plan h =
      let C = Authorised env plan in
      Triple-bind (or_fail_plan-Passes plan _ C λ c. inr (h, c)) λ u. behind C _ (
        Keeps-bind _ _ (Keeps-start_applying env (Cleared C) (framed C) (free C) plan) λ u'.
          Keeps-bind _ _ (Keeps-sync_first env (Cleared C) (framed C) (free C) plan) λ before.
            Keeps-bind _ _ (Keeps-apply_operations env (Cleared C) (framed C) (free C) _) λ result.
              Keeps-bind _ _ (Keeps-sync_last env (Cleared C) (framed C) (free C)) λ after.
                Keeps-finish_applied env (Cleared C) (framed C) (free C) plan before result after)
