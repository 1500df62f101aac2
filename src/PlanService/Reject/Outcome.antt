-- ===== src/PlanService/Reject/Outcome.antt =====
-- internal/core/plans.go: what `Reject` leaves behind.
use open_whisker.Prelude.{◌≡◌, refl, ◌≢◌, ◌⊎◌, inl, inr, List, [], ◌∷◌, some, ok, true, Bool-cases}
use open_whisker.Prelude.Text.{Str, eqb}
use open_whisker.Prelude.Text.Laws.{eqb→eq, eqb_refl}
use open_whisker.Model.{Time, WikiJob, VaultPlan, rejected, JobStatus}
use open_whisker.Exec.Keeps.{Keeps, Keeps-bind, Keeps-pure}
use open_whisker.Exec.Triples.{
  Triple, Triple-Keeps, Triple-bind, Triple-weaken, Triple-state, Triple-lift, after-bind,
}
use open_whisker.Storage.{World, reject_plan, set_plan}
use open_whisker.Storage.Rows.{HasPlan, set_plan-sets}
use open_whisker.Storage.Frame.{On, Keeps-update_job_status, Triple-update_plan}
use open_whisker.PlanService.{Env, is_awaiting, stored, set_job_status, resolve_plan}
use open_whisker.PlanService.Frame.{
  Keeps-stored, Keeps-now, Keeps-notify, Keeps-resolve_plan, Keeps-require_awaiting,
}
use open_whisker.PlanService.Resolve.{Stored, resolve_plan-Stored, require_awaiting-awaits}
use open_whisker.PlanService.Reject.{reject_awaiting, reject, reason_or_default}

-- the plan as it is, but rejected at the time for the reason
abbrev pub rejected_plan : Str → Time → VaultPlan → VaultPlan
rejected_plan reason t p = record p {
  status = rejected;
  rejected_at = some t;
  rejected_reason = reason;
}

abbrev pub IsRejected : Str → VaultPlan → Type 0
IsRejected reason p = (t : Time) × (q : VaultPlan) × (p ≡ rejected_plan reason t q)

-- The tables have the same rows in the same order, but for the rows with the id, which are rejected at
-- the time for the reason.
pub data RowRejected (id reason : Str) (t : Time) : List VaultPlan → List VaultPlan → Type 0 where
  end_of_table : RowRejected id reason t [] []
  other_row :
      {p : VaultPlan} {ps qs : List VaultPlan}
      → p.id ≢ id
      → RowRejected id reason t ps qs
      → RowRejected id reason t (p ∷ ps) (p ∷ qs)
  named_row :
      {p : VaultPlan} {ps qs : List VaultPlan}
      → p.id ≡ id
      → RowRejected id reason t ps qs
      → RowRejected id reason t (p ∷ ps) (rejected_plan reason t p ∷ qs)

-- The plan with the id stands in the table, and the rows with the id are all that changed.
abbrev pub OnlyRejected : Str → Str → List VaultPlan → List VaultPlan → Type 0
OnlyRejected id reason before after =
    HasPlan id (IsRejected reason) after × (t : Time) × RowRejected id reason t before after

set_plan-RowRejected :
    (id reason : Str) (t : Time) (ps : List VaultPlan)
    → RowRejected id reason t ps (set_plan id (rejected_plan reason t) ps)
unfolding set_plan
set_plan-RowRejected id reason t [] = end_of_table
set_plan-RowRejected id reason t (p ∷ ps) =
    let rest = set_plan-RowRejected id reason t ps in
    elim (Bool-cases (eqb p.id id)) [
      | inl e ↦ rw e (named_row (eqb→eq p.id id e) rest)
      | inr n ↦ rw n (other_row (λ same. cc (same, n, eqb_refl id)) rest)
    ]

module _ {V : Type 0} (env : Env V) (plan : VaultPlan) (reason : Str) (ps₀ : List VaultPlan)
    (v₀ : V) where
  abbrev pub Before : List WikiJob → List VaultPlan → V → Type 0
  Before js ps v = (ps ≡ ps₀) × (v ≡ v₀)

  abbrev After : List WikiJob → List VaultPlan → V → Type 0
  After js ps v = OnlyRejected plan.id reason ps₀ ps × (v ≡ v₀)

  abbrev pub Rejects : World V → Type 0
  Rejects w = (w.vault ≡ v₀) × ((w.plans ≡ ps₀) ⊎ OnlyRejected plan.id reason ps₀ w.plans)

  reject_plan-After :
      (t : Time)
      → Stored plan.id ps₀
      → Triple (On Before) (reject_plan plan.id reason t) (λ u. On After) (λ e. On Before)
  unfolding reject_plan
  reject_plan-After t has = Triple-update_plan Before After plan.id _ λ js ps v (same, e).
      let here : Stored plan.id ps = rw same has in
      let f = rejected_plan reason t in
      let sets = set_plan-sets plan.id f (λ q. refl) ps here.plan here.found in
      (
        (
          record { plan = f here.plan; found = sets; holds = (t, here.plan, refl) },
          t,
          rw same (set_plan-RowRejected plan.id reason t ps₀),
        ),
        e,
      )

  Keeps-set_job_status :
      (id : Str) (status : JobStatus) (result text : Str)
      → Keeps (On After) (set_job_status env id status result text)
  unfolding set_job_status
  Keeps-set_job_status id status result text = Keeps-bind _ _ (Keeps-now env After) λ t.
      Keeps-stored env After _
        (Keeps-update_job_status After t id status result text λ f js ps v g h q. q)

  pub reject_awaiting-Rejects :
      Stored plan.id ps₀
      → Triple (On Before) (reject_awaiting env plan reason) (λ r. Rejects) (λ e. Rejects)
  unfolding reject_awaiting stored
  reject_awaiting-Rejects has =
      Triple-bind (Triple-Keeps (Keeps-now env Before) λ e w p. (p.1, inl p.0)) λ t.
        Triple-bind
          (Triple-lift _ _
            (Triple-weaken (reject_plan-After t has) (λ u w p. p) λ e w p. (p.1, inl p.0)))
          λ u.
            Triple-weaken
              (Triple-Keeps {R = λ e. On After}
                (Keeps-bind _ _ (Keeps-set_job_status _ _ _ _)
                  λ u'. Keeps-bind _ _ (Keeps-notify env After _ _ _) λ u''. Keeps-pure _)
                λ e w p. p)
              (λ r w p. (p.1, inr p.0)) (λ e w p. (p.1, inr p.0))

-- The vault is as it was, and so are the plans, or the plan that the identifier names awaited approval
-- and is rejected for the reason, and no row of another plan changed.
abbrev pub RejectsOnly : {V : Type 0} → Str → Str → World V → World V → Type 0
RejectsOnly identifier reason w after =
    (after.vault ≡ w.vault)
    × ((after.plans ≡ w.plans)
        ⊎ ((plan : VaultPlan) × ((resolve_plan identifier w).0 ≡ ok plan)
            × (is_awaiting plan.status ≡ true)
            × OnlyRejected plan.id (reason_or_default reason) w.plans after.plans))

-- Whatever the database's faults: `Reject` leaves the vault as it is, and it leaves the table of plans as
-- it is or rejects the plan that the identifier names, which awaited approval, for the reason given or
-- the default one, and leaves every other row, and what else stands in the row of the plan, as it is.
pub reject-RejectsOnly :
    {V : Type 0} (env : Env V) (identifier reason : Str) (w : World V)
    → RejectsOnly identifier reason w (reject env identifier reason w).1
unfolding reject
reject-RejectsOnly env identifier reason w =
    let why = reason_or_default reason in
    let kept =
      (Keeps-resolve_plan env (λ js ps v. (ps ≡ w.plans) × (v ≡ w.vault)) identifier).at w
        (refl, refl) in
    after-bind _ _ (RejectsOnly identifier reason w) w
      (λ plan found.
        let w₁ = (resolve_plan identifier w).1 in
        let has = resolve_plan-Stored identifier w plan found in
        let before =
          (Keeps-require_awaiting env (Before env plan why w.plans w.vault) plan).at w₁ kept in
        after-bind _ _ (RejectsOnly identifier reason w) w₁
          (λ u awaits.
            let (e, done) =
              Triple-state (reject_awaiting-Rejects env plan why w.plans w.vault has) _ before in
            (
              e,
              elim done [
                | inl s ↦ inl s
                | inr s ↦ inr (plan, found, require_awaiting-awaits env plan w₁ awaits, s)
              ],
            ))
          (λ e h. (before.1, inl before.0)))
      (λ e h. (kept.1, inl kept.0))
