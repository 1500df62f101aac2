-- ===== src/Policy/LowRisk/Spec.antt =====
-- What a plan must be for `Check` to let it be applied without approval, and that `Check` decides it.
use open_whisker.Prelude.{
  true, false, ◌≡◌, ◌↔◌, All, Passes, Passes-refuse, Passes-require, Passes-seq, Passes-each,
}
use open_whisker.Prelude.Text.{Str, trim_space}
use open_whisker.Model.{
  VaultOperation, VaultPlan, Json, OpType, create_note, append_note, rewrite_note,
  write_agent_report, is_low,
}
use open_whisker.VaultPath.Safe.{IsSafePath}
use open_whisker.VaultPath.Dirs.{IsUnder}
use open_whisker.Policy.Conventions.{Conventions, normalize}
use open_whisker.Policy.Hashes.{IsSha256, validate_mutating_before_hash-IsSha256}
use open_whisker.Policy.Rules.{Holds, IsNamed, Passes-content, Passes-IsUnder, Passes-path}
use open_whisker.Policy.LowRisk.{check, check_operation, check_type, is_nil}

-- What the type of an operation asks of it.
abbrev pub MayWrite : Json → Conventions → OpType → VaultOperation → Type 0
MayWrite json c create_note op = IsUnder c.raw_inbox_dir op.target_path
MayWrite json c append_note op =
    IsUnder c.raw_inbox_dir op.target_path
    × (IsSha256 (trim_space op.before_hash) × Holds IsNamed (json.decode_append op.payload_json))
MayWrite json c rewrite_note op =
    IsUnder c.raw_inbox_dir op.target_path
    × (IsSha256 (trim_space op.before_hash) × Holds IsNamed (json.decode_create op.payload_json))
MayWrite json c write_agent_report op = IsUnder c.agent_reports_dir op.target_path
MayWrite json c _ op = ⊥

abbrev pub IsLowRiskWrite : Json → Conventions → VaultOperation → Type 0
IsLowRiskWrite json c op =
    (is_low op.risk_level ≡ true) × (IsSafePath op.target_path × MayWrite json c op.op_type op)

-- A low-risk plan that needs no approval, with at least one operation, each of them low-risk, on a
-- safe path, in a directory that its type may write.
abbrev pub IsAutoApplicable : Json → Conventions → VaultPlan → Type 0
IsAutoApplicable json c plan =
    (is_low plan.risk_level ≡ true)
    × ((plan.requires_approval ≡ false)
        × ((is_nil plan.operations ≡ false) × All (IsLowRiskWrite json c) plan.operations))

module _ (json : Json) (c : Conventions) where
  check_type-MayWrite :
      (t : OpType) (op : VaultOperation) → Passes (check_type json c t op) ↔ MayWrite json c t op
  unfolding check_type
  check_type-MayWrite create_note op = Passes-IsUnder _ op.target_path c.raw_inbox_dir
  check_type-MayWrite append_note op =
      Passes-seq _ _ (Passes-IsUnder _ op.target_path c.raw_inbox_dir) (
        Passes-seq _ _ (validate_mutating_before_hash-IsSha256 op)
          (Passes-content append_note op.id (json.decode_append op.payload_json)))
  check_type-MayWrite rewrite_note op =
      Passes-seq _ _ (Passes-IsUnder _ op.target_path c.raw_inbox_dir) (
        Passes-seq _ _ (validate_mutating_before_hash-IsSha256 op)
          (Passes-content rewrite_note op.id (json.decode_create op.payload_json)))
  check_type-MayWrite write_agent_report op = Passes-IsUnder _ op.target_path c.agent_reports_dir
  check_type-MayWrite _ op = (λ h. cc, λ h. absurd h)

  check_operation-IsLowRiskWrite :
      (op : VaultOperation) → Passes (check_operation json c op) ↔ IsLowRiskWrite json c op
  unfolding check_operation
  check_operation-IsLowRiskWrite op =
      Passes-seq _ _ (Passes-require (is_low op.risk_level) _)
        (Passes-seq _ _ (Passes-path _ op.target_path) (check_type-MayWrite op.op_type op))

-- `Check` accepts exactly the low-risk plans that need no approval and have at least one operation, each
-- of low risk and on a safe path, which creates, appends to or rewrites a note below the inbox, appending
-- and rewriting from a hash and with content that is not blank, or writes an agent report below the
-- directory for reports.
pub check-IsAutoApplicable :
    (unicode : Str → Str) (json : Json) (conventions : Conventions) (plan : VaultPlan)
    → Passes (check unicode json conventions plan)
      ↔ IsAutoApplicable json (normalize unicode conventions) plan
unfolding check
check-IsAutoApplicable unicode json conventions plan =
    let c = normalize unicode conventions in
    Passes-seq _ _ (Passes-require (is_low plan.risk_level) _) (
      Passes-seq _ _ (Passes-refuse plan.requires_approval _) (
        Passes-seq _ _ (Passes-refuse (is_nil plan.operations) _) (
          Passes-each (check_operation json c) (check_operation-IsLowRiskWrite json c)
            plan.operations)))
