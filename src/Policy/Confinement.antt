-- ===== src/Policy/Confinement.antt =====
-- Where accepted plans write.
use mathlib.Core.List.{Memᴰ}
use open_whisker.Prelude.{◌≡◌, refl, List, [], ◌∷◌, Option, none, some, All, Passes}
use open_whisker.Prelude.Text.{Str, codes, split, trim_space, trim_of, eqb, is_empty, is_blank}
use open_whisker.Model.{
  VaultOperation, VaultPlan, Json, MoveNotePayload, OpType, create_note, append_note, rewrite_note,
  move_note, write_agent_report,
}
use open_whisker.VaultPath.{slash, clean_relative_dir, clean}
use open_whisker.VaultPath.Safe.{IsSafePath}
use open_whisker.VaultPath.Dirs.{IsUnder}
use open_whisker.Policy.Conventions.{Conventions, default_conventions, normalize, default_to}
use open_whisker.Policy.Rules.{Holds}
use open_whisker.Policy.LowRisk.{check}
use open_whisker.Policy.LowRisk.Spec.{MayWrite, IsLowRiskWrite, check-IsAutoApplicable}
use open_whisker.Policy.Approval.{check_approved}
use open_whisker.Policy.Approval.Spec.{IsApprovableOperation, MayPropose, IsMove}
use open_whisker.Policy.Approval.Decides.{check_approved-IsApplicable}

unfoldable pub moved_to : Option MoveNotePayload → List Str
moved_to none = []
moved_to (some payload) = payload.destination_path ∷ []

-- What `applyOperation` of internal/executor/direct_fs.go writes for an operation of a type: the
-- target, and the destination of a move.
unfoldable pub written_by : Json → OpType → VaultOperation → List Str
unfolding moved_to
written_by json move_note op = op.target_path ∷ moved_to (json.decode_move op.payload_json)
written_by json _ op = op.target_path ∷ []

unfoldable pub written_paths : Json → VaultOperation → List Str
unfolding written_by
written_paths json op = written_by json op.op_type op

abbrev pub IsListed : List Str → Str → Type 0
IsListed targets path = IsSafePath path × Memᴰ path targets

moved-IsListed :
    (c : Conventions) (targets : List Str) (o : Option MoveNotePayload)
    → Holds (IsMove c targets) o
    → All (IsListed targets) (moved_to o)
unfolding moved_to
moved-IsListed c targets none h = tt
moved-IsListed c targets (some payload) h = ((h.0, h.1.1.0), tt)

written-IsListed :
    (json : Json) (c : Conventions) (targets : List Str) (t : OpType) (op : VaultOperation)
    → IsListed targets op.target_path
    → MayPropose json c targets t op
    → All (IsListed targets) (written_by json t op)
unfolding written_by
written-IsListed json c targets move_note op l m =
    (l, moved-IsListed c targets (json.decode_move op.payload_json) m.1)
written-IsListed json c targets _ op l m = (l, tt)

all-IsListed :
    (json : Json) (c : Conventions) (targets : List Str) (ops : List VaultOperation)
    → All (IsApprovableOperation json c targets) ops
    → All (λ op. All (IsListed targets) (written_paths json op)) ops
unfolding written_paths
all-IsListed json c targets [] h = tt
all-IsListed json c targets (op ∷ ops) h =
    let (fields, (risk, (safe, (listed, may)))) = h.0 in
    (
      written-IsListed json c targets op.op_type op (safe, listed) may,
      all-IsListed json c targets ops h.1,
    )

-- Every path that the executor writes for a plan that `CheckApproved` accepts is a safe path among
-- the plan's target paths, which are the paths that the executor locks.
pub check_approved-written :
    (unicode : Str → Str) (json : Json) (conventions : Conventions) (plan : VaultPlan)
    → Passes (check_approved unicode json conventions plan)
    → All (λ op. All (IsListed plan.target_paths) (written_paths json op)) plan.operations
check_approved-written unicode json conventions plan h =
    let a = (check_approved-IsApplicable unicode json conventions plan).0 h in
    all-IsListed json (normalize unicode conventions) plan.target_paths plan.operations a.1.0.1.1

-- the segments of the three directories of the default profile
default_inbox :
    (unicode : Str → Str)
    → split slash (clean_relative_dir (normalize unicode default_conventions).raw_inbox_dir)
      ≡ codes "Raw" ∷ codes "Inbox" ∷ []
unfolding normalize default_to clean_relative_dir clean split trim_space trim_of eqb is_empty
    is_blank
default_inbox unicode = refl

default_reports :
    (unicode : Str → Str)
    → split slash (clean_relative_dir (normalize unicode default_conventions).agent_reports_dir)
      ≡ codes "Meta" ∷ codes "Reports" ∷ []
unfolding normalize default_to clean_relative_dir clean split trim_space trim_of eqb is_empty
    is_blank
default_reports unicode = refl

default_knowledge :
    (unicode : Str → Str)
    → split slash (clean_relative_dir (normalize unicode default_conventions).knowledge_dir)
      ≡ codes "Knowledge" ∷ []
unfolding normalize default_to clean_relative_dir clean split trim_space trim_of eqb is_empty
    is_blank
default_knowledge unicode = refl

-- A path in the inbox or the report directory of the default profile is not under Knowledge.
inbox_not_knowledge :
    (unicode : Str → Str) (path : Str)
    → IsUnder (normalize unicode default_conventions).raw_inbox_dir path
    → ¬ IsUnder (normalize unicode default_conventions).knowledge_dir path
inbox_not_knowledge unicode path (r, e) (s, f) =
    let p = rw (default_inbox unicode) at e in let q = rw (default_knowledge unicode) at f in cc

reports_not_knowledge :
    (unicode : Str → Str) (path : Str)
    → IsUnder (normalize unicode default_conventions).agent_reports_dir path
    → ¬ IsUnder (normalize unicode default_conventions).knowledge_dir path
reports_not_knowledge unicode path (r, e) (s, f) =
    let p = rw (default_reports unicode) at e in let q = rw (default_knowledge unicode) at f in cc

abbrev pub OutsideKnowledge : (Str → Str) → VaultOperation → Type 0
OutsideKnowledge unicode op =
    ¬ IsUnder (normalize unicode default_conventions).knowledge_dir op.target_path

write_outside :
    (unicode : Str → Str) (json : Json) (t : OpType) (op : VaultOperation)
    → MayWrite json (normalize unicode default_conventions) t op
    → OutsideKnowledge unicode op
write_outside unicode json create_note op m = inbox_not_knowledge unicode op.target_path m
write_outside unicode json append_note op m = inbox_not_knowledge unicode op.target_path m.0
write_outside unicode json rewrite_note op m = inbox_not_knowledge unicode op.target_path m.0
write_outside unicode json write_agent_report op m = reports_not_knowledge unicode op.target_path m
write_outside unicode json _ op m = absurd m

all_outside :
    (unicode : Str → Str) (json : Json) (ops : List VaultOperation)
    → All (IsLowRiskWrite json (normalize unicode default_conventions)) ops
    → All (OutsideKnowledge unicode) ops
all_outside unicode json [] h = tt
all_outside unicode json (op ∷ ops) h =
    (write_outside unicode json op.op_type op h.0.1.1, all_outside unicode json ops h.1)

-- With the default profile, no operation of a plan that is applied without approval has a target
-- under `Knowledge`.
pub check-OutsideKnowledge :
    (unicode : Str → Str) (json : Json) (plan : VaultPlan)
    → Passes (check unicode json default_conventions plan)
    → All (OutsideKnowledge unicode) plan.operations
check-OutsideKnowledge unicode json plan h =
    all_outside unicode json plan.operations
      ((check-IsAutoApplicable unicode json default_conventions plan).0 h).1.1.1
