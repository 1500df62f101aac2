-- ===== src/Tests/Inputs.antt =====
-- The inputs that the tests share.
use open_whisker.Prelude.{Bool, true, false, none, some, List, [], ◌∷◌, ◌++◌}
use open_whisker.Prelude.Text.{Str, codes}
use open_whisker.Model.{
  VaultOperation, VaultPlan, Json, Risk, low, medium, high, OpType, append_note, move_note,
  PlanStatus, proposed, approved,
}

abbrev pub same : Str → Str
same s = s

-- A decoder for payloads that are written as their content, or as the destination of a move.
abbrev pub plain_json : Json
plain_json = record {
  decode_create = λ s. some s;
  decode_append = λ s. some s;
  decode_move = λ s. some (record {
    destination_path = s;
    processing_note = codes "[[" ++ s ++ codes "]] Knowledge/Drafts/a.md";
  });
  decode_rename = λ s.
      some (record { source_path = s; destination_path = codes "Knowledge/b.md"; reason = [] });
  decode_retag = λ s. none;
  decode_link_rewrite = λ s. none;
}

abbrev pub sha : Str
sha = codes "e3b0c44298fc1c149afbf4c8996fb92427ae41e4649b934ca495991b7852b855"

abbrev pub operation : Risk → OpType → Str → Str → VaultOperation
operation risk t path payload = record {
  id = codes "op_1";
  op_type = t;
  target_path = path;
  before_hash = sha;
  payload_json = payload;
  reason = codes "why";
  risk_level = risk;
}

abbrev pub plan : Risk → Bool → PlanStatus → List Str → List VaultOperation → VaultPlan
plan risk approval status targets ops = record {
  id = codes "plan_1";
  job_id = codes "job_1";
  purpose = codes "p";
  risk_level = risk;
  requires_approval = approval;
  summary = codes "s";
  source_refs = codes "raw_1" ∷ [];
  target_paths = targets;
  operations = ops;
  diff = none;
  status = status;
  created_at = 1;
  prepared_at = none;
  approved_at = none;
  rejected_at = none;
  applied_at = none;
  rejected_reason = [];
  error = [];
}

abbrev pub inbox_note : Str
inbox_note = codes "Raw/Inbox/a.md"

abbrev pub capture : VaultPlan
capture =
    plan low false proposed (inbox_note ∷ [])
      (operation low append_note inbox_note (codes "x") ∷ [])

abbrev pub processed_note : Str
processed_note = codes "Raw/Processed/a.md"

abbrev pub knowledge_note : Str
knowledge_note = codes "Knowledge/Drafts/a.md"

abbrev pub archive : VaultPlan
archive =
    plan medium true approved (knowledge_note ∷ inbox_note ∷ processed_note ∷ [])
      (operation medium move_note inbox_note processed_note ∷ [])

abbrev pub rename : VaultPlan
rename =
    plan high true proposed (codes "Knowledge/a.md" ∷ [])
      (operation high OpType.rename_note (codes "Knowledge/a.md") (codes "Knowledge/a.md") ∷ [])

-- A plan as `buildKnowledgeRestructurePlan` makes it for a note to be split.
abbrev pub restructure : VaultPlan
restructure = record rename {
  purpose = codes "propose Knowledge restructure (split)";
  target_paths = codes "Knowledge/a.md" ∷ codes "Knowledge/c.md" ∷ codes "Knowledge/b.md" ∷ [];
}
