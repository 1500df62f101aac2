-- ===== src/Model.antt =====
-- internal/model/types.go: the records and enumerations that the components share. A `string` field
-- whose values are the constants of one group is a data type with a constructor for each constant
-- and one for any other text. Times are nanoseconds since the epoch.
use open_whisker.Prelude.{ℕ, Bool, true, false, Option, List}
use open_whisker.Prelude.Text.{Str}

abbrev pub Time : Type 0
Time = ℕ

-- RiskLow, RiskMedium, RiskHigh
pub data Risk : Type 0 where
  low medium high : Risk
  other_risk : Str → Risk

-- OperationCreateNote and the constants below it
pub data OpType : Type 0 where
  create_note append_note rewrite_note move_note write_agent_report : OpType
  rename_note bulk_retag bulk_link_rewrite write_proposal : OpType
  other_type : Str → OpType

-- PlanStatusProposed and the constants below it
pub data PlanStatus : Type 0 where
  proposed awaiting_approval approved rejected applying applied : PlanStatus
  proposal_written failed conflict : PlanStatus
  other_status : Str → PlanStatus

pub data JobStatus : Type 0 where
  job_pending job_awaiting_approval job_applying job_done job_failed job_rejected : JobStatus

-- ProposalKindSplit and the constants below it
pub data ProposalKind : Type 0 where
  split_kind merge_kind rename_kind bulk_retag_kind bulk_link_rewrite_kind : ProposalKind

pub data OutboxKind : Type 0 where
  result_kind error_kind approval_kind diff_kind conflict_kind rejected_kind : OutboxKind

pub data SyncMode : Type 0 where
  sync_auto sync_off sync_on : SyncMode

abbrev pub proposal_bulk_affects_threshold : ℕ
proposal_bulk_affects_threshold = 5

abbrev pub enrich_attempts_max : ℕ
enrich_attempts_max = 5

abbrev pub enrich_related_append_max : ℕ
enrich_related_append_max = 3

pub record VaultOperation : Type 0 where
  pub id : Str
  pub op_type : OpType
  pub target_path : Str
  pub before_hash : Str
  pub payload_json : Str
  pub reason : Str
  pub risk_level : Risk

pub record DiffEntry : Type 0 where
  pub operation_id : Str
  pub entry_type : OpType
  pub target_path : Str
  pub before_hash : Str
  pub after_hash : Str
  pub summary : Str
  pub preview : Str

pub record VaultDiff : Type 0 where
  pub plan_id : Str
  pub summary : Str
  pub entries : List DiffEntry

pub record VaultPlan : Type 0 where
  pub id : Str
  pub job_id : Str
  pub purpose : Str
  pub risk_level : Risk
  pub requires_approval : Bool
  pub summary : Str
  pub source_refs : List Str
  pub target_paths : List Str
  pub operations : List VaultOperation
  pub diff : Option VaultDiff
  pub status : PlanStatus
  pub created_at : Time
  pub prepared_at : Option Time
  pub approved_at : Option Time
  pub rejected_at : Option Time
  pub applied_at : Option Time
  pub rejected_reason : Str
  pub error : Str

pub record MoveNotePayload : Type 0 where
  pub destination_path : Str
  pub processing_note : Str

pub record RenameNotePayload : Type 0 where
  pub source_path : Str
  pub destination_path : Str
  pub reason : Str

pub record BulkRetagPayload : Type 0 where
  pub affected_paths : List Str
  pub add_tags : List Str
  pub remove_tags : List Str
  pub reason : Str

pub record BulkLinkRewritePayload : Type 0 where
  pub from_path : Str
  pub to_path : Str
  pub affected_paths : List Str
  pub reason : Str

-- JobTypeIngestRaw and the constants below it
pub data JobType : Type 0 where
  ingest_raw append_raw organize_raw expand_knowledge scheduler_run enrich_raw : JobType

pub record WikiJob : Type 0 where
  pub id : Str
  pub job_type : JobType
  pub status : JobStatus
  pub source : Str
  pub source_key : Str
  pub input_json : Str
  pub result_json : Str
  pub error : Str
  pub created_at : Time
  pub updated_at : Time
  pub attempts : ℕ

pub data OutboxStatus : Type 0 where
  pending delivered : OutboxStatus

pub record OutboxMessage : Type 0 where
  pub id : Str
  pub job_id : Str
  pub actor : Str
  pub kind : OutboxKind
  pub body : Str
  pub status : OutboxStatus
  pub created_at : Time

pub record AppliedOperation : Type 0 where
  pub operation_id : Str
  pub target_path : Str
  pub after_hash : Str

-- SyncPhaseBefore and SyncPhaseAfter
pub data SyncPhase : Type 0 where
  before_apply after_apply : SyncPhase

pub record SyncResult : Type 0 where
  pub mode : SyncMode
  pub backend : Str
  pub phase : SyncPhase
  pub is_ok : Bool
  pub command : Str
  pub output : Str
  pub warning : Str
  pub error : Str

pub record VaultApplyResult : Type 0 where
  pub applied_operations : List AppliedOperation
  pub sync_before : Option SyncResult
  pub sync_after : Option SyncResult

-- `json.Unmarshal` of an operation's payload at each payload type: `none` is its error. A create
-- and an append payload have one field, `content`.
pub record Json : Type 0 where
  pub decode_create : Str → Option Str
  pub decode_append : Str → Option Str
  pub decode_move : Str → Option MoveNotePayload
  pub decode_rename : Str → Option RenameNotePayload
  pub decode_retag : Str → Option BulkRetagPayload
  pub decode_link_rewrite : Str → Option BulkLinkRewritePayload

abbrev pub is_low : Risk → Bool
is_low low = true
is_low _ = false

abbrev pub is_medium : Risk → Bool
is_medium medium = true
is_medium _ = false

abbrev pub is_high : Risk → Bool
is_high high = true
is_high _ = false
