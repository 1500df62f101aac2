-- ===== src/Lib.antt =====
-- OpenWhisker takes captured texts into a vault of Markdown notes. Every change of the vault is a plan:
-- a list of operations with a risk level. Plans of low risk are applied at once, plans of medium risk
-- wait for a user's approval, and an approved plan of high risk only leaves a proposal note.
--
-- The parts, and the files that model them:
--   * internal/model/types.go: Model has the records and the enumerations, with a constructor for each
--     constant. A time is a number of nanoseconds; Go strings are lists of bytes (Prelude/Text).
--   * internal/policy/checker.go: VaultPath has the path functions (validateRelativeVaultPath,
--     cleanRelativeDir, hasDirPrefix), Policy/Conventions the directories of a profile, Policy/Payload
--     the checks of hashes and contents, Policy/LowRisk `Check`, Policy/Approval `CheckForApproval` and
--     `CheckApproved`, Policy/HighRisk `CheckForApprovalHighRisk`, Policy/Proposal
--     `ClassifyProposalKind`. An error is a constructor of CheckError (Policy/Errors). The modules named
--     Spec have the specification of each check.
--   * internal/markdown/markdown.go: Markdown has SplitFrontmatter and the reading of keys; `Has`,
--     `Scalar` and `List` are `has`, `scalar` and `list` on the lines of the frontmatter, and
--     Markdown/BlockStyle reads them back from the lines of a key.
--   * internal/storage/store.go: Storage has the tables of jobs, plans and outbox messages as lists in a
--     World, with a list of faults that says of each coming call of the database whether it fails.
--     Storage/Lists has the queries that give lists, Storage/Sorted what `ORDER BY` and `LIMIT` keep.
--     EnrichQueue has the table of enrich jobs. Store methods keep their names in snake_case.
--   * internal/core/plans.go: PlanService has the fields of the service (Env) and what its operations
--     share, PlanService/Prepare, PlanService/Approve and PlanService/Reject the operations. They are
--     actions on the World that return or raise and keep what was written before an error (Exec). The
--     executor and the sync client are fields of Env that act on the vault; nothing is assumed of them.
--   * internal/policy/enrich.go: EnrichPolicy. Fields splits a frontmatter into fields and reads the lists
--     in them, Additions has the rules on added tags and related notes, Check `CheckEnrichPlan`. A map is
--     an association list whose keys are sorted before the loop over them.
--   * internal/executor: Executor. Disk has the files of the vault as an association list of full paths,
--     the tables of locks and logs, and a list of faults that says of each coming call of the operating
--     system or of the database whether it fails; Locks has AcquireLocks and ReleaseLocks of
--     internal/storage/store.go, Target and Guard `ResolveVaultPath`, Files the atomic writes of
--     path_guard.go, Log the log of operations, Prepare and Apply the methods of DirectFS, Proposal
--     ApplyAsProposal and the text of its note (proposal_note.go). The modules
--     Frame, Facts, Names and Writes say what each action leaves, Steps what an operation may do.
--   * internal/vault/linkindex/linkindex.go: LinkIndex. Links reads the links of a note, Resolve finds the
--     notes that they name, Index has Build on what the walk over the vault meets, flushPending on what
--     the stats of the changed paths say, and the queries; Related has the LinkIndexAdapter of
--     internal/memory/linkgraph.go.
--   * internal/scheduler/cron.go: Cron has ParseCron and Matches. An int is a 64-bit word with
--     wrap-around.
--
-- Fuel: the loop over the values of a cron range runs on fuel, 200 rounds. The bounds of a field are at
-- most 59, and a step of an int either raises the value past the bound within 60 rounds or, where the
-- sum overflows, lowers it every two rounds. All else is structural recursion.
--
-- Parameters: the decoders of JSON payloads (Json), the mapping of non-ASCII letters to lower case,
-- the clock, the content hash, the vocabulary of tags, the random identifiers, the texts of errors,
-- the encoder of results, what `filepath` and `os` say of links, and the comparison of times as
-- texts where a query orders by them.
--
-- Not modelled: the sync client of the executor, other processes that change the vault, temporary
-- files, the cancelling of contexts, the intake of captures and their buckets, the intent router
-- and the adapters, the registry and the runner of schedules, the calendar (CurrentWindow and
-- NextAfter), the notes that the enrichment writes, the recall of the memory, the watcher and the
-- walk of the link index, the agents that call language models, the rendering of texts, and the
-- command line. In Storage the order of times in a query is that of the times, where the code
-- compares their RFC 3339 texts. A file is known by the text of its full path: a link of a
-- directory to another directory of the vault, which ResolveVaultPath lets pass, does not give a
-- file a second path here.
pub mod Prelude
pub mod Model
pub mod VaultPath
pub mod Markdown
pub mod Policy
pub mod Exec
pub mod Storage
pub mod PlanService
pub mod Cron
pub mod EnrichQueue
pub mod Executor
pub mod LinkIndex
pub mod EnrichPolicy
mod Tests
