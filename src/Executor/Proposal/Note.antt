-- ===== src/Executor/Proposal/Note.antt =====
-- internal/executor/proposal_note.go: RenderProposalNote.
use open_whisker.Prelude.{
  String, ℕ, suc, ◌+◌, Bool, true, false, List, [], ◌∷◌, ◌++◌, Result, ok, ◌>>=◌, ◌>>◌, refuse,
}
use open_whisker.Prelude.Text.{Str, codes, is_blank}
use open_whisker.Prelude.Text.Utf8.{utf8, concat}
use open_whisker.Model.{Time, VaultPlan, ProposalKind}
use open_whisker.Executor.Errors.{ExecutorError}
use open_whisker.Executor.Disk.{Os}
use open_whisker.Executor.Log.{unique_strings}
use open_whisker.Executor.Proposal.Rows.{AffectedRow, error, build_affected_rows}
use open_whisker.Executor.Proposal.Texts.{
  kind_text, line, yaml_quote_string, proposal_short_title, proposal_open_questions,
  vault_source_candidates, related_lines, sources_text, rows_text,
}

abbrev pub is_nil : {A : Type 0} → List A → Bool
is_nil [] = true
is_nil (x ∷ xs) = false

abbrev blank_line : Str
blank_line = line []

abbrev heading : String → Str
heading title = line (utf8 title ∷ []) ++ blank_line

-- The questions with their marks; there are at most three, so that a number is one digit.
unfoldable pub question_lines : ℕ → List Str → Str
question_lines n [] = []
question_lines n (q ∷ questions) =
    line (codes "- " ∷ q ∷ codes " ^q" ∷ ((b'0' + n) ∷ []) ∷ []) ++ question_lines (suc n) questions

-- the frontmatter
unfoldable pub front_text : Os → VaultPlan → ProposalKind → Time → Str
front_text os plan kind now =
    let stamp = os.quoted (os.format_seconds now) in
    let title = proposal_short_title plan kind in
    concat (
      line (codes "---" ∷ [])
      ∷ line (codes "title: " ∷ yaml_quote_string title ∷ [])
      ∷ line (codes "type: proposal" ∷ [])
      ∷ line (codes "status: needs-review" ∷ [])
      ∷ line (codes "risk: high" ∷ [])
      ∷ line (codes "created: " ∷ stamp ∷ [])
      ∷ line (codes "updated: " ∷ stamp ∷ [])
      ∷ line (codes "source:" ∷ [])
      ∷ line (codes "  plan_id: " ∷ plan.id ∷ [])
      ∷ line (codes "  job_id: " ∷ plan.job_id ∷ [])
      ∷ line (codes "  origin: expander" ∷ [])
      ∷ line (codes "tags:" ∷ [])
      ∷ line (codes "  - type/proposal" ∷ [])
      ∷ line (codes "  - status/needs-review" ∷ [])
      ∷ line (codes "  - proposal/" ∷ kind_text kind ∷ [])
      ∷ line (codes "related:" ∷ [])
      ∷ related_lines (unique_strings plan.target_paths)
      ∷ line (codes "---" ∷ [])
      ∷ blank_line
      ∷ [])

-- the body
unfoldable pub body_text : VaultPlan → ProposalKind → List AffectedRow → List Str → Str
body_text plan kind rows sources = concat (
    line (codes "# " ∷ proposal_short_title plan kind ∷ [])
    ∷ blank_line
    ∷ line (utf8 "> [!warning] 高风险结构变更提案" ∷ [])
    ∷ line (utf8 "> 本文档由 OpenWhisker 自动生成。vault 未被修改。" ∷ [])
    ∷ line (utf8 "> 请人工评审 → 在外部工具（Codex / Claude Code / Obsidian）执行所需操作。" ∷ [])
    ∷ blank_line
    ∷ heading "## 来源"
    ∷ sources_text sources
    ∷ blank_line
    ∷ heading "## 目标结构"
    ∷ line (plan.summary ∷ [])
    ∷ blank_line
    ∷ heading "## 影响路径"
    ∷ rows_text rows
    ∷ blank_line
    ∷ heading "## 建议操作"
    ∷ line (utf8 "- 审阅上表逐条目标路径，确认与现有 Knowledge note 不冲突。" ∷ [])
    ∷ line (utf8 "- 在外部工具（Codex / Claude Code）中按上表逐项执行所需变更。" ∷ [])
    ∷ line (utf8 "- 若不接受，将本 proposal 的 `status` 标记为 `rejected` 或归档。" ∷ [])
    ∷ blank_line
    ∷ heading "## 待人工确认问题"
    ∷ question_lines 1 (proposal_open_questions plan kind)
    ∷ [])

-- RenderProposalNote; a kind is never blank here
unfoldable pub render_proposal_note :
    Os → VaultPlan → ProposalKind → Time → Result ExecutorError Str
render_proposal_note os plan kind now = do
  refuse (is_blank plan.id) (error "plan id is required")
  refuse (is_blank plan.job_id) (error "plan job id is required")
  refuse (is_blank plan.summary) (error "plan summary is required")
  rows ← build_affected_rows os.json plan kind
  refuse (is_nil rows) (error "proposal note must have at least one affected path")
  sources ← vault_source_candidates plan
  refuse (is_nil (proposal_open_questions plan kind))
      (error "proposal note must include at least one open question")
  ok (front_text os plan kind now ++ body_text plan kind rows sources)
