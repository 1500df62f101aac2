-- ===== src/Executor/Proposal/Texts.antt =====
-- internal/executor/proposal_note.go: the texts in a proposal note.
use open_whisker.Prelude.{
  ℕ, ltb, Bool, ◌||◌, ◌&&◌, not, List, [], ◌∷◌, ◌++◌, Result, ok, ◌>>=◌, length, if◌then◌else◌,
}
use open_whisker.Prelude.Text.{Str, codes, eqb, is_empty, elem, has_prefix, has_suffix, trim_suffix}
use open_whisker.Prelude.Text.Utf8.{utf8, replace_all, concat}
use open_whisker.Model.{
  VaultPlan, ProposalKind, split_kind, merge_kind, rename_kind, bulk_retag_kind,
  bulk_link_rewrite_kind,
}
use open_whisker.VaultPath.{base_name}
use open_whisker.Executor.Errors.{ExecutorError}
use open_whisker.Executor.Proposal.Rows.{AffectedRow, tail_of}

-- the constant of a kind
unfoldable pub kind_text : ProposalKind → Str
kind_text split_kind = codes "split"
kind_text merge_kind = codes "merge"
kind_text rename_kind = codes "rename"
kind_text bulk_retag_kind = codes "bulk-retag"
kind_text bulk_link_rewrite_kind = codes "bulk-link-rewrite"

abbrev pub newline : ℕ
newline = b'\n'

-- `fmt.Fprintf` of a line
abbrev pub line : List Str → Str
line parts = concat parts ++ newline ∷ []

-- escapeTableCell
unfoldable pub escape_table_cell : Str → Str
escape_table_cell s = replace_all newline (codes " ") (replace_all b'|' (codes "\\|") s)

-- yamlQuoteString
unfoldable pub yaml_quote_string : Str → Str
yaml_quote_string value =
    codes "\""
    ++ replace_all b'"' (codes "\\\"") (replace_all b'\\' (codes "\\\\") value)
    ++ codes "\""

abbrev extension : Str
extension = codes ".md"

-- trimMarkdownExt
unfoldable pub trim_markdown_ext : Str → Str
trim_markdown_ext path = trim_suffix path extension

-- looksLikeVaultPath
unfoldable pub looks_like_vault_path : Str → Bool
looks_like_vault_path ref =
    has_suffix ref extension
    && not (has_prefix ref (codes "job_"))
    && not (has_prefix ref (codes "plan_"))

unfoldable pub kind_verb : ProposalKind → Str
kind_verb split_kind = utf8 "拆分"
kind_verb merge_kind = utf8 "合并"
kind_verb rename_kind = utf8 "重命名"
kind_verb bulk_retag_kind = utf8 "批量重打标签"
kind_verb bulk_link_rewrite_kind = utf8 "批量改写链接"

abbrev primary_of : List Str → Str
primary_of [] = []
primary_of (t ∷ targets) = base_name (trim_suffix t extension)

-- proposalShortTitle
unfoldable pub proposal_short_title : VaultPlan → ProposalKind → Str
proposal_short_title plan kind =
    let primary = primary_of plan.target_paths in
    if is_empty primary
    then kind_verb kind ++ utf8 " 提案"
    else kind_verb kind ++ codes " " ++ primary ++ utf8 " 提案"

unfoldable pub kind_questions : ProposalKind → List Str
kind_questions rename_kind =
    utf8 "目标路径是否会破坏现有反向链接？是否需要先扫描 backlinks 再执行？" ∷ utf8 "新名称是否与现有 Knowledge note 冲突或语义重复？" ∷ []
kind_questions merge_kind =
    utf8 "合并后哪些来源 note 应该被删除、哪些应改为 redirect？" ∷ utf8 "合并后的目标 note 是否需要拆分章节以保留每个来源的上下文？" ∷ []
kind_questions split_kind =
    utf8 "拆分后每篇子 note 的边界是否清晰、是否存在重复内容？" ∷ utf8 "原 note 是否保留为 hub note，还是直接归档？" ∷ []
kind_questions bulk_retag_kind =
    utf8 "标签变更是否符合 Meta/Tagging.md 的受控前缀？" ∷ utf8 "是否需要先在小范围（1-2 篇）试运行确认效果？" ∷ []
kind_questions bulk_link_rewrite_kind =
    utf8 "链接改写是否会影响 dataview / base / 第三方插件查询？" ∷ utf8 "是否需要保留旧路径的占位 stub 以避免外部引用断裂？" ∷ []

abbrev batch_question : List Str
batch_question = utf8 "上述多个 high-risk 操作是否需要按顺序分批执行，而不是一次性应用？" ∷ []

-- proposalOpenQuestions
unfoldable pub proposal_open_questions : VaultPlan → ProposalKind → List Str
proposal_open_questions plan kind =
    kind_questions kind ++ (if ltb 1 (length plan.operations) then batch_question else [])

abbrev origin_of : List Str → Str
origin_of [] = []
origin_of (t ∷ targets) = if looks_like_vault_path t then t else []

-- the loop over the source references
unfoldable pub sources_from : List Str → List Str → List Str → List Str
sources_from children seen [] = []
sources_from children seen (r ∷ refs) =
    let skip = not (looks_like_vault_path r) || elem r seen || elem r children in
    let rest = sources_from children (if skip then seen else r ∷ seen) refs in
    if skip then rest else r ∷ rest

-- the keys of `excludeChildren`
unfoldable pub children_of : Str → List Str → List Str
children_of origin [] = []
children_of origin (p ∷ paths) =
    let rest = children_of origin paths in if eqb p origin || is_empty p then rest else p ∷ rest

abbrev one_if : Str → List Str
one_if [] = []
one_if (c ∷ s) = (c ∷ s) ∷ []

-- vaultSourceCandidates
unfoldable pub vault_source_candidates : VaultPlan → Result ExecutorError (List Str)
vault_source_candidates plan = do
  let origin = origin_of plan.target_paths
  others ← tail_of plan.target_paths
  ok (one_if origin ++ sources_from (children_of origin others) (one_if origin) plan.source_refs)

unfoldable pub related_lines : List Str → Str
related_lines [] = []
related_lines (t ∷ targets) =
    line (codes "  - \"[[" ∷ trim_markdown_ext t ∷ codes "]]\"" ∷ []) ++ related_lines targets

unfoldable pub source_lines : List Str → Str
source_lines [] = []
source_lines (r ∷ refs) =
    line (codes "- [[" ∷ trim_markdown_ext r ∷ codes "]]" ∷ []) ++ source_lines refs

abbrev pub sources_text : List Str → Str
sources_text [] = line (utf8 "- 未提供 vault 来源" ∷ [])
sources_text (r ∷ refs) = source_lines (r ∷ refs)

unfoldable pub table_lines : List AffectedRow → Str
table_lines [] = []
table_lines (r ∷ rows) =
    line (
      codes "| "
      ∷ kind_text r.action
      ∷ codes " | [["
      ∷ trim_markdown_ext r.source
      ∷ codes "]] | [["
      ∷ trim_markdown_ext r.target
      ∷ codes "]] | "
      ∷ escape_table_cell r.rationale
      ∷ codes " |"
      ∷ [])
    ++ table_lines rows

abbrev reason_line : Str → Str
reason_line [] = []
reason_line (c ∷ s) = line (utf8 "  - 理由：" ∷ (c ∷ s) ∷ [])

-- the rows as a table, or the only one as an item
unfoldable pub rows_text : List AffectedRow → Str
rows_text [] = []
rows_text (r ∷ []) =
    line (
      codes "- **"
      ∷ kind_text r.action
      ∷ codes "**: [["
      ∷ trim_markdown_ext r.source
      ∷ utf8 "]] → [["
      ∷ trim_markdown_ext r.target
      ∷ codes "]]"
      ∷ [])
    ++ reason_line r.rationale
rows_text (r ∷ q ∷ rows) =
    line (utf8 "| 操作 | 原路径 | 目标路径 | 理由 |" ∷ [])
    ++ line (codes "| --- | --- | --- | --- |" ∷ [])
    ++ table_lines (r ∷ q ∷ rows)
