-- ===== src/Executor/Preflight.antt =====
-- preflightApply leaves the files as they are.
use open_whisker.Prelude.{List, [], ◌∷◌}
use open_whisker.Prelude.Text.{Str}
use open_whisker.Model.{
  VaultOperation, OpType, create_note, append_note, rewrite_note, move_note, write_agent_report,
}
use open_whisker.Exec.Keeps.{Keeps}
use open_whisker.Exec.Triples.{Triple, Triple-bind, Triple-pure, Triple-state}
use open_whisker.Executor.Disk.{Node, Os, Act}
use open_whisker.Executor.Apply.{
  preflight_type, preflight_create, preflight_change, preflight_move, preflight_apply, read_guarded,
}
use open_whisker.Executor.Frame.{On}
use open_whisker.Executor.Facts.{
  Triple-resolve, Triple-decoded, Triple-absent, Triple-guarded, Triple-fact,
}

module _ (os : Os) (N : List (Str × Node) → Type 0) where
  abbrev Reads : {A : Type 0} → Act A → Type 0
  Reads m = Triple (On N) m (λ a. On N) (λ e. On N)

  abbrev id : (n : List (Str × Node)) → N n → N n
  id n p = p

  Reads-read_guarded : (target before : Str) → Reads (read_guarded os target before)
  unfolding read_guarded
  Reads-read_guarded target before = Triple-bind (Triple-resolve N N id os target) λ full.
      Triple-fact λ at.
        Triple-bind (Triple-guarded N N id os full target before) λ read. Triple-pure _ λ d p. p.0.0

  Reads-preflight_create : (op : VaultOperation) → Reads (preflight_create os op)
  unfolding preflight_create
  Reads-preflight_create op =
      Triple-bind (Triple-resolve N N id os op.target_path)
        λ full. Triple-fact λ at. Triple-absent N N id full _

  Reads-preflight_change : (op : VaultOperation) → Reads (preflight_change os op)
  unfolding preflight_change
  Reads-preflight_change op =
      Triple-bind (Reads-read_guarded _ _) λ content. Triple-pure tt λ d p. p

  Reads-preflight_move : (op : VaultOperation) → Reads (preflight_move os op)
  unfolding preflight_move
  Reads-preflight_move op = Triple-bind (Reads-read_guarded _ _) λ content.
      Triple-bind (Triple-decoded N N id "move_note" _) λ payload. Triple-fact λ decodes.
        Triple-bind (Triple-resolve N N id os payload.destination_path)
          λ full. Triple-fact λ at. Triple-absent N N id full _

  Reads-preflight_type : (op : VaultOperation) (t : OpType) → Reads (preflight_type os op t)
  unfolding preflight_type
  Reads-preflight_type op create_note = Reads-preflight_create op
  Reads-preflight_type op write_agent_report = Reads-preflight_create op
  Reads-preflight_type op append_note = Reads-preflight_change op
  Reads-preflight_type op rewrite_note = Reads-preflight_change op
  Reads-preflight_type op move_note = Reads-preflight_move op
  Reads-preflight_type op t = Triple-pure tt λ d p. p

  Reads-preflight_apply : (ops : List VaultOperation) → Reads (preflight_apply os ops)
  unfolding preflight_apply
  Reads-preflight_apply [] = Triple-pure tt λ d p. p
  Reads-preflight_apply (op ∷ ops) =
      Triple-bind (Reads-preflight_type op op.op_type) λ u. Reads-preflight_apply ops

  pub Keeps-preflight_apply : (ops : List VaultOperation) → Keeps (On N) (preflight_apply os ops)
  Keeps-preflight_apply ops = record { at = Triple-state (Reads-preflight_apply ops) }
