-- ===== src/Tests/Vault.antt =====
-- A vault with one note, which is moved.
use open_whisker.Prelude.{
  ◌≡◌, refl, sym, ◌∙◌, subst, true, false, some, [], ◌∷◌, ◌++◌, Result, ok, All,
}
use open_whisker.Prelude.Text.{
  Str, codes, eqb, is_empty, has_prefix, has_suffix, split, join, trim_prefix, elem,
}
use open_whisker.Prelude.Text.Laws.{eqb_refl}
use open_whisker.Prelude.Text.Pieces.{lookup, insert}
use open_whisker.Model
use open_whisker.Model.{VaultPlan, VaultOperation, OpType}
use open_whisker.VaultPath.{clean, is_abs}
use open_whisker.Policy.Conventions.{default_conventions}
use open_whisker.Policy.Confinement.{written_paths, written_by, moved_to}
use open_whisker.Exec.{
  pure, raise, gets, modify, continue, ◌>>=◌, ignore, handled, on_error, lift, attempt,
}
use open_whisker.Executor.Disk
use open_whisker.Executor.Disk.{Node, regular, Disk, Os}
use open_whisker.Executor.Locks
use open_whisker.Executor.Locks.{acquire_locks}
use open_whisker.Executor.Target
use open_whisker.Executor.Guard
use open_whisker.Executor.Files
use open_whisker.Executor.Log
use open_whisker.Executor.Apply
use open_whisker.Executor.Apply.{apply, apply_operation, apply_move}
use open_whisker.Executor.Steps.{Step}
use open_whisker.Executor.Applied.{Ran, apply_operation-Step, apply-History}
use open_whisker.Executor.Confined.{Elsewhere, apply-Elsewhere, apply-OnlyTargets}
use open_whisker.Executor.Exclusive.{Taken, acquire_locks-Taken}
use open_whisker.Executor.Kept.{IsKept, apply_move-IsKept}
use open_whisker.Tests.Inputs.{
  same, plain_json, archive, operation, sha, knowledge_note, inbox_note, processed_note,
}
use open_whisker.Tests.Plans.{archive-Passes}

-- A system without links, whose hash is the same for all contents.
abbrev pub posix : Os
posix = record {
  vault_root = codes "/v";
  abs = λ p. ok (codes "/v");
  eval_symlinks = λ n p. ok p;
  is_dir = λ n p. true;
  rel = λ root p. some (trim_prefix p (root ++ codes "/"));
  hash = λ s. sha;
  json = plain_json;
  lock_ttl = 0;
  clock = λ n. n;
  fresh_id = λ n. n ∷ [];
  format_time = λ t. t ∷ [];
  format_seconds = λ t. t ∷ [];
  encode_applied = λ a. [];
  quoted = same;
  open_error = same;
  missing_text = [];
  op_text = λ t. [];
}

abbrev source : Str
source = codes "/v/Raw/Inbox/a.md"

abbrev dest : Str
dest = codes "/v/Raw/Processed/a.md"

abbrev pub vault : Disk
vault = record {
  nodes = (source, regular 1 (codes "text")) ∷ [];
  next_inode = 2;
  locks = [];
  logs = [];
  faults = [];
  ticks = 0;
}

abbrev processed : Str
processed = codes "text\n[[Raw/Processed/a.md]] Knowledge/Drafts/a.md"

moved_vault : (apply posix archive vault).1.nodes ≡ (dest, regular 2 processed) ∷ []
unfolding apply Apply.apply_locked Apply.apply_all apply_operation Apply.apply_type apply_move
    Apply.preflight_apply Apply.preflight_type Apply.preflight_move Apply.read_guarded
    Apply.read_guarded_file Apply.same_hash Apply.require_absent Apply.moved_content
    Apply.add_processing_note Log.unique_strings Log.unique_from Log.now Log.new_id
    Log.record_applied Log.append_operation_log Log.applied_of Files.safe_read_all Files.opened
    Files.safe_move_atomic Files.link_source Files.link_new Files.put Files.drop Files.remove
    Files.safe_write_replace Files.guard_replace Files.same_file Files.write_temp_file
    Guard.resolve_vault_path Guard.guard_links Guard.resolved_parent Guard.is_within Guard.parents
    Guard.above Guard.join_path Target.guard_target Target.guard_segment acquire_locks
    Locks.insert_locks Locks.try_insert Locks.insert_lock Locks.lock_of Locks.is_locked Locks.reap
    Locks.release_locks Locks.unlocked Locks.lock_lifetime Disk.call Disk.tick Disk.node_at
    Disk.returned Disk.without clean is_abs eqb is_empty has_prefix has_suffix split join
    trim_prefix elem lookup insert pure raise gets modify continue ◌>>=◌ ignore handled on_error
    lift attempt
moved_vault = refl

abbrev move : VaultOperation
move = operation Model.medium OpType.move_note inbox_note processed_note

apply_operation-Step_example :
    Step posix move source OpType.move_note
      (lookup source vault.nodes)
      (lookup source (apply_operation posix archive move vault).1.nodes)
apply_operation-Step_example = apply_operation-Step posix archive source move vault

apply-History_example :
    Ran posix archive source archive.operations vault (apply posix archive vault).1
apply-History_example = apply-History posix archive source vault

abbrev other : Str
other = codes "/v/Raw/Inbox/b.md"

ok_same : {E : Type 0} (a b : Str) → ◌≡◌ {A = Result E Str} (ok a) (ok b) → a ≡ b
ok_same a b h = cc

leads-Elsewhere :
    (target : Str)
    → eqb other (Guard.join_path (codes "/v") target) ≡ false
    → Elsewhere posix other target
leads-Elsewhere target n root (base, k, is_base, is_root) f =
    let e = ok_same (codes "/v") base is_base ∙ ok_same base root is_root in
    let g = subst (λ r. other ≡ Guard.join_path r target) (sym e) f in
    let t =
      subst (λ p. eqb p (Guard.join_path (codes "/v") target) ≡ true) (sym g)
        (eqb_refl (Guard.join_path (codes "/v") target)) in
    cc

source-Elsewhere : Elsewhere posix other inbox_note
unfolding Guard.join_path clean is_abs eqb split join is_empty
source-Elsewhere = leads-Elsewhere inbox_note refl

dest-Elsewhere : Elsewhere posix other processed_note
unfolding Guard.join_path clean is_abs eqb split join is_empty
dest-Elsewhere = leads-Elsewhere processed_note refl

draft-Elsewhere : Elsewhere posix other knowledge_note
unfolding Guard.join_path clean is_abs eqb split join is_empty
draft-Elsewhere = leads-Elsewhere knowledge_note refl

archive-Elsewhere :
    All (λ op. All (Elsewhere posix other) (written_paths plain_json op)) archive.operations
unfolding written_paths written_by moved_to
archive-Elsewhere = ((source-Elsewhere, (dest-Elsewhere, tt)), tt)

apply-Elsewhere_example :
    lookup other (apply posix archive vault).1.nodes ≡ lookup other vault.nodes
apply-Elsewhere_example = apply-Elsewhere posix other archive vault archive-Elsewhere

apply-OnlyTargets_example :
    lookup other (apply posix archive vault).1.nodes ≡ lookup other vault.nodes
apply-OnlyTargets_example =
    apply-OnlyTargets posix other same default_conventions archive vault archive-Passes
      (draft-Elsewhere, (source-Elsewhere, (dest-Elsewhere, tt)))

acquire_locks-Taken_example :
    Taken posix archive.target_paths archive.id 7 []
      (acquire_locks posix archive.target_paths archive.id 7 vault).0
      (acquire_locks posix archive.target_paths archive.id 7 vault).1
acquire_locks-Taken_example = acquire_locks-Taken posix archive.target_paths archive.id 7 vault tt

source_here : lookup source vault.nodes ≡ some (regular 1 (codes "text"))
unfolding lookup eqb
source_here = refl

apply_move-IsKept_example : IsKept (codes "text") (apply_move posix archive move vault).1.nodes
apply_move-IsKept_example =
    apply_move-IsKept source 1 (codes "text") posix archive move vault source_here
