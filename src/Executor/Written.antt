-- ===== src/Executor/Written.antt =====
-- What stands at a path after a note is created, appended to or rewritten.
use open_whisker.Prelude.{◌≡◌, refl, sym, ◌∙◌, subst, ℕ, Option, none, some, List, ◌++◌}
use open_whisker.Prelude.Text.{Str}
use open_whisker.Prelude.Text.Pieces.{lookup, insert}
use open_whisker.Model.{
  VaultPlan, VaultOperation, AppliedOperation, create_note, append_note, rewrite_note,
  write_agent_report,
}
use open_whisker.Exec.Triples.{Triple, Triple-bind}
use open_whisker.Executor.Disk.{Node, regular, Os, Act}
use open_whisker.Executor.Files.{FileInfo}
use open_whisker.Executor.Apply.{apply_create, apply_append, apply_rewrite}
use open_whisker.Executor.Frame.{On, Keeps-returned, Keeps-record_applied}
use open_whisker.Executor.Facts.{
  IsPathOf, IsRead, kept, Triple-fact, Triple-resolve, Triple-decoded, Triple-absent,
  Triple-guarded,
}
use open_whisker.Executor.Steps.{Step, same, created, reported, appended, rewritten}
use open_whisker.Executor.Writes.{after_put, Triple-create, Triple-replace}

module _ (os : Os) (plan : VaultPlan) (op : VaultOperation) (path : Str) (old : Option Node) where
  abbrev pub Before : List (Str × Node) → Type 0
  Before n = lookup path n ≡ old

  abbrev pub After : (Option Node → Type 0) → List (Str × Node) → Type 0
  After T n = T (lookup path n)

  -- from what stood at the path before to what `T` says of it after, also where the action raises
  abbrev pub Turns : Act AppliedOperation → (Option Node → Type 0) → Type 0
  Turns m T = Triple (On Before) m (λ a. On (After T)) (λ e. On (After T))

  abbrev pub stays :
      (T : Option Node → Type 0) → T old → (n : List (Str × Node)) → Before n → After T n
  stays T here n p = subst T (sym p) here

  pub apply_create-Turns :
      (T : Option Node → Type 0)
      → T old
      → ((i : ℕ) (content : Str)
          → IsPathOf os op.target_path path
          → os.json.decode_create op.payload_json ≡ some content
          → old ≡ none
          → T (some (regular i content)))
      → Turns (apply_create os plan op) T
  unfolding apply_create
  apply_create-Turns T here k =
      let S = After T in
      let weak = stays T here in
      Triple-bind (Triple-resolve Before S weak os op.target_path) λ full. Triple-fact λ at.
        Triple-bind (Triple-absent Before S weak full _) λ u.
          Triple-bind (Triple-decoded Before S weak "create_note" _) λ content.
            Triple-fact λ decodes. Triple-bind (kept Before S weak (Keeps-returned Before _ _)) λ u.
              Triple-bind
                (Triple-create Before S weak full content λ i n p absent.
                  after_put T path full _ n (weak n p) λ e.
                    k i content (subst (IsPathOf os op.target_path) e at) decodes
                      (sym p ∙ subst (λ x. lookup x n ≡ none) e absent))
                λ u. kept S S (λ n p. p) (Keeps-record_applied S os plan op _)

  -- the read behind both kinds of change
  abbrev pub Guarded : Str → Str × FileInfo → List (Str × Node) → Type 0
  Guarded full read n = Before n × IsRead full read n

  -- a change of a note, from a content with the hash that the operation names
  abbrev Changes : (Option Node → Type 0) → (Str → Str → Type 0) → Type 0
  Changes T F =
      (i j : ℕ) (c next : Str)
      → IsPathOf os op.target_path path
      → os.hash c ≡ op.before_hash
      → F c next
      → old ≡ some (regular i c)
      → T (some (regular j next))

  replaced :
      (T : Option Node → Type 0) (here : T old) (F : Str → Str → Type 0)
      → Changes T F
      → (full next : Str) (read : Str × FileInfo) → IsPathOf os op.target_path full
      → os.hash read.0 ≡ op.before_hash
      → F read.0 next
      → (j : ℕ) (n : List (Str × Node)) → Guarded full read n
      → After T (insert full (regular j next) n)
  replaced T here F k full next read at hashed f j n (p, r) =
      after_put T path full _ n (stays T here n p) λ e.
        k read.1.inode j read.0 next (subst (IsPathOf os op.target_path) e at) hashed f
          (sym p ∙ subst (λ x. lookup x n ≡ some (regular read.1.inode read.0)) e r)

  pub apply_append-Turns :
      (T : Option Node → Type 0)
      → T old
      → Changes T (λ c next.
        (content : Str) × (os.json.decode_append op.payload_json ≡ some content)
        × (next ≡ c ++ content))
      → Turns (apply_append os plan op) T
  unfolding apply_append
  apply_append-Turns T here k =
      let S = After T in
      let weak = stays T here in
      Triple-bind (Triple-resolve Before S weak os op.target_path) λ full. Triple-fact λ at.
        Triple-bind (Triple-guarded Before S weak os full _ _) λ read. Triple-fact λ hashed.
          let G = Guarded full read in
          let weaker = λ (n : List (Str × Node)) (g : G n). weak n g.0 in
          Triple-bind (Triple-decoded G S weaker "append_note" _) λ content. Triple-fact λ decodes.
            Triple-bind
              (Triple-replace G S weaker os full _ _
                (replaced T here _ k full _ read at hashed (content, decodes, refl)))
              λ u. kept S S (λ n p. p) (Keeps-record_applied S os plan op _)

  pub apply_rewrite-Turns :
      (T : Option Node → Type 0)
      → T old
      → Changes T (λ c next. os.json.decode_create op.payload_json ≡ some next)
      → Turns (apply_rewrite os plan op) T
  unfolding apply_rewrite
  apply_rewrite-Turns T here k =
      let S = After T in
      let weak = stays T here in
      Triple-bind (Triple-resolve Before S weak os op.target_path) λ full. Triple-fact λ at.
        Triple-bind (Triple-guarded Before S weak os full _ _) λ read. Triple-fact λ hashed.
          let G = Guarded full read in
          let weaker = λ (n : List (Str × Node)) (g : G n). weak n g.0 in
          Triple-bind (Triple-decoded G S weaker "rewrite_note" _) λ content. Triple-fact λ decodes.
            Triple-bind
              (Triple-replace G S weaker os full _ _
                (replaced T here _ k full _ read at hashed decodes))
              λ u. kept S S (λ n p. p) (Keeps-record_applied S os plan op _)

  pub apply_create-created : Turns (apply_create os plan op) (Step os op path create_note old)
  apply_create-created =
      apply_create-Turns (Step os op path create_note old) (same old) λ i content at decodes e.
        subst (λ o. Step os op path create_note o (some (regular i content))) (sym e)
          (created i content at decodes)

  pub apply_create-reported :
      Turns (apply_create os plan op) (Step os op path write_agent_report old)
  apply_create-reported =
      apply_create-Turns (Step os op path write_agent_report old) (same old)
        λ i content at decodes e.
          subst (λ o. Step os op path write_agent_report o (some (regular i content))) (sym e)
            (reported i content at decodes)

  pub apply_append-appended : Turns (apply_append os plan op) (Step os op path append_note old)
  apply_append-appended =
      apply_append-Turns (Step os op path append_note old) (same old)
        λ i j c next at hashed (content, decodes, f) e.
          subst (λ x. Step os op path append_note old (some (regular j x))) (sym f)
            (subst (λ o. Step os op path append_note o (some (regular j (c ++ content)))) (sym e)
              (appended i j c content at hashed decodes))

  pub apply_rewrite-rewritten : Turns (apply_rewrite os plan op) (Step os op path rewrite_note old)
  apply_rewrite-rewritten =
      apply_rewrite-Turns (Step os op path rewrite_note old) (same old)
        λ i j c next at hashed decodes e.
          subst (λ o. Step os op path rewrite_note o (some (regular j next))) (sym e)
            (rewritten i j c next at hashed decodes)
