-- ===== src/Executor/Moved.antt =====
-- What stands at a path after a note is moved.
use open_whisker.Prelude.{◌≡◌, refl, sym, ◌∙◌, subst, inl, inr, ℕ, false, Option, none, some, List}
use open_whisker.Prelude.Text.{Str, eqb, is_empty}
use open_whisker.Prelude.Text.Pieces.{lookup, insert}
use open_whisker.Model.{VaultPlan, VaultOperation, MoveNotePayload, move_note}
use open_whisker.Exec.{ignore, modify}
use open_whisker.Exec.Triples.{
  Triple, Triple-bind, Triple-pure, Triple-raise, Triple-if, Triple-lift, Triple-on_error,
  Triple-state,
}
use open_whisker.Executor.Errors.{ExecutorError}
use open_whisker.Executor.Disk.{Node, regular, Disk, Os, without}
use open_whisker.Executor.Files.{FileInfo, link_source, remove, drop, safe_move_atomic}
use open_whisker.Executor.Apply.{moved_content, add_processing_note, apply_move}
use open_whisker.Executor.Frame.{On, Keeps-call, Keeps-record_applied}
use open_whisker.Executor.Facts.{
  IsPathOf, IsRead, kept, Triple-fact, Triple-node_at, Triple-resolve, Triple-decoded,
  Triple-guarded, Triple-IsRead,
}
use open_whisker.Prelude.Text.Maps.{same_or_not, lookup-insert_same}
use open_whisker.Executor.Names.{lookup-without_same, lookup-without_other}
use open_whisker.Executor.Steps.{Step, same, moved_away, moved_here, noted}
use open_whisker.Executor.Writes.{after_put, Triple-link_new, Triple-replace}
use open_whisker.Executor.Written.{Before, Turns}

-- A property of what stands at a path, after a removal of any path.
after_drop :
    (T : Option Node → Type 0) (path full : Str) (n : List (Str × Node))
    → T (lookup path n)
    → (full ≡ path → T none)
    → T (lookup path (without full n))
after_drop T path full n p k = elim (same_or_not full path) [
  | inl e ↦
      subst (λ x. T (lookup x (without full n))) e
        (subst T (sym (lookup-without_same full n)) (k e))
  | inr other ↦ subst T (sym (lookup-without_other path full other n)) p
]

pub Triple-drop :
    (N S W : List (Str × Node) → Type 0) (weak : (n : List (Str × Node)) → N n → W n) (full : Str)
    → ((n : List (Str × Node)) → N n → S (without full n))
    → Triple (On N) (remove full) (λ u. On S) (λ e. On W)
unfolding remove drop modify
Triple-drop N S W weak full k =
    Triple-bind (kept N W weak (Keeps-call N)) λ u. record { at = λ d p. k d.nodes p }

pub same_node : (o : Option Node) (a b : Node) → o ≡ some a → o ≡ some b → a ≡ b
same_node o a b p q = cc

pub same_content :
    (o : Option Node) (i j : ℕ) (a b : Str)
    → o ≡ some (regular i a)
    → o ≡ some (regular j b)
    → a ≡ b
same_content o i j a b p q = cc

pub not_same :
    (source dest : Str) (n : List (Str × Node)) (node : Node)
    → lookup source n ≡ some node
    → lookup dest n ≡ none
    → eqb source dest ≡ false
not_same source dest n node p q = elim (same_or_not source dest) [
  | inl e ↦ absurd (let r = subst (λ x. lookup x n ≡ some node) e p in cc)
  | inr other ↦ other
]

module _ (os : Os) (plan : VaultPlan) (op : VaultOperation) (path : Str) (old : Option Node)
    (payload : MoveNotePayload) (source dest : Str) (i : ℕ) (c : Str)
    (decodes : os.json.decode_move op.payload_json ≡ some payload)
    (from : IsPathOf os op.target_path source) (to : IsPathOf os payload.destination_path dest)
    (hashed : os.hash c ≡ op.before_hash) where
  abbrev T : Option Node → Type 0
  T o = Step os op path move_note old o

  abbrev Now : List (Str × Node) → Type 0
  Now n = T (lookup path n)

  -- what both states know of the note before the move
  abbrev Known : Type 0
  Known = (dest ≡ path → old ≡ none) × (source ≡ path → old ≡ some (regular i c))

  -- before the move
  abbrev pub Unmoved : List (Str × Node) → Type 0
  Unmoved n = (lookup path n ≡ old) × (lookup source n ≡ some (regular i c))

  -- both names stand for the note
  abbrev Linked : List (Str × Node) → Type 0
  Linked n = Now n × (lookup dest n ≡ some (regular i c)) × (eqb source dest ≡ false) × Known

  -- after the move
  abbrev pub Moved : List (Str × Node) → Type 0
  Moved n = Now n × (lookup dest n ≡ some (regular i c)) × Known

  Unmoved-Now : (n : List (Str × Node)) → Unmoved n → Now n
  Unmoved-Now n (p, q) = subst T (sym p) (same old)

  link :
      (n : List (Str × Node))
      → Unmoved n
      → lookup dest n ≡ none
      → Linked (insert dest (regular i c) n)
  link n (p, q) absent =
      let new = λ (e : dest ≡ path). sym p ∙ subst (λ x. lookup x n ≡ none) e absent in
      (
        after_put T path dest _ n (Unmoved-Now n (p, q)) (λ e.
            subst (λ o. Step os op path move_note o (some (regular i c))) (sym (new e))
              (moved_here i c payload decodes (subst (IsPathOf os payload.destination_path) e to)
                hashed)),
        lookup-insert_same dest (regular i c) n,
        not_same source dest n _ q absent,
        (new, λ e. sym p ∙ subst (λ x. lookup x n ≡ some (regular i c)) e q),
      )

  unlink : (n : List (Str × Node)) → Linked n → Moved (without source n)
  unlink n (now, there, differ, known) = (
    after_drop T path source n now (λ e.
        subst (λ o. Step os op path move_note o none) (sym (known.1 e))
          (moved_away i c (subst (IsPathOf os op.target_path) e from) hashed)),
    lookup-without_other dest source differ n ∙ there,
    known,
  )

  roll_back : (n : List (Str × Node)) → Linked n → Now (without dest n)
  roll_back n (now, there, differ, known) =
      after_drop T path dest n now λ e. subst T (known.0 e) (same old)

  ignore_roll_back :
      (e : ExecutorError) (d : Disk) → On Linked d → On Now (ignore (remove dest) d).1
  unfolding ignore
  ignore_roll_back e d p =
      Triple-state {G = On Now} (Triple-drop Linked Now Now (λ n l. l.0) dest roll_back) d p

  Triple-link_source :
      (o : Option Node)
      → Triple
          (On (λ n. Unmoved n × (lookup source n ≡ o)))
          (link_source os source dest o)
          (λ u. On Linked)
          (λ e. On Now)
  unfolding link_source
  Triple-link_source none = Triple-raise _ λ d (p, q). Unmoved-Now d.nodes p
  Triple-link_source (some node) =
      let N = λ (n : List (Str × Node)). Unmoved n × (lookup source n ≡ some node) in
      let weak = λ (n : List (Str × Node)) (p : N n). Unmoved-Now n p.0 in
      Triple-bind (Triple-node_at N Now weak dest) λ o.
        Triple-link_new N Linked Now weak _ dest node o λ n (p, q) absent.
          subst (λ x. Linked (insert dest x n)) (sym (same_node _ node _ q p.1)) (link n p absent)

  pub Triple-move :
      Triple (On Unmoved) (safe_move_atomic os source dest) (λ u. On Moved) (λ e. On Now)
  unfolding safe_move_atomic
  Triple-move = Triple-bind (kept Unmoved Now Unmoved-Now (Keeps-call Unmoved)) λ u.
      Triple-bind (kept Unmoved Now Unmoved-Now (Keeps-call Unmoved)) λ u.
        Triple-bind (Triple-node_at Unmoved Now Unmoved-Now source) λ o.
          Triple-bind (Triple-link_source o) λ u. Triple-lift _ _ (
            Triple-on_error {R' = λ e. On Linked} _ _
              (Triple-drop Linked Moved Linked (λ n l. l) source unlink) ignore_roll_back)

  pub Triple-note :
      (note : Str) (read : Str × FileInfo)
      → note ≡ payload.processing_note
      → Triple
          (On (λ n. Moved n × IsRead dest read n))
          (add_processing_note os dest note read)
          (λ u. On Now)
          (λ e. On Now)
  unfolding add_processing_note
  Triple-note note read is_note =
      let M = λ (n : List (Str × Node)). Moved n × IsRead dest read n in
      Triple-if (is_empty note) _ _ (Triple-pure _ λ d p. p.0.0) (
        Triple-bind
          (Triple-replace M Now (λ n p. p.0.0) os dest _ read.1
            λ j n ((now, there, known), r).
              let is_c = same_content _ _ i read.0 c r there in
              after_put T path dest _ n now λ e.
                subst
                  (λ o. Step os op path move_note o (some (regular j (moved_content read.0 note))))
                  (sym (known.0 e))
                  (subst
                    (λ x. Step os op path move_note none (some (regular j (moved_content x note))))
                    (sym is_c)
                    (subst
                      (λ x. Step os op path move_note none (some (regular j (moved_content c x))))
                      (sym is_note)
                      (noted j c payload decodes (subst (IsPathOf os payload.destination_path) e to)
                        hashed))))
          λ u. Triple-pure _ λ d p. p)

module _ (os : Os) (plan : VaultPlan) (op : VaultOperation) (path : Str) (old : Option Node) where
  abbrev S : List (Str × Node) → Type 0
  S n = Step os op path move_note old (lookup path n)

  before-S : (n : List (Str × Node)) → Before os plan op path old n → S n
  before-S n p = subst (Step os op path move_note old) (sym p) (same old)

  pub apply_move-moved :
      Turns os plan op path old (apply_move os plan op) (Step os op path move_note old)
  unfolding apply_move
  apply_move-moved =
      let B = Before os plan op path old in
      Triple-bind (Triple-resolve B S before-S os op.target_path) λ source. Triple-fact λ from.
        Triple-bind (Triple-guarded B S before-S os source _ _) λ read. Triple-fact λ hashed.
          let i = read.1.inode in
          let c = read.0 in
          let U = λ (n : List (Str × Node)). B n × IsRead source read n in
          let weak = λ (n : List (Str × Node)) (p : U n). before-S n p.0 in
          Triple-bind (Triple-decoded U S weak "move_note" _) λ payload. Triple-fact λ decodes.
            Triple-bind (Triple-resolve U S weak os payload.destination_path) λ dest.
              Triple-fact λ to.
                Triple-bind
                  (Triple-move os plan op path old payload source dest i c decodes from to hashed)
                  λ u.
                    let M =
                      Moved os plan op path old payload source dest i c decodes from to hashed in
                    Triple-bind (Triple-lift _ _ (Triple-IsRead M S (λ n p. p.0) os dest)) λ again.
                      Triple-bind
                        (Triple-note os plan op path old payload source dest i c decodes from to
                          hashed payload.processing_note again refl)
                        λ final. kept S S (λ n p. p) (Keeps-record_applied S os plan op _)
