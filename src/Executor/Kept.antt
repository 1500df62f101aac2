-- ===== src/Executor/Kept.antt =====
-- A move does not lose the note.
use open_whisker.Prelude.{
  ◌≡◌, refl, sym, ◌∙◌, subst, ◌⊎◌, inl, inr, ℕ, false, Option, none, some, List, [],
}
use open_whisker.Prelude.Text.{Str, eqb, is_empty}
use open_whisker.Prelude.Text.Pieces.{lookup, insert}
use open_whisker.Model.{VaultPlan, VaultOperation}
use open_whisker.Exec.{ignore}
use open_whisker.Exec.Triples.{
  Triple, Triple-bind, Triple-pure, Triple-raise, Triple-if, Triple-lift, Triple-on_error,
  Triple-state,
}
use open_whisker.Executor.Errors.{ExecutorError}
use open_whisker.Executor.Disk.{Node, regular, Disk, Os, without}
use open_whisker.Executor.Files.{FileInfo, link_source, remove, safe_move_atomic}
use open_whisker.Executor.Apply.{moved_content, add_processing_note, apply_move}
use open_whisker.Executor.Frame.{On, Keeps-call, Keeps-record_applied}
use open_whisker.Executor.Facts.{
  IsRead, kept, Triple-fact, Triple-node_at, Triple-resolve, Triple-decoded, Triple-guarded,
  Triple-IsRead,
}
use open_whisker.Prelude.Text.Maps.{
  differ_sym, same_or_not, lookup-insert_same, lookup-insert_other,
}
use open_whisker.Executor.Names.{lookup-without_other}
use open_whisker.Executor.Writes.{Triple-link_new, Triple-replace}
use open_whisker.Executor.Moved.{Triple-drop, not_same, same_node, same_content}

-- Some file has the content, or the content with a text behind it as a move adds it.
abbrev pub IsKept : Str → List (Str × Node) → Type 0
IsKept c n =
    (path : Str) × (i : ℕ) × (content : Str) × (note : Str) × (lookup path n
      ≡ some (regular i content))
    × ((content ≡ c) ⊎ (content ≡ moved_content c note))

module _ (path : Str) (i : ℕ) (c : Str) where
  abbrev Here : List (Str × Node) → Type 0
  Here n = lookup path n ≡ some (regular i c)

  Here-IsKept : (n : List (Str × Node)) → Here n → IsKept c n
  Here-IsKept n h = (path, i, c, [], h, inl refl)

  module _ (os : Os) (source dest : Str) (j : ℕ) (read : Str) where
    abbrev pub Unmoved : List (Str × Node) → Type 0
    Unmoved n = Here n × (lookup source n ≡ some (regular j read))

    abbrev Linked : List (Str × Node) → Type 0
    Linked n =
        Here n
        × (lookup dest n ≡ some (regular j read))
        × (eqb source dest ≡ false)
        × (eqb dest path ≡ false)
        × (source ≡ path → read ≡ c)

    -- The note stays where it was, or it is what was moved.
    abbrev pub Moved : List (Str × Node) → Type 0
    Moved n =
        (lookup dest n ≡ some (regular j read)) × ((Here n × (eqb dest path ≡ false)) ⊎ (read ≡ c))

    IsKept-before : (n : List (Str × Node)) → Unmoved n → IsKept c n
    IsKept-before n (h, r) = Here-IsKept n h

    link :
        (n : List (Str × Node))
        → Unmoved n
        → lookup dest n ≡ none
        → Linked (insert dest (regular j read) n)
    link n (h, r) absent =
        let other = differ_sym path dest (not_same path dest n _ h absent) in
        (
          lookup-insert_other dest (regular j read) path other n ∙ h,
          lookup-insert_same dest (regular j read) n,
          not_same source dest n _ r absent,
          other,
          λ e.
              same_content (lookup path n) j i read c
                (subst (λ x. lookup x n ≡ some (regular j read)) e r) h,
        )

    unlink : (n : List (Str × Node)) → Linked n → Moved (without source n)
    unlink n (h, there, differ, other, is_c) = (
      lookup-without_other dest source differ n ∙ there,
      elim (same_or_not source path) [
        | inl e ↦ inr (is_c e)
        | inr o ↦ inl (lookup-without_other path source o n ∙ h, other)
      ],
    )

    ignore_roll_back :
        (e : ExecutorError) (d : Disk) → On Linked d → On (IsKept c) (ignore (remove dest) d).1
    unfolding ignore
    ignore_roll_back e d p =
        Triple-state {G = On (IsKept c)}
          (Triple-drop Linked (IsKept c) (IsKept c) (λ n l. Here-IsKept n l.0) dest
            (λ n (h, there, differ, other, is_c).
              Here-IsKept _ (lookup-without_other path dest other n ∙ h)))
          d p

    Triple-link_source :
        (o : Option Node)
        → Triple
            (On (λ n. Unmoved n × (lookup source n ≡ o)))
            (link_source os source dest o)
            (λ u. On Linked)
            (λ e. On (IsKept c))
    unfolding link_source
    Triple-link_source none = Triple-raise _ λ d (p, q). IsKept-before d.nodes p
    Triple-link_source (some node) =
        let N = λ (n : List (Str × Node)). Unmoved n × (lookup source n ≡ some node) in
        let weak = λ (n : List (Str × Node)) (p : N n). IsKept-before n p.0 in
        Triple-bind (Triple-node_at N (IsKept c) weak dest) λ o.
          Triple-link_new N Linked (IsKept c) weak _ dest node o λ n (p, q) absent.
            subst (λ x. Linked (insert dest x n)) (sym (same_node _ node _ q p.1)) (link n p absent)

    pub Triple-move :
        Triple (On Unmoved) (safe_move_atomic os source dest) (λ u. On Moved) (λ e. On (IsKept c))
    unfolding safe_move_atomic
    Triple-move =
        let call_kept = kept Unmoved (IsKept c) IsKept-before (Keeps-call Unmoved) in
        Triple-bind call_kept λ u. Triple-bind call_kept λ u.
          Triple-bind (Triple-node_at Unmoved (IsKept c) IsKept-before source) λ o.
            Triple-bind (Triple-link_source o) λ u. Triple-lift _ _ (
              Triple-on_error {R' = λ e. On Linked} _ _
                (Triple-drop Linked Moved Linked (λ n l. l) source unlink) ignore_roll_back)

    Moved-IsKept : (n : List (Str × Node)) → Moved n → IsKept c n
    Moved-IsKept n (there, inl (h, other)) = Here-IsKept n h
    Moved-IsKept n (there, inr e) = (dest, j, read, [], there, inl e)

    note-IsKept :
        (k : ℕ) (note again : Str) (n : List (Str × Node))
        → again ≡ read
        → Moved n
        → IsKept c (insert dest (regular k (moved_content again note)) n)
    note-IsKept k note again n is_read (there, inl (h, other)) =
        Here-IsKept _
          (lookup-insert_other dest (regular k (moved_content again note)) path other n ∙ h)
    note-IsKept k note again n is_read (there, inr e) = (
      dest,
      k,
      moved_content again note,
      note,
      lookup-insert_same dest _ n,
      inr (subst (λ x. moved_content again note ≡ moved_content x note) (is_read ∙ e) refl),
    )

    pub Triple-note :
        (note : Str) (again : Str × FileInfo)
        → Triple
            (On (λ n. Moved n × IsRead dest again n))
            (add_processing_note os dest note again)
            (λ u. On (IsKept c))
            (λ e. On (IsKept c))
    unfolding add_processing_note
    Triple-note note again =
        let M = λ (n : List (Str × Node)). Moved n × IsRead dest again n in
        Triple-if (is_empty note) _ _ (Triple-pure _ λ d p. Moved-IsKept d.nodes p.0) (
          Triple-bind
            (Triple-replace M (IsKept c) (λ n p. Moved-IsKept n p.0) os dest _ again.1
              λ k n (m, r). note-IsKept k note again.0 n (same_content _ _ j again.0 read r m.0) m)
            λ u. Triple-pure _ λ d p. p)

  module _ (os : Os) (plan : VaultPlan) (op : VaultOperation) where
    Triple-apply_move :
        Triple (On Here) (apply_move os plan op) (λ a. On (IsKept c)) (λ e. On (IsKept c))
    unfolding apply_move
    Triple-apply_move =
        let K = IsKept c in
        Triple-bind (Triple-resolve Here K Here-IsKept os op.target_path) λ source.
          Triple-fact λ from. Triple-bind (Triple-guarded Here K Here-IsKept os source _ _) λ read.
            Triple-fact λ hashed.
              let j = read.1.inode in
              let U = λ (n : List (Str × Node)). Here n × IsRead source read n in
              let weak = λ (n : List (Str × Node)) (p : U n). Here-IsKept n p.0 in
              Triple-bind (Triple-decoded U K weak "move_note" _) λ payload. Triple-fact λ decodes.
                Triple-bind (Triple-resolve U K weak os payload.destination_path) λ dest.
                  Triple-fact λ to. Triple-bind (Triple-move os source dest j read.0) λ u.
                    Triple-bind
                      (Triple-lift _ _ (
                        Triple-IsRead (Moved os source dest j read.0) K
                          (Moved-IsKept os source dest j read.0) os dest))
                      λ again.
                        Triple-bind
                          (Triple-note os source dest j read.0 payload.processing_note again)
                          λ final. kept K K (λ n p. p) (Keeps-record_applied K os plan op _)

    -- Whatever calls of the operating system and of the database fail while a note is moved, the content
    -- of every file that was there before stands in some file afterwards, as it was or with a text
    -- behind it as `movedContent` adds it.
    pub apply_move-IsKept :
        (d : Disk)
        → lookup path d.nodes ≡ some (regular i c)
        → IsKept c (apply_move os plan op d).1.nodes
    apply_move-IsKept = Triple-state {G = On (IsKept c)} Triple-apply_move
