-- ===== src/Executor/Facts.antt =====
-- What the reads of the executor return: facts about the files, on which the writes then rest.
use open_whisker.Prelude.{
  ◌≡◌, refl, String, ℕ, Option, none, some, List, Result, ok, err, require-ok,
}
use open_whisker.Prelude.Text.{Str}
use open_whisker.Prelude.Text.Laws.{eqb→eq}
use open_whisker.Prelude.Text.Pieces.{lookup, insert}
use open_whisker.Exec.{Exec, modify}
use open_whisker.Exec.Keeps.{Keeps}
use open_whisker.Exec.Triples.{Triple, Triple-Keeps, Triple-pure, Triple-raise, Triple-bind}
use open_whisker.Executor.Errors.{ExecutorError}
use open_whisker.Executor.Disk.{Node, regular, symlink, special, Disk, Os, Act, node_at, returned}
use open_whisker.Executor.Guard.{join_path, resolve_vault_path}
use open_whisker.Executor.Files.{FileInfo, write_temp_file, opened, safe_read_all, put}
use open_whisker.Executor.Apply.{decoded, no_node, require_absent, same_hash, read_guarded_file}
use open_whisker.Executor.Frame.{On, Keeps-call, Keeps-tick, Keeps-returned, Keeps-guard_links}

abbrev Nodes : Type 1
Nodes = List (Str × Node) → Type 0

-- what the root of the vault resolves to at some call
abbrev pub IsRoot : Os → Str → Type 0
IsRoot os root =
    (base : Str) × (n : ℕ) × (os.abs os.vault_root ≡ ok base) × (os.eval_symlinks n base ≡ ok root)

-- the full path of a note
abbrev pub IsPathOf : Os → Str → Str → Type 0
IsPathOf os target full = (root : Str) × IsRoot os root × (full ≡ join_path root target)

-- the node that a read gives
abbrev pub IsRead : Str → Str × FileInfo → List (Str × Node) → Type 0
IsRead full read n = lookup full n ≡ some (regular read.1.inode read.0)

-- a fact that does not depend on the files
pub Triple-fact :
    {S E A : Type 0} {P : S → Type 0} {F : Type 0} {m : Exec S E A} {Q : A → S → Type 0}
    {R : E → S → Type 0}
    → (F → Triple P m Q R)
    → Triple (λ s. P s × F) m Q R
Triple-fact k = record { at = λ s (p, f). (k f).at s p }

module _ (N S : Nodes) (weak : (n : List (Str × Node)) → N n → S n) where
  abbrev Raised : ExecutorError → Disk → Type 0
  Raised e = On S

  pub kept : {A : Type 0} {m : Act A} → Keeps (On N) m → Triple (On N) m (λ a. On N) Raised
  kept k = Triple-Keeps k (λ e d. weak d.nodes)

  pub Triple-node_at :
      (path : Str) → Triple (On N) (node_at path) (λ o. On (λ n. N n × (lookup path n ≡ o))) Raised
  unfolding node_at
  Triple-node_at path = record { at = λ d p. (p, refl) }

  pub Triple-returned :
      {E A : Type 0} (f : E → ExecutorError) (r : Result E A)
      → Triple (On N) (returned f r) (λ a d. On N d × (r ≡ ok a)) Raised
  unfolding returned
  Triple-returned f (ok a) = Triple-pure a λ d p. (p, refl)
  Triple-returned f (err e) = Triple-raise (f e) λ d. weak d.nodes

  pub Triple-decoded :
      {A : Type 0} (name : String) (o : Option A)
      → Triple (On N) (decoded name o) (λ a d. On N d × (o ≡ some a)) Raised
  Triple-decoded name (some a) = Triple-pure a λ d p. (p, refl)
  Triple-decoded name none = Triple-raise _ λ d. weak d.nodes

  pub Triple-resolve :
      (os : Os) (target : Str)
      → Triple
          (On N)
          (resolve_vault_path os target)
          (λ full d. On N d × IsPathOf os target full)
          Raised
  unfolding resolve_vault_path
  Triple-resolve os target = Triple-bind (kept (Keeps-returned N _ _)) λ u.
      Triple-bind (Triple-returned _ _) λ base. Triple-fact λ is_base.
        Triple-bind (kept (Keeps-tick N)) λ n. Triple-bind (Triple-returned _ _) λ root.
          Triple-fact λ is_root.
            Triple-bind (kept (Keeps-guard_links N os root _))
              λ u. Triple-pure _ λ d p. (p, (root, (base, n, is_base, is_root), refl))

  pub Triple-temp :
      (content : Str)
      → Triple
          (On N)
          (write_temp_file content)
          (λ node d. On N d × ((i : ℕ) × (node ≡ regular i content)))
          Raised
  unfolding write_temp_file
  Triple-temp content =
      let c = kept (Keeps-call N) in
      Triple-bind c λ u. Triple-bind c λ u.
        Triple-bind c λ u.
          Triple-bind c λ u. Triple-bind c λ u. record { at = λ d p. (p, (d.next_inode, refl)) }

  Triple-opened :
      (os : Os) (full : Str) (o : Option Node)
      → Triple
          (On (λ n. N n × (lookup full n ≡ o)))
          (opened os full o)
          (λ read. On (λ n. N n × IsRead full read n))
          Raised
  unfolding opened
  Triple-opened os full none = Triple-raise _ λ d (p, e). weak d.nodes p
  Triple-opened os full (some symlink) = Triple-raise _ λ d (p, e). weak d.nodes p
  Triple-opened os full (some special) =
      Triple-bind (Triple-Keeps (Keeps-call _) (λ e d (p, f). weak d.nodes p))
        λ u. Triple-raise _ λ d (p, e). weak d.nodes p
  Triple-opened os full (some (regular inode content)) =
      let c = Triple-Keeps (Keeps-call _) (λ e d (p, f). weak d.nodes p) in
      Triple-bind c λ u. Triple-bind c λ u. Triple-pure _ λ d p. p

  pub Triple-IsRead :
      (os : Os) (full : Str)
      → Triple (On N) (safe_read_all os full) (λ read. On (λ n. N n × IsRead full read n)) Raised
  unfolding safe_read_all
  Triple-IsRead os full =
      Triple-bind (kept (Keeps-call N))
        λ u. Triple-bind (Triple-node_at full) λ o. Triple-opened os full o

module _ (N S : Nodes) (weak : (n : List (Str × Node)) → N n → S n) where
  pub Triple-guarded :
      (os : Os) (full target before : Str)
      → Triple
          (On N)
          (read_guarded_file os full target before)
          (λ read d. On (λ n. N n × IsRead full read n) d × (os.hash read.0 ≡ before))
          (λ e. On S)
  unfolding read_guarded_file same_hash
  Triple-guarded os full target before = Triple-bind (Triple-IsRead N S weak os full) λ read.
      Triple-bind (Triple-returned _ S (λ n (p, e). weak n p) _ _)
        λ u. Triple-pure read λ d (p, e). (p, eqb→eq (os.hash read.0) before (require-ok _ _ e))

  Triple-no_node :
      (full : Str) (e : ExecutorError) (o : Option Node)
      → Triple (On (λ n. N n × (lookup full n ≡ o))) (no_node e o) (λ u. On N) (λ e. On S)
  Triple-no_node full e none = Triple-pure tt λ d (p, f). p
  Triple-no_node full e (some node) = Triple-raise e λ d (p, f). weak d.nodes p

  pub Triple-absent :
      (full : Str) (e : ExecutorError)
      → Triple (On N) (require_absent full e) (λ u. On N) (λ e. On S)
  unfolding require_absent
  Triple-absent full e =
      Triple-bind (kept N S weak (Keeps-call N))
        λ u. Triple-bind (Triple-node_at N S weak full) λ o. Triple-no_node full e o

pub Triple-put :
    (N S : Nodes) {R : ExecutorError → Disk → Type 0} (path : Str) (node : Node)
    → ((n : List (Str × Node)) → N n → S (insert path node n))
    → Triple (On N) (put path node) (λ u. On S) R
unfolding put modify
Triple-put N S path node k = record { at = λ d p. k d.nodes p }
