-- ===== src/Executor/Writes.antt =====
-- What the atomic writes of internal/executor/path_guard.go leave: either all is as it was, or the
-- whole content stands at its path.
use open_whisker.Prelude.{◌≡◌, sym, subst, inl, inr, ℕ, Option, none, some, List}
use open_whisker.Prelude.Text.{Str}
use open_whisker.Prelude.Text.Pieces.{lookup, insert}
use open_whisker.Exec.Keeps.{Keeps, Keeps-lift, Keeps-raise}
use open_whisker.Exec.Triples.{Triple, Triple-raise, Triple-bind}
use open_whisker.Executor.Errors.{ExecutorError}
use open_whisker.Executor.Disk.{Node, regular, symlink, special, Os}
use open_whisker.Executor.Files.{
  FileInfo, link_new, safe_create_atomic, guard_replace, safe_write_replace,
}
use open_whisker.Executor.Frame.{On, Keeps-call, Keeps-returned}
use open_whisker.Executor.Facts.{kept, Triple-node_at, Triple-temp, Triple-put, Triple-fact}
use open_whisker.Prelude.Text.Maps.{same_or_not, lookup-insert_same, lookup-insert_other}

-- A property of what stands at a path, after a write of any path.
pub after_put :
    (T : Option Node → Type 0) (path full : Str) (node : Node) (n : List (Str × Node))
    → T (lookup path n)
    → (full ≡ path → T (some node))
    → T (lookup path (insert full node n))
after_put T path full node n p k = elim (same_or_not full path) [
  | inl e ↦
      subst (λ x. T (lookup x (insert full node n))) e
        (subst T (sym (lookup-insert_same full node n)) (k e))
  | inr other ↦ subst T (sym (lookup-insert_other full node path other n)) p
]

pub Triple-link_new :
    (N S W : List (Str × Node) → Type 0) (weak : (n : List (Str × Node)) → N n → W n)
    (e : ExecutorError) (full : Str) (node : Node) (o : Option Node)
    → ((n : List (Str × Node)) → N n → lookup full n ≡ none → S (insert full node n))
    → Triple (On (λ n. N n × (lookup full n ≡ o))) (link_new e full node o) (λ u. On S) (λ e. On W)
unfolding link_new
Triple-link_new N S W weak e full node (some old) k = Triple-raise e λ d (p, f). weak d.nodes p
Triple-link_new N S W weak e full node none k = Triple-put _ S full node λ n (p, f). k n p f

module _ (N S : List (Str × Node) → Type 0) (weak : (n : List (Str × Node)) → N n → S n) where
  pub Triple-create :
      (full content : Str)
      → ((i : ℕ) (n : List (Str × Node))
          → N n
          → lookup full n ≡ none
          → S (insert full (regular i content) n))
      → Triple (On N) (safe_create_atomic full content) (λ u. On S) (λ e. On S)
  unfolding safe_create_atomic
  Triple-create full content k = Triple-bind (kept N S weak (Keeps-call N)) λ u.
      Triple-bind (Triple-temp N S weak content) λ temp. Triple-fact λ (i, is_temp).
        Triple-bind (kept N S weak (Keeps-call N)) λ u.
          Triple-bind (Triple-node_at N S weak full) λ o.
            Triple-link_new N S S weak _ full temp o
              λ n p absent. subst (λ x. S (insert full x n)) (sym is_temp) (k i n p absent)

  Keeps-guard_replace :
      (os : Os) (full : Str) (guard : FileInfo) (o : Option Node)
      → Keeps (On N) (guard_replace os full guard o)
  unfolding guard_replace
  Keeps-guard_replace os full guard none = Keeps-raise _
  Keeps-guard_replace os full guard (some (regular inode content)) = Keeps-returned N _ _
  Keeps-guard_replace os full guard (some symlink) = Keeps-raise _
  Keeps-guard_replace os full guard (some special) = Keeps-raise _

module _ (N S : List (Str × Node) → Type 0) (weak : (n : List (Str × Node)) → N n → S n) where
  pub Triple-replace :
      (os : Os) (full content : Str) (guard : FileInfo)
      → ((j : ℕ) (n : List (Str × Node)) → N n → S (insert full (regular j content) n))
      → Triple (On N) (safe_write_replace os full content guard) (λ u. On S) (λ e. On S)
  unfolding safe_write_replace
  Triple-replace os full content guard k = Triple-bind (Triple-temp N S weak content) λ temp.
      Triple-fact λ (j, is_temp). Triple-bind (kept N S weak (Keeps-lift _ _ (Keeps-call N))) λ u.
        Triple-bind (Triple-node_at N S weak full) λ o.
          let M = λ (n : List (Str × Node)). N n × (lookup full n ≡ o) in
          let weaker = λ (n : List (Str × Node)) (p : M n). weak n p.0 in
          Triple-bind (kept M S weaker (Keeps-guard_replace M S weaker os full guard o)) λ u.
            Triple-bind (kept M S weaker (Keeps-call M)) λ u.
              Triple-put M S full temp
                λ n (p, f). subst (λ x. S (insert full x n)) (sym is_temp) (k j n p)
