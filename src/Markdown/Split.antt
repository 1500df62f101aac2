-- ===== src/Markdown/Split.antt =====
-- `SplitFrontmatter`: where the block ends, and the round trip with a note written out.
use open_whisker.Prelude.{
  subst, ℕ, true, false, Option, none, some, List, [], ◌∷◌, ◌++◌, ◌≡◌, ◌≢◌, ◌↔◌, refl, ◌∙◌, ap,
  arith, All, All-append, Option-cases, inl, inr, Bool-cases,
}
use open_whisker.Prelude.Text.{Str, codes, eqb, split, join, has_prefix, trim_prefix, trim_space}
use open_whisker.Prelude.Text.Laws.{
  Lacks, join-split, split-append_sep, has_prefix-append, has_prefix→StartsWith,
}
use open_whisker.Markdown.{
  newline, carriage_return, fence, unix_lines, normalize, is_closing, find_close, Frontmatter,
  closed, below_first, split_frontmatter,
}

abbrev pub IsOpen : Str → Type 0
IsOpen line = is_closing line ≡ false

-- `lines` holds a closing fence, the first one behind `block` and before `body`.
pub record ClosesAt (lines block body : List Str) : Type 0 where
  pub closing : Str
  pub is_fence : is_closing closing ≡ true
  pub parts : lines ≡ block ++ closing ∷ body
  pub first : All IsOpen block

find_close-append :
    (block body : List Str) (f : Str)
    → All IsOpen block
    → is_closing f ≡ true
    → find_close (block ++ f ∷ body) ≡ some (block, body)
unfolding find_close
find_close-append [] body f h c = rw c
find_close-append (l ∷ block) body f h c = rw (h.0, find_close-append block body f h.1 c)

abbrev ClosesAt' : List Str → List Str × List Str → Type 0
ClosesAt' ls (block, body) = ClosesAt ls block body

closes_here : (l : Str) (ls : List Str) → is_closing l ≡ true → ClosesAt (l ∷ ls) [] ls
closes_here l ls c = record { closing = l; is_fence = c; parts = refl; first = tt }

closes_later :
    (l : Str) (ls : List Str) (r : List Str × List Str)
    → IsOpen l
    → ClosesAt' ls r
    → ClosesAt (l ∷ ls) (l ∷ r.0) r.1
closes_later l ls (block, body) o c = record {
  closing = c.closing;
  is_fence = c.is_fence;
  parts = ap (λ x. l ∷ x) c.parts;
  first = (o, c.first);
}

find_close_open :
    (l : Str) (ls : List Str) (r : List Str × List Str)
    → IsOpen l
    → find_close (l ∷ ls) ≡ some r
    → (q : List Str × List Str) × (find_close ls ≡ some q) × ((l ∷ q.0, q.1) ≡ r)
unfolding find_close
find_close_open l ls r o e = elim (Option-cases (find_close ls)) [
  | inl n ↦ absurd (cc (rw (o, n) at e))
  | inr (q, s) ↦ (q, s, ground arith)
]

find_close_closing :
    (l : Str) (ls : List Str) (r : List Str × List Str)
    → is_closing l ≡ true
    → find_close (l ∷ ls) ≡ some r
    → let q : List Str × List Str = ([], ls) in q ≡ r
unfolding find_close
find_close_closing l ls r c e = ground arith

find_close-nil : find_close [] ≡ none
unfolding find_close
find_close-nil = refl

ClosesAt_of_find :
    (ls : List Str) (r : List Str × List Str) → find_close ls ≡ some r → ClosesAt' ls r
ClosesAt_of_find [] r e = absurd (cc find_close-nil)
ClosesAt_of_find (l ∷ ls) r e = elim (Bool-cases (is_closing l)) [
  | inl c ↦ subst (ClosesAt' (l ∷ ls)) (find_close_closing l ls r c e) (closes_here l ls c)
  | inr o ↦
      let (q, s, t) = find_close_open l ls r o e in
      subst (ClosesAt' (l ∷ ls)) t (closes_later l ls q o (ClosesAt_of_find ls q s))
]

-- The loop finds the first line that is a closing fence, and nothing else.
pub find_close-ClosesAt :
    (ls block body : List Str) → (find_close ls ≡ some (block, body)) ↔ ClosesAt ls block body
find_close-ClosesAt ls block body = (
  ClosesAt_of_find ls (block, body),
  λ c. rw c.parts (find_close-append block body c.closing c.first c.is_fence),
)

unix_lines-Lacks : (s : Str) → Lacks carriage_return s → unix_lines s ≡ s
unfolding unix_lines
unix_lines-Lacks [] h = refl
unix_lines-Lacks (c ∷ []) h = refl
unix_lines-Lacks (c ∷ d ∷ s) h = ground (arith, unix_lines-Lacks (d ∷ s))

-- The text of a note with a block between fences and a body, as the lemmas below name it; no function
-- of the program stands behind it.
abbrev render : Str → Str → Str
render block body = fence ++ newline ∷ (block ++ newline ∷ (fence ++ newline ∷ body))

split-render :
    (block body : Str)
    → split newline (render block body)
      ≡ fence ∷ (split newline block ++ fence ∷ split newline body)
unfolding split
split-render block body =
    split-append_sep newline fence (block ++ newline ∷ (fence ++ newline ∷ body))
    ∙ ap (λ x. fence ∷ x)
        (split-append_sep newline block (fence ++ newline ∷ body)
          ∙ ap (λ x. split newline block ++ x) (split-append_sep newline fence body))

is_closing-fence : is_closing fence ≡ true
unfolding is_closing trim_space eqb
is_closing-fence = refl

render-Lacks :
    (block body : Str)
    → Lacks carriage_return block
    → Lacks carriage_return body
    → Lacks carriage_return (render block body)
render-Lacks block body h k =
    let lacks = λ (c : ℕ). c ≢ carriage_return in
    let dash : b'-' ≢ carriage_return = omega arith in
    let line : newline ≢ carriage_return = omega arith in
    let fenced = λ (t : Str) (a : All lacks t).
      All-append lacks (fence ++ newline ∷ []) t (dash, (dash, (dash, (line, tt)))) a in
    fenced (block ++ newline ∷ (fence ++ newline ∷ body))
      (All-append lacks block (newline ∷ (fence ++ newline ∷ body)) h (line, fenced body k))

normalize-render :
    (block body : Str)
    → Lacks carriage_return block
    → Lacks carriage_return body
    → normalize (render block body) ≡ render block body
unfolding normalize trim_prefix
normalize-render block body h k =
    rw (unix_lines-Lacks (render block body) (render-Lacks block body h k))

split_frontmatter-render :
    (block body : Str)
    → Lacks carriage_return block
    → Lacks carriage_return body
    → All IsOpen (split newline block)
    → split_frontmatter (render block body) ≡ record { block = block; body = body; found = true }
unfolding split_frontmatter
split_frontmatter-render block body h k o = rw (
  normalize-render block body h k,
  has_prefix-append (codes "---\n") (block ++ newline ∷ (fence ++ newline ∷ body)),
  split-render block body,
  find_close-append (split newline block) (split newline body) fence o is_closing-fence,
  join-split newline block,
  join-split newline body,
)

-- A note of an opening fence, a block, a closing fence and a body, each on lines of its own, is split
-- into that block and that body, where neither holds a carriage return and no line of the block is
-- itself a closing fence.
pub split_frontmatter-fenced :
    (block body : Str)
    → Lacks carriage_return block
    → Lacks carriage_return body
    → All IsOpen (split newline block)
    → split_frontmatter (fence ++ newline ∷ (block ++ newline ∷ (fence ++ newline ∷ body)))
      ≡ record { block = block; body = body; found = true }
split_frontmatter-fenced block body h k o = split_frontmatter-render block body h k o

-- The lines of the note that follow the opening fence are split at a closing fence.
abbrev pub IsSplit : Str → Frontmatter → Type 0
IsSplit text fm =
    (block body : List Str) × (fm.block ≡ join newline block)
    × (fm.body ≡ join newline body)
    × (rest : Str) × (text ≡ fence ++ newline ∷ rest)
    × ClosesAt (split newline rest) block body

below_first-fence :
    (rest : Str) → below_first (split newline (fence ++ newline ∷ rest)) ≡ split newline rest
unfolding below_first split
below_first-fence rest = ap below_first (split-append_sep newline fence rest)

IsSplit-of_closed :
    (text rest : Str)
    → text ≡ fence ++ newline ∷ rest
    → (o : Option (List Str × List Str)) → find_close (split newline rest) ≡ o
    → (closed text o).found ≡ true
    → IsSplit text (closed text o)
unfolding closed
IsSplit-of_closed text rest e none f h = absurd (cc h)
IsSplit-of_closed text rest e (some (block, body)) f h =
    (block, body, refl, refl, rest, e, (find_close-ClosesAt (split newline rest) block body).0 f)

-- Where `SplitFrontmatter` reports a block, the normalized note is an opening fence, the lines of
-- the block, a closing fence and the lines of the body, and no line of the block closes it.
pub split_frontmatter-IsSplit :
    (content : Str)
    → (split_frontmatter content).found ≡ true
    → IsSplit (normalize content) (split_frontmatter content)
unfolding split_frontmatter
split_frontmatter-IsSplit content h =
    elim (Bool-cases (has_prefix (normalize content) (codes "---\n"))) [
      | inl p ↦
          let text = normalize content in
          let (rest, e) = has_prefix→StartsWith text (codes "---\n") p in
          let lines : below_first (split newline text) ≡ split newline rest =
            ap (λ t. below_first (split newline t)) e ∙ below_first-fence rest in
          rw (p, lines)
            (IsSplit-of_closed text rest e (find_close (split newline rest)) refl
              (rw (p, lines) at h))
      | inr n ↦ absurd (cc (rw n at h))
    ]
