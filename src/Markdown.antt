-- ===== src/Markdown.antt =====
-- internal/markdown/markdown.go: a note's frontmatter, split off and read.
pub mod Split
pub mod Reading
pub mod BlockStyle
use open_whisker.Prelude.{
  ℕ, Bool, true, false, ◌||◌, ◌&&◌, Option, none, some, List, [], ◌∷◌, ◌++◌, ◌==◌, if◌then◌else◌,
  not,
}
use open_whisker.Prelude.Text.{
  Str, codes, eqb, elem, is_empty, has_prefix, has_suffix, trim_prefix, trim_suffix, trim_space,
  trim_of, trim_left_of, split, join,
}

abbrev pub newline : ℕ
newline = b'\n'

abbrev pub carriage_return : ℕ
carriage_return = b'\r'

abbrev pub fence : Str
fence = codes "---"

abbrev byte_order_mark : Str
byte_order_mark = 0xef ∷ 0xbb ∷ 0xbf ∷ []

-- strings.ReplaceAll(content, "\r\n", "\n")
unfoldable pub unix_lines : Str → Str
unix_lines [] = []
unix_lines (c ∷ []) = c ∷ []
unix_lines (c ∷ d ∷ s) =
    let pair = newline ∷ unix_lines s in
    let single = c ∷ unix_lines (d ∷ s) in
    if c == carriage_return && d == newline then pair else single

unfoldable pub normalize : Str → Str
unfolding unix_lines
normalize content = trim_prefix (unix_lines content) byte_order_mark

unfoldable pub is_closing : Str → Bool
is_closing line = eqb (trim_space line) fence

-- the loop over the lines below the opening fence: the lines above the first closing fence, and
-- those below it
unfoldable pub find_close : List Str → Option (List Str × List Str)
find_close [] = none
find_close (l ∷ ls) =
    let rest = find_close ls in
    if is_closing l
    then some ([], ls)
    else elim rest [ none ↦ none | some (block, body) ↦ some (l ∷ block, body) ]

pub record Frontmatter : Type 0 where
  pub block : Str
  pub body : Str
  pub found : Bool

closed : Str → Option (List Str × List Str) → Frontmatter
closed content none = record { block = []; body = content; found = false }
closed content (some (block, body)) = record {
  block = join newline block;
  body = join newline body;
  found = true;
}

below_first : List Str → List Str
below_first [] = []
below_first (l ∷ ls) = ls

-- SplitFrontmatter
unfoldable pub split_frontmatter : Str → Frontmatter
unfolding closed below_first
split_frontmatter content =
    let text = normalize content in
    if has_prefix text (codes "---\n")
    then closed text (find_close (below_first (split newline text)))
    else record { block = []; body = text; found = false }

-- Parse; the result is the `lines` of a `Doc`.
unfoldable pub parse : Str → List Str
parse block = if is_empty block then [] else split newline block

abbrev is_quote : ℕ → Bool
is_quote c = c == b'"' || c == b'\''

-- cleanScalar
unfoldable pub clean_scalar : Str → Str
clean_scalar s = trim_space (trim_of is_quote (trim_space s))

abbrev pub key_prefix : Str → Str
key_prefix key = key ++ b':' ∷ []

unfoldable pub is_key_line : Str → Str → Bool
is_key_line key line = has_prefix (trim_space line) (key_prefix key)

-- Doc.Has
unfoldable pub has : List Str → Str → Bool
has [] key = false
has (l ∷ ls) key = is_key_line key l || has ls key

-- Doc.Scalar
unfoldable pub scalar : List Str → Str → Str
scalar [] key = []
scalar (l ∷ ls) key =
    if is_key_line key l
    then clean_scalar (trim_prefix (trim_space l) (key_prefix key))
    else scalar ls key

-- `if v := cleanScalar(item); v != "" { out = append(out, v) }`
unfoldable pub keep_value : Str → List Str → List Str
keep_value item out = let v = clean_scalar item in if is_empty v then out else v ∷ out

unfoldable pub keep_values : List Str → List Str
keep_values [] = []
keep_values (x ∷ xs) = keep_value x (keep_values xs)

abbrev is_indent : ℕ → Bool
is_indent c = c == b' ' || c == b'\t'

unfoldable pub indented : Str → Bool
indented [] = false
indented (c ∷ s) = is_indent c

-- the loop over the lines below a key without an inline value
unfoldable pub block_items : List Str → List Str
block_items [] = []
block_items (next ∷ ls) =
    let trimmed = trim_space next in
    let rest = block_items ls in
    if is_empty trimmed
    then rest
    else if not (indented next)
    then []
    else if not (has_prefix trimmed (codes "- ")) && not (eqb trimmed (codes "-"))
    then []
    else keep_value (trim_prefix trimmed (codes "-")) rest

unfoldable pub key_values : Str → List Str → List Str
key_values value below =
    if has_prefix value (codes "[") && has_suffix value (codes "]")
    then keep_values (split b',' (trim_suffix (trim_prefix value (codes "[")) (codes "]")))
    else if not (is_empty value)
    then keep_value value []
    else block_items below

-- Doc.List
unfoldable pub list : List Str → Str → List Str
list [] key = []
list (l ∷ ls) key =
    if is_key_line key l
    then key_values (trim_space (trim_prefix (trim_space l) (key_prefix key))) ls
    else list ls key

-- Doc.HasListValue
unfoldable pub has_list_value : List Str → Str → Str → Bool
has_list_value doc key value = elem value (list doc key)
