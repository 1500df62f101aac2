-- ===== src/EnrichPolicy/Fields.antt =====
-- internal/policy/enrich.go: the fields of a frontmatter block, and the values in a field.
use open_whisker.Prelude.{
  ℕ, Bool, false, ◌||◌, ◌&&◌, Option, none, some, List, [], ◌∷◌, ◌++◌, ◌==◌, not, if◌then◌else◌,
}
use open_whisker.Prelude.Text.{
  Str, codes, is_empty, is_blank, has_prefix, trim_prefix, trim_space, trim_right_of, split, join,
}
use open_whisker.Prelude.Text.Pieces.{cut, text_ltb, unquoted, insert, keys}

unfoldable pub has_space : Str → Bool
has_space [] = false
has_space (c ∷ s) = c == b' ' || c == b'\t' || has_space s

abbrev starts_key : Str → Bool
starts_key [] = false
starts_key (c ∷ s) = not (c == b' ' || c == b'\t' || c == b'-' || c == b'#')

-- the key and what follows its colon
unfoldable pub key_of_line : Str → Option (Str × Str)
key_of_line line = if starts_key line then cut b':' line else none

abbrev is_key : Option (Str × Str) → Bool
is_key none = false
is_key (some (key, rest)) = not (is_empty key) && not (has_space key)

-- isTopLevelKeyLine
unfoldable pub is_top_level_key_line : Str → Bool
is_top_level_key_line line = is_key (key_of_line line)

abbrev is_newline : ℕ → Bool
is_newline c = c == b'\n'

-- the closure `flush`
unfoldable pub flush : Str → Str → List (Str × Str) → List (Str × Str)
flush key buf out = if is_empty key then out else insert key (trim_right_of is_newline buf) out

abbrev key_text : Option (Str × Str) → Str
key_text none = []
key_text (some (key, rest)) = trim_space key

abbrev rest_text : Option (Str × Str) → Str
rest_text none = []
rest_text (some (key, rest)) = trim_prefix rest (codes " ") ++ b'\n' ∷ []

-- the loop over the lines: the current key, its text so far, and the fields above
unfoldable pub fields_from : List Str → Str → Str → List (Str × Str) → List (Str × Str)
fields_from [] key buf out = flush key buf out
fields_from (line ∷ lines) key buf out =
    let starts = is_top_level_key_line line in
    let cut_line = key_of_line line in
    fields_from lines (if starts then key_text cut_line else key)
      (if starts
        then rest_text cut_line
        else if is_empty key
        then buf
        else buf ++ (line ++ b'\n' ∷ []))
      (if starts then flush key buf out else out)

-- splitFrontmatterFields
unfoldable pub split_frontmatter_fields : Str → List (Str × Str)
split_frontmatter_fields fm = if is_empty fm then [] else fields_from (split b'\n' fm) [] [] []

-- the inner loop of `orderedKeys`
unfoldable pub insert_key : Str → List Str → List Str
insert_key k [] = k ∷ []
insert_key k (j ∷ js) = if text_ltb k j then k ∷ j ∷ js else j ∷ insert_key k js

unfoldable pub sort_keys : List Str → List Str
sort_keys [] = []
sort_keys (k ∷ ks) = insert_key k (sort_keys ks)

-- orderedKeys
unfoldable pub ordered_keys : List (Str × Str) → List Str
ordered_keys m = sort_keys (keys m)

abbrev is_trailing : ℕ → Bool
is_trailing c = c == b' ' || c == b'\t' || c == b'\r'

unfoldable pub normal_lines : List Str → List Str
normal_lines [] = []
normal_lines (l ∷ ls) =
    let rest = normal_lines ls in if is_blank l then rest else trim_right_of is_trailing l ∷ rest

-- normalizeBlob
unfoldable pub normalize_blob : Str → Str
normalize_blob s = join b'\n' (normal_lines (split b'\n' s))

abbrev pub is_quote : ℕ → Bool
is_quote c = c == b'"' || c == b'\''

-- stripQuotes
unfoldable pub strip_quotes : Str → Str
strip_quotes s = unquoted is_quote (trim_space s)

-- the loop of `splitFlowList`; the first argument is the open quote or 0
unfoldable pub flow_items : ℕ → Str → Str → List Str
flow_items quote cur [] = if is_empty cur then [] else cur ∷ []
flow_items quote cur (c ∷ s) =
    let outside = quote == 0 in
    let ends = outside && c == b',' in
    let rest =
      flow_items
        (if outside then (if is_quote c then c else 0) else if c == quote then 0 else quote)
        (if ends then [] else cur ++ c ∷ []) s in
    if ends then cur ∷ rest else rest

-- splitFlowList
unfoldable pub split_flow_list : Str → List Str
split_flow_list inner = flow_items 0 [] inner

-- `if v := stripQuotes(…); v != "" { out = append(out, v) }`
unfoldable pub flow_values : List Str → List Str
flow_values [] = []
flow_values (item ∷ items) =
    let v = strip_quotes (trim_space item) in
    let rest = flow_values items in if is_empty v then rest else v ∷ rest

unfoldable pub block_values : List Str → List Str
block_values [] = []
block_values (line ∷ lines) =
    let trim = trim_space line in
    let v = strip_quotes (trim_space (trim_prefix trim (codes "-"))) in
    let rest = block_values lines in
    if is_empty trim || not (has_prefix trim (codes "-")) || is_empty v then rest else v ∷ rest

abbrev flow_or_block : Str → Option (Str × Str) → List Str
flow_or_block blob none = block_values (split b'\n' blob)
flow_or_block blob (some (inner, rest)) = flow_values (split_flow_list inner)

-- parseYAMLList
unfoldable pub parse_yaml_list : Str → List Str
parse_yaml_list text =
    let blob = trim_space text in
    if is_empty blob
    then []
    else if has_prefix blob (codes "[")
    then flow_or_block blob (cut b']' (trim_prefix blob (codes "[")))
    else block_values (split b'\n' blob)
