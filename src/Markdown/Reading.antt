-- ===== src/Markdown/Reading.antt =====
-- What the readers of a `Doc` return.
use open_whisker.Prelude.{false, List, [], ◌∷◌, ◌≡◌, arith, All}
use open_whisker.Prelude.Text.{Str, codes, is_empty, trim_prefix, trim_suffix, trim_space, split}
use open_whisker.Markdown.{key_prefix, list, keep_value, keep_values, block_items, key_values}

abbrev pub NonEmpty : Str → Type 0
NonEmpty s = is_empty s ≡ false

keep_value-NonEmpty :
    (item : Str) (out : List Str) → All NonEmpty out → All NonEmpty (keep_value item out)
unfolding keep_value
keep_value-NonEmpty item out h = ground arith

keep_values-NonEmpty : (xs : List Str) → All NonEmpty (keep_values xs)
unfolding keep_values
keep_values-NonEmpty [] = tt
keep_values-NonEmpty (x ∷ xs) = keep_value-NonEmpty x (keep_values xs) (keep_values-NonEmpty xs)

block_items-NonEmpty : (ls : List Str) → All NonEmpty (block_items ls)
unfolding block_items
block_items-NonEmpty [] = tt
block_items-NonEmpty (l ∷ ls) = ground (
  arith,
  block_items-NonEmpty ls,
  keep_value-NonEmpty (trim_prefix (trim_space l) (codes "-")) (block_items ls),
)

key_values-NonEmpty : (value : Str) (below : List Str) → All NonEmpty (key_values value below)
unfolding key_values
key_values-NonEmpty value below =
    let inner = split b',' (trim_suffix (trim_prefix value (codes "[")) (codes "]")) in
    ground
      (arith, keep_values-NonEmpty inner, keep_value-NonEmpty value [], block_items-NonEmpty below)

-- `List` drops empty values, in each of the three styles.
pub list-NonEmpty : (doc : List Str) (key : Str) → All NonEmpty (list doc key)
unfolding list
list-NonEmpty [] key = tt
list-NonEmpty (l ∷ ls) key = ground (
  arith,
  list-NonEmpty ls key,
  key_values-NonEmpty (trim_space (trim_prefix (trim_space l) (key_prefix key))) ls,
)
