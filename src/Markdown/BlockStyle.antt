-- ===== src/Markdown/BlockStyle.antt =====
-- `Doc.List` on a frontmatter whose values stand on lines of their own below the key, and `Doc.Scalar`
-- where the value stands on the line of the key.
use open_whisker.Prelude.{◌≡◌, ℕ, false, List, [], ◌∷◌, ◌++◌, All, arith}
use open_whisker.Prelude.Text.{Str, codes}
use open_whisker.Prelude.Text.Trim.{
  IsPlain, Starts, IsTrimmed, Starts-reverse_append, trim_space-IsTrimmed, trim_space-space,
  trim_of-IsTrimmed, trim_prefix-append, Starts-append,
}
use open_whisker.Prelude.Text.Laws.{has_prefix-append}
use open_whisker.Markdown.{key_prefix, is_key_line, clean_scalar, scalar, is_quote}

-- the line of a value
abbrev pub item_line : Str → Str
item_line v = codes "  - " ++ v

abbrev pub NotKeyLine : Str → Str → Type 0
NotKeyLine key line = is_key_line key line ≡ false

-- nothing follows, or a line that begins and ends with a printable byte
abbrev pub Follows : List Str → Type 0
Follows [] = Unit
Follows (l ∷ ls) = IsTrimmed l

plain_not_quote : (c : ℕ) → IsPlain c → is_quote c ≡ false
plain_not_quote c h = ground arith

clean_scalar-IsTrimmed : (v : Str) → IsTrimmed v → clean_scalar (32 ∷ v) ≡ v
unfolding clean_scalar
clean_scalar-IsTrimmed v h =
    rw
      (trim_space-space v, trim_space-IsTrimmed v h, trim_of-IsTrimmed is_quote plain_not_quote v h)
      (trim_space-IsTrimmed v h)

key_prefix-IsTrimmed : (key : Str) → Starts key → IsTrimmed (key_prefix key)
key_prefix-IsTrimmed [] h = absurd h
key_prefix-IsTrimmed (c ∷ key) h = (
  h,
  Starts-reverse_append (c ∷ key) (b':' ∷ []) (omega arith, omega arith, omega arith, omega arith),
)

scalar-at_key :
    (key v : Str) (below : List Str)
    → Starts key
    → IsTrimmed v
    → scalar ((key_prefix key ++ b' ' ∷ v) ∷ below) key ≡ v
unfolding scalar is_key_line
scalar-at_key key v below k h =
    let line : IsTrimmed (key_prefix key ++ b' ' ∷ v) = (
      Starts-append (key_prefix key) (b' ' ∷ v) (key_prefix-IsTrimmed key k).0,
      Starts-reverse_append (key_prefix key) (b' ' ∷ v) (Starts-reverse_append (b' ' ∷ []) v h.1),
    ) in
    rw
      (
        trim_space-IsTrimmed (key_prefix key ++ b' ' ∷ v) line,
        has_prefix-append (key_prefix key) (b' ' ∷ v),
        trim_prefix-append (key_prefix key) (b' ' ∷ v),
      )
      (clean_scalar-IsTrimmed v h)

-- `Scalar` gives back the value of a key whose line is the key, a colon, a blank and the value, where the
-- key begins, and the value begins and ends, with a printable ASCII byte that is no quote, and no line
-- above is one of the key, whatever the lines below are.
pub scalar-inline :
    (above : List Str) (key v : Str) (below : List Str)
    → All (NotKeyLine key) above
    → Starts key
    → IsTrimmed v
    → scalar (above ++ (key ++ codes ":" ++ b' ' ∷ v) ∷ below) key ≡ v
unfolding scalar
scalar-inline [] key v below a k h = scalar-at_key key v below k h
scalar-inline (l ∷ above) key v below a k h = rw (a.0) (scalar-inline above key v below a.1 k h)
