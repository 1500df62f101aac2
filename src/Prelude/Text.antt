-- ===== src/Prelude/Text.antt =====
-- Go strings as lists of bytes, with the functions of Go's package `strings` that the program uses.
-- The laws are in the modules below.
pub mod Laws
pub mod Search
pub mod Trim
pub mod Pieces
pub mod Utf8
pub mod Maps
use Prim.Native.Char.{code}
use Prim.Native.Nat.{ℕ, zero, suc, ◌+◌}
use Prim.Native.String.{String}
use mathlib.Core.Bool.{Bool, true, false, ◌&&◌, ◌||◌}
use mathlib.Core.List.{List, [], ◌∷◌, ◌++◌, reverse, map}
use mathlib.Core.Option.{Option, none, some}
use open_whisker.Prelude.Tests.{ltb, leb, ◌==◌, if◌then◌else◌}

abbrev pub Str : Type 0
Str = List ℕ

-- The code points of a literal; for the ASCII literals of the program, its bytes.
abbrev pub codes : String → Str
codes String.[] = []
codes (String.◌∷◌ c s) = code c ∷ codes s

-- s == t
unfoldable pub eqb : Str → Str → Bool
eqb [] [] = true
eqb [] (d ∷ t) = false
eqb (c ∷ s) [] = false
eqb (c ∷ s) (d ∷ t) = c == d && eqb s t

unfoldable pub is_empty : Str → Bool
is_empty [] = true
is_empty (c ∷ s) = false

-- strings.HasPrefix(s, p)
unfoldable pub has_prefix : Str → Str → Bool
has_prefix s [] = true
has_prefix [] (d ∷ p) = false
has_prefix (c ∷ s) (d ∷ p) = c == d && has_prefix s p

drop_prefix : Str → Str → Str
drop_prefix s [] = s
drop_prefix [] (d ∷ p) = []
drop_prefix (c ∷ s) (d ∷ p) = drop_prefix s p

-- strings.TrimPrefix(s, p)
unfoldable pub trim_prefix : Str → Str → Str
unfolding has_prefix drop_prefix
trim_prefix s p = if has_prefix s p then drop_prefix s p else s

-- strings.HasSuffix(s, p)
unfoldable pub has_suffix : Str → Str → Bool
unfolding has_prefix
has_suffix s p = has_prefix (reverse s) (reverse p)

-- strings.TrimSuffix(s, p)
unfoldable pub trim_suffix : Str → Str → Str
unfolding trim_prefix
trim_suffix s p = reverse (trim_prefix (reverse s) (reverse p))

-- strings.Contains(s, p)
unfoldable pub contains : Str → Str → Bool
unfolding has_prefix
contains [] p = has_prefix [] p
contains (c ∷ s) p = has_prefix (c ∷ s) p || contains s p

-- a membership test on a list of texts, and on a map used as a set
unfoldable pub elem : Str → List Str → Bool
unfolding eqb
elem x [] = false
elem x (y ∷ ys) = eqb x y || elem x ys

push : ℕ → List Str → List Str
push c [] = (c ∷ []) ∷ []
push c (p ∷ ps) = (c ∷ p) ∷ ps

-- strings.Split(s, sep) at a separator of one byte
unfoldable pub split : ℕ → Str → List Str
unfolding push
split sep [] = [] ∷ []
split sep (c ∷ s) = let rest = split sep s in if c == sep then [] ∷ rest else push c rest

glue : ℕ → Str → List Str → Str
glue sep p [] = p
glue sep p (q ∷ ps) = p ++ sep ∷ glue sep q ps

-- strings.Join(parts, sep) at a separator of one byte
unfoldable pub join : ℕ → List Str → Str
unfolding glue
join sep [] = []
join sep (p ∷ ps) = glue sep p ps

drop_while : (ℕ → Bool) → Str → Str
drop_while f [] = []
drop_while f (c ∷ s) = let rest = drop_while f s in if f c then rest else c ∷ s

-- strings.TrimRight(s, cutset) and strings.Trim(s, cutset), for an ASCII set given by its test
unfoldable pub trim_right_of : (ℕ → Bool) → Str → Str
unfolding drop_while
trim_right_of f s = reverse (drop_while f (reverse s))

unfoldable pub trim_left_of : (ℕ → Bool) → Str → Str
unfolding drop_while
trim_left_of f s = drop_while f s

unfoldable pub trim_of : (ℕ → Bool) → Str → Str
unfolding trim_right_of trim_left_of
trim_of f s = trim_right_of f (trim_left_of f s)

-- the white space of `unicode.IsSpace` below U+0080
abbrev pub is_ascii_space : ℕ → Bool
is_ascii_space c = c == 32 || (leb 9 c && leb c 13)

-- U+0085 and U+00A0 in UTF-8
abbrev pub is_space_2 : ℕ → ℕ → Bool
is_space_2 a b = a == 0xc2 && (b == 0x85 || b == 0xa0)

-- U+1680, U+2000 to U+200A, U+2028, U+2029, U+202F, U+205F and U+3000 in UTF-8
abbrev pub is_space_3 : ℕ → ℕ → ℕ → Bool
is_space_3 a b c =
    a == 0xe1 && b == 0x9a && c == 0x80
    || a == 0xe2
      && (b == 0x80 && (leb 0x80 c && leb c 0x8a || c == 0xa8 || c == 0xa9 || c == 0xaf)
          || b == 0x81 && c == 0x9f)
    || a == 0xe3 && b == 0x80 && c == 0x80

-- Drops leading white space, one encoded rune at a time; the tests read a rune's bytes in the
-- order in which they stand in the list.
trim_runes : (ℕ → ℕ → Bool) → (ℕ → ℕ → ℕ → Bool) → Str → Str
trim_runes two three [] = []
trim_runes two three (a ∷ []) = if is_ascii_space a then [] else a ∷ []
trim_runes two three (a ∷ b ∷ []) =
    let one = trim_runes two three (b ∷ []) in
    if is_ascii_space a then one else if two a b then [] else a ∷ b ∷ []
trim_runes two three (a ∷ b ∷ c ∷ s) =
    let after_1 = trim_runes two three (b ∷ c ∷ s) in
    let after_2 = trim_runes two three (c ∷ s) in
    let after_3 = trim_runes two three s in
    if is_ascii_space a
    then after_1
    else if two a b
    then after_2
    else if three a b c
    then after_3
    else a ∷ b ∷ c ∷ s

trim_space_left : Str → Str
unfolding trim_runes
trim_space_left = trim_runes is_space_2 is_space_3

trim_space_right : Str → Str
unfolding trim_runes
trim_space_right s =
    reverse (trim_runes (λ a b. is_space_2 b a) (λ a b c. is_space_3 c b a) (reverse s))

-- strings.TrimSpace(s)
unfoldable pub trim_space : Str → Str
unfolding trim_space_left trim_space_right
trim_space s = trim_space_right (trim_space_left s)

-- strings.TrimSpace(s) == ""
unfoldable pub is_blank : Str → Bool
unfolding trim_space is_empty
is_blank s = is_empty (trim_space s)

-- strings.ToLower(s): byte by byte where all bytes are ASCII; for other text Go maps the runes by
-- the Unicode tables, which are the argument.
lower_byte : ℕ → ℕ
lower_byte c = if leb b'A' c && leb c b'Z' then c + 32 else c

is_ascii : Str → Bool
is_ascii [] = true
is_ascii (c ∷ s) = ltb c 128 && is_ascii s

unfoldable pub to_lower : (Str → Str) → Str → Str
unfolding lower_byte is_ascii
to_lower unicode s = if is_ascii s then map lower_byte s else unicode s

-- The pieces between the white space; of two spaces in a row comes an empty piece.
space_split : Str → List Str
space_split [] = [] ∷ []
space_split (a ∷ []) = if is_ascii_space a then [] ∷ [] ∷ [] else (a ∷ []) ∷ []
space_split (a ∷ b ∷ []) =
    let one = space_split (b ∷ []) in
    if is_ascii_space a then [] ∷ one else if is_space_2 a b then [] ∷ [] ∷ [] else push a one
space_split (a ∷ b ∷ c ∷ s) =
    let after_1 = space_split (b ∷ c ∷ s) in
    let after_2 = space_split (c ∷ s) in
    let after_3 = space_split s in
    if is_ascii_space a
    then [] ∷ after_1
    else if is_space_2 a b
    then [] ∷ after_2
    else if is_space_3 a b c
    then [] ∷ after_3
    else push a after_1

drop_empty : List Str → List Str
drop_empty [] = []
drop_empty ([] ∷ ps) = drop_empty ps
drop_empty ((c ∷ p) ∷ ps) = (c ∷ p) ∷ drop_empty ps

-- strings.Fields(s)
unfoldable pub fields : Str → List Str
unfolding push space_split drop_empty
fields s = drop_empty (space_split s)
