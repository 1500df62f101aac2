-- ===== src/Prelude/Text/Utf8.antt =====
-- Literals as bytes, and more of Go's package `strings`: joining and replacing.
use Prim.Native.Char.{code}
use Prim.Native.Nat.{ℕ, ◌+◌, ◌/◌, ◌%◌}
use Prim.Native.String.{String}
use mathlib.Core.List.{List, [], ◌∷◌, ◌++◌}
use open_whisker.Prelude.Tests.{ltb, ◌==◌, if◌then◌else◌}
use open_whisker.Prelude.Text.{Str}

abbrev tail_byte : ℕ → ℕ
tail_byte c = 128 + c % 64

-- a code point in UTF-8
abbrev encode : ℕ → Str
encode c =
    if ltb c 128
    then c ∷ []
    else if ltb c 2048
    then (192 + c / 64) ∷ tail_byte c ∷ []
    else if ltb c 65536
    then (224 + c / 4096) ∷ tail_byte (c / 64) ∷ tail_byte c ∷ []
    else (240 + c / 262144) ∷ tail_byte (c / 4096) ∷ tail_byte (c / 64) ∷ tail_byte c ∷ []

-- the bytes of a literal
abbrev pub utf8 : String → Str
utf8 String.[] = []
utf8 (String.◌∷◌ c s) = encode (code c) ++ utf8 s

-- strings.Join
unfoldable pub join_with : Str → List Str → Str
join_with sep [] = []
join_with sep (p ∷ []) = p
join_with sep (p ∷ q ∷ ps) = p ++ sep ++ join_with sep (q ∷ ps)

-- strings.ReplaceAll of one byte
unfoldable pub replace_all : ℕ → Str → Str → Str
replace_all old new [] = []
replace_all old new (c ∷ s) =
    let rest = replace_all old new s in if c == old then new ++ rest else c ∷ rest

unfoldable pub concat : List Str → Str
concat [] = []
concat (p ∷ ps) = p ++ concat ps
