-- ===== src/Policy/Hashes.antt =====
-- `validateMutatingBeforeHash` accepts exactly the texts that have the shape of a SHA-256 in hex.
use open_whisker.Prelude.{
  ℕ, true, false, ◌≤◌, ◌≡◌, ◌↔◌, ◌⊎◌, refl, arith, [], ◌∷◌, All, Passes, Passes-refuse,
  Passes-require, Passes-seq, ↔-trans, length, ◌==◌, ==_iff,
}
use open_whisker.Prelude.Text.{Str, trim_space, is_empty}
use open_whisker.Model.{VaultOperation}
use open_whisker.Policy.Payload.{validate_mutating_before_hash, all_hex}

abbrev pub IsHexDigit : ℕ → Type 0
IsHexDigit c = ((b'0' ≤ c) × (c ≤ b'9')) ⊎ ((b'a' ≤ c) × (c ≤ b'f')) ⊎ ((b'A' ≤ c) × (c ≤ b'F'))

-- 64 hexadecimal digits
pub record IsSha256 (hash : Str) : Type 0 where
  pub size : length hash ≡ 64
  pub digits : All IsHexDigit hash

all_hex_iff : (s : Str) → (all_hex s ≡ true) ↔ All IsHexDigit s
unfolding all_hex
all_hex_iff [] = (λ h. tt, λ h. refl)
all_hex_iff (c ∷ s) =
    (λ h. ground (arith, (all_hex_iff s).0), λ h. ground (arith, (all_hex_iff s).1))

length_pos : (s : Str) → length s ≡ 64 → is_empty s ≡ false
unfolding is_empty
length_pos [] h = absurd (omega arith)
length_pos (c ∷ s) h = refl

IsSha256-of_tests :
    (hash : Str)
    → ((is_empty hash ≡ false) × (((length hash == 64) ≡ true) × (all_hex hash ≡ true)))
      ↔ IsSha256 hash
IsSha256-of_tests hash = (
  λ h. record { size = (==_iff (length hash) 64).0 h.1.0; digits = (all_hex_iff hash).0 h.1.1 },
  λ v.
      (length_pos hash v.size, ((==_iff (length hash) 64).1 v.size, (all_hex_iff hash).1 v.digits)),
)

-- `validateMutatingBeforeHash` accepts an operation exactly where its `before_hash`, trimmed, is 64
-- hexadecimal digits.
pub validate_mutating_before_hash-IsSha256 :
    (op : VaultOperation)
    → Passes (validate_mutating_before_hash op) ↔ IsSha256 (trim_space op.before_hash)
unfolding validate_mutating_before_hash
validate_mutating_before_hash-IsSha256 op =
    let hash = trim_space op.before_hash in
    ↔-trans
      (Passes-seq _ _ (Passes-refuse (is_empty hash) _)
        (Passes-seq _ _ (Passes-require (length hash == 64) _) (Passes-require (all_hex hash) _)))
      (IsSha256-of_tests hash)
