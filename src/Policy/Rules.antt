-- ===== src/Policy/Rules.antt =====
-- When the tests that the checks of internal/policy share return no error.
use mathlib.Core.List.{Memᴰ}
use open_whisker.Prelude.{
  false, ◌≡◌, ◌↔◌, List, Option, none, some, Passes, Passes-refuse, Passes-require, Passes-wrap,
  ↔-trans, require, wrap, ◌>>=◌, Check,
}
use open_whisker.Prelude.Text.{Str, is_blank, elem}
use open_whisker.Prelude.Text.Search.{elem-Memᴰ}
use open_whisker.Model.{OpType}
use open_whisker.VaultPath.{validate_relative_vault_path, has_dir_prefix, PathError}
use open_whisker.VaultPath.Safe.{IsSafePath, validate_relative_vault_path-IsSafePath}
use open_whisker.VaultPath.Dirs.{IsUnder, has_dir_prefix-IsUnder}
use open_whisker.Policy.Errors.{CheckError}
use open_whisker.Policy.Payload.{decoded, require_content}

-- a payload that decodes to a value with the property
abbrev pub Holds : {A : Type 0} → (A → Type 0) → Option A → Type 0
Holds P none = ⊥
Holds P (some a) = P a

abbrev pub IsNamed : Str → Type 0
IsNamed s = is_blank s ≡ false

pub Passes-decoded :
    {A : Type 0} {P : A → Type 0} (t : OpType) (id : Str) (o : Option A) (k : A → Check CheckError)
    → ((a : A) → Passes (k a) ↔ P a)
    → Passes (decoded t id o >>= k) ↔ Holds P o
Passes-decoded t id none k h = (λ p. cc, λ p. absurd p)
Passes-decoded t id (some a) k h = h a

pub Passes-content :
    (t : OpType) (id : Str) (o : Option Str)
    → Passes (decoded t id o >>= λ content. require_content t id content) ↔ Holds IsNamed o
Passes-content t id o =
    Passes-decoded t id o (λ content. require_content t id content)
      (λ content. Passes-refuse (is_blank content) (CheckError.empty_content t id))

pub Passes-IsUnder :
    (e : CheckError) (path dir : Str)
    → Passes (require (has_dir_prefix path dir) e) ↔ IsUnder dir path
Passes-IsUnder e path dir =
    ↔-trans (Passes-require (has_dir_prefix path dir) e) (has_dir_prefix-IsUnder path dir)

pub Passes-path :
    (f : PathError → CheckError) (path : Str)
    → Passes (wrap f (validate_relative_vault_path path)) ↔ IsSafePath path
Passes-path f path =
    ↔-trans (Passes-wrap f (validate_relative_vault_path path))
      (validate_relative_vault_path-IsSafePath path)

pub Passes-listed :
    (e : CheckError) (path : Str) (targets : List Str)
    → Passes (require (elem path targets) e) ↔ Memᴰ path targets
Passes-listed e path targets =
    ↔-trans (Passes-require (elem path targets) e) (elem-Memᴰ path targets)
