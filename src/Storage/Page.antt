-- ===== src/Storage/Page.antt =====
-- ListPendingOutbox of internal/storage/store.go: what its page of messages is.
use mathlib.Core.List.Perm
use mathlib.Core.List.{Perm}
use open_whisker.Prelude.{◌≡◌, ◌⊎◌, ℕ, ◌≤◌, Bool, List, [], ◌++◌, All, length}
use open_whisker.Model.{Time, OutboxMessage, pending, delivered}
use open_whisker.Storage.Sorted.{Ordered}

-- how many messages a limit asks for
abbrev pub PageSize : ℕ → ℕ → Type 0
PageSize limit most = ((limit ≡ 0) × (most ≡ 20)) ⊎ ((1 ≤ limit) × (most ≡ limit))

-- The table is the page, the pending messages that are left for later, and those that are not pending,
-- in some order; what is left for later is not earlier than the page, which is in order and full, or
-- nothing is left for later.
pub record IsPage (earlier : Time → Time → Bool) (limit : ℕ) (table page : List OutboxMessage)
    : Type 0 where
  pub later : List OutboxMessage
  pub others : List OutboxMessage
  pub most : ℕ
  pub rows : Perm ((page ++ later) ++ others) table
  pub are_pending : All (λ m. m.status ≡ pending) (page ++ later)
  pub not_pending : All (λ m. m.status ≡ delivered) others
  pub in_order : Ordered (λ a b. earlier a.created_at b.created_at) (page ++ later)
  pub size : PageSize limit most
  pub is_full : (length page ≡ most) ⊎ ((length page ≤ most) × (later ≡ []))
