-- ===== src/Executor/Locks.antt =====
-- internal/storage/store.go: AcquireLocks and ReleaseLocks. A transaction that fails leaves the table
-- as it was. The times are compared as texts.
use open_whisker.Prelude.{
  ◌+◌, ◌*◌, ◌==◌, Bool, false, ◌||◌, not, List, [], ◌∷◌, ◌++◌, ok, err, Result, if◌then◌else◌,
}
use open_whisker.Prelude.Text.{Str, codes, eqb, is_empty}
use open_whisker.Prelude.Text.Pieces.{text_ltb}
use open_whisker.Model.{Time}
use open_whisker.Exec.{◌>>=◌, ◌>>◌, pure, gets, modify, lift}
use open_whisker.Executor.Errors.{ExecutorError, other_error, prefixed}
use open_whisker.Executor.Disk.{Lock, Os, Act, call, returned}

-- DefaultLockTTL in nanoseconds
abbrev pub default_lock_ttl : Time
default_lock_ttl = 30 * 60 * 1000000000

-- `expires_at = '' OR expires_at <= now`
abbrev pub is_stale : Str → Lock → Bool
is_stale now l = is_empty l.expires_at || not (text_ltb now l.expires_at)

-- the rows that `DELETE … WHERE` leaves
unfoldable pub reap : Str → List Lock → List Lock
reap now [] = []
reap now (l ∷ ls) = let rest = reap now ls in if is_stale now l then rest else l ∷ rest

unfoldable pub is_locked : Str → List Lock → Bool
is_locked path [] = false
is_locked path (l ∷ ls) = eqb l.target_path path || is_locked path ls

-- the rows that `DELETE … WHERE plan_id = ?` leaves
unfoldable pub unlocked : Str → List Lock → List Lock
unlocked plan_id [] = []
unlocked plan_id (l ∷ ls) =
    let rest = unlocked plan_id ls in if eqb l.plan_id plan_id then rest else l ∷ rest

-- an INSERT; the path is the primary key
unfoldable pub insert_lock : Lock → List Lock → Result ExecutorError (List Lock)
insert_lock l ls =
    if is_locked l.target_path ls
    then err (other_error (codes "UNIQUE constraint failed"))
    else ok (ls ++ l ∷ [])

unfoldable pub lock_of : Str → Str → Str → Str → Lock
lock_of path plan_id now expires = record {
  target_path = path;
  plan_id = plan_id;
  acquired_at = now;
  expires_at = expires;
}

unfoldable pub try_insert : Lock → List Lock → Act (List Lock)
try_insert l ls = call >> returned (λ e. e) (insert_lock l ls)

-- the loop of inserts, on the rows that the transaction sees
unfoldable pub insert_locks : List Str → Str → Str → Str → List Lock → Act (List Lock)
insert_locks [] plan_id now expires ls = pure ls
insert_locks (path ∷ paths) plan_id now expires ls = do
  next ←
      lift (prefixed (codes "acquire lock for " ++ path ++ codes ": "))
        (try_insert (lock_of path plan_id now expires) ls)
  insert_locks paths plan_id now expires next

module _ (os : Os) where
  -- the lifetime of a lock: that of the store, or the default one
  unfoldable pub lock_lifetime : Time
  lock_lifetime = if os.lock_ttl == 0 then default_lock_ttl else os.lock_ttl

  -- AcquireLocks
  unfoldable pub acquire_locks : List Str → Str → Time → Act Unit
  acquire_locks paths plan_id acquired_at = do
    let now = os.format_time acquired_at
    call
    lift (prefixed (codes "reap stale vault locks: ")) call
    old ← gets (λ d. reap now d.locks)
    rows ← insert_locks paths plan_id now (os.format_time (acquired_at + lock_lifetime)) old
    call
    modify (λ d. record d { locks = rows })

  -- ReleaseLocks
  unfoldable pub release_locks : Str → Act Unit
  release_locks plan_id = do call; modify (λ d. record d { locks = unlocked plan_id d.locks })
