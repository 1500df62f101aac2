-- ===== src/Storage/Lists.antt =====
-- internal/storage/store.go: the queries that give a list of rows, ListPendingOutbox and
-- ListRecentJobs, the latest finished capture, and MarkOutboxDelivered. `ORDER BY created_at` compares
-- the texts of the times: `earlier` is that comparison. A limit of 0 stands for those below 1.
use open_whisker.Prelude.{
  ℕ, ◌==◌, Bool, true, false, ◌&&◌, Option, none, some, List, [], ◌∷◌, take, ok, if◌then◌else◌,
}
use open_whisker.Prelude.Text.{Str, eqb}
use open_whisker.Model.{
  Time, WikiJob, JobType, ingest_raw, JobStatus, job_done, OutboxMessage, OutboxStatus, pending,
  delivered,
}
use open_whisker.Exec.{Exec}
use open_whisker.Storage.{World, StoreError, call, one_row}

abbrev pub is_pending : OutboxMessage → Bool
is_pending m = test m.status
  where
    test : OutboxStatus → Bool
    test pending = true
    test delivered = false

abbrev is_ingest : JobType → Bool
is_ingest ingest_raw = true
is_ingest _ = false

abbrev is_done : JobStatus → Bool
is_done job_done = true
is_done _ = false

-- `WHERE`
unfoldable pub where_test : {A : Type 0} → (A → Bool) → List A → List A
where_test f [] = []
where_test f (x ∷ xs) = let rest = where_test f xs in if f x then x ∷ rest else rest

module _ {A : Type 0} (before : A → A → Bool) where
  -- `ORDER BY`
  unfoldable pub put_in_order : A → List A → List A
  put_in_order m [] = m ∷ []
  put_in_order m (x ∷ xs) = if before x m then x ∷ put_in_order m xs else m ∷ x ∷ xs

  unfoldable pub order_by : List A → List A
  order_by [] = []
  order_by (x ∷ xs) = put_in_order x (order_by xs)

-- `UPDATE outbox_messages SET status = ? WHERE id = ?`
unfoldable pub set_delivered : Str → List OutboxMessage → List OutboxMessage
set_delivered id [] = []
set_delivered id (m ∷ ms) =
    (if eqb m.id id then record m { status = delivered } else m) ∷ set_delivered id ms

abbrev pub limit_or : ℕ → ℕ → ℕ
limit_or default limit = if limit == 0 then default else limit

module _ (earlier : Time → Time → Bool) where
  abbrev pub older_message : OutboxMessage → OutboxMessage → Bool
  older_message a b = earlier a.created_at b.created_at

  abbrev pub newer_job : WikiJob → WikiJob → Bool
  newer_job a b = earlier b.created_at a.created_at

  -- the messages that ListPendingOutbox gives
  unfoldable pub pending_messages : ℕ → List OutboxMessage → List OutboxMessage
  pending_messages limit ms =
      take (limit_or 20 limit) (order_by older_message (where_test is_pending ms))

  -- the jobs that ListRecentJobs gives
  unfoldable pub recent_jobs : ℕ → List WikiJob → List WikiJob
  recent_jobs limit js = take (limit_or 10 limit) (order_by newer_job js)

  abbrev pub first_of : List WikiJob → Option WikiJob
  first_of [] = none
  first_of (j ∷ js) = some j

  abbrev pub is_done_ingest : WikiJob → Bool
  is_done_ingest j = is_ingest j.job_type && is_done j.status

  module _ {V : Type 0} where
    -- ListPendingOutbox
    unfoldable pub list_pending_outbox : ℕ → Exec (World V) StoreError (List OutboxMessage)
    list_pending_outbox limit = call λ w. (ok (pending_messages limit w.outbox), w)

    -- ListRecentJobs
    unfoldable pub list_recent_jobs : ℕ → Exec (World V) StoreError (List WikiJob)
    list_recent_jobs limit = call λ w. (ok (recent_jobs limit w.jobs), w)

    -- LatestDoneIngestRawJob
    unfoldable pub latest_done_ingest_raw_job : Exec (World V) StoreError WikiJob
    latest_done_ingest_raw_job =
        call λ w. (one_row (first_of (order_by newer_job (where_test is_done_ingest w.jobs))), w)

    -- LatestDoneIngestRawJobBySourceKey
    unfoldable pub latest_done_ingest_raw_job_by_source_key :
        Str → Exec (World V) StoreError WikiJob
    latest_done_ingest_raw_job_by_source_key key = call λ w. (
      one_row (
          first_of (
            order_by newer_job
              (where_test (λ j. is_done_ingest j && eqb j.source_key key) w.jobs))),
      w,
    )

-- MarkOutboxDelivered
unfoldable pub mark_outbox_delivered : {V : Type 0} → Str → Exec (World V) StoreError Unit
mark_outbox_delivered id = call λ w. (ok tt, record w { outbox = set_delivered id w.outbox })
