-- ===== src/EnrichQueue.antt =====
-- internal/storage/store.go: the table of enrich jobs, a list of its rows in the order in which they
-- were inserted. `ORDER BY enqueued_at` compares the texts of the times: `earlier` is that comparison.
-- A blank path and an empty queue are `none`.
pub mod Sound
use open_whisker.Prelude.{
  ℕ, suc, ◌+◌, ltb, leb, Bool, true, false, ◌&&◌, ◌||◌, Option, none, some, List, [], ◌∷◌, ◌++◌,
  if◌then◌else◌,
}
use open_whisker.Prelude.Text.{Str, eqb, is_empty, is_blank}
use open_whisker.Model.{Time, enrich_attempts_max}

pub data EnrichState : Type 0 where
  pending running done skipped_conc_edit failed attempts_exceeded : EnrichState

pub record EnrichJob : Type 0 where
  pub raw_path : Str
  pub parent_job_id : Str
  pub state : EnrichState
  pub attempts : ℕ
  pub last_error : Str
  pub enqueued_at : Time
  pub updated_at : Time

abbrev pub is_running : EnrichState → Bool
is_running running = true
is_running _ = false

abbrev pub is_exceeded : EnrichState → Bool
is_exceeded attempts_exceeded = true
is_exceeded _ = false

-- `state IN ('failed', 'skipped_concurrent_edit')`
abbrev pub may_retry : EnrichState → Bool
may_retry failed = true
may_retry skipped_conc_edit = true
may_retry _ = false

-- `state IN ('pending', 'skipped_concurrent_edit')`
abbrev pub may_claim : EnrichState → Bool
may_claim pending = true
may_claim skipped_conc_edit = true
may_claim _ = false

-- `UPDATE enrich_jobs SET … WHERE raw_path = ?`
unfoldable pub set_row : Str → (EnrichJob → EnrichJob) → List EnrichJob → List EnrichJob
set_row path f [] = []
set_row path f (j ∷ js) = (if eqb j.raw_path path then f j else j) ∷ set_row path f js

unfoldable pub has_row : Str → List EnrichJob → Bool
has_row path [] = false
has_row path (j ∷ js) = eqb j.raw_path path || has_row path js

abbrev pub fresh : Str → Str → Time → EnrichJob
fresh path parent now = record {
  raw_path = path;
  parent_job_id = parent;
  state = pending;
  attempts = 0;
  last_error = [];
  enqueued_at = now;
  updated_at = now;
}

-- the `DO UPDATE` of `EnqueueEnrichJob`
unfoldable pub enqueued_again : Str → Time → EnrichJob → EnrichJob
enqueued_again parent now j =
    let again = may_retry j.state && ltb j.attempts enrich_attempts_max in
    record j {
      state = if again then pending else j.state;
      parent_job_id = if is_empty parent then j.parent_job_id else parent;
      enqueued_at = if again then now else j.enqueued_at;
      updated_at = now;
    }

-- EnqueueEnrichJob
unfoldable pub enqueue_enrich_job : Str → Str → Time → List EnrichJob → Option (List EnrichJob)
enqueue_enrich_job path parent now q =
    if is_blank path
    then none
    else if has_row path q
    then some (set_row path (enqueued_again parent now) q)
    else some (q ++ fresh path parent now ∷ [])

unfoldable pub restarted : Time → EnrichJob → EnrichJob
restarted now j = record j {
  state = pending;
  attempts = 0;
  last_error = [];
  enqueued_at = now;
  updated_at = now;
}

-- ResetEnrichJob
unfoldable pub reset_enrich_job : Str → Time → List EnrichJob → List EnrichJob
reset_enrich_job path now q =
    if has_row path q then set_row path (restarted now) q else q ++ fresh path [] now ∷ []

unfoldable pub first_of : (Time → Time → Bool) → EnrichJob → Option EnrichJob → Option EnrichJob
first_of earlier j none = some j
first_of earlier j (some k) = if earlier k.enqueued_at j.enqueued_at then some k else some j

-- the `SELECT` of `ClaimNextEnrichJob`
unfoldable pub next_job : (Time → Time → Bool) → List EnrichJob → Option EnrichJob
next_job earlier [] = none
next_job earlier (j ∷ js) =
    let rest = next_job earlier js in
    if may_claim j.state && ltb j.attempts enrich_attempts_max
    then first_of earlier j rest
    else rest

unfoldable pub claimed : Time → EnrichJob → EnrichJob
claimed now j = record j { state = running; updated_at = now }

unfoldable pub claim_row :
    Time → List EnrichJob → Option EnrichJob → Option (EnrichJob × List EnrichJob)
claim_row now q none = none
claim_row now q (some j) = some (claimed now j, set_row j.raw_path (claimed now) q)

-- ClaimNextEnrichJob
unfoldable pub claim_next_enrich_job :
    (Time → Time → Bool) → Time → List EnrichJob → Option (EnrichJob × List EnrichJob)
claim_next_enrich_job earlier now q = claim_row now q (next_job earlier q)

unfoldable pub finished : EnrichState → Str → Time → EnrichJob → EnrichJob
finished done err_text now j = record j { state = done; last_error = []; updated_at = now }
finished state err_text now j = record j {
  attempts = suc j.attempts;
  state = if leb enrich_attempts_max (suc j.attempts) then attempts_exceeded else state;
  last_error = err_text;
  updated_at = now;
}

-- FinishEnrichJob
unfoldable pub finish_enrich_job : Str → EnrichState → Str → Time → List EnrichJob → List EnrichJob
finish_enrich_job path state err_text now q = set_row path (finished state err_text now) q
