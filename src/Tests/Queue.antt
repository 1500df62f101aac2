-- ===== src/Tests/Queue.antt =====
-- The queue of enrich jobs.
use open_whisker.Prelude.{refl, [], ◌∷◌, All, arith}
use open_whisker.Prelude.Text.{codes}
use open_whisker.EnrichQueue.{EnrichJob, running, failed, finish_enrich_job}
use open_whisker.EnrichQueue.Sound.{IsSound, finishes, Step-IsSound}

-- a job in its fifth and last attempt
abbrev last_attempt : EnrichJob
last_attempt = record {
  raw_path = codes "Raw/Inbox/a.md";
  parent_job_id = [];
  state = running;
  attempts = 4;
  last_error = [];
  enqueued_at = 0;
  updated_at = 0;
}

Step-IsSound_example :
    All IsSound
      (finish_enrich_job (codes "Raw/Inbox/a.md") failed (codes "timeout") 1 (last_attempt ∷ []))
Step-IsSound_example =
    Step-IsSound (finishes (codes "Raw/Inbox/a.md") failed (codes "timeout") 1 ((λ e. refl), tt))
      ((omega arith, λ e. omega arith), tt)
