-- ===== src/EnrichQueue/Sound.antt =====
-- The bound on the attempts of an enrich job.
use open_whisker.Prelude.{
  ◌≡◌, refl, sym, subst, ◌⊎◌, inl, inr, ℕ, suc, ◌≤◌, ◌<◌, ltb, leb, Bool, true, false, ◌&&◌, Option,
  none, some, List, [], ◌∷◌, ◌++◌, All, All-append, Option-cases, arith, if◌then◌else◌,
}
use open_whisker.Prelude.Text.{Str, eqb, is_blank}
use open_whisker.Model.{Time, enrich_attempts_max}
use open_whisker.EnrichQueue.{
  EnrichState, pending, running, done, skipped_conc_edit, failed, attempts_exceeded, EnrichJob,
  is_running, is_exceeded, may_claim, may_retry, set_row, has_row, fresh, enqueued_again,
  enqueue_enrich_job, restarted, reset_enrich_job, next_job, first_of, claimed, claim_row,
  claim_next_enrich_job, finished, finish_enrich_job,
}

-- At most `enrich_attempts_max` attempts, and fewer while the job has another state.
abbrev pub IsSound : EnrichJob → Type 0
IsSound j =
    (j.attempts ≤ enrich_attempts_max)
    × (is_exceeded j.state ≡ false → j.attempts < enrich_attempts_max)

-- `raw_path` is the primary key: the only row with the path of the selected job is that job.
abbrev pub IsRowOf : Option EnrichJob → EnrichJob → Type 0
IsRowOf none k = Unit
IsRowOf (some j) k = eqb k.raw_path j.raw_path ≡ true → k ≡ j

-- A step of the queue: a worker finishes only a job that is running.
pub data Step : List EnrichJob → List EnrichJob → Type 0 where
  enqueues :
      (path parent : Str) (now : Time) {q q' : List EnrichJob}
      → enqueue_enrich_job path parent now q ≡ some q'
      → Step q q'
  resets : (path : Str) (now : Time) {q : List EnrichJob} → Step q (reset_enrich_job path now q)
  claims :
      (earlier : Time → Time → Bool) (now : Time) {q q' : List EnrichJob} {j : EnrichJob}
      → All (IsRowOf (next_job earlier q)) q
      → claim_next_enrich_job earlier now q ≡ some (j, q')
      → Step q q'
  finishes :
      (path : Str) (state : EnrichState) (text : Str) (now : Time) {q : List EnrichJob}
      → All (λ j. eqb j.raw_path path ≡ true → is_running j.state ≡ true) q
      → Step q (finish_enrich_job path state text now q)

module _ (P : EnrichJob → Type 0) where
  choose : (b : Bool) (j k : EnrichJob) → (b ≡ true → P j) → P k → P (if b then j else k)
  choose true j k f p = f refl
  choose false j k f p = p

  set_row-All :
      (path : Str) (f : EnrichJob → EnrichJob) (Q : EnrichJob → Type 0)
      → ((j : EnrichJob) → P j → Q j → eqb j.raw_path path ≡ true → P (f j))
      → (js : List EnrichJob) → All P js
      → All Q js
      → All P (set_row path f js)
  unfolding set_row
  set_row-All path f Q h [] ps qs = tt
  set_row-All path f Q h (j ∷ js) (p, ps) (q, qs) =
      (choose (eqb j.raw_path path) (f j) j (h j p q) p, set_row-All path f Q h js ps qs)

any : (js : List EnrichJob) → All (λ j. Unit {0}) js
any [] = tt
any (j ∷ js) = (tt, any js)

kept :
    (b : Bool) (s : EnrichState) (n : ℕ)
    → (is_exceeded s ≡ false → n < enrich_attempts_max)
    → (b ≡ true → n < enrich_attempts_max)
    → is_exceeded (if b then pending else s) ≡ false
    → n < enrich_attempts_max
kept true s n k t e = t refl
kept false s n k t e = k e

retried : (b : Bool) (n : ℕ) → (b && ltb n enrich_attempts_max) ≡ true → n < enrich_attempts_max
retried b n h = ground arith

enqueued_again-IsSound :
    (parent : Str) (now : Time) (j : EnrichJob) → IsSound j → IsSound (enqueued_again parent now j)
unfolding enqueued_again
enqueued_again-IsSound parent now j (h, k) = (
  h,
  kept (may_retry j.state && ltb j.attempts enrich_attempts_max) j.state j.attempts k
      (retried (may_retry j.state) j.attempts),
)

more :
    (b : Bool) (s : EnrichState) (n : ℕ)
    → leb enrich_attempts_max n ≡ b
    → is_exceeded (if b then attempts_exceeded else s) ≡ false
    → n < enrich_attempts_max
more true s n h e = cc
more false s n h e = ground arith

bumped :
    (s : EnrichState) (n : ℕ)
    → n < enrich_attempts_max
    → (suc n ≤ enrich_attempts_max)
      × (is_exceeded (if leb enrich_attempts_max (suc n) then attempts_exceeded else s) ≡ false
          → suc n < enrich_attempts_max)
bumped s n h = (omega arith, more (leb enrich_attempts_max (suc n)) s (suc n) refl)

runs : (s : EnrichState) → is_running s ≡ true → is_exceeded s ≡ false
runs running h = refl
runs pending h = refl
runs done h = refl
runs skipped_conc_edit h = refl
runs failed h = refl
runs attempts_exceeded h = cc

finished-IsSound :
    (state : EnrichState) (text : Str) (now : Time) (j : EnrichJob)
    → IsSound j
    → is_running j.state ≡ true
    → IsSound (finished state text now j)
unfolding finished
finished-IsSound done text now j (h, k) r = (h, λ e. k (runs j.state r))
finished-IsSound pending text now j (h, k) r = bumped pending j.attempts (k (runs j.state r))
finished-IsSound running text now j (h, k) r = bumped running j.attempts (k (runs j.state r))
finished-IsSound failed text now j (h, k) r = bumped failed j.attempts (k (runs j.state r))
finished-IsSound skipped_conc_edit text now j (h, k) r =
    bumped skipped_conc_edit j.attempts (k (runs j.state r))
finished-IsSound attempts_exceeded text now j (h, k) r =
    bumped attempts_exceeded j.attempts (k (runs j.state r))

append_fresh :
    (path parent : Str) (now : Time) (q : List EnrichJob)
    → All IsSound q
    → All IsSound (q ++ fresh path parent now ∷ [])
append_fresh path parent now q h = All-append IsSound q _ h ((omega arith, λ e. omega arith), tt)

inserted_or_set :
    (b : Bool) (q r : List EnrichJob)
    → All IsSound q
    → All IsSound r
    → All IsSound (if b then q else r)
inserted_or_set true q r h k = h
inserted_or_set false q r h k = k

abbrev IfSome : Option (List EnrichJob) → Type 0
IfSome none = Unit
IfSome (some q) = All IsSound q

if_some :
    (b c : Bool) (q r : List EnrichJob)
    → All IsSound q
    → All IsSound r
    → IfSome (if b then none else if c then some q else some r)
if_some true c q r h k = tt
if_some false true q r h k = h
if_some false false q r h k = k

enqueue_enrich_job-IsSound :
    (path parent : Str) (now : Time) (q : List EnrichJob)
    → All IsSound q
    → IfSome (enqueue_enrich_job path parent now q)
unfolding enqueue_enrich_job
enqueue_enrich_job-IsSound path parent now q s =
    if_some (is_blank path) (has_row path q) _ _
      (set_row-All IsSound path (enqueued_again parent now) (λ j. Unit {0})
        (λ j p u e. enqueued_again-IsSound parent now j p) q s (any q))
      (append_fresh path parent now q s)

first_or_later :
    (earlier : Time → Time → Bool) (j : EnrichJob) (js : List EnrichJob) (r : EnrichJob)
    → next_job earlier (j ∷ js) ≡ some r
    → ((r ≡ j) × ((may_claim j.state && ltb j.attempts enrich_attempts_max) ≡ true))
      ⊎ (next_job earlier js ≡ some r)
unfolding next_job first_of
first_or_later earlier j js r h = elim (Option-cases (next_job earlier js)) [
  | inl e ↦ ground (arith, e)
  | inr (k, e) ↦ ground (arith, e)
]

next_job-left :
    (earlier : Time → Time → Bool) (q : List EnrichJob) (j : EnrichJob)
    → next_job earlier q ≡ some j
    → j.attempts < enrich_attempts_max
unfolding next_job
next_job-left earlier [] j h = cc
next_job-left earlier (k ∷ q) j h = elim (first_or_later earlier k q j h) [
  | inl (e, t) ↦
      subst (λ x. x.attempts < enrich_attempts_max) (sym e)
        (retried (may_claim k.state) k.attempts t)
  | inr e ↦ next_job-left earlier q j e
]

abbrev IfClaimed : Option (EnrichJob × List EnrichJob) → Type 0
IfClaimed none = Unit
IfClaimed (some (j, q)) = All IsSound q

claim_row-IsSound :
    (now : Time) (q : List EnrichJob) (o : Option EnrichJob)
    → ((j : EnrichJob) → o ≡ some j → j.attempts < enrich_attempts_max)
    → All (IsRowOf o) q
    → All IsSound q
    → IfClaimed (claim_row now q o)
unfolding claim_row claimed
claim_row-IsSound now q none f keys s = tt
claim_row-IsSound now q (some j) f keys s =
    set_row-All IsSound j.raw_path (claimed now) (IsRowOf (some j))
      (λ k p is e.
        (p.0, λ t. subst (λ x. x.attempts < enrich_attempts_max) (sym (is e)) (f j refl)))
      q s keys

reset_enrich_job-IsSound :
    (path : Str) (now : Time) (q : List EnrichJob)
    → All IsSound q
    → All IsSound (reset_enrich_job path now q)
unfolding reset_enrich_job restarted
reset_enrich_job-IsSound path now q s =
    inserted_or_set (has_row path q) _ _
      (set_row-All IsSound path (restarted now) (λ j. Unit {0})
        (λ j p u e. (omega arith, λ e. omega arith)) q s (any q))
      (append_fresh path [] now q s)

-- Whatever the order of enqueuing, resetting, claiming and finishing: if every job of the queue has at
-- most `EnrichAttemptsMax` attempts, and fewer unless it is exhausted, so has every job after the step.
-- A finished job is one that is running, and the path is a key.
pub Step-IsSound : {q q' : List EnrichJob} → Step q q' → All IsSound q → All IsSound q'
unfolding claim_next_enrich_job finish_enrich_job
Step-IsSound {q = q} (Step.enqueues path parent now h) s =
    subst IfSome h (enqueue_enrich_job-IsSound path parent now q s)
Step-IsSound {q = q} (Step.resets path now) s = reset_enrich_job-IsSound path now q s
Step-IsSound {q = q} (Step.claims earlier now keys h) s =
    subst IfClaimed h
      (claim_row-IsSound now q (next_job earlier q) (next_job-left earlier q) keys s)
Step-IsSound {q = q} (Step.finishes path state text now runs_now) s =
    set_row-All IsSound path (finished state text now)
      (λ j. eqb j.raw_path path ≡ true → is_running j.state ≡ true)
      (λ j p r e. finished-IsSound state text now j p (r e)) q s runs_now
