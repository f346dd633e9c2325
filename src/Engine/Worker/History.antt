-- ===== src/Engine/Worker/History.antt =====
-- The histories of a table: jobs are added and workers tick, in any order.
use bpm_new.Common.{
  ℕ, ◌≤◌, Bool, refl, List, [], ◌∷◌, Str, Option, none, some, All, All-append, arith,
}
use bpm_new.Engine.Worker.Defs.{
  Job, attempt_cap, batch_size, start, mark_completed, mark_retry, mark_dead, returned, threw,
  Handler, Registry, lookup,
}
use bpm_new.Engine.Worker.Queue.{
  has_id, is_among, pick, claim, new_job, enqueue, settle_failure, settle, run_with, run_one,
  run_all, tick,
}
use bpm_new.Engine.Worker.Keys.{
  InBudget, HasKey, IsUnused, IsTame, TameHandler, update_where-HasKey, enqueue-HasKey,
  Meanwhile-HasKey,
}
use bpm_new.Engine.Worker.Budget.{tick-InBudget}

module _ {V : Type 0} where
  settle_failure-HasKey :
      (r : Registry V) (now : ℕ) (job : Job V) (message : Str) (jobs : List (Job V))
      → HasKey jobs
      → HasKey (settle_failure r now job message jobs).0
  unfolding settle_failure mark_dead mark_retry
  settle_failure-HasKey r now job message jobs h =
      update_where-HasKey (has_id job.id) _ jobs (λ k. ground arith) h

  run_with-HasKey :
      (r : Registry V) (now : ℕ) (job : Job V) (o : Option (Handler V)) (jobs : List (Job V))
      → TameHandler o
      → HasKey jobs
      → HasKey (run_with r now job o jobs).0
  unfolding run_with mark_dead mark_completed
  run_with-HasKey r now job none jobs tame h =
      update_where-HasKey (has_id job.id) _ jobs (λ k. refl) h
  run_with-HasKey r now job (some handler) jobs tame h =
      let jobs' = (handler job jobs).1 in
      let h' = Meanwhile-HasKey (tame job jobs) h in
      elim (handler job jobs).0 as (λ o. HasKey (settle r now job o jobs').0) [
        | returned v ↦ update_where-HasKey (has_id job.id) _ jobs' (λ k. refl) h'
        | threw message ↦ settle_failure-HasKey r now job message jobs' h'
      ]

  run_one-HasKey :
      (r : Registry V) (now : ℕ) (job : Job V) (jobs : List (Job V))
      → IsTame r
      → HasKey jobs
      → HasKey (run_one r now job jobs).0
  unfolding run_one
  run_one-HasKey r now job jobs tame h =
      run_with-HasKey r now job (lookup job.topic r.handlers) jobs (tame job.topic) h

  run_all-HasKey :
      (r : Registry V) (ends : Job V → ℕ) (claimed jobs : List (Job V))
      → IsTame r
      → HasKey jobs
      → HasKey (run_all r ends claimed jobs).0
  unfolding run_all
  run_all-HasKey r ends [] jobs tame h = h
  run_all-HasKey r ends (job ∷ rest) jobs tame h =
      run_all-HasKey r ends rest (run_one r (ends job) job jobs).0 tame
        (run_one-HasKey r (ends job) job jobs tame h)

  tick-HasKey :
      (r : Registry V) (locked suspended : ℕ → Bool) (worker : Str) (now : ℕ) (ends : Job V → ℕ)
      (jobs : List (Job V))
      → IsTame r
      → HasKey jobs
      → HasKey (tick r locked suspended worker now ends jobs).0
  unfolding tick claim start
  tick-HasKey r locked suspended worker now ends jobs tame h = run_all-HasKey r ends _ _ tame (
      update_where-HasKey (is_among (pick locked suspended now batch_size jobs)) (start now worker)
        jobs (λ k. refl) h)

  -- What happens to a table. A job that is added has a new id and may be tried at least once.
  pub data Step (jobs : List (Job V)) : List (Job V) → Type 0 where
    enqueues :
        (id now tenant : ℕ) (job_type topic : Str) (instance_id token_id : Option ℕ)
        (input : Option V) (max_attempts scheduled_for : Option ℕ)
        → IsUnused id jobs
        → 1
          ≤ (new_job id now tenant job_type topic instance_id token_id input max_attempts
              scheduled_for).max_attempts
        → Step jobs (
            enqueue
              (new_job id now tenant job_type topic instance_id token_id input max_attempts
                scheduled_for)
              jobs)
    ticks :
        (r : Registry V) (locked suspended : ℕ → Bool) (worker : Str) (now : ℕ) (ends : Job V → ℕ)
        → IsTame r
        → Step jobs (tick r locked suspended worker now ends jobs).0

  pub data History : List (Job V) → Type 0 where
    empty : History []
    after : {jobs jobs' : List (Job V)} → History jobs → Step jobs jobs' → History jobs'

  Step-keeps :
      {jobs jobs' : List (Job V)}
      → Step jobs jobs'
      → HasKey jobs
      → All InBudget jobs
      → HasKey jobs' × All InBudget jobs'
  unfolding new_job enqueue attempt_cap
  Step-keeps {jobs} (enqueues id now tenant job_type topic i t input m s new one) key h =
      (enqueue-HasKey _ jobs new key, All-append InBudget jobs _ h (omega arith, tt))
  Step-keeps {jobs} (ticks r locked suspended worker now ends tame) key h = (
    tick-HasKey r locked suspended worker now ends jobs tame key,
    tick-InBudget r locked suspended worker now ends jobs tame key h,
  )

  -- Whatever has happened to a table that was empty, jobs added with new ids and at least one
  -- attempt to make, and ticks of any workers, one after the other, in any order: its ids are a key, no
  -- job has made more attempts than its cap, and each job that waits has one left. While a job runs, its
  -- handler and others may add such jobs and mark jobs dead.
  pub History-InBudget : (jobs : List (Job V)) → History jobs → HasKey jobs × All InBudget jobs
  History-InBudget _ empty = ((λ a b ma mb e. elim ma [ ]), tt)
  History-InBudget jobs (after h s) =
      let (key, budget) = History-InBudget _ h in Step-keeps s key budget
