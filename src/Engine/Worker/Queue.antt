-- ===== src/Engine/Worker/Queue.antt =====
-- The operations of WorkerService on the table.
use bpm_new.Common.{
  ℕ, ◌+◌, ◌-◌, Bool, false, ◌&&◌, ◌||◌, not, Option, none, some, List, [], ◌∷◌, ◌++◌, map, Str,
  codes, ◌==◌, ltb, leb, if◌then◌else◌, length, take, keep, any,
}
use bpm_new.Engine.Worker.Defs.{
  queued, Job, is_queued, is_dead, batch_size, backoff_delay, attempt_cap, start, mark_completed,
  mark_retry, mark_dead, requeue, release, is_stale, Outcome, returned, threw, Registry, lookup,
  includes, Handler,
}

-- A call of a hook that the topic's owner registered.
pub data HookCall : Type 0 where
  on_dead : ℕ → Str → HookCall
  on_attempt_failed : ℕ → Str → Bool → Option ℕ → HookCall

-- NOT EXISTS (… "STATUS" = 'suspended')
abbrev pub is_held : (ℕ → Bool) → Option ℕ → Bool
is_held suspended none = false
is_held suspended (some i) = suspended i

abbrev or_else : Option ℕ → ℕ → ℕ
or_else none d = d
or_else (some n) d = n

-- The error for a topic with no handler.
no_handler : Str → Str
no_handler topic =
    codes "No worker handler registered for topic " ++ b'"' ∷ topic ++ b'"' ∷ b'.' ∷ []

module _ {V : Type 0} where
  -- UPDATE … WHERE: every row of which the test holds.
  abbrev pub update_where : (Job V → Bool) → (Job V → Job V) → List (Job V) → List (Job V)
  update_where p f [] = []
  update_where p f (j ∷ js) = (if p j then f j else j) ∷ update_where p f js

  abbrev pub has_id : ℕ → Job V → Bool
  has_id k j = j.id == k

  -- The WHERE clause of the claiming query. `locked` are the rows that other transactions hold,
  -- which SKIP LOCKED passes over; `suspended` are the suspended process instances.
  unfoldable pub is_claimable : (ℕ → Bool) → (ℕ → Bool) → ℕ → Job V → Bool
  is_claimable locked suspended now j =
      is_queued j.status
      && leb j.scheduled_for now
      && not (is_held suspended j.instance_id)
      && not (locked j.id)

  -- ORDER BY "SCHEDULED_FOR" ASC, "CREATED_AT" ASC
  unfoldable pub comes_before : Job V → Job V → Bool
  comes_before a b =
      ltb a.scheduled_for b.scheduled_for
      || a.scheduled_for == b.scheduled_for && leb a.created_at b.created_at

  unfoldable pub insert_ordered : Job V → List (Job V) → List (Job V)
  insert_ordered a [] = a ∷ []
  insert_ordered a (b ∷ l) = if comes_before a b then a ∷ b ∷ l else b ∷ insert_ordered a l

  unfoldable pub order_by : List (Job V) → List (Job V)
  unfolding insert_ordered
  order_by [] = []
  order_by (a ∷ l) = insert_ordered a (order_by l)

  -- The CTE `claimed`.
  unfoldable pub pick : (ℕ → Bool) → (ℕ → Bool) → ℕ → ℕ → List (Job V) → List (Job V)
  pick locked suspended now batch jobs =
      take batch (order_by (keep (is_claimable locked suspended now) jobs))

  abbrev pub is_among : List (Job V) → Job V → Bool
  is_among picked j = any (λ p. p.id == j.id) picked

  -- `claim`: the new table, and the rows as RETURNING gives them. SQL leaves their order open; here
  -- it is that of the CTE.
  unfoldable pub claim :
      (ℕ → Bool) → (ℕ → Bool) → Str → ℕ → ℕ → List (Job V) → List (Job V) × List (Job V)
  claim locked suspended worker now batch jobs =
      let picked = pick locked suspended now batch jobs in
      (update_where (is_among picked) (start now worker) jobs, map (start now worker) picked)

  -- `enqueue`: the row that is inserted. `max_attempts` and `scheduled_for` have defaults.
  unfoldable pub new_job :
      ℕ → ℕ → ℕ → Str → Str → Option ℕ → Option ℕ → Option V → Option ℕ → Option ℕ → Job V
  new_job id now tenant job_type topic instance_id token_id input max_attempts scheduled_for =
      record {
        id = id;
        tenant_id = tenant;
        instance_id = instance_id;
        token_id = token_id;
        job_type = job_type;
        topic = topic;
        status = queued;
        input = input;
        result = none;
        attempts = 0;
        max_attempts = or_else max_attempts 3;
        scheduled_for = or_else scheduled_for now;
        created_at = now;
        locked_at = none;
        locked_by = none;
        last_error = none;
      }

  unfoldable pub enqueue : Job V → List (Job V) → List (Job V)
  enqueue j jobs = jobs ++ j ∷ []

  -- The `catch` block of `runOne`, at the time `now`.
  unfoldable pub settle_failure :
      Registry V → ℕ → Job V → Str → List (Job V) → List (Job V) × List HookCall
  settle_failure r now job message jobs =
      let final = leb (attempt_cap job.max_attempts) job.attempts in
      let next_attempt_at = now + backoff_delay job.attempts in
      (
        update_where (has_id job.id)
            (if final then mark_dead message else mark_retry message next_attempt_at) jobs,
        (if final && includes job.topic r.on_dead then on_dead job.id message ∷ [] else [])
            ++ (if includes job.topic r.on_attempt_failed
                then on_attempt_failed job.id message (not final)
                    (if final then none else some next_attempt_at)
                  ∷ []
                else []),
      )

  abbrev pub settle :
      Registry V → ℕ → Job V → Outcome V → List (Job V) → List (Job V) × List HookCall
  settle r now job (returned v) jobs = (update_where (has_id job.id) (mark_completed v) jobs, [])
  settle r now job (threw message) jobs = settle_failure r now job message jobs

  unfoldable pub run_with :
      Registry V → ℕ → Job V → Option (Handler V) → List (Job V) → List (Job V) × List HookCall
  unfolding no_handler
  run_with r now job none jobs =
      (update_where (has_id job.id) (mark_dead (no_handler job.topic)) jobs, [])
  run_with r now job (some handler) jobs =
      settle r now job (handler job jobs).0 (handler job jobs).1

  unfoldable pub run_one : Registry V → ℕ → Job V → List (Job V) → List (Job V) × List HookCall
  unfolding run_with
  run_one r now job jobs = run_with r now job (lookup job.topic r.handlers) jobs

  -- The loop of `tick`; `ends` gives the time at which the run of a job is over.
  unfoldable pub run_all :
      Registry V → (Job V → ℕ) → List (Job V) → List (Job V) → List (Job V) × List HookCall
  run_all r ends [] jobs = (jobs, [])
  run_all r ends (job ∷ rest) jobs =
      let (jobs', calls) = run_one r (ends job) job jobs in
      let (jobs'', more) = run_all r ends rest jobs' in (jobs'', calls ++ more)

  unfoldable pub tick :
      Registry V
      → (ℕ → Bool)
      → (ℕ → Bool)
      → Str
      → ℕ
      → (Job V → ℕ)
      → List (Job V)
      → List (Job V) × List HookCall
  tick r locked suspended worker now ends jobs =
      let (jobs', claimed) = claim locked suspended worker now batch_size jobs in
      run_all r ends claimed jobs'

  -- `retryDead`
  abbrev pub is_retryable : ℕ → ℕ → Job V → Bool
  is_retryable job tenant j = j.id == job && j.tenant_id == tenant && is_dead j.status

  unfoldable pub retry_dead : ℕ → ℕ → ℕ → List (Job V) → List (Job V) × Bool
  retry_dead now job tenant jobs = (
    update_where (is_retryable job tenant) (requeue now) jobs,
    any (is_retryable job tenant) jobs,
  )

  -- `reclaimStaleJobs`
  unfoldable pub reclaim_stale_jobs : ℕ → ℕ → List (Job V) → List (Job V) × ℕ
  reclaim_stale_jobs now max_running_age jobs =
      let cutoff = now - max_running_age in
      (update_where (is_stale cutoff) (release now) jobs, length (keep (is_stale cutoff) jobs))
