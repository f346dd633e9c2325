-- ===== src/Engine/Worker/Retry.antt =====
-- Failures over time: retries, dead jobs, crashed workers, and the registry of handlers.
use bpm_new.Common.{
  ℕ, zero, suc, ◌+◌, ◌-◌, ◌≤◌, ◌<◌, Bool, true, false, ◌≡◌, ◌≢◌, refl, ap, ◌∙◌, List, [], ◌∷◌, Str,
  none, some, inl, inr, All, Bool-cases, length, arith, leb, if◌then◌else◌, ==_refl, ◌==◌, str_eq,
  str_eq_refl, is_some, subst,
}
use bpm_new.Engine.Worker.Defs.{
  Job, queued, dead, batch_size, attempt_cap, backoff_delay, start, mark_retry, mark_dead, release,
  is_stale, Handler, threw, Registry, lookup, register_handler,
}
use bpm_new.Engine.Worker.Queue.{
  is_claimable, order_by, pick, claim, settle_failure, run_one, run_all, tick, retry_dead,
  reclaim_stale_jobs,
}

-- Of the five entries of BACKOFF_MS the last, half an hour, is never waited for.
backoff_delay-le_five_minutes :
    (attempts max_attempts : ℕ)
    → attempts < attempt_cap max_attempts
    → backoff_delay attempts ≤ 300000
unfolding backoff_delay attempt_cap
backoff_delay-le_five_minutes zero max_attempts h = omega arith
backoff_delay-le_five_minutes (suc zero) max_attempts h = omega arith
backoff_delay-le_five_minutes (suc (suc zero)) max_attempts h = omega arith
backoff_delay-le_five_minutes (suc (suc (suc zero))) max_attempts h = omega arith
backoff_delay-le_five_minutes (suc (suc (suc (suc zero)))) max_attempts h = omega arith
backoff_delay-le_five_minutes (suc (suc (suc (suc (suc n))))) max_attempts h = absurd (omega arith)

-- What a failure leaves of the job that failed: it is dead if it has made its attempts, and otherwise
-- queued for a time from five seconds to five minutes later.
abbrev pub IsSettled : {V : Type 0} → ℕ → Job V → Job V → Type 0
IsSettled now job j =
    j.id ≡ job.id
    → (attempt_cap job.max_attempts ≤ job.attempts → j.status ≡ dead)
      × (job.attempts < attempt_cap job.max_attempts
          → (j.status ≡ queued) × (now + 5000 ≤ j.scheduled_for) × (j.scheduled_for ≤ now + 300000))

five_seconds-le-backoff_delay :
    (attempts max_attempts : ℕ)
    → attempts < attempt_cap max_attempts
    → 5000 ≤ backoff_delay attempts
unfolding backoff_delay attempt_cap
five_seconds-le-backoff_delay zero max_attempts h = omega arith
five_seconds-le-backoff_delay (suc zero) max_attempts h = omega arith
five_seconds-le-backoff_delay (suc (suc zero)) max_attempts h = omega arith
five_seconds-le-backoff_delay (suc (suc (suc zero))) max_attempts h = omega arith
five_seconds-le-backoff_delay (suc (suc (suc (suc zero)))) max_attempts h = omega arith
five_seconds-le-backoff_delay (suc (suc (suc (suc (suc n))))) max_attempts h = absurd (omega arith)

failed-IsSettled :
    {V : Type 0} (now : ℕ) (job j : Job V) (message : Str)
    → IsSettled now job (
        (if leb (attempt_cap job.max_attempts) job.attempts
            then mark_dead message
            else mark_retry message (now + backoff_delay job.attempts))
          j)
unfolding mark_dead mark_retry
failed-IsSettled now job j message =
    elim (Bool-cases (leb (attempt_cap job.max_attempts) job.attempts)) [
      | inl e ↦ rw e (λ _. ((λ _. refl), (λ h. absurd (ground arith))))
      | inr e ↦ rw e (λ _. (
        (λ h. absurd (ground arith)),
        (λ h. (
          refl,
          omega (arith, five_seconds-le-backoff_delay job.attempts job.max_attempts h),
          omega (arith, backoff_delay-le_five_minutes job.attempts job.max_attempts h),
        )),
      ))
    ]

-- After a job failed in a run that ended at `now`, every row with its id is dead, if the attempts of the
-- claimed job have reached `min(maxAttempts, 5)`, and otherwise is queued for a time between five
-- seconds and five minutes after `now`: half an hour, the last entry of BACKOFF_MS, is never waited for.
pub settle_failure-IsSettled :
    {V : Type 0} (r : Registry V) (now : ℕ) (job : Job V) (message : Str) (jobs : List (Job V))
    → All (IsSettled now job) (settle_failure r now job message jobs).0
unfolding settle_failure
settle_failure-IsSettled r now job message [] = tt
settle_failure-IsSettled r now job message (j ∷ jobs) =
    let rest = settle_failure-IsSettled r now job message jobs in
    elim (Bool-cases (j.id == job.id)) [
      | inl e ↦ rw e (failed-IsSettled now job j message, rest)
      | inr e ↦ rw e ((λ same. absurd (ground arith)), rest)
    ]

-- A tick, with what it finds locked and suspended, and when its runs end.
pub record Pass (V : Type 0) : Type 0 where
  pub locked : ℕ → Bool
  pub suspended : ℕ → Bool
  pub worker : Str
  pub now : ℕ
  pub ends : Job V → ℕ

module _ {V : Type 0} where
  -- What a failed run leaves of a row that was claimed at `now` and whose run ended at `end`.
  abbrev after_failure : ℕ → ℕ → Str → Str → Job V → Job V
  after_failure now end worker message j =
      (if leb (attempt_cap j.max_attempts) (j.attempts + 1)
          then mark_dead message
          else mark_retry message (end + backoff_delay (j.attempts + 1)))
        (start now worker j)

  claim_one :
      (locked suspended : ℕ → Bool) (worker : Str) (now : ℕ) (j : Job V)
      → is_claimable locked suspended now j ≡ true
      → claim locked suspended worker now batch_size (j ∷ [])
        ≡ (start now worker j ∷ [], start now worker j ∷ [])
  unfolding claim pick order_by
  claim_one locked suspended worker now j e = rw e (rw (==_refl j.id))

  fail_one :
      (r : Registry V) (now : ℕ) (job : Job V) (message : Str)
      → lookup job.topic r.handlers ≡ some (λ _ rows. (threw message, rows))
      → (run_one r now job (job ∷ [])).0
        ≡ (if leb (attempt_cap job.max_attempts) job.attempts
              then mark_dead message
              else mark_retry message (now + backoff_delay job.attempts))
            job
          ∷ []
  unfolding run_one settle_failure
  fail_one r now job message e = rw e (rw (==_refl job.id))

  -- A tick on the table of one claimable job whose handler throws.
  tick_failing :
      (r : Registry V) (locked suspended : ℕ → Bool) (worker message : Str) (now : ℕ)
      (ends : Job V → ℕ) (j : Job V)
      → lookup j.topic r.handlers ≡ some (λ _ rows. (threw message, rows))
      → is_claimable locked suspended now j ≡ true
      → (tick r locked suspended worker now ends (j ∷ [])).0
        ≡ after_failure now (ends (start now worker j)) worker message j ∷ []
  unfolding tick run_all start
  tick_failing r locked suspended worker message now ends j e c =
      rw (claim_one locked suspended worker now j c)
        (fail_one r (ends (start now worker j)) (start now worker j) message e)

  abbrev pub run_pass : Registry V → Pass V → List (Job V) → List (Job V)
  run_pass r p jobs = (tick r p.locked p.suspended p.worker p.now p.ends jobs).0

  abbrev pub run_passes : Registry V → List (Pass V) → List (Job V) → List (Job V)
  run_passes r [] jobs = jobs
  run_passes r (p ∷ ps) jobs = run_passes r ps (run_pass r p jobs)

  -- Every pass finds the first row claimable.
  abbrev pub ClaimsEach : Registry V → List (Pass V) → List (Job V) → Type 0
  ClaimsEach r [] jobs = Unit
  ClaimsEach r (p ∷ ps) [] = ⊥
  ClaimsEach r (p ∷ ps) (j ∷ jobs) =
      (is_claimable p.locked p.suspended p.now j ≡ true) × ClaimsEach r ps (run_pass r p (j ∷ jobs))

  retried :
      (now end : ℕ) (worker message : Str) (j : Job V)
      → j.attempts + 1 < attempt_cap j.max_attempts
      → after_failure now end worker message j
        ≡ mark_retry message (end + backoff_delay (j.attempts + 1)) (start now worker j)
  retried now end worker message j h = ground arith

  died :
      (now end : ℕ) (worker message : Str) (j : Job V)
      → attempt_cap j.max_attempts ≤ j.attempts + 1
      → after_failure now end worker message j ≡ mark_dead message (start now worker j)
  died now end worker message j h = ground arith

  -- A job alone in its table, whose handler throws each time and leaves the table alone, and which
  -- every pass finds claimable, is dead once it has made as many attempts as `min(maxAttempts, 5)`: a
  -- pass for each attempt that was left, one at least, makes it so, and it keeps its id.
  pub failing_job_dies :
      (r : Registry V) (message : Str) (ps : List (Pass V)) (j : Job V)
      → lookup j.topic r.handlers ≡ some (λ _ rows. (threw message, rows))
      → ClaimsEach r ps (j ∷ [])
      → 0 < length ps
      → j.attempts + length ps ≡ attempt_cap j.max_attempts
      → (k : Job V) × (run_passes r ps (j ∷ []) ≡ k ∷ [])
        × (k.id ≡ j.id)
        × (k.status ≡ dead)
        × (k.attempts ≡ attempt_cap j.max_attempts)
  unfolding mark_dead mark_retry start
  failing_job_dies r message [] j e c n h = absurd (omega arith)
  failing_job_dies r message (p ∷ []) j e c n h =
      let last = start p.now p.worker j in
      (
        mark_dead message last,
        tick_failing r p.locked p.suspended p.worker message p.now p.ends j e c.0
            ∙ ap (λ (k : Job V). k ∷ [])
                (died p.now (p.ends last) p.worker message j (omega arith)),
        refl,
        refl,
        omega arith,
      )
  failing_job_dies r message (p ∷ q ∷ ps) j e c n h =
      let first = start p.now p.worker j in
      let step =
        tick_failing r p.locked p.suspended p.worker message p.now p.ends j e c.0
        ∙ ap (λ (k : Job V). k ∷ [])
            (retried p.now (p.ends first) p.worker message j (omega arith)) in
      rw step (
        failing_job_dies r message (q ∷ ps)
          (mark_retry message (p.ends first + backoff_delay (j.attempts + 1)) first) e
          (subst (ClaimsEach r (q ∷ ps)) step c.1) (omega arith) (omega arith))

  -- A worker that crashes: the job is claimed, nothing settles it, and the cleanup releases it.
  abbrev pub crash : Str → ℕ → ℕ → List (Job V) → List (Job V)
  crash worker now age jobs =
      let (jobs', _) = claim (λ _. false) (λ _. false) worker now batch_size jobs in
      (reclaim_stale_jobs (now + age) age jobs').0

  abbrev pub crashes : Str → ℕ → ℕ → ℕ → List (Job V) → List (Job V)
  crashes worker now age zero jobs = jobs
  crashes worker now age (suc n) jobs = crashes worker (now + age) age n (crash worker now age jobs)

  -- A job alone in its table, queued, due and of no instance, whose worker crashes each time is
  -- never dead, however small its `maxAttempts`: after any number of claims that the cleanup
  -- released it is queued once more, with that many attempts more.
  pub crashing_job_never_dies :
      (worker : Str) (now age n : ℕ) (j : Job V)
      → j.status ≡ queued
      → j.scheduled_for ≤ now
      → j.instance_id ≡ none
      → (k : Job V) × (crashes worker now age n (j ∷ []) ≡ k ∷ [])
        × (k.status ≡ queued)
        × (k.attempts ≡ j.attempts + n)
        × (k.max_attempts ≡ j.max_attempts)
  unfolding reclaim_stale_jobs start release is_stale is_claimable
  crashing_job_never_dies worker now age zero j q s i = (j, refl, q, omega arith, refl)
  crashing_job_never_dies worker now age (suc n) j q s i =
      let claimable : is_claimable (λ _. false) (λ _. false) now j ≡ true = ground arith in
      let stale : leb now (now + age - age) ≡ true = ground arith in
      let (k, a, b, c, d) =
        crashing_job_never_dies worker (now + age) age n (release (now + age) (start now worker j))
          refl (omega arith) i in
      (
        k,
        rw (claim_one (λ _. false) (λ _. false) worker now j claimable) (rw stale a),
        b,
        omega arith,
        d,
      )

  -- Where no job is of the tenant, `retryDead` changes nothing and reports that nothing was
  -- requeued.
  pub retry_dead_other_tenant :
      (now job tenant : ℕ) (jobs : List (Job V))
      → All (λ j. j.tenant_id ≢ tenant) jobs
      → retry_dead now job tenant jobs ≡ (jobs, false)
  unfolding retry_dead
  retry_dead_other_tenant now job tenant [] h = refl
  retry_dead_other_tenant now job tenant (j ∷ jobs) h =
      ground (arith, retry_dead_other_tenant now job tenant jobs h.1)

  -- A topic keeps its first handler and hooks: a second registration changes nothing. The first one
  -- does not change what another topic finds.
  pub register_handler_first_wins :
      (topic other : Str) (f g : Handler V) (a b c d : Bool) (r : Registry V)
      → str_eq topic other ≡ false
      → let r' = register_handler topic f a b r in
        (register_handler topic g c d r' ≡ r')
        × (lookup other r'.handlers ≡ lookup other r.handlers)
  unfolding register_handler
  register_handler_first_wins topic other f g a b c d r e =
      elim (Bool-cases (is_some (lookup topic r.handlers))) [
        | inl old ↦ (rw old (rw old), rw old)
        | inr new ↦ (rw new (rw (str_eq_refl topic)), rw new (rw e))
      ]
