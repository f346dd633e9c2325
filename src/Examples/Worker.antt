-- ===== src/Examples/Worker.antt =====
-- The job queue on small tables.
use mathlib.Core.List.{Memᴰ}
use bpm_new.Common.{
  ℕ, ◌+◌, Bool, true, false, ◌≡◌, refl, ◌∙◌, sym, List, [], ◌∷◌, Str, codes, none, some, str_eq,
  Bool-cases, inl, inr, All, arith,
}
use bpm_new.Engine.Worker.Defs.{
  Job, queued, dead, start, mark_retry, attempt_cap, backoff_delay, Registry, threw, returned,
  mark_dead,
}
use bpm_new.Engine.Worker.Queue.{
  new_job, enqueue, is_claimable, is_among, claim, pick, order_by, tick, run_all, run_one,
  settle_failure, update_where,
}
use bpm_new.Engine.Worker.Claim.{claim-claim_disjoint}
use bpm_new.Engine.Worker.Keys.{InBudget, HasKey, IsTame, nothing_done, cancels}
use bpm_new.Engine.Worker.Budget.{tick-InBudget}
use bpm_new.Engine.Worker.History.{History, empty, after, enqueues, ticks, History-InBudget}
use bpm_new.Engine.Worker.Retry.{
  IsSettled, settle_failure-IsSettled, Pass, run_passes, ClaimsEach, failing_job_dies, crashes,
  crashing_job_never_dies,
}

abbrev mail : Str
mail = codes "mail"

-- A queued job with an id, due at a time.
abbrev job : ℕ → ℕ → Job ℕ
job id due = record {
  id = id;
  tenant_id = 1;
  instance_id = none;
  token_id = none;
  job_type = codes "serviceTask";
  topic = mail;
  status = queued;
  input = some 7;
  result = none;
  attempts = 0;
  max_attempts = 3;
  scheduled_for = due;
  created_at = due;
  locked_at = none;
  locked_by = none;
  last_error = none;
}

abbrev jobs : List (Job ℕ)
jobs = job 1 20 ∷ job 2 10 ∷ []

abbrev nothing : ℕ → Bool
nothing _ = false

abbrev failing : Registry ℕ
failing = record {
  handlers = (mail, λ _ rows. (threw (codes "down"), rows)) ∷ [];
  on_dead = [];
  on_attempt_failed = [];
}

claim-claim_disjoint_example :
    let (left, first) = claim nothing nothing (codes "a") 100 1 jobs in
    All (λ c. is_among first c ≡ false) (claim nothing nothing (codes "b") 101 5 left).1
claim-claim_disjoint_example =
    claim-claim_disjoint nothing nothing nothing nothing (codes "a") (codes "b") 100 101 1 5 jobs

one_job-HasKey : (j : Job ℕ) → HasKey (j ∷ [])
one_job-HasKey j a b (Memᴰ.head p) (Memᴰ.head q) e = p ∙ sym q
one_job-HasKey j a b (Memᴰ.head p) (Memᴰ.tail q) e = elim q [ ]
one_job-HasKey j a b (Memᴰ.tail p) _ e = elim p [ ]

-- The one handler leaves the table alone.
failing-IsTame : IsTame failing
failing-IsTame topic = elim (Bool-cases (str_eq mail topic)) [
  | inl e ↦ rw e (λ j rows. nothing_done)
  | inr e ↦ rw e tt
]

-- The one handler cancels all jobs.
abbrev cancelling : Registry ℕ
cancelling = record {
  handlers =
      (
        mail,
        λ j rows.
            (returned 0, update_where (λ _. true) (mark_dead (codes "Instance cancelled.")) rows),
      )
      ∷ [];
  on_dead = [];
  on_attempt_failed = [];
}

cancelling-IsTame : IsTame cancelling
cancelling-IsTame topic = elim (Bool-cases (str_eq mail topic)) [
  | inl e ↦ rw e (λ j rows. cancels nothing_done (λ _. true) (codes "Instance cancelled."))
  | inr e ↦ rw e tt
]

tick-InBudget_example :
    All InBudget (tick cancelling nothing nothing (codes "a") 100 (λ _. 105) (job 1 20 ∷ [])).0
unfolding attempt_cap
tick-InBudget_example =
    tick-InBudget cancelling nothing nothing (codes "a") 100 (λ _. 105) (job 1 20 ∷ [])
      cancelling-IsTame (one_job-HasKey (job 1 20)) (omega arith, tt)

settle_failure-IsSettled_example :
    All
      (IsSettled 100 (job 1 20))
      (settle_failure failing 100 (job 1 20) (codes "down") (job 1 20 ∷ [])).0
settle_failure-IsSettled_example =
    settle_failure-IsSettled failing 100 (job 1 20) (codes "down") (job 1 20 ∷ [])

abbrev pass_at : ℕ → Pass ℕ
pass_at t = record {
  locked = nothing;
  suspended = nothing;
  worker = codes "a";
  now = t;
  ends = λ _. t + 1;
}

abbrev three_passes : List (Pass ℕ)
three_passes = pass_at 100 ∷ pass_at 100000 ∷ pass_at 1000000 ∷ []

three_claims : ClaimsEach failing three_passes (job 1 20 ∷ [])
unfolding tick is_claimable run_all claim pick order_by run_one start settle_failure attempt_cap
    mark_retry backoff_delay
three_claims = (refl, (refl, (refl, tt)))

failing_job_dies_example :
    (k : Job ℕ) × (run_passes failing three_passes (job 1 20 ∷ []) ≡ k ∷ [])
    × (k.id ≡ 1)
    × (k.status ≡ dead)
    × (k.attempts ≡ attempt_cap 3)
unfolding attempt_cap
failing_job_dies_example =
    failing_job_dies failing (codes "down") three_passes (job 1 20) refl three_claims (omega arith)
      refl

crashing_job_never_dies_example :
    (k : Job ℕ) × (crashes (codes "a") 100 60 9 (job 1 20 ∷ []) ≡ k ∷ [])
    × (k.status ≡ queued)
    × (k.attempts ≡ 0 + 9)
    × (k.max_attempts ≡ 3)
crashing_job_never_dies_example =
    crashing_job_never_dies (codes "a") 100 60 9 (job 1 20) refl (omega arith) refl

abbrev one_added : List (Job ℕ)
one_added = enqueue (new_job 1 10 1 (codes "serviceTask") mail none none (some 7) none none) []

abbrev then_ticked : List (Job ℕ)
then_ticked = (tick failing nothing nothing (codes "a") 100 (λ _. 105) one_added).0

history : History then_ticked
unfolding new_job
history =
    after
      (after empty (
        enqueues 1 10 1 (codes "serviceTask") mail none none (some 7) none none
          (λ a m e. elim m [ ]) (omega arith)))
      (ticks failing nothing nothing (codes "a") 100 (λ _. 105) failing-IsTame)

History-InBudget_example : HasKey then_ticked × All InBudget then_ticked
History-InBudget_example = History-InBudget then_ticked history
