-- ===== src/Engine/Worker/Budget.antt =====
-- The attempts that a job may make.
use mathlib.Core.List.{Memᴰ}
use bpm_new.Common.{
  ℕ, ◌+◌, Bool, true, false, ◌≡◌, refl, sym, ap, List, [], ◌∷◌, Str, none, some, inl, inr, All,
  All-map, Bool-cases, arith, leb, if◌then◌else◌, ◌==◌, ==_iff,
}
use bpm_new.Engine.Worker.Defs.{
  Job, batch_size, attempt_cap, start, mark_completed, mark_retry, mark_dead, returned, threw,
  Handler, Registry, lookup,
}
use bpm_new.Engine.Worker.Queue.{
  has_id, is_claimable, pick, is_among, claim, settle_failure, settle, run_with, run_one, run_all,
  tick,
}
use bpm_new.Common.{All-map_image, ◌∙◌, Option}
use bpm_new.Engine.Worker.Keys.{
  InBudget, Agrees, HasKey, All-update_where, TameHandler, IsTame, IsPending, update_where-IsUnused,
  update_where-IsPending, dead-InBudget, Meanwhile-InBudget, Meanwhile-IsPending,
}
use bpm_new.Engine.Worker.Claim.{pick-Mem}

module _ {V : Type 0} where
  completed-InBudget : (v : V) (j : Job V) → InBudget j → InBudget (mark_completed v j)
  unfolding mark_completed
  completed-InBudget v j h = ground arith

  -- The branch that retries has seen that attempts are left.
  failure-InBudget :
      (now : ℕ) (job j : Job V) (message : Str)
      → Agrees job j
      → job.id ≡ j.id
      → InBudget j
      → InBudget (
          (if leb (attempt_cap job.max_attempts) job.attempts
              then mark_dead message
              else mark_retry message now)
            j)
  unfolding mark_dead mark_retry
  failure-InBudget now job j message a e h = ground (arith, a e)

  -- The marks leave the id, the attempts and their limit alone.
  settle_failure-IsPending :
      (c : Job V) (r : Registry V) (now : ℕ) (job : Job V) (message : Str) (jobs : List (Job V))
      → IsPending jobs c
      → IsPending (settle_failure r now job message jobs).0 c
  unfolding settle_failure mark_dead mark_retry
  settle_failure-IsPending c r now job message jobs h =
      update_where-IsPending (has_id job.id) _ jobs c
        (λ k. (ground arith, ground arith, ground arith)) h

  run_with-IsPending :
      (c : Job V) (r : Registry V) (now : ℕ) (job : Job V) (o : Option (Handler V))
      (jobs : List (Job V))
      → TameHandler o
      → IsPending jobs c
      → IsPending (run_with r now job o jobs).0 c
  unfolding run_with mark_dead mark_completed
  run_with-IsPending c r now job none jobs tame h =
      update_where-IsPending (has_id job.id) _ jobs c (λ k. (refl, refl, refl)) h
  run_with-IsPending c r now job (some handler) jobs tame h =
      let jobs' = (handler job jobs).1 in
      let h' = Meanwhile-IsPending c (tame job jobs) h in
      elim (handler job jobs).0 as (λ o. IsPending (settle r now job o jobs').0 c) [
        | returned v ↦ update_where-IsPending (has_id job.id) _ jobs' c (λ k. (refl, refl, refl)) h'
        | threw message ↦ settle_failure-IsPending c r now job message jobs' h'
      ]

  run_one-IsPending :
      (c : Job V) (r : Registry V) (now : ℕ) (job : Job V) (jobs : List (Job V))
      → IsTame r
      → IsPending jobs c
      → IsPending (run_one r now job jobs).0 c
  unfolding run_one
  run_one-IsPending c r now job jobs tame h =
      run_with-IsPending c r now job (lookup job.topic r.handlers) jobs (tame job.topic) h

  settle_failure-InBudget :
      (r : Registry V) (now : ℕ) (job : Job V) (message : Str) (jobs : List (Job V))
      → All (λ j. Agrees job j × InBudget j) jobs
      → All InBudget (settle_failure r now job message jobs).0
  unfolding settle_failure
  settle_failure-InBudget r now job message jobs h =
      All-update_where (λ j. Agrees job j × InBudget j) InBudget (has_id job.id) _
        (λ j e a. failure-InBudget _ job j message a.0 (sym ((==_iff j.id job.id).0 e)) a.1)
        (λ j e a. a.1) jobs h

  All-both :
      (P Q : Job V → Type 0) (jobs : List (Job V))
      → All P jobs
      → All Q jobs
      → All (λ j. P j × Q j) jobs
  All-both P Q [] h k = tt
  All-both P Q (j ∷ jobs) h k = ((h.0, k.0), All-both P Q jobs h.1 k.1)

  run_with-InBudget :
      (r : Registry V) (now : ℕ) (job : Job V) (o : Option (Handler V)) (jobs : List (Job V))
      → TameHandler o
      → IsPending jobs job
      → All InBudget jobs
      → All InBudget (run_with r now job o jobs).0
  unfolding run_with
  run_with-InBudget r now job none jobs tame a h =
      All-update_where InBudget InBudget (has_id job.id) _ (λ j e k. dead-InBudget _ j k)
        (λ j e k. k) jobs h
  run_with-InBudget r now job (some handler) jobs tame a h =
      let jobs' = (handler job jobs).1 in
      let a' = Meanwhile-IsPending job (tame job jobs) a in
      let h' = Meanwhile-InBudget (tame job jobs) h in
      elim (handler job jobs).0 as (λ o. All InBudget (settle r now job o jobs').0) [
        | returned v ↦
            All-update_where InBudget InBudget (has_id job.id) _ (λ j e k. completed-InBudget v j k)
              (λ j e k. k) jobs' h'
        | threw message ↦
            settle_failure-InBudget r now job message jobs'
              (All-both (Agrees job) InBudget jobs' a'.0 h')
      ]

  run_one-InBudget :
      (r : Registry V) (now : ℕ) (job : Job V) (jobs : List (Job V))
      → IsTame r
      → IsPending jobs job
      → All InBudget jobs
      → All InBudget (run_one r now job jobs).0
  unfolding run_one
  run_one-InBudget r now job jobs tame a h =
      run_with-InBudget r now job (lookup job.topic r.handlers) jobs (tame job.topic) a h

  run_all-InBudget :
      (r : Registry V) (ends : Job V → ℕ) (claimed jobs : List (Job V))
      → IsTame r
      → All (IsPending jobs) claimed
      → All InBudget jobs
      → All InBudget (run_all r ends claimed jobs).0
  unfolding run_all
  run_all-InBudget r ends [] jobs tame a h = h
  run_all-InBudget r ends (c ∷ claimed) jobs tame a h =
      run_all-InBudget r ends claimed (run_one r (ends c) c jobs).0 tame
        (All-map _ _ (λ d k. run_one-IsPending d r (ends c) c jobs tame k) claimed a.1)
        (run_one-InBudget r (ends c) c jobs tame a.0 h)

  All-Mem : (jobs : List (Job V)) → All (λ j. Memᴰ j jobs) jobs
  All-Mem [] = tt
  All-Mem (j ∷ jobs) = (
    Memᴰ.head refl,
    All-map (λ k. Memᴰ k jobs) (λ k. Memᴰ k (j ∷ jobs)) (λ k m. Memᴰ.tail m) jobs (All-Mem jobs),
  )

  is_among-weaken :
      (p : Job V) (picked : List (Job V)) (j : Job V)
      → is_among picked j ≡ true
      → is_among (p ∷ picked) j ≡ true
  is_among-weaken p picked j h = ground arith

  All-is_among : (picked : List (Job V)) → All (λ p. is_among picked p ≡ true) picked
  All-is_among [] = tt
  All-is_among (p ∷ picked) = (
    ground arith,
    All-map _ (λ q. is_among (p ∷ picked) q ≡ true) (λ q. is_among-weaken p picked q) picked
        (All-is_among picked),
  )

  -- A row that was picked by its id is the claimable row with that id.
  among_claimable :
      (locked suspended : ℕ → Bool) (now : ℕ) (jobs picked : List (Job V)) (j : Job V)
      → HasKey jobs
      → Memᴰ j jobs
      → All (λ p. (is_claimable locked suspended now p ≡ true) × Memᴰ p jobs) picked
      → is_among picked j ≡ true
      → is_claimable locked suspended now j ≡ true
  among_claimable locked suspended now jobs [] j key m h e = cc
  among_claimable locked suspended now jobs (p ∷ picked) j key m h e =
      elim (Bool-cases (p.id == j.id)) [
        | inl same ↦ rw (← key p j h.0.1 m ((==_iff p.id j.id).0 same)) h.0.0
        | inr other ↦ among_claimable locked suspended now jobs picked j key m h.1 (rw other at e)
      ]

  start-InBudget :
      (locked suspended : ℕ → Bool) (now : ℕ) (worker : Str) (j : Job V)
      → is_claimable locked suspended now j ≡ true
      → InBudget j
      → InBudget (start now worker j)
  unfolding start is_claimable
  start-InBudget locked suspended now worker j e h = ground arith

  -- The row of a picked job, as the claim leaves it, has the attempts of the claimed snapshot.
  start-Agrees :
      (now : ℕ) (worker : Str) (p j : Job V)
      → (p.id ≡ j.id → p ≡ j)
      → Agrees (start now worker p) (start now worker j)
  unfolding start
  start-Agrees now worker p j key e =
      (ap (λ (k : Job V). k.attempts + 1) (key e), ap (λ (k : Job V). k.max_attempts) (key e))

  unpicked-Agrees :
      (now : ℕ) (worker : Str) (picked : List (Job V)) (p j : Job V)
      → (p.id ≡ j.id → p ≡ j)
      → is_among picked p ≡ true
      → is_among picked j ≡ false
      → Agrees (start now worker p) j
  unfolding start
  unpicked-Agrees now worker picked p j key t f e = cc (key e)

  start-id : (now : ℕ) (worker : Str) (k : Job V) → (start now worker k).id ≡ k.id
  unfolding start
  start-id now worker k = refl

  -- On a table whose ids are a key, where every waiting job has an attempt left and no job has made
  -- more than its cap, one tick of a worker leaves each waiting job an attempt and no job beyond its
  -- cap, if while a job runs its handler and others do no more to the table than add jobs with new ids,
  -- which have made no attempt and may make one, and mark jobs dead.
  pub tick-InBudget :
      (r : Registry V) (locked suspended : ℕ → Bool) (worker : Str) (now : ℕ) (ends : Job V → ℕ)
      (jobs : List (Job V))
      → IsTame r
      → HasKey jobs
      → All InBudget jobs
      → All InBudget (tick r locked suspended worker now ends jobs).0
  unfolding tick claim
  tick-InBudget r locked suspended worker now ends jobs tame key h =
      let picked = pick locked suspended now batch_size jobs in
      let rows = pick-Mem locked suspended worker now batch_size jobs in
      let mine = All-Mem jobs in
      run_all-InBudget r ends _ _ tame
        (All-map_image _ (start now worker) picked (
          All-map
            (λ p.
              (is_among picked p ≡ true)
              × ((is_claimable locked suspended now p ≡ true) × Memᴰ p jobs))
            _
            (λ p k. (
              All-update_where (λ j. Memᴰ j jobs) (Agrees (start now worker p)) (is_among picked)
                  (start now worker) (λ j e m. start-Agrees now worker p j (key p j k.1.1 m))
                  (λ j e m. unpicked-Agrees now worker picked p j (key p j k.1.1 m) k.0 e) jobs
                  mine,
              λ id new q.
                  update_where-IsUnused (is_among picked) (start now worker) jobs id
                    (start-id now worker) new p k.1.1 (sym (start-id now worker p) ∙ q),
            ))
            picked (All-both _ _ picked (All-is_among picked) rows)))
        (All-update_where (λ j. Memᴰ j jobs × InBudget j) InBudget (is_among picked)
          (start now worker)
          (λ j e k.
            start-InBudget locked suspended now worker j
              (among_claimable locked suspended now jobs picked j key k.0 rows e) k.1)
          (λ j e k. k.1) jobs (All-both _ _ jobs mine h))
