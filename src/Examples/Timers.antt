-- ===== src/Examples/Timers.antt =====
-- A reminder that is due, and a task without one.
use bpm_new.Common.{
  ℕ, false, ◌≡◌, refl, Bool, Option, none, some, [], ◌∷◌, not, length, keep, All, arith,
}
use bpm_new.Engine.Tokens.Defs.{waiting, user_task}
use bpm_new.Engine.Timers.Defs.{
  Timer, TimerKind, task_due_reminder, pending, Task, claim, recover_stale_firing, poll_batch_size,
  is_among, tick, backfill_missing_timers,
}
use bpm_new.Engine.Timers.Claim.{claim-claim_disjoint_until_recovery}
use bpm_new.Engine.Timers.Ticks.{inert, is_over, is_fired, is_failed, tick-inert}
use bpm_new.Engine.Timers.Backfill.{IsReminded, backfill_missing_timers_once}

abbrev due : Timer ℕ
due = record {
  id = 1;
  tenant_id = 1;
  instance_id = some 9;
  token_id = some 4;
  fire_at = 50;
  kind = task_due_reminder;
  status = pending;
  payload = none;
  firing_started_at = none;
}

abbrev nobody : ℕ → Bool
nobody _ = false

claim-claim_disjoint_until_recovery_example :
    All
      (λ t. is_among (claim nobody 60 10 (due ∷ [])).0 t ≡ false)
      (claim nobody 70 10 (recover_stale_firing 70 (claim nobody 60 10 (due ∷ [])).1).1).0
claim-claim_disjoint_until_recovery_example =
    claim-claim_disjoint_until_recovery nobody nobody 60 70 10 10 (due ∷ []) (omega arith)

-- The callback throws.
abbrev throws : TimerKind → Option (Timer ℕ → Bool)
throws _ = some (λ _. false)

tick-inert_example :
    ((tick (inert throws) nobody 60 (due ∷ [])).1
      ≡ keep
          (λ t. not (is_over throws (claim nobody 60 poll_batch_size (due ∷ [])).0 t))
          (claim nobody 60 poll_batch_size (due ∷ [])).1)
    × ((tick (inert throws) nobody 60 (due ∷ [])).2.fired
        ≡ length
            (keep (λ p. is_fired (throws p.kind) p) (claim nobody 60 poll_batch_size (due ∷ [])).0))
    × ((tick (inert throws) nobody 60 (due ∷ [])).2.failed
        ≡ length (
            keep (λ p. is_failed (throws p.kind) p) (claim nobody 60 poll_batch_size (due ∷ [])).0))
unfolding recover_stale_firing
tick-inert_example = tick-inert throws nobody 60 (due ∷ []) refl

abbrev task : Task
task = record {
  id = 5;
  tenant_id = 1;
  instance_id = 9;
  status = waiting;
  waiting_for = some user_task;
  due_at = some 80;
}

abbrev new_id : ℕ → ℕ
new_id n = n

backfill_missing_timers_once_example :
    All (IsReminded (backfill_missing_timers 0 new_id (task ∷ []) (due ∷ [])).1) (task ∷ [])
    × (backfill_missing_timers 0 new_id
          (task ∷ [])
          (backfill_missing_timers 0 new_id (task ∷ []) (due ∷ [])).1
        ≡ (0, (backfill_missing_timers 0 new_id (task ∷ []) (due ∷ [])).1))
backfill_missing_timers_once_example =
    backfill_missing_timers_once 0 new_id new_id (task ∷ []) (due ∷ [])
