-- ===== src/Engine/Timers/Backfill.antt =====
-- The reminders that the scheduler adds when it starts.
use bpm_new.Common.{
  ℕ, Bool, true, ◌≡◌, refl, sym, subst, Option, none, some, List, [], ◌∷◌, ==_refl, keep, any, All,
  All-map, inl, inr, Bool-cases, Option-cases, arith,
}
use bpm_new.Engine.Timers.Defs.{
  Timer, Task, is_candidate, is_reminder_of, lacks_timer, with_reminder, insert_reminders,
  backfill_missing_timers,
}

module _ {V : Type 0} where
  -- A task that waits for a user and has a due date has a reminder.
  abbrev pub IsReminded : List (Timer V) → Task → Type 0
  IsReminded timers k = is_candidate k ≡ true → any (is_reminder_of k.id) timers ≡ true

  keep-none :
      (timers : List (Timer V)) (tasks : List Task)
      → All (IsReminded timers) tasks
      → keep (lacks_timer timers) tasks ≡ []
  keep-none timers [] h = refl
  keep-none timers (k ∷ ks) h = elim (Bool-cases (is_candidate k)) [
    | inl e ↦ let there = h.0 e in rw (e, there) (keep-none timers ks h.1)
    | inr e ↦ rw e (keep-none timers ks h.1)
  ]

module _ {V : Type 0} (source : V) (new_id : ℕ → ℕ) where
  with_reminder-keeps :
      (k : Task) (due : Option ℕ) (f : Timer V → Bool) (timers : List (Timer V))
      → any f timers ≡ true
      → any f (with_reminder source new_id k due timers) ≡ true
  with_reminder-keeps k none f timers h = h
  with_reminder-keeps k (some d) f timers h = rw h (ground arith)

  insert_reminders-keeps :
      (ks : List Task) (f : Timer V → Bool) (timers : List (Timer V))
      → any f timers ≡ true
      → any f (insert_reminders source new_id ks timers) ≡ true
  insert_reminders-keeps [] f timers h = h
  insert_reminders-keeps (k ∷ ks) f timers h =
      with_reminder-keeps k k.due_at f _ (insert_reminders-keeps ks f timers h)

  with_reminder-IsReminded :
      (k : Task) (timers : List (Timer V))
      → IsReminded (with_reminder source new_id k k.due_at timers) k
  with_reminder-IsReminded k timers candidate = elim (Option-cases k.due_at) [
    | inl e ↦ absurd (ground arith)
    | inr (d, e) ↦ rw e (rw (==_refl k.id) refl)
  ]

  All-IsReminded :
      (timers : List (Timer V)) (tasks : List Task)
      → All
          (IsReminded (insert_reminders source new_id (keep (lacks_timer timers) tasks) timers))
          tasks
  All-IsReminded timers [] = tt
  All-IsReminded timers (k ∷ ks) =
      let rest = All-IsReminded timers ks in
      let missing = keep (lacks_timer timers) ks in
      elim (Bool-cases (lacks_timer timers k)) [
        | inl e ↦
            let grown = insert_reminders source new_id missing timers in
            let first : keep (lacks_timer timers) (k ∷ ks) ≡ k ∷ missing = rw e refl in
            let others =
              All-map (IsReminded grown) (IsReminded (with_reminder source new_id k k.due_at grown))
                (λ j h c. with_reminder-keeps k k.due_at (is_reminder_of j.id) grown (h c)) ks
                rest in
            subst (λ l. All (IsReminded (insert_reminders source new_id l timers)) (k ∷ ks))
              (sym first) (with_reminder-IsReminded k grown, others)
        | inr e ↦
            let first : keep (lacks_timer timers) (k ∷ ks) ≡ missing = rw e refl in
            subst (λ l. All (IsReminded (insert_reminders source new_id l timers)) (k ∷ ks))
              (sym first)
              (
                (λ c. insert_reminders-keeps missing (is_reminder_of k.id) timers (ground arith)),
                rest,
              )
      ]

-- The backfill leaves no task without a reminder, of the tasks that wait for a user and have a due
-- date, whatever timers there are; and a second backfill of these tasks inserts nothing.
pub backfill_missing_timers_once :
    {V : Type 0} (source : V) (new_id new_id2 : ℕ → ℕ) (tasks : List Task) (timers : List (Timer V))
    → All (IsReminded (backfill_missing_timers source new_id tasks timers).1) tasks
      × (backfill_missing_timers source new_id2 tasks
            (backfill_missing_timers source new_id tasks timers).1
          ≡ (0, (backfill_missing_timers source new_id tasks timers).1))
unfolding backfill_missing_timers
backfill_missing_timers_once source new_id new_id2 tasks timers =
    let all = All-IsReminded source new_id timers tasks in (all, rw (keep-none _ tasks all) refl)
