-- ===== src/Engine/Timers/Defs.antt =====
-- TimerSchedulerService: the row of SCHEDULED_TIMERS and the operations on the table. `V` is the type of
-- payloads. The time of creation is left out, and of the poll its timer.
use bpm_new.Common.{
  ℕ, ◌+◌, ◌*◌, Bool, true, false, ◌&&◌, not, Option, none, some, List, [], ◌∷◌, map, ◌==◌, ltb, leb,
  if◌then◌else◌, length, take, keep, any, suc,
}
use bpm_new.Engine.Tokens.Defs.{TokenStatus, WaitingFor, is_waiting, is_user_task}

pub data TimerStatus : Type 0 where
  pending firing : TimerStatus

pub data TimerKind : Type 0 where
  task_due_reminder boundary_timer intermediate_catch_timer start_event_timer process_start_timer :
      TimerKind

pub record Timer (V : Type 0) : Type 0 where
  pub id : ℕ
  pub tenant_id : ℕ
  pub instance_id : Option ℕ
  pub token_id : Option ℕ
  pub fire_at : ℕ
  pub kind : TimerKind
  pub status : TimerStatus
  pub payload : Option V
  pub firing_started_at : Option ℕ

abbrev pub recovery_threshold_ms : ℕ
recovery_threshold_ms = 5 * 60 * 1000

abbrev pub poll_batch_size : ℕ
poll_batch_size = 50

abbrev pub is_pending : TimerStatus → Bool
is_pending pending = true
is_pending firing = false

abbrev pub is_reminder : TimerKind → Bool
is_reminder task_due_reminder = true
is_reminder _ = false

-- "FIRING_STARTED_AT" < cutoff, which is not true of NULL.
abbrev pub started_before : ℕ → Option ℕ → Bool
started_before now none = false
started_before now (some t) = ltb (t + recovery_threshold_ms) now

-- `= id` on a column that may be NULL.
abbrev pub is_id : ℕ → Option ℕ → Bool
is_id n none = false
is_id n (some k) = k == n

pub record Tally : Type 0 where
  pub fired : ℕ
  pub failed : ℕ

-- The callback of a kind, if one is registered: whether it ends without an exception, and the table as
-- it leaves it.
abbrev pub Callbacks : Type 0 → Type 0
Callbacks V = TimerKind → Option (Timer V → List (Timer V) → Bool × List (Timer V))

abbrev pub kind_number : TimerKind → ℕ
kind_number task_due_reminder = 0
kind_number boundary_timer = 1
kind_number intermediate_catch_timer = 2
kind_number start_event_timer = 3
kind_number process_start_timer = 4

-- `registerCallback`: a later callback for a kind takes the place of an earlier one.
unfoldable pub register_callback :
    {V : Type 0}
    → TimerKind
    → (Timer V → List (Timer V) → Bool × List (Timer V))
    → Callbacks V
    → Callbacks V
register_callback kind cb callbacks k =
    if kind_number k == kind_number kind then some cb else callbacks k

module _ {V : Type 0} where
  abbrev pub is_stale : ℕ → Timer V → Bool
  is_stale now t = not (is_pending t.status) && started_before now t.firing_started_at

  abbrev pub release : Timer V → Timer V
  release t = record t { status = pending; firing_started_at = none }

  abbrev pub start : ℕ → Timer V → Timer V
  start now t = record t { status = firing; firing_started_at = some now }

  abbrev pub changed : (Timer V → Bool) → (Timer V → Timer V) → Timer V → Timer V
  changed p f t = if p t then f t else t

  -- `recoverStaleFiring`: the count of rows reset, and the table.
  unfoldable pub recover_stale_firing : ℕ → List (Timer V) → ℕ × List (Timer V)
  recover_stale_firing now timers =
      (length (keep (is_stale now) timers), map (changed (is_stale now) release) timers)

  -- The WHERE clause of the claiming query. `locked` are the rows that others hold.
  abbrev pub is_due : (ℕ → Bool) → ℕ → Timer V → Bool
  is_due locked now t = is_pending t.status && leb t.fire_at now && not (locked t.id)

  -- ORDER BY "FIRE_AT" ASC
  abbrev pub insert_due : Timer V → List (Timer V) → List (Timer V)
  insert_due t [] = t ∷ []
  insert_due t (u ∷ us) =
      let rest = insert_due t us in if leb t.fire_at u.fire_at then t ∷ u ∷ us else u ∷ rest

  abbrev pub order_due : List (Timer V) → List (Timer V)
  order_due [] = []
  order_due (t ∷ ts) = insert_due t (order_due ts)

  abbrev pub pick_due : (ℕ → Bool) → ℕ → ℕ → List (Timer V) → List (Timer V)
  pick_due locked now batch timers = take batch (order_due (keep (is_due locked now) timers))

  abbrev pub is_among : List (Timer V) → Timer V → Bool
  is_among picked t = any (λ p. p.id == t.id) picked

  -- `claim`: the rows claimed, and the table.
  unfoldable pub claim : (ℕ → Bool) → ℕ → ℕ → List (Timer V) → List (Timer V) × List (Timer V)
  claim locked now batch timers =
      let picked = pick_due locked now batch timers in
      (map (start now) picked, map (changed (is_among picked) (start now)) timers)

  abbrev pub delete_timer : ℕ → List (Timer V) → List (Timer V)
  delete_timer id = keep (λ t. not (t.id == id))

  abbrev pub settle : Timer V → Bool × List (Timer V) → Tally → List (Timer V) × Tally
  settle t (true, timers) n = (delete_timer t.id timers, record n { fired = suc n.fired })
  settle t (false, timers) n = (timers, record n { failed = suc n.failed })

  abbrev pub dispatch_to :
      Timer V
      → Option (Timer V → List (Timer V) → Bool × List (Timer V))
      → List (Timer V)
      → Tally
      → List (Timer V) × Tally
  dispatch_to t none timers n = (delete_timer t.id timers, n)
  dispatch_to t (some cb) timers n = settle t (cb t timers) n

  -- The loop over the rows claimed.
  abbrev pub dispatch :
      Callbacks V → List (Timer V) → List (Timer V) → Tally → List (Timer V) × Tally
  dispatch callbacks [] timers n = (timers, n)
  dispatch callbacks (t ∷ ts) timers n =
      let r = dispatch_to t (callbacks t.kind) timers n in dispatch callbacks ts r.0 r.1

  -- A tick, whose recovery and claim read the clock at one time here.
  unfoldable pub tick : Callbacks V → (ℕ → Bool) → ℕ → List (Timer V) → ℕ × List (Timer V) × Tally
  tick callbacks locked now timers =
      let recovered = recover_stale_firing now timers in
      let claimed = claim locked now poll_batch_size recovered.1 in
      let done = dispatch callbacks claimed.0 claimed.1 record { fired = 0; failed = 0 } in
      (recovered.0, done.0, done.1)

  unfoldable pub schedule_timer :
      ℕ → ℕ → Option ℕ → Option ℕ → ℕ → TimerKind → Option V → List (Timer V) → List (Timer V)
  schedule_timer id tenant instance_id token fire_at kind payload timers =
      record {
        id = id;
        tenant_id = tenant;
        instance_id = instance_id;
        token_id = token;
        fire_at = fire_at;
        kind = kind;
        status = pending;
        payload = payload;
        firing_started_at = none;
      }
      ∷ timers

  -- `cancelTimer` and `cancelTimersForInstance`: the count of rows deleted, and the table.
  unfoldable pub cancel_timer : ℕ → List (Timer V) → ℕ × List (Timer V)
  cancel_timer token timers = (
    length (keep (λ t. is_id token t.token_id) timers),
    keep (λ t. not (is_id token t.token_id)) timers,
  )

  unfoldable pub cancel_timers_for_instance : ℕ → List (Timer V) → ℕ × List (Timer V)
  cancel_timers_for_instance instance_id timers = (
    length (keep (λ t. is_id instance_id t.instance_id) timers),
    keep (λ t. not (is_id instance_id t.instance_id)) timers,
  )

-- A row of INSTANCE_TOKENS, as far as the backfill looks at it.
pub record Task : Type 0 where
  pub id : ℕ
  pub tenant_id : ℕ
  pub instance_id : ℕ
  pub status : TokenStatus
  pub waiting_for : Option WaitingFor
  pub due_at : Option ℕ

abbrev pub is_some {ℓ} : {A : Type ℓ} → Option A → Bool
is_some none = false
is_some (some _) = true

abbrev pub is_candidate : Task → Bool
is_candidate k = is_waiting k.status && is_user_task k.waiting_for && is_some k.due_at

module _ {V : Type 0} where
  abbrev pub is_reminder_of : ℕ → Timer V → Bool
  is_reminder_of token t = is_reminder t.kind && is_id token t.token_id

  abbrev pub lacks_timer : List (Timer V) → Task → Bool
  lacks_timer timers k = is_candidate k && not (any (is_reminder_of k.id) timers)

  -- The row for a task that is due at a time. `source` is the payload, `new_id` makes up ids.
  abbrev pub reminder : V → (ℕ → ℕ) → Task → ℕ → Timer V
  reminder source new_id k due = record {
    id = new_id k.id;
    tenant_id = k.tenant_id;
    instance_id = some k.instance_id;
    token_id = some k.id;
    fire_at = due;
    kind = task_due_reminder;
    status = pending;
    payload = some source;
    firing_started_at = none;
  }

  abbrev pub with_reminder : V → (ℕ → ℕ) → Task → Option ℕ → List (Timer V) → List (Timer V)
  with_reminder source new_id k none timers = timers
  with_reminder source new_id k (some due) timers = reminder source new_id k due ∷ timers

  abbrev pub insert_reminders : V → (ℕ → ℕ) → List Task → List (Timer V) → List (Timer V)
  insert_reminders source new_id [] timers = timers
  insert_reminders source new_id (k ∷ ks) timers =
      with_reminder source new_id k k.due_at (insert_reminders source new_id ks timers)

  -- `backfillMissingTimers`: the count of rows inserted, and the table.
  unfoldable pub backfill_missing_timers :
      V → (ℕ → ℕ) → List Task → List (Timer V) → ℕ × List (Timer V)
  backfill_missing_timers source new_id tasks timers =
      let missing = keep (lacks_timer timers) tasks in
      (length missing, insert_reminders source new_id missing timers)
