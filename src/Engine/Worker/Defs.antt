-- ===== src/Engine/Worker/Defs.antt =====
-- The rows of ENGINE_JOBS, the operations of WorkerService on one row, and its registry.
use bpm_new.Common.{
  ℕ, zero, suc, ◌+◌, ◌-◌, min, Bool, true, false, ◌&&◌, Option, none, some, List, [], ◌∷◌, Str,
  str_eq, leb, if◌then◌else◌, length, take, is_some,
}

pub data JobStatus : Type 0 where
  queued running completed failed dead : JobStatus

pub record Job (V : Type 0) : Type 0 where
  pub id : ℕ
  pub tenant_id : ℕ
  pub instance_id : Option ℕ
  pub token_id : Option ℕ
  pub job_type : Str
  pub topic : Str
  pub status : JobStatus
  pub input : Option V
  pub result : Option V
  pub attempts : ℕ
  pub max_attempts : ℕ
  pub scheduled_for : ℕ
  pub created_at : ℕ
  pub locked_at : Option ℕ
  pub locked_by : Option Str
  pub last_error : Option Str

abbrev pub is_queued : JobStatus → Bool
is_queued queued = true
is_queued _ = false

abbrev pub is_running : JobStatus → Bool
is_running running = true
is_running _ = false

abbrev pub is_dead : JobStatus → Bool
is_dead dead = true
is_dead _ = false

-- BACKOFF_MS
abbrev pub backoff_ms : List ℕ
backoff_ms = 5000 ∷ 30000 ∷ 120000 ∷ 300000 ∷ 1800000 ∷ []

abbrev pub batch_size : ℕ
batch_size = 5

abbrev get_or : List ℕ → ℕ → ℕ
get_or [] i = 0
get_or (x ∷ xs) zero = x
get_or (x ∷ xs) (suc i) = get_or xs i

-- `BACKOFF_MS[Math.min(job.attempts - 1, BACKOFF_MS.length - 1)]`. It is read for a claimed row
-- only, whose `attempts` is at least 1, so the subtraction is exact.
unfoldable pub backoff_delay : ℕ → ℕ
backoff_delay attempts = get_or backoff_ms (min (attempts - 1) (length backoff_ms - 1))

-- `Math.min(job.maxAttempts, BACKOFF_MS.length)`: the attempt after which a failure is final.
unfoldable pub attempt_cap : ℕ → ℕ
attempt_cap max_attempts = min max_attempts (length backoff_ms)

-- `error.slice(0, 2000)`
pub stored_error : Str → Str
stored_error = take 2000

-- SQL's comparison with NULL does not hold.
abbrev pub locked_before : ℕ → Option ℕ → Bool
locked_before cutoff none = false
locked_before cutoff (some t) = leb t cutoff

module _ {V : Type 0} where
  -- The SET clause of the claiming query.
  unfoldable pub start : ℕ → Str → Job V → Job V
  start now worker j = record j {
    status = running;
    locked_at = some now;
    locked_by = some worker;
    attempts = j.attempts + 1;
  }

  unfoldable pub mark_completed : V → Job V → Job V
  mark_completed v j = record j { status = completed; result = some v; last_error = none }

  unfoldable pub mark_retry : Str → ℕ → Job V → Job V
  mark_retry error when j = record j {
    status = queued;
    scheduled_for = when;
    last_error = some (stored_error error);
    locked_at = none;
    locked_by = none;
  }

  unfoldable pub mark_dead : Str → Job V → Job V
  mark_dead error j = record j { status = dead; last_error = some (stored_error error) }

  -- The SET clauses of `retryDead` and of `reclaimStaleJobs`.
  unfoldable pub requeue : ℕ → Job V → Job V
  requeue now j = record j {
    status = queued;
    attempts = 0;
    scheduled_for = now;
    locked_at = none;
    locked_by = none;
    last_error = none;
  }

  unfoldable pub release : ℕ → Job V → Job V
  release now j = record j {
    status = queued;
    locked_at = none;
    locked_by = none;
    scheduled_for = now;
  }

  -- The WHERE clause of `reclaimStaleJobs`.
  unfoldable pub is_stale : ℕ → Job V → Bool
  is_stale cutoff j = is_running j.status && locked_before cutoff j.locked_at

-- What a handler comes to: it returns a result, or throws an error with a message.
pub data Outcome (V : Type 0) : Type 0 where
  returned : V → Outcome V
  threw : Str → Outcome V

-- A handler gets the job, and the table as it finds it. It gives what it comes to and the table as it is
-- then: handlers add and cancel jobs, and so may others while one runs.
abbrev pub Handler : Type 0 → Type 0
Handler V = Job V → List (Job V) → Outcome V × List (Job V)

-- The registry of the service: a handler by topic, and the topics whose hooks are set. The hooks are
-- code of the topic's owner; a hook that throws is logged and changes nothing here.
pub record Registry (V : Type 0) : Type 0 where
  pub handlers : List (Str × Handler V)
  pub on_dead : List Str
  pub on_attempt_failed : List Str

-- `Map.get` and `Map.has`
abbrev pub lookup {ℓ} : {A : Type ℓ} → Str → List (Str × A) → Option A
lookup k [] = none
lookup k ((j, a) ∷ m) = if str_eq j k then some a else lookup k m

abbrev pub includes : Str → List Str → Bool
includes k [] = false
includes k (j ∷ m) = if str_eq j k then true else includes k m

module _ {V : Type 0} where
  -- `registerHandler`: the first registration of a topic wins, hooks included.
  unfoldable pub register_handler : Str → Handler V → Bool → Bool → Registry V → Registry V
  register_handler topic handler has_on_dead has_on_attempt_failed r =
      if is_some (lookup topic r.handlers) then r else record {
        handlers = (topic, handler) ∷ r.handlers;
        on_dead = if has_on_dead then topic ∷ r.on_dead else r.on_dead;
        on_attempt_failed =
            if has_on_attempt_failed then topic ∷ r.on_attempt_failed else r.on_attempt_failed;
      }
