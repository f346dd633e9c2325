-- ===== src/Engine/Outbox/Defs.antt =====
-- OutboxService.tick: pending events are claimed and become jobs of the queue, one for each event and
-- subscription that match. Ids are numbers; encrypted secrets and payloads are left as they are.
use bpm_new.Common.{
  ℕ, suc, Bool, true, false, ◌&&◌, ◌||◌, not, Option, none, some, List, [], ◌∷◌, Str, codes, str_eq,
  ◌==◌, leb, if◌then◌else◌, take, keep, any,
}
use bpm_new.Data.Chars.{trim}
use bpm_new.Data.Split.{split}
use bpm_new.Engine.Worker.Defs.{Job}
use bpm_new.Engine.Worker.Queue.{new_job, enqueue}

pub data OutboxStatus : Type 0 where
  pending dispatched failed : OutboxStatus

pub record OutboxEvent (V : Type 0) : Type 0 where
  pub id : ℕ
  pub tenant_id : ℕ
  pub process_id : Option ℕ
  pub instance_id : Option ℕ
  pub event_type : Str
  pub payload : V
  pub status : OutboxStatus
  pub created_at : ℕ
  pub dispatched_at : Option ℕ

pub record Subscription : Type 0 where
  pub id : ℕ
  pub tenant_id : ℕ
  pub process_id : Option ℕ
  pub url : Str
  pub event_types : Str
  pub secret : Str
  pub is_active : Bool

-- The input of a delivery job.
pub record Delivery (V : Type 0) : Type 0 where
  pub subscription_id : ℕ
  pub url : Str
  pub secret : Str
  pub event_id : ℕ
  pub event_type : Str
  pub event_tenant_id : ℕ
  pub event_process_id : Option ℕ
  pub event_instance_id : Option ℕ
  pub payload : V

abbrev pub dispatch_batch : ℕ
dispatch_batch = 25

abbrev pub dispatch_topic : Str
dispatch_topic = codes "webhook-dispatch"

abbrev pub is_pending : OutboxStatus → Bool
is_pending pending = true
is_pending _ = false

-- s.processId !== ev.processId
abbrev pub same_process : ℕ → Option ℕ → Bool
same_process p none = false
same_process p (some q) = q == p

abbrev pub in_scope : Option ℕ → Option ℕ → Bool
in_scope none process = true
in_scope (some p) process = same_process p process

abbrev pub trim_all : List Str → List Str
trim_all [] = []
trim_all (s ∷ ss) = trim s ∷ trim_all ss

unfoldable pub listens : Str → Str → Bool
unfolding split trim
listens event_types type =
    str_eq (trim event_types) (codes "*")
    || any (λ t. str_eq t type) (trim_all (split b',' event_types))

module _ {V : Type 0} where
  -- The subscriptions of the query, and the filter on them.
  unfoldable pub wants : OutboxEvent V → Subscription → Bool
  wants ev s =
      (s.tenant_id == ev.tenant_id && s.is_active)
      && in_scope s.process_id ev.process_id
      && listens s.event_types ev.event_type

  abbrev pub delivery : OutboxEvent V → Subscription → Delivery V
  delivery ev s = record {
    subscription_id = s.id;
    url = s.url;
    secret = s.secret;
    event_id = ev.id;
    event_type = ev.event_type;
    event_tenant_id = ev.tenant_id;
    event_process_id = ev.process_id;
    event_instance_id = ev.instance_id;
    payload = ev.payload;
  }

  -- ORDER BY "CREATED_AT" ASC
  unfoldable pub insert_oldest : OutboxEvent V → List (OutboxEvent V) → List (OutboxEvent V)
  insert_oldest a [] = a ∷ []
  insert_oldest a (b ∷ l) =
      if leb a.created_at b.created_at then a ∷ b ∷ l else b ∷ insert_oldest a l

  unfoldable pub oldest_first : List (OutboxEvent V) → List (OutboxEvent V)
  unfolding insert_oldest
  oldest_first [] = []
  oldest_first (a ∷ l) = insert_oldest a (oldest_first l)

  -- The CTE `claimed`. `locked` are the rows that other transactions hold.
  unfoldable pub claim_pending : (ℕ → Bool) → List (OutboxEvent V) → List (OutboxEvent V)
  unfolding oldest_first
  claim_pending locked events =
      take dispatch_batch
        (oldest_first (keep (λ e. is_pending e.status && not (locked e.id)) events))

  abbrev pub is_claimed : List (OutboxEvent V) → OutboxEvent V → Bool
  is_claimed claimed e = any (λ c. c.id == e.id) claimed

  abbrev pub mark_dispatched : ℕ → OutboxEvent V → OutboxEvent V
  mark_dispatched now e = record e { status = dispatched; dispatched_at = some now }

  unfoldable pub mark_all : List (OutboxEvent V) → ℕ → List (OutboxEvent V) → List (OutboxEvent V)
  mark_all claimed now [] = []
  mark_all claimed now (e ∷ es) =
      (if is_claimed claimed e then mark_dispatched now e else e) ∷ mark_all claimed now es

  -- A delivery job; the database gives its id.
  unfoldable pub delivery_job : ℕ → ℕ → OutboxEvent V → Subscription → Job (Delivery V)
  unfolding new_job
  delivery_job id now ev s =
      new_job id now ev.tenant_id (codes "webhook") dispatch_topic ev.instance_id none
        (some (delivery ev s)) (some 5) none

  -- The inner loop over the matching subscriptions, with the table of jobs and `jobsEnqueued`.
  unfoldable pub enqueue_each :
      (ℕ → ℕ)
      → ℕ
      → OutboxEvent V
      → List Subscription
      → List (Job (Delivery V)) × ℕ
      → List (Job (Delivery V)) × ℕ
  enqueue_each ids now ev [] state = state
  enqueue_each ids now ev (s ∷ ss) (jobs, enqueued) =
      enqueue_each ids now ev ss (enqueue (delivery_job (ids enqueued) now ev s) jobs, suc enqueued)

  -- The subscriptions are read for each event; `subs` gives the rows that the read for it finds.
  unfoldable pub dispatch_all :
      (ℕ → ℕ)
      → ℕ
      → (OutboxEvent V → List Subscription)
      → List (OutboxEvent V)
      → List (Job (Delivery V)) × ℕ
      → List (Job (Delivery V)) × ℕ
  dispatch_all ids now subs [] state = state
  dispatch_all ids now subs (ev ∷ evs) state =
      dispatch_all ids now subs evs (enqueue_each ids now ev (keep (wants ev) (subs ev)) state)

  -- `tick`: the table of events, the events that it claimed, the jobs, and how many it added. RETURNING
  -- gives the claimed rows in an order that SQL leaves open; `order` rearranges them.
  unfoldable pub dispatch_tick :
      (ℕ → ℕ)
      → (ℕ → Bool)
      → ℕ
      → (List (OutboxEvent V) → List (OutboxEvent V))
      → (OutboxEvent V → List Subscription)
      → List (OutboxEvent V)
      → List (Job (Delivery V))
      → List (OutboxEvent V) × List (OutboxEvent V) × (List (Job (Delivery V)) × ℕ)
  dispatch_tick ids locked now order subs events jobs =
      let due = claim_pending locked events in
      (mark_all due now events, due, dispatch_all ids now subs (order due) (jobs, 0))
