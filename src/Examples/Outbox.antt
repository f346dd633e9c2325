-- ===== src/Examples/Outbox.antt =====
-- Two events and a subscription to one of them.
use mathlib.Core.List.{Memᴰ}
use bpm_new.Common.{◌↔◌, ℕ, ◌+◌, Bool, false, true, ◌≡◌, List, [], ◌∷◌, Str, codes, none, some, All}
use bpm_new.Engine.Worker.Defs.{Job}
use bpm_new.Engine.Outbox.Defs.{
  OutboxEvent, pending, Subscription, Delivery, is_claimed, dispatch_tick,
}
use bpm_new.Engine.Outbox.Wanted.{IsDue}
use bpm_new.Engine.Outbox.Dispatch.{Adds, dispatch_tick-IsDue, dispatch_tick_once}

abbrev event : ℕ → Str → OutboxEvent ℕ
event id type = record {
  id = id;
  tenant_id = 1;
  process_id = some 3;
  instance_id = some 9;
  event_type = type;
  payload = 0;
  status = pending;
  created_at = id;
  dispatched_at = none;
}

abbrev events : List (OutboxEvent ℕ)
events = event 1 (codes "started") ∷ event 2 (codes "completed") ∷ []

abbrev hook : Subscription
hook = record {
  id = 5;
  tenant_id = 1;
  process_id = none;
  url = codes "https://example.com";
  event_types = codes "completed, failed";
  secret = codes "enc";
  is_active = true;
}

abbrev free : ℕ → Bool
free _ = false

abbrev no_jobs : List (Job (Delivery ℕ))
no_jobs = []

abbrev as_claimed : List (OutboxEvent ℕ) → List (OutboxEvent ℕ)
as_claimed l = l

abbrev hooks : OutboxEvent ℕ → List Subscription
hooks _ = hook ∷ []

dispatch_tick-IsDue_example :
    let (after, due, state) = dispatch_tick (λ i. i) free 100 as_claimed hooks events no_jobs in
    (ds : List (Delivery ℕ)) × Adds ds (no_jobs, 0) state
    × ((d : Delivery ℕ) → Memᴰ d ds ↔ IsDue hooks due d)
dispatch_tick-IsDue_example =
    dispatch_tick-IsDue (λ i. i) free 100 as_claimed hooks events no_jobs
      (λ l e. ((λ m. m), (λ m. m)))

dispatch_tick_once_example :
    let (after, due, state) = dispatch_tick (λ i. i) free 100 as_claimed hooks events no_jobs in
    let (later, due', state') =
      dispatch_tick (λ i. i + 50) free 102 as_claimed hooks after no_jobs in
    All (λ e. is_claimed due e ≡ false) due'
dispatch_tick_once_example =
    dispatch_tick_once (λ i. i) (λ i. i + 50) free free 100 102 as_claimed as_claimed hooks hooks
      events no_jobs no_jobs
