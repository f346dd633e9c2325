-- ===== src/Engine/Outbox/Dispatch.antt =====
-- Which deliveries a tick makes of which events.
use mathlib.Core.List.{Memᴰ, append_assoc, append-nil}
use bpm_new.Common.{
  ◌↔◌, ℕ, suc, ◌+◌, Bool, true, false, ◌&&◌, not, leb, ◌≡◌, refl, sym, ap, ◌∙◌, some, List, [], ◌∷◌,
  ◌++◌, map, All, All-append, All-take, keep, length, length-append, Bool-cases, inl, inr, arith,
}
use bpm_new.Engine.Worker.Defs.{Job, queued}
use bpm_new.Engine.Worker.Queue.{enqueue}
use bpm_new.Common.{All-keep_of}
use bpm_new.Engine.Outbox.Wanted.{deliveries, IsDue, Mem-deliveries}
use bpm_new.Engine.Outbox.Defs.{
  OutboxEvent, Subscription, Delivery, is_pending, wants, delivery, dispatch_topic, insert_oldest,
  oldest_first, claim_pending, dispatch_batch, is_claimed, mark_all, delivery_job, enqueue_each,
  dispatch_all, dispatch_tick,
}

map-append {ℓ κ} :
    {A : Type ℓ} {B : Type κ} (f : A → B) (xs ys : List A) → map f (xs ++ ys) ≡ map f xs ++ map f ys
map-append f [] ys = refl
map-append f (x ∷ xs) ys = ap (λ l. f x ∷ l) (map-append f xs ys)

module _ {V : Type 0} where
  -- A job that no worker has seen yet, for the delivery that it holds.
  abbrev pub IsDeliveryJob : Job (Delivery V) → Type 0
  IsDeliveryJob j =
      (j.status ≡ queued)
      × (j.topic ≡ dispatch_topic)
      × (j.attempts ≡ 0)
      × ((d : Delivery V) × (j.input ≡ some d) × (j.tenant_id ≡ d.event_tenant_id))

  -- What a run of a loop adds to the table and to the count.
  abbrev pub Adds :
      List (Delivery V) → List (Job (Delivery V)) × ℕ → List (Job (Delivery V)) × ℕ → Type 0
  Adds ds before after =
      (fresh : List (Job (Delivery V))) × (after.0 ≡ before.0 ++ fresh)
      × (after.1 ≡ before.1 + length fresh)
      × (map (λ (j : Job (Delivery V)). j.input) fresh ≡ map some ds)
      × All IsDeliveryJob fresh

  Adds-none : (s : List (Job (Delivery V)) × ℕ) → Adds [] s s
  Adds-none (jobs, n) = ([], sym (append-nil jobs), omega arith, refl, tt)

  Adds-append :
      (ds es : List (Delivery V)) (s t u : List (Job (Delivery V)) × ℕ)
      → Adds ds s t
      → Adds es t u
      → Adds (ds ++ es) s u
  Adds-append ds es s t u (f, a, b, c, d) (g, a', b', c', d') = (
    f ++ g,
    a' ∙ ap (λ l. l ++ g) a ∙ append_assoc s.0 f g,
    omega (arith, length-append f g),
    map-append _ f g
        ∙ ap (λ l. l ++ map (λ (j : Job (Delivery V)). j.input) g) c
        ∙ ap (λ l. map some ds ++ l) c'
        ∙ sym (map-append some ds es),
    All-append IsDeliveryJob f g d d',
  )

  enqueue_each-Adds :
      (ids : ℕ → ℕ) (now : ℕ) (ev : OutboxEvent V) (ss : List Subscription)
      (jobs : List (Job (Delivery V))) (n : ℕ)
      → Adds (map (delivery ev) ss) (jobs, n) (enqueue_each ids now ev ss (jobs, n))
  unfolding enqueue_each delivery_job enqueue
  enqueue_each-Adds ids now ev [] jobs n = Adds-none (jobs, n)
  enqueue_each-Adds ids now ev (s ∷ ss) jobs n =
      let j = delivery_job (ids n) now ev s in
      let (fresh, a, b, c, d) = enqueue_each-Adds ids now ev ss (enqueue j jobs) (suc n) in
      (
        j ∷ fresh,
        a ∙ append_assoc jobs (j ∷ []) fresh,
        omega arith,
        ap (λ l. some (delivery ev s) ∷ l) c,
        ((refl, refl, refl, (delivery ev s, refl, refl)), d),
      )

  dispatch_all-Adds :
      (ids : ℕ → ℕ) (now : ℕ) (subs : OutboxEvent V → List Subscription)
      (evs : List (OutboxEvent V)) (s : List (Job (Delivery V)) × ℕ)
      → Adds (deliveries subs evs) s (dispatch_all ids now subs evs s)
  unfolding dispatch_all
  dispatch_all-Adds ids now subs [] s = Adds-none s
  dispatch_all-Adds ids now subs (ev ∷ evs) (jobs, n) =
      let t = enqueue_each ids now ev (keep (wants ev) (subs ev)) (jobs, n) in
      Adds-append _ (deliveries subs evs) (jobs, n) t _
        (enqueue_each-Adds ids now ev (keep (wants ev) (subs ev)) jobs n)
        (dispatch_all-Adds ids now subs evs t)

  -- A tick adds to the queue one queued job for each delivery in a list, in its order, for the tenant of
  -- the event and on the topic of the webhook handler, adds nothing else, and reports as many jobs. The
  -- list holds just the deliveries of the events that the tick claimed to those subscriptions read for
  -- the event that are active, of its tenant, for all processes or its own, and for all types or its
  -- own. The order in which the claimed events come is any.
  pub dispatch_tick-IsDue :
      (ids : ℕ → ℕ) (locked : ℕ → Bool) (now : ℕ)
      (order : List (OutboxEvent V) → List (OutboxEvent V))
      (subs : OutboxEvent V → List Subscription) (events : List (OutboxEvent V))
      (jobs : List (Job (Delivery V)))
      → ((l : List (OutboxEvent V)) (e : OutboxEvent V) → Memᴰ e (order l) ↔ Memᴰ e l)
      → let (events', due, state) = dispatch_tick ids locked now order subs events jobs in
        (ds : List (Delivery V)) × Adds ds (jobs, 0) state
        × ((d : Delivery V) → Memᴰ d ds ↔ IsDue subs due d)
  unfolding dispatch_tick
  dispatch_tick-IsDue ids locked now order subs events jobs same =
      let due = claim_pending locked events in
      let ds = deliveries subs (order due) in
      (
        ds,
        dispatch_all-Adds ids now subs (order due) (jobs, 0),
        λ d.
            let mem = Mem-deliveries subs (order due) d in
            (
              (λ m. let (ev, s, n, o, w, q) = mem.0 m in (ev, s, (same due ev).0 n, o, w, q)),
              (λ (ev, s, n, o, w, q). mem.1 (ev, s, (same due ev).1 n, o, w, q)),
            ),
      )

  All-insert_oldest :
      (P : OutboxEvent V → Type 0) (a : OutboxEvent V) (l : List (OutboxEvent V))
      → P a
      → All P l
      → All P (insert_oldest a l)
  unfolding insert_oldest
  All-insert_oldest P a [] h k = (h, tt)
  All-insert_oldest P a (b ∷ l) h k = elim (Bool-cases (leb a.created_at b.created_at)) [
    | inl e ↦ rw e (h, k)
    | inr e ↦ rw e (k.0, All-insert_oldest P a l h k.1)
  ]

  All-oldest_first :
      (P : OutboxEvent V → Type 0) (l : List (OutboxEvent V)) → All P l → All P (oldest_first l)
  unfolding oldest_first
  All-oldest_first P [] h = tt
  All-oldest_first P (a ∷ l) h =
      All-insert_oldest P a (oldest_first l) h.0 (All-oldest_first P l h.1)

  -- A row that is pending after the claim was not claimed.
  left_pending :
      (due : List (OutboxEvent V)) (now : ℕ) (locked : ℕ → Bool) (events : List (OutboxEvent V))
      → All
          (λ e. (is_pending e.status && not (locked e.id)) ≡ true → is_claimed due e ≡ false)
          (mark_all due now events)
  unfolding mark_all
  left_pending due now locked [] = tt
  left_pending due now locked (e ∷ es) = elim (Bool-cases (is_claimed due e)) [
    | inl c ↦ rw c ((λ h. absurd (cc h)), left_pending due now locked es)
    | inr c ↦ rw c ((λ h. c), left_pending due now locked es)
  ]

  -- No event is dispatched twice: a tick on the table that another tick left claims no event whose id
  -- the first one claimed.
  pub dispatch_tick_once :
      (ids ids' : ℕ → ℕ) (locked locked' : ℕ → Bool) (now now' : ℕ)
      (order order' : List (OutboxEvent V) → List (OutboxEvent V))
      (subs subs' : OutboxEvent V → List Subscription) (events : List (OutboxEvent V))
      (jobs jobs' : List (Job (Delivery V)))
      → let (events', due, state) = dispatch_tick ids locked now order subs events jobs in
        let (events'', due', state') = dispatch_tick ids' locked' now' order' subs' events' jobs' in
        All (λ e. is_claimed due e ≡ false) due'
  unfolding dispatch_tick claim_pending
  dispatch_tick_once ids ids' locked locked' now now' order order' subs subs' events jobs jobs' =
      let due = claim_pending locked events in
      All-take _ dispatch_batch _
        (All-oldest_first _ _ (All-keep_of _ _ _ (left_pending due now locked' events)))
