-- ===== src/Engine/Outbox/Wanted.antt =====
-- Which subscriptions want an event.
use mathlib.Core.List.{Memᴰ}
use bpm_new.Common.{
  ℕ, Bool, true, false, ◌||◌, ◌⊎◌, ◌↔◌, ◌≡◌, refl, sym, ap, Option, none, some, List, [], ◌∷◌, ◌++◌,
  map, codes, str_eq, str_eq_refl, str_eq→eq, ==_refl, ==_iff, any, keep, Bool-cases, inl, inr,
  arith, subst,
}
use bpm_new.Data.Chars.{trim}
use bpm_new.Data.Split.{split}
use bpm_new.Engine.Outbox.Defs.{
  OutboxEvent, Subscription, Delivery, in_scope, trim_all, listens, wants, delivery,
}

in_scope_iff :
    (p q : Option ℕ)
    → (in_scope p q ≡ true) ↔ ((p ≡ none) ⊎ ((n : ℕ) × (p ≡ some n) × (q ≡ some n)))
in_scope_iff none q = ((λ h. inl refl), (λ h. refl))
in_scope_iff (some p) none =
    ((λ h. absurd (cc h)), (λ h. elim h [ inl e ↦ absurd (cc e) | inr (n, e, f) ↦ absurd (cc f) ]))
in_scope_iff (some p) (some q) = (
  (λ h. inr (p, refl, ap some ((==_iff q p).0 h))),
  (λ h. elim h [ inl e ↦ absurd (cc e) | inr (n, e, f) ↦ (==_iff q p).1 (cc (e, f)) ]),
)

or_iff : (a b : Bool) → ((a || b) ≡ true) ↔ ((a ≡ true) ⊎ (b ≡ true))
or_iff true b = ((λ h. inl refl), (λ h. refl))
or_iff false b = ((λ h. inr h), (λ h. elim h [ inl e ↦ absurd (cc e) | inr e ↦ e ]))

Mem-append-left : {A : Type 0} (x : A) (xs ys : List A) → Memᴰ x xs → Memᴰ x (xs ++ ys)
Mem-append-left x [] ys m = elim m [ ]
Mem-append-left x (y ∷ xs) ys (Memᴰ.head e) = Memᴰ.head e
Mem-append-left x (y ∷ xs) ys (Memᴰ.tail m) = Memᴰ.tail (Mem-append-left x xs ys m)

Mem-append-right : {A : Type 0} (x : A) (xs ys : List A) → Memᴰ x ys → Memᴰ x (xs ++ ys)
Mem-append-right x [] ys m = m
Mem-append-right x (y ∷ xs) ys m = Memᴰ.tail (Mem-append-right x xs ys m)

Mem-append : {A : Type 0} (x : A) (xs ys : List A) → Memᴰ x (xs ++ ys) → Memᴰ x xs ⊎ Memᴰ x ys
Mem-append x [] ys m = inr m
Mem-append x (y ∷ xs) ys (Memᴰ.head e) = inl (Memᴰ.head e)
Mem-append x (y ∷ xs) ys (Memᴰ.tail m) = elim (Mem-append x xs ys m) [
  | inl k ↦ inl (Memᴰ.tail k)
  | inr k ↦ inr k
]

Mem-cons : {A : Type 0} (x y : A) (ys : List A) → Memᴰ x (y ∷ ys) → (x ≡ y) ⊎ Memᴰ x ys
Mem-cons x y ys (Memᴰ.head e) = inl e
Mem-cons x y ys (Memᴰ.tail m) = inr m

module _ {V : Type 0} where
  -- The deliveries of events to the subscriptions that want them, in the order of both.
  abbrev pub deliveries :
      (OutboxEvent V → List Subscription) → List (OutboxEvent V) → List (Delivery V)
  deliveries subs [] = []
  deliveries subs (ev ∷ evs) = map (delivery ev) (keep (wants ev) (subs ev)) ++ deliveries subs evs

  -- The subscription is active and of the event's tenant, it is for all processes or the event's, and
  -- its list of types has the event's or stands for all.
  abbrev pub IsWanted : OutboxEvent V → Subscription → Type 0
  IsWanted ev s =
      (s.tenant_id ≡ ev.tenant_id)
      × (s.is_active ≡ true)
      × ((s.process_id ≡ none) ⊎ ((p : ℕ) × (s.process_id ≡ some p) × (ev.process_id ≡ some p)))
      × ((trim s.event_types ≡ codes "*")
          ⊎ (any (λ t. str_eq t ev.event_type) (trim_all (split b',' s.event_types)) ≡ true))

  wants_iff : (ev : OutboxEvent V) (s : Subscription) → (wants ev s ≡ true) ↔ IsWanted ev s
  unfolding wants listens
  wants_iff ev s =
      let scope = in_scope_iff s.process_id ev.process_id in
      let types =
        or_iff (str_eq (trim s.event_types) (codes "*"))
          (any (λ t. str_eq t ev.event_type) (trim_all (split b',' s.event_types))) in
      (
        (λ h. (
          ground arith,
          ground arith,
          scope.0 (ground arith),
          elim (types.0 (ground arith)) [
            | inl e ↦ inl (str_eq→eq (trim s.event_types) (codes "*") e)
            | inr e ↦ inr e
          ],
        )),
        (λ (t, a, p, l).
            let p' = scope.1 p in
            let l' =
              types.1 (elim l [ inl e ↦ inl (rw e (str_eq_refl (codes "*"))) | inr e ↦ inr e ]) in
            rw (t, a, p', ==_refl ev.tenant_id) l'),
      )

  Mem-wanted :
      (ev : OutboxEvent V) (s : Subscription) (ss : List Subscription)
      → Memᴰ s ss
      → wants ev s ≡ true
      → Memᴰ (delivery ev s) (map (delivery ev) (keep (wants ev) ss))
  Mem-wanted ev s [] m w = elim m [ ]
  Mem-wanted ev s (t ∷ ss) (Memᴰ.head e) w =
      let w' : wants ev t ≡ true = subst (λ x. wants ev x ≡ true) e w in
      rw w' (Memᴰ.head (ap (delivery ev) e))
  Mem-wanted ev s (t ∷ ss) (Memᴰ.tail m) w = elim (Bool-cases (wants ev t)) [
    | inl e ↦ rw e (Memᴰ.tail (Mem-wanted ev s ss m w))
    | inr e ↦ rw e (Mem-wanted ev s ss m w)
  ]

  wanted-Mem :
      (ev : OutboxEvent V) (d : Delivery V) (ss : List Subscription)
      → Memᴰ d (map (delivery ev) (keep (wants ev) ss))
      → (s : Subscription) × Memᴰ s ss × (wants ev s ≡ true) × (d ≡ delivery ev s)
  wanted-Mem ev d [] m = elim m [ ]
  wanted-Mem ev d (t ∷ ss) m = elim (Bool-cases (wants ev t)) [
    | inl w ↦ elim (Mem-cons d (delivery ev t) _ (rw w at m)) [
      | inl e ↦ (t, Memᴰ.head refl, w, e)
      | inr k ↦ let (s, n, v, e) = wanted-Mem ev d ss k in (s, Memᴰ.tail n, v, e)
    ]
    | inr w ↦ let (s, n, v, e) = wanted-Mem ev d ss (rw w at m) in (s, Memᴰ.tail n, v, e)
  ]

  -- The delivery of one of the events to a subscription that is read for it and wants it.
  abbrev pub IsDue :
      (OutboxEvent V → List Subscription) → List (OutboxEvent V) → Delivery V → Type 0
  IsDue subs evs d =
      (ev : OutboxEvent V) × (s : Subscription) × Memᴰ ev evs
      × Memᴰ s (subs ev)
      × IsWanted ev s
      × (d ≡ delivery ev s)

  pub Mem-deliveries :
      (subs : OutboxEvent V → List Subscription) (evs : List (OutboxEvent V)) (d : Delivery V)
      → Memᴰ d (deliveries subs evs) ↔ IsDue subs evs d
  Mem-deliveries subs [] d = ((λ m. elim m [ ]), (λ (ev, s, m, o, w, q). elim m [ ]))
  Mem-deliveries subs (e ∷ evs) d =
      let here = map (delivery e) (keep (wants e) (subs e)) in
      let ih = Mem-deliveries subs evs d in
      (
        (λ m. elim (Mem-append d here (deliveries subs evs) m) [
          | inl k ↦
              let (s, n, w, q) = wanted-Mem e d (subs e) k in
              (e, s, Memᴰ.head refl, n, (wants_iff e s).0 w, q)
          | inr k ↦ let (ev, s, n, o, w, q) = ih.0 k in (ev, s, Memᴰ.tail n, o, w, q)
        ]),
        (λ (ev, s, n, o, w, q). elim n [
          | Memᴰ.head p ↦
              subst (λ x. Memᴰ x (here ++ deliveries subs evs)) (sym q)
                (subst
                  (λ x.
                    Memᴰ (delivery ev s)
                      (map (delivery x) (keep (wants x) (subs x)) ++ deliveries subs evs))
                  p (Mem-append-left _ _ _ (Mem-wanted ev s (subs ev) o ((wants_iff ev s).1 w))))
          | Memᴰ.tail k ↦ Mem-append-right d here _ (ih.1 (ev, s, k, o, w, q))
        ]),
      )
