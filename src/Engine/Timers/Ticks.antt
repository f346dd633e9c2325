-- ===== src/Engine/Timers/Ticks.antt =====
-- What a tick leaves in the table.
use bpm_new.Common.{
  keep-keep, keep-cong, keep-all, ℕ, ◌+◌, suc, Bool, true, false, ◌≡◌, refl, sym, ap, ◌∙◌, ◌&&◌,
  ◌||◌, not, Option, none, some, List, [], ◌∷◌, ◌==◌, if◌then◌else◌, length, keep, any, inl, inr,
  Bool-cases, arith,
}
use bpm_new.Engine.Timers.Defs.{
  Timer, TimerKind, Callbacks, Tally, delete_timer, dispatch_to, dispatch, claim,
  recover_stale_firing, poll_batch_size, tick,
}

abbrev bump : Bool → ℕ → ℕ
bump true n = suc n
bump false n = n

bump-add : (b : Bool) (m n : ℕ) → m + bump b n ≡ bump b m + n
bump-add true m n = omega arith
bump-add false m n = refl

module _ {V : Type 0} where
  -- Callbacks that leave the timers alone: those of the kinds that are registered end well or throw.
  abbrev pub outcome :
      Option (Timer V → Bool) → Option (Timer V → List (Timer V) → Bool × List (Timer V))
  outcome none = none
  outcome (some ends) = some (λ t timers. (ends t, timers))

  abbrev pub inert : (TimerKind → Option (Timer V → Bool)) → Callbacks V
  inert ends kind = outcome (ends kind)

  -- Which calls there are, and which of them end well.
  abbrev pub is_fired : Option (Timer V → Bool) → Timer V → Bool
  is_fired none t = false
  is_fired (some ends) t = ends t

  abbrev pub is_failed : Option (Timer V → Bool) → Timer V → Bool
  is_failed none t = false
  is_failed (some ends) t = not (ends t)

  -- The row is of a timer that was claimed and has not failed.
  abbrev pub is_over : (TimerKind → Option (Timer V → Bool)) → List (Timer V) → Timer V → Bool
  is_over ends claimed t = any (λ p. p.id == t.id && not (is_failed (ends p.kind) p)) claimed

  length-keep :
      (p : Timer V → Bool) (t : Timer V) (ts : List (Timer V))
      → length (keep p (t ∷ ts)) ≡ bump (p t) (length (keep p ts))
  length-keep p t ts = elim (Bool-cases (p t)) [ inl e ↦ rw e refl | inr e ↦ rw e refl ]

  -- One call of a callback, or none.
  dispatch_to-inert :
      (o : Option (Timer V → Bool)) (p : Timer V) (timers : List (Timer V)) (n : Tally)
      → dispatch_to p (outcome o) timers n ≡ (
        (if is_failed o p then timers else delete_timer p.id timers),
        record { fired = bump (is_fired o p) n.fired; failed = bump (is_failed o p) n.failed },
      )
  dispatch_to-inert none p timers n = refl
  dispatch_to-inert (some ends) p timers n = elim (Bool-cases (ends p)) [
    | inl e ↦ rw e refl
    | inr e ↦ rw e refl
  ]

  apart_lem :
      (p t : Timer V) (b : Bool) → (not (t.id == p.id) && not b) ≡ not ((p.id == t.id && true) || b)
  apart_lem p t b = ground arith

  keep-over :
      (ends : TimerKind → Option (Timer V → Bool)) (p : Timer V) (claimed timers : List (Timer V))
      → keep
          (λ t. not (is_over ends claimed t))
          (if is_failed (ends p.kind) p then timers else delete_timer p.id timers)
        ≡ keep (λ t. not (is_over ends (p ∷ claimed) t)) timers
  keep-over ends p claimed timers = elim (Bool-cases (is_failed (ends p.kind) p)) [
    | inl e ↦ rw e (keep-cong _ _ (λ t. ground arith) timers)
    | inr e ↦ rw e (
        keep-keep (λ t. not (is_over ends claimed t)) (λ t. not (t.id == p.id)) timers
        ∙ keep-cong (λ t. not (t.id == p.id) && not (is_over ends claimed t))
            (λ t. not ((p.id == t.id && true) || is_over ends claimed t))
            (λ t. apart_lem p t (is_over ends claimed t)) timers)
  ]

  abbrev left : (TimerKind → Option (Timer V → Bool)) → Timer V → List (Timer V) → List (Timer V)
  left ends p timers = if is_failed (ends p.kind) p then timers else delete_timer p.id timers

  abbrev next : (TimerKind → Option (Timer V → Bool)) → Timer V → Tally → Tally
  next ends p n = record {
    fired = bump (is_fired (ends p.kind) p) n.fired;
    failed = bump (is_failed (ends p.kind) p) n.failed;
  }

  dispatch-first :
      (ends : TimerKind → Option (Timer V → Bool)) (p : Timer V) (claimed timers : List (Timer V))
      (n : Tally)
      → dispatch (inert ends) (p ∷ claimed) timers n
        ≡ dispatch (inert ends) claimed (left ends p timers) (next ends p n)
  dispatch-first ends p claimed timers n =
      ap (λ (r : List (Timer V) × Tally). dispatch (inert ends) claimed r.0 r.1)
        (dispatch_to-inert (ends p.kind) p timers n)

  dispatch-table :
      (ends : TimerKind → Option (Timer V → Bool)) (claimed timers : List (Timer V)) (n : Tally)
      → (dispatch (inert ends) claimed timers n).0 ≡ keep (λ t. not (is_over ends claimed t)) timers
  dispatch-table ends [] timers n = sym (keep-all timers)
  dispatch-table ends (p ∷ claimed) timers n =
      ap (λ r. r.0) (dispatch-first ends p claimed timers n)
      ∙ dispatch-table ends claimed (left ends p timers) (next ends p n)
      ∙ keep-over ends p claimed timers

  dispatch-tally :
      (ends : TimerKind → Option (Timer V → Bool)) (claimed timers : List (Timer V)) (n : Tally)
      → ((dispatch (inert ends) claimed timers n).1.fired
          ≡ length (keep (λ p. is_fired (ends p.kind) p) claimed) + n.fired)
        × ((dispatch (inert ends) claimed timers n).1.failed
            ≡ length (keep (λ p. is_failed (ends p.kind) p) claimed) + n.failed)
  dispatch-tally ends [] timers n = (omega arith, omega arith)
  dispatch-tally ends (p ∷ claimed) timers n =
      let fired = length-keep (λ q. is_fired (ends q.kind) q) p claimed in
      let failed = length-keep (λ q. is_failed (ends q.kind) q) p claimed in
      let (a, b) = dispatch-tally ends claimed (left ends p timers) (next ends p n) in
      let first = dispatch-first ends p claimed timers n in
      (
        ap (λ r. r.1.fired) first
            ∙ a
            ∙ bump-add (is_fired (ends p.kind) p) _ n.fired
            ∙ ap (λ k. k + n.fired) (sym fired),
        ap (λ r. r.1.failed) first
            ∙ b
            ∙ bump-add (is_failed (ends p.kind) p) _ n.failed
            ∙ ap (λ k. k + n.failed) (sym failed),
      )

  -- With callbacks that leave the timers alone, a tick leaves the rows of the table as its claim has left
  -- it, less those of the timers claimed whose callback ended well or whose kind has none. Its counts
  -- are of the timers claimed whose callback ended well and of those whose callback threw; these stay.
  pub tick-inert :
      (ends : TimerKind → Option (Timer V → Bool)) (locked : ℕ → Bool) (now : ℕ)
      (timers : List (Timer V)) {claimed table : List (Timer V)}
      → claim locked now poll_batch_size (recover_stale_firing now timers).1 ≡ (claimed, table)
      → ((tick (inert ends) locked now timers).1 ≡ keep (λ t. not (is_over ends claimed t)) table)
        × ((tick (inert ends) locked now timers).2.fired
            ≡ length (keep (λ p. is_fired (ends p.kind) p) claimed))
        × ((tick (inert ends) locked now timers).2.failed
            ≡ length (keep (λ p. is_failed (ends p.kind) p) claimed))
  unfolding tick
  tick-inert ends locked now timers {claimed} {table} e =
      let zero_tally : Tally = record { fired = 0; failed = 0 } in
      let (a, b) = dispatch-tally ends claimed table zero_tally in
      rw e (dispatch-table ends claimed table zero_tally, a ∙ omega arith, b ∙ omega arith)
