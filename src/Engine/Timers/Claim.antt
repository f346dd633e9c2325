-- ===== src/Engine/Timers/Claim.antt =====
-- A timer that one tick has claimed is left alone by others for five minutes.
use bpm_new.Common.{
  ℕ, ◌+◌, ◌≤◌, Bool, true, false, ◌≡◌, refl, ◌∙◌, some, List, [], ◌∷◌, map, leb, All, All-map,
  All-take, All-keep_of, All-map_image, inl, inr, Bool-cases, arith,
}
use bpm_new.Engine.Timers.Defs.{
  Timer, recovery_threshold_ms, is_stale, release, start, changed, recover_stale_firing, is_due,
  insert_due, order_due, pick_due, is_among, claim, is_pending, started_before,
}

module _ {V : Type 0} where
  All-insert_due :
      (P : Timer V → Type 0) (t : Timer V) (ts : List (Timer V))
      → P t
      → All P ts
      → All P (insert_due t ts)
  All-insert_due P t [] h k = (h, tt)
  All-insert_due P t (u ∷ us) h k = elim (Bool-cases (leb t.fire_at u.fire_at)) [
    | inl e ↦ rw e (h, k)
    | inr e ↦ rw e (k.0, All-insert_due P t us h k.1)
  ]

  All-order_due : (P : Timer V → Type 0) (ts : List (Timer V)) → All P ts → All P (order_due ts)
  All-order_due P [] h = tt
  All-order_due P (t ∷ ts) h = All-insert_due P t (order_due ts) h.0 (All-order_due P ts h.1)

  -- A row claimed at a time, if it is among those claimed.
  abbrev IsHeld : List (Timer V) → ℕ → Timer V → Type 0
  IsHeld picked now t =
      is_among picked t ≡ true → (is_pending t.status ≡ false) × (t.firing_started_at ≡ some now)

  IsHeld-start :
      (picked : List (Timer V)) (now : ℕ) (ts : List (Timer V))
      → All (IsHeld picked now) (map (changed (is_among picked) (start now)) ts)
  IsHeld-start picked now [] = tt
  IsHeld-start picked now (t ∷ ts) = elim (Bool-cases (is_among picked t)) [
    | inl e ↦ rw e ((λ _. (refl, refl)), IsHeld-start picked now ts)
    | inr e ↦ rw e ((λ h. absurd (cc (e, h))), IsHeld-start picked now ts)
  ]

  stale_lem :
      (now later : ℕ) (t : Timer V)
      → later ≤ now + recovery_threshold_ms
      → t.firing_started_at ≡ some now
      → ¬ (is_stale later t ≡ true)
  stale_lem now later t soon at stale =
      let fresh : started_before later t.firing_started_at ≡ false = rw at (ground arith) in
      ground arith

  is_among-start :
      (now : ℕ) (picked : List (Timer V)) (t : Timer V)
      → is_among (map (start now) picked) t ≡ is_among picked t
  is_among-start now [] t = refl
  is_among-start now (p ∷ picked) t = rw (is_among-start now picked t) refl

  -- The recovery passes over rows claimed less than the threshold ago.
  IsHeld-release :
      (picked : List (Timer V)) (now later : ℕ) (ts : List (Timer V))
      → later ≤ now + recovery_threshold_ms
      → All (IsHeld picked now) ts
      → All (IsHeld picked now) (map (changed (is_stale later) release) ts)
  IsHeld-release picked now later [] soon held = tt
  IsHeld-release picked now later (t ∷ ts) soon held = elim (Bool-cases (is_stale later t)) [
    | inl e ↦ rw e (
      (λ h. let (out, at) = held.0 h in absurd (stale_lem now later t soon at e)),
      IsHeld-release picked now later ts soon held.1,
    )
    | inr e ↦ rw e (held.0, IsHeld-release picked now later ts soon held.1)
  ]

  due-not_among :
      (picked : List (Timer V)) (now : ℕ) (locked : ℕ → Bool) (later : ℕ) (t : Timer V)
      → IsHeld picked now t × (is_due locked later t ≡ true)
      → is_among picked t ≡ false
  due-not_among picked now locked later t (held, due) = elim (Bool-cases (is_among picked t)) [
    | inl e ↦ let (out, at) = held e in absurd (ground arith)
    | inr e ↦ e
  ]

  -- A tick claims timers; until five minutes after it the recovery and the claim of another tick, which
  -- others' locks may narrow, claim none of them: none of the rows claimed has the id of a row claimed
  -- before.
  pub claim-claim_disjoint_until_recovery :
      (locked locked2 : ℕ → Bool) (now later batch batch2 : ℕ) (timers : List (Timer V))
      → later ≤ now + recovery_threshold_ms
      → All
          (λ t. is_among (claim locked now batch timers).0 t ≡ false)
          (claim locked2 later batch2
            (recover_stale_firing later (claim locked now batch timers).1).1).0
  unfolding claim recover_stale_firing
  claim-claim_disjoint_until_recovery locked locked2 now later batch batch2 timers soon =
      let picked = pick_due locked now batch timers in
      let table =
        map (changed (is_stale later) release)
          (map (changed (is_among picked) (start now)) timers) in
      let held = IsHeld-release picked now later _ soon (IsHeld-start picked now timers) in
      let free : All (λ t. is_among picked t ≡ false) (pick_due locked2 later batch2 table) =
        All-take _ batch2 _ (
          All-order_due _ _ (
            All-keep_of _ (is_due locked2 later) table (
              All-map (IsHeld picked now) _
                (λ t h due. due-not_among picked now locked2 later t (h, due)) table held))) in
      All-map_image _ (start later) _ (All-map _ _ (λ t h. is_among-start now picked t ∙ h) _ free)
