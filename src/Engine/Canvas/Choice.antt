-- ===== src/Engine/Canvas/Choice.antt =====
-- Which flow an exclusive gateway follows.
use mathlib.Core.List.{append_assoc}
use bpm_new.Common.{
  ℕ, suc, ◌+◌, Bool, true, false, ◌≡◌, ◌⊎◌, refl, ap, ◌∙◌, Option, none, some, List, [], ◌∷◌, ◌++◌,
  Str, inl, inr, All, Bool-cases, Option-cases, length, arith, subst,
}
use bpm_new.Data.Json.{Fields}
use bpm_new.Engine.Canvas.Defs.{Edge, Canvas, outgoing}
use bpm_new.Engine.Canvas.Condition.{
  ConditionError, Run, Evaluation, result, rejected, eval_condition,
}
use bpm_new.Engine.Canvas.Flow.{
  GatewayPick, by_condition, by_default, no_match, eval_error, usable_condition, is_default_flow,
  find_default, test_edge, first_match, pick_from, pick_exclusive_gateway_edge,
}

pub Evaluation-cases :
    (v : Evaluation) → ((b : Bool) × (v ≡ result b)) ⊎ ((r : ConditionError) × (v ≡ rejected r))
Evaluation-cases (result b) = inl (b, refl)
Evaluation-cases (rejected r) = inr (r, refl)

module _ {N : Type 0} (run : Str → Fields N → Run) (variables : Fields N) where
  -- The loop passes the edge over: it has no condition, or one that is false.
  abbrev pub IsSkipped : Edge → Type 0
  IsSkipped e =
      (usable_condition e ≡ none)
      ⊎ ((c : Str) × (usable_condition e ≡ some c)
          × (eval_condition run c variables ≡ result false))

  abbrev pub Evaluates : Edge → Evaluation → Type 0
  Evaluates e v = (c : Str) × (usable_condition e ≡ some c) × (eval_condition run c variables ≡ v)

  -- What a pick says of the outgoing sequence flows `out`.
  abbrev pub IsVerdict : List Edge → GatewayPick → Type 0
  IsVerdict out (by_condition e at) =
      (before after : List Edge) × (out ≡ before ++ e ∷ after)
      × All IsSkipped before
      × Evaluates e (result true)
      × (at ≡ length before)
  IsVerdict out (by_default e at) =
      (before after : List Edge) × (out ≡ before ++ e ∷ after)
      × All IsSkipped out
      × All (λ d. is_default_flow d ≡ false) before
      × (is_default_flow e ≡ true)
      × (at ≡ length before)
  IsVerdict out no_match = All IsSkipped out × All (λ d. is_default_flow d ≡ false) out
  IsVerdict out (eval_error reason) =
      (before : List Edge) × (e : Edge) × (after : List Edge) × (out ≡ before ++ e ∷ after)
      × All IsSkipped before
      × Evaluates e (rejected reason)

  -- The same of the loop, which starts to count at `i`.
  abbrev IsFirst : ℕ → List Edge → Option GatewayPick → Type 0
  IsFirst i out none = All IsSkipped out
  IsFirst i out (some (by_condition e at)) =
      (before after : List Edge) × (out ≡ before ++ e ∷ after)
      × All IsSkipped before
      × Evaluates e (result true)
      × (at ≡ i + length before)
  IsFirst i out (some (eval_error reason)) = IsVerdict out (eval_error reason)
  IsFirst i out (some _) = ⊥

  abbrev IsTest : Edge → ℕ → Option GatewayPick → Type 0
  IsTest e i none = IsSkipped e
  IsTest e i (some pick) = IsFirst i (e ∷ []) (some pick)

  test_edge-IsTest : (e : Edge) (i : ℕ) → IsTest e i (test_edge run variables e i)
  unfolding test_edge
  test_edge-IsTest e i = elim (Option-cases (usable_condition e)) [
    | inl h ↦ rw (h, test_edge) (inl h)
    | inr (c, h) ↦ elim (Evaluation-cases (eval_condition run c variables)) [
      | inl (true, v) ↦
          rw (h, test_edge) (rw (v, test_edge) ([], [], refl, tt, (c, h, v), omega arith))
      | inl (false, v) ↦ rw (h, test_edge) (rw (v, test_edge) (inr (c, h, v)))
      | inr (r, v) ↦ rw (h, test_edge) (rw (v, test_edge) ([], e, [], refl, tt, (c, h, v)))
    ]
  ]

  -- An edge that is passed over in front.
  skip-IsFirst :
      (e : Edge) (i : ℕ) (es : List Edge) (o : Option GatewayPick)
      → IsSkipped e
      → IsFirst (suc i) es o
      → IsFirst i (e ∷ es) o
  skip-IsFirst e i es none s h = (s, h)
  skip-IsFirst e i es (some (by_condition d at)) s (before, after, split, skipped, fires, place) =
      (e ∷ before, after, ap (λ l. e ∷ l) split, (s, skipped), fires, omega arith)
  skip-IsFirst e i es (some (by_default d at)) s h = h
  skip-IsFirst e i es (some no_match) s h = h
  skip-IsFirst e i es (some (eval_error r)) s (before, d, after, split, skipped, fails) =
      (e ∷ before, d, after, ap (λ l. e ∷ l) split, (s, skipped), fails)

  stop-IsFirst :
      (e : Edge) (i : ℕ) (es : List Edge) (pick : GatewayPick)
      → IsTest e i (some pick)
      → IsFirst i (e ∷ es) (some pick)
  stop-IsFirst e i es (by_condition d at) (before, after, split, skipped, fires, place) =
      (before, after ++ es, grow before after split, skipped, fires, place)
    where
      grow :
          (before after : List Edge)
          → e ∷ [] ≡ before ++ d ∷ after
          → e ∷ es ≡ before ++ d ∷ (after ++ es)
      grow before after h = ap (λ l. l ++ es) h ∙ append_assoc before (d ∷ after) es
  stop-IsFirst e i es (by_default d at) h = h
  stop-IsFirst e i es no_match h = h
  stop-IsFirst e i es (eval_error r) (before, d, after, split, skipped, fails) = (
    before,
    d,
    after ++ es,
    ap (λ l. l ++ es) split ∙ append_assoc before (d ∷ after) es,
    skipped,
    fails,
  )

  first_match-IsFirst : (i : ℕ) (out : List Edge) → IsFirst i out (first_match run variables i out)
  unfolding first_match
  first_match-IsFirst i [] = tt
  first_match-IsFirst i (e ∷ es) =
      let ih = first_match-IsFirst (suc i) es in
      let here = test_edge-IsTest e i in
      elim (Option-cases (test_edge run variables e i)) [
        | inl h ↦ rw (h, first_match) (skip-IsFirst e i es _ (subst (IsTest e i) h here) ih)
        | inr (pick, h) ↦ rw (h, first_match) (stop-IsFirst e i es pick (subst (IsTest e i) h here))
      ]

  abbrev IsDefaultPick : ℕ → List Edge → GatewayPick → Type 0
  IsDefaultPick i out (by_default e at) =
      (before after : List Edge) × (out ≡ before ++ e ∷ after)
      × All (λ d. is_default_flow d ≡ false) before
      × (is_default_flow e ≡ true)
      × (at ≡ i + length before)
  IsDefaultPick i out no_match = All (λ d. is_default_flow d ≡ false) out
  IsDefaultPick i out _ = ⊥

  later-IsDefaultPick :
      (e : Edge) (i : ℕ) (es : List Edge) (p : GatewayPick)
      → is_default_flow e ≡ false
      → IsDefaultPick (suc i) es p
      → IsDefaultPick i (e ∷ es) p
  later-IsDefaultPick e i es (by_default d at) s (before, after, split, others, yes', place) =
      (e ∷ before, after, ap (λ l. e ∷ l) split, (s, others), yes', omega arith)
  later-IsDefaultPick e i es (by_condition d at) s h = h
  later-IsDefaultPick e i es no_match s h = (s, h)
  later-IsDefaultPick e i es (eval_error r) s h = h

  find_default-IsDefaultPick : (i : ℕ) (out : List Edge) → IsDefaultPick i out (find_default i out)
  unfolding find_default
  find_default-IsDefaultPick i [] = tt
  find_default-IsDefaultPick i (e ∷ es) = elim (Bool-cases (is_default_flow e)) [
    | inl d ↦ rw (d, find_default) ([], es, refl, tt, d, omega arith)
    | inr d ↦
        rw (d, find_default)
          (later-IsDefaultPick e i es _ d (find_default-IsDefaultPick (suc i) es))
  ]

  default-IsVerdict :
      (out : List Edge) (p : GatewayPick)
      → All IsSkipped out
      → IsDefaultPick 0 out p
      → IsVerdict out p
  default-IsVerdict out (by_default e at) s (before, after, split, others, yes', place) =
      (before, after, split, s, others, yes', omega arith)
  default-IsVerdict out (by_condition e at) s h = absurd h
  default-IsVerdict out no_match s h = (s, h)
  default-IsVerdict out (eval_error r) s h = absurd h

  first-IsVerdict : (out : List Edge) (p : GatewayPick) → IsFirst 0 out (some p) → IsVerdict out p
  first-IsVerdict out (by_condition e at) (before, after, split, skipped, fires, place) =
      (before, after, split, skipped, fires, omega arith)
  first-IsVerdict out (by_default e at) h = absurd h
  first-IsVerdict out no_match h = absurd h
  first-IsVerdict out (eval_error r) h = h

  -- What an exclusive gateway does, whatever its flows are: it follows the first sequence flow whose
  -- condition is true, if no condition before it fails; it fails with the first condition that fails,
  -- if no condition before it is true; where every condition is false or missing it follows the first
  -- flow marked as default, and there is no match where none is marked. `matchedAt` is the position.
  pub pick_exclusive_gateway_edge-IsVerdict :
      (c : Canvas N) (from : Str)
      → IsVerdict (outgoing c from) (pick_exclusive_gateway_edge run variables c from)
  unfolding pick_exclusive_gateway_edge pick_from
  pick_exclusive_gateway_edge-IsVerdict c from =
      let out = outgoing c from in
      let loop = first_match-IsFirst 0 out in
      elim (Option-cases (first_match run variables 0 out)) [
        | inl h ↦
            rw (h, pick_from)
              (default-IsVerdict out _ (subst (IsFirst 0 out) h loop)
                (find_default-IsDefaultPick 0 out))
        | inr (p, h) ↦ rw (h, pick_from) (first-IsVerdict out p (subst (IsFirst 0 out) h loop))
      ]
