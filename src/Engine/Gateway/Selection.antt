-- ===== src/Engine/Gateway/Selection.antt =====
-- The flows that an inclusive gateway fires.
use bpm_new.Common.{
  true, false, ◌≡◌, ◌≢◌, ◌⊎◌, refl, Option, none, some, List, [], ◌∷◌, ◌++◌, Str, inl, inr,
  Bool-cases, Option-cases, find,
}
use bpm_new.Data.Json.{Fields}
use bpm_new.Engine.Canvas.Defs.{Edge}
use bpm_new.Engine.Canvas.Condition.{
  ConditionError, Run, Evaluation, result, rejected, eval_condition,
}
use bpm_new.Engine.Canvas.Flow.{usable_condition}
use bpm_new.Engine.Canvas.Choice.{Evaluation-cases}
use bpm_new.Engine.Gateway.Defs.{
  Selection, fire, condition_failed, default_missing, nothing_matched, is_edge, add_matched,
  match_flows, default_selection, or_default, select_inclusive,
}

module _ {N : Type 0} (run : Str → Fields N → Run) (variables : Fields N)
    (default_flow_id : Option Str) where
  -- A flow that is not the default one, and whose condition comes out as `v`.
  abbrev pub ComesTo : Edge → Evaluation → Type 0
  ComesTo e v =
      (is_edge default_flow_id e ≡ false)
      × ((c : Str) × (usable_condition e ≡ some c) × (eval_condition run c variables ≡ v))

  -- The default flow is passed over, and so is a flow with no condition or a false one.
  abbrev pub IsPassed : Edge → Type 0
  IsPassed e =
      (is_edge default_flow_id e ≡ true) ⊎ (usable_condition e ≡ none) ⊎ ComesTo e (result false)

  -- The second list has the flows of the first whose conditions are true, in their order.
  pub data Chosen : List Edge → List Edge → Type 0 where
    stop : Chosen [] []
    matched :
        {e : Edge} {out firing : List Edge}
        → ComesTo e (result true)
        → Chosen out firing
        → Chosen (e ∷ out) (e ∷ firing)
    passed :
        {e : Edge} {out firing : List Edge}
        → IsPassed e
        → Chosen out firing
        → Chosen (e ∷ out) firing

  -- The loop stopped at `e`; the flows before it had conditions with values, or were passed over.
  abbrev pub StopsAt : List Edge → Edge → ConditionError → Type 0
  StopsAt out e reason =
      (before after firing : List Edge) × (out ≡ before ++ e ∷ after)
      × Chosen before firing
      × ComesTo e (rejected reason)

  abbrev IsMatch : List Edge → Selection → Type 0
  IsMatch out (fire firing) = Chosen out firing
  IsMatch out (condition_failed e reason) = StopsAt out e reason
  IsMatch out _ = ⊥

  -- What is selected of the outgoing flows `out`.
  abbrev pub IsSelection : List Edge → Selection → Type 0
  IsSelection out (fire firing) =
      ((firing ≢ []) × Chosen out firing)
      ⊎ ((e : Edge) × (firing ≡ e ∷ [])
          × (default_flow_id ≢ none)
          × Chosen out []
          × (find (is_edge default_flow_id) out ≡ some e))
  IsSelection out (condition_failed e reason) = StopsAt out e reason
  IsSelection out default_missing = Chosen out [] × (find (is_edge default_flow_id) out ≡ none)
  IsSelection out nothing_matched =
      Chosen out [] × ((default_flow_id ≡ none) ⊎ (default_flow_id ≡ some []))

  passed-IsMatch :
      (e : Edge) (out : List Edge) (s : Selection)
      → IsPassed e
      → IsMatch out s
      → IsMatch (e ∷ out) s
  passed-IsMatch e out (fire firing) p h = passed p h
  passed-IsMatch e out (condition_failed d r) p (before, after, firing, split, chosen, fails) =
      (e ∷ before, after, firing, rw split refl, passed p chosen, fails)
  passed-IsMatch e out default_missing p h = absurd h
  passed-IsMatch e out nothing_matched p h = absurd h

  matched-IsMatch :
      (e : Edge) (out : List Edge) (s : Selection)
      → ComesTo e (result true)
      → IsMatch out s
      → IsMatch (e ∷ out) (add_matched e s)
  matched-IsMatch e out (fire firing) p h = matched p h
  matched-IsMatch e out (condition_failed d r) p (before, after, firing, split, chosen, fails) =
      (e ∷ before, after, e ∷ firing, rw split refl, matched p chosen, fails)
  matched-IsMatch e out default_missing p h = absurd h
  matched-IsMatch e out nothing_matched p h = absurd h

  match_flows-IsMatch :
      (out : List Edge) → IsMatch out (match_flows run variables default_flow_id out)
  unfolding match_flows
  match_flows-IsMatch [] = stop
  match_flows-IsMatch (e ∷ out) =
      let rest = match_flows-IsMatch out in
      elim (Bool-cases (is_edge default_flow_id e)) [
        | inl d ↦ rw d (passed-IsMatch e out _ (inl d) rest)
        | inr d ↦ elim (Option-cases (usable_condition e)) [
          | inl n ↦ rw (d, n, match_flows) (passed-IsMatch e out _ (inr (inl n)) rest)
          | inr (c, u) ↦ elim (Evaluation-cases (eval_condition run c variables)) [
            | inl (true, v) ↦
                rw (d, u, match_flows)
                  (rw (v, match_flows) (matched-IsMatch e out _ (d, (c, u, v)) rest))
            | inl (false, v) ↦
                rw (d, u, match_flows)
                  (rw (v, match_flows) (passed-IsMatch e out _ (inr (inr (d, (c, u, v)))) rest))
            | inr (r, v) ↦
                rw (d, u, match_flows)
                  (rw (v, match_flows) ([], out, [], refl, stop, (d, (c, u, v))))
          ]
        ]
      ]

default-IsSelection :
    {N : Type 0} (run : Str → Fields N → Run) (variables : Fields N) (d : Option Str)
    (out : List Edge)
    → Chosen run variables d out []
    → IsSelection run variables d out (default_selection d out)
default-IsSelection run variables none out h = (h, inl refl)
default-IsSelection run variables (some []) out h = (h, inr refl)
default-IsSelection run variables (some (c ∷ s)) out h =
    elim (Option-cases (find (is_edge (some (c ∷ s))) out)) [
      | inl n ↦ rw (n, default_selection) (h, n)
      | inr (e, f) ↦ rw (f, default_selection) (inr (e, refl, (λ z. cc), h, f))
    ]

or_default-IsSelection :
    {N : Type 0} (run : Str → Fields N → Run) (variables : Fields N) (d : Option Str)
    (out : List Edge) (s : Selection)
    → IsMatch run variables d out s
    → IsSelection run variables d out (or_default d out s)
or_default-IsSelection run variables d out (fire []) h = default-IsSelection run variables d out h
or_default-IsSelection run variables d out (fire (e ∷ es)) h = inl ((λ z. cc), h)
or_default-IsSelection run variables d out (condition_failed e r) h = h
or_default-IsSelection run variables d out default_missing h = absurd h
or_default-IsSelection run variables d out nothing_matched h = absurd h

-- What an inclusive gateway fires, whatever its flows are: all flows but the default one whose
-- conditions are true, in their order, if there are any; else the default flow alone. The first
-- condition that fails is an error, and so is a default flow that is named and not there, or none named
-- where no condition is true.
pub select_inclusive-IsSelection :
    {N : Type 0} (run : Str → Fields N → Run) (variables : Fields N) (d : Option Str)
    (out : List Edge)
    → IsSelection run variables d out (select_inclusive run variables d out)
unfolding select_inclusive
select_inclusive-IsSelection run variables d out =
    or_default-IsSelection run variables d out (match_flows run variables d out)
      (match_flows-IsMatch run variables d out)
