-- ===== src/Engine/Canvas/Flow.antt =====
-- pickExclusiveGatewayEdge.
use bpm_new.Common.{ℕ, suc, Bool, Option, none, some, List, [], ◌∷◌, Str, if◌then◌else◌}
use bpm_new.Data.Chars.{is_empty, trim}
use bpm_new.Data.Json.{Fields}
use bpm_new.Engine.Canvas.Defs.{Edge, Canvas, condition_of, default_of, outgoing}
use bpm_new.Engine.Canvas.Condition.{ConditionError, Run, result, rejected, eval_condition}

pub data GatewayPick : Type 0 where
  by_condition by_default : Edge → ℕ → GatewayPick
  no_match : GatewayPick
  eval_error : ConditionError → GatewayPick

-- A condition that is missing or blank is none.
unfoldable pub usable_condition : Edge → Option Str
unfolding trim
usable_condition e = elim (condition_of e.flow_data) [
  | none ↦ none
  | some c ↦ if is_empty (trim c) then none else some c
]

unfoldable pub is_default_flow : Edge → Bool
is_default_flow e = default_of e.flow_data

-- `out.find(…)` together with `out.indexOf(def)`.
unfoldable pub find_default : ℕ → List Edge → GatewayPick
unfolding is_default_flow
find_default i [] = no_match
find_default i (e ∷ es) =
    let rest = find_default (suc i) es in if is_default_flow e then by_default e i else rest

module _ {N : Type 0} (run : Str → Fields N → Run) (variables : Fields N) where
  -- What the loop finds at one edge: `none` to go on.
  unfoldable pub test_edge : Edge → ℕ → Option GatewayPick
  unfolding usable_condition eval_condition
  test_edge e matched_at = elim (usable_condition e) [
    | none ↦ none
    | some c ↦ elim (eval_condition run c variables) [
      | result b ↦ if b then some (by_condition e matched_at) else none
      | rejected reason ↦ some (eval_error reason)
    ]
  ]

  unfoldable pub first_match : ℕ → List Edge → Option GatewayPick
  unfolding test_edge
  first_match matched_at [] = none
  first_match matched_at (e ∷ es) =
      let rest = first_match (suc matched_at) es in
      elim (test_edge e matched_at) [ some pick ↦ some pick | none ↦ rest ]

  unfoldable pub pick_from : List Edge → GatewayPick
  unfolding first_match find_default
  pick_from out = elim (first_match 0 out) [ some pick ↦ pick | none ↦ find_default 0 out ]

  unfoldable pub pick_exclusive_gateway_edge : Canvas N → Str → GatewayPick
  unfolding pick_from outgoing
  pick_exclusive_gateway_edge c from = pick_from (outgoing c from)
