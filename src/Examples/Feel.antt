-- ===== src/Examples/Feel.antt =====
-- Conditions as an author writes them.
use bpm_new.Common.{ℕ, true, false, ◌≡◌, ◌≢◌, ◌⊎◌, refl, [], ◌∷◌, ◌++◌, Str, codes, any}
use bpm_new.Data.Json.{Fields, end}
use bpm_new.Engine.Canvas.Condition.{
  is_allowed, Run, value, rejected, evaluated, safe_variables, eval_condition, ConditionError,
}
use bpm_new.Feel.Syntax.{op, gt, plus, times, Ast, number, name, binary, ternary}
use bpm_new.Feel.Parser.{Parsed, parse_expression, start_of, word, binary_op, unary_op}
use bpm_new.Feel.Check.{
  is_operator_of_choice, accepted, out_of_fuel, parse_feel_condition, free_identifiers,
}
use bpm_new.Feel.CheckTotal.{parse_feel_condition-total}
use bpm_new.Feel.Agreement.{accepted-fate}
use bpm_new.Feel.Printed.{print, WellFormed}
use bpm_new.Feel.RoundTrip.{parse_expression-print}
use bpm_new.Feel.Grouping.{grouped, parse_expression-grouped}

abbrev condition : Str
condition = codes "vip ? a>1 : b"

abbrev tree : Ast
tree =
    ternary (name (codes "vip")) (binary gt (name (codes "a")) (number (codes "1")))
      (name (codes "b"))

condition-accepted :
    parse_feel_condition condition ≡ accepted tree (codes "vip" ∷ codes "a" ∷ codes "b" ∷ [])
unfolding parse_feel_condition is_allowed parse_expression unary_op start_of binary_op
    free_identifiers
condition-accepted = refl

abbrev always : Str → Fields ℕ → Run
always expr variables = value true

accepted-fate_example :
    ((any is_operator_of_choice condition ≡ false)
      × (eval_condition always condition end ≡ evaluated (always condition (safe_variables end))))
    ⊎ ((any is_operator_of_choice condition ≡ true)
        × (eval_condition always condition end ≡ rejected ConditionError.disallowed_character))
accepted-fate_example =
    accepted-fate always condition tree (codes "vip" ∷ codes "a" ∷ codes "b" ∷ []) end
      condition-accepted

parse_feel_condition-total_example : parse_feel_condition condition ≢ out_of_fuel
parse_feel_condition-total_example = parse_feel_condition-total condition

tree-WellFormed : WellFormed tree
unfolding word
tree-WellFormed = (refl, ((_, refl), refl, tt), refl)

parse_expression-print_example : parse_expression (print tree) ≡ Parsed.done tree []
parse_expression-print_example = parse_expression-print tree tree-WellFormed

abbrev letter : Str → Ast
letter s = name s

parse_expression-grouped_example :
    parse_expression (
      print (letter (codes "a"))
      ++ op plus 0 ∷ (print (letter (codes "b")) ++ op times 0 ∷ print (letter (codes "c"))))
    ≡ Parsed.done
        (grouped plus 5 times 6 (letter (codes "a")) (letter (codes "b")) (letter (codes "c")))
        []
unfolding word
parse_expression-grouped_example =
    parse_expression-grouped (letter (codes "a")) (letter (codes "b")) (letter (codes "c")) plus
      times 5 6 refl refl refl refl refl
