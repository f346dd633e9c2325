-- ===== src/Feel/CheckTotal.antt =====
-- The designer's check always comes to a verdict.
use bpm_new.Common.{not, ◌≢◌, inl, inr, List, Str, ltb, find, length, Bool-cases, Option-cases}
use bpm_new.Data.Chars.{is_empty, trim, words}
use bpm_new.Feel.Syntax.{Tok, Ast}
use bpm_new.Feel.Lexer.{tokenize}
use bpm_new.Feel.Parser.{Parsed, parse_expression}
use bpm_new.Feel.Check.{
  max_len, is_checked, is_forbidden, out_of_fuel, from_parsed, from_lexed, parse_feel_condition,
}
use bpm_new.Feel.LexTotal.{tokenize-total}
use bpm_new.Feel.Total.{Ensures, holds, rejected, parse_expression-total}

parsed-verdict :
    (P : Ast → List Tok → Type 0) (r : Parsed Ast) → Ensures P r → from_parsed r ≢ out_of_fuel
parsed-verdict P _ (holds h) e = cc
parsed-verdict P _ rejected e = cc

lexed-verdict : (src : Str) → from_lexed (tokenize src) ≢ out_of_fuel
lexed-verdict src = elim (tokenize-total src) [
  | inl (ts, e) ↦
      rw (e, from_lexed) (parsed-verdict _ (parse_expression ts) (parse_expression-total ts))
  | inr (x, e) ↦ rw (e, from_lexed) (λ h. cc)
]

-- Every text is accepted or refused: neither the lexer nor the parser runs out of fuel on it.
pub parse_feel_condition-total : (src : Str) → parse_feel_condition src ≢ out_of_fuel
unfolding parse_feel_condition
parse_feel_condition-total src h = elim (Bool-cases (is_empty (trim src))) [
  | inl e ↦ cc (rw e at h)
  | inr e ↦ elim (Bool-cases (ltb max_len (length src))) [
    | inl l ↦ cc (rw (e, l) at h)
    | inr l ↦ elim (Option-cases (find (λ c. not (is_checked c)) src)) [
      | inr (d, k) ↦ cc (rw (e, l, k) at h)
      | inl k ↦ elim (Option-cases (find is_forbidden (words src))) [
        | inr (d, f) ↦ cc (rw (e, l, k, f) at h)
        | inl f ↦ lexed-verdict src (rw (e, l, k, f) at h)
      ]
    ]
  ]
]
