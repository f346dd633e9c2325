-- ===== src/Feel/Parser.antt =====
-- The recursive descent of class Parser. Each call takes a unit of fuel; `out_of_fuel` has no
-- counterpart in the program.
use bpm_new.Common.{
  ℕ, zero, suc, ◌+◌, ◌*◌, Bool, true, false, Option, none, some, List, [], ◌∷◌, Str, codes, leb,
  str_eq, if◌then◌else◌, length,
}
use bpm_new.Feel.Syntax.{
  Op, plus, minus, bang, Tok, num, str, ident, op, lparen, rparen, question, colon, UnaryOp, neg,
  not_, pos, Ast, number, text, truth, null, name, unary, binary, ternary, FeelError,
  unexpected_token, unexpected_end, no_colon, expected_rparen, precedence,
}

pub data Parsed (A : Type 0) : Type 0 where
  done : A → List Tok → Parsed A
  fail : FeelError → Parsed A
  out_of_fuel : Parsed A

abbrev pub bind : {A B : Type 0} → Parsed A → (A → List Tok → Parsed B) → Parsed B
bind (done a rest) f = f a rest
bind (fail e) f = fail e
bind out_of_fuel f = out_of_fuel

abbrev pub tail : List Tok → List Tok
tail [] = []
tail (_ ∷ ts) = ts

abbrev pub is_question : List Tok → Bool
is_question (question _ ∷ _) = true
is_question _ = false

abbrev pub is_colon : List Tok → Bool
is_colon (colon _ ∷ _) = true
is_colon _ = false

abbrev pub is_rparen : List Tok → Bool
is_rparen (rparen _ ∷ _) = true
is_rparen _ = false

abbrev pub binds : ℕ → Op → Option ℕ → Option (Op × ℕ)
binds min_prec o none = none
binds min_prec o (some p) = if leb min_prec p then some (o, p) else none

-- The operator at the front, if it binds at least as tight as `min_prec`, with its precedence.
unfoldable pub binary_op : ℕ → List Tok → Option (Op × ℕ)
binary_op min_prec (op o _ ∷ _) = binds min_prec o (precedence o)
binary_op min_prec _ = none

unfoldable pub unary_op : List Tok → Option UnaryOp
unary_op (op minus _ ∷ _) = some neg
unary_op (op plus _ ∷ _) = some pos
unary_op (op bang _ ∷ _) = some not_
unary_op _ = none

-- What parsePrimary does with the token at the front.
pub data Start : Type 0 where
  atom : Ast → Start
  opens : ℕ → Start
  refused : FeelError → Start

unfoldable pub word : Str → Ast
word s =
    if str_eq s (codes "true")
    then truth true
    else if str_eq s (codes "false")
    then truth false
    else if str_eq s (codes "null")
    then null
    else name s

unfoldable pub start_of : List Tok → Start
unfolding word
start_of [] = refused unexpected_end
start_of (num n _ ∷ _) = atom (number n)
start_of (str s _ ∷ _) = atom (text s)
start_of (ident s _ ∷ _) = atom (word s)
start_of (lparen p ∷ _) = opens p
start_of (t ∷ _) = refused (unexpected_token t)

unfoldable mutual
  pub parse_ternary : ℕ → List Tok → Parsed Ast
  parse_ternary zero ts = out_of_fuel
  parse_ternary (suc f) ts = bind (parse_binary f 0 ts) λ test ts₁.
      let chosen = bind (parse_ternary f (tail ts₁)) λ consequent ts₂.
        let rest =
          bind (parse_ternary f (tail ts₂))
            λ alternate ts₃. done (ternary test consequent alternate) ts₃ in
        if is_colon ts₂ then rest else fail no_colon in
      if is_question ts₁ then chosen else done test ts₁

  pub parse_binary : ℕ → ℕ → List Tok → Parsed Ast
  parse_binary zero min_prec ts = out_of_fuel
  parse_binary (suc f) min_prec ts =
      bind (parse_unary f ts) λ left ts₁. binary_loop f min_prec left ts₁

  pub binary_loop : ℕ → ℕ → Ast → List Tok → Parsed Ast
  binary_loop zero min_prec left ts = out_of_fuel
  binary_loop (suc f) min_prec left ts = elim (binary_op min_prec ts) [
    | none ↦ done left ts
    | some (o, p) ↦
        bind (parse_binary f (suc p) (tail ts))
          λ right ts₁. binary_loop f min_prec (binary o left right) ts₁
  ]

  pub parse_unary : ℕ → List Tok → Parsed Ast
  parse_unary zero ts = out_of_fuel
  parse_unary (suc f) ts = elim (unary_op ts) [
    | none ↦ parse_primary f ts
    | some u ↦ bind (parse_unary f (tail ts)) λ arg ts₁. done (unary u arg) ts₁
  ]

  pub parse_primary : ℕ → List Tok → Parsed Ast
  parse_primary zero ts = out_of_fuel
  parse_primary (suc f) ts = elim (start_of ts) [
    | atom a ↦ done a (tail ts)
    | opens p ↦
        bind (parse_ternary f (tail ts))
          λ inner ts₁. if is_rparen ts₁ then done inner (tail ts₁) else fail (expected_rparen p)
    | refused e ↦ fail e
  ]

abbrev pub at_end : Ast → List Tok → Parsed Ast
at_end a [] = done a []
at_end a (t ∷ _) = fail (unexpected_token t)

abbrev pub enough_fuel : List Tok → ℕ
enough_fuel ts = 6 * length ts + 8

-- parseExpression
unfoldable pub parse_expression : List Tok → Parsed Ast
unfolding parse_ternary
parse_expression ts = bind (parse_ternary (enough_fuel ts) ts) at_end
