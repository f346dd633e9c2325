-- ===== src/Feel/Syntax.antt =====
-- Tokens, syntax trees and errors. The value of a number, `Number(text)`, is left as its text.
use bpm_new.Common.{ℕ, Bool, Option, none, some, Str}

pub data Op : Type 0 where
  or and eq ne eq_strict ne_strict lt le gt ge plus minus times div rem bang : Op

pub data Tok : Type 0 where
  num str ident : Str → ℕ → Tok
  op : Op → ℕ → Tok
  lparen rparen lbrack rbrack comma question colon : ℕ → Tok

pub data UnaryOp : Type 0 where
  neg not_ pos : UnaryOp

pub data Ast : Type 0 where
  number text : Str → Ast
  truth : Bool → Ast
  null : Ast
  name : Str → Ast
  unary : UnaryOp → Ast → Ast
  binary : Op → Ast → Ast → Ast
  ternary : Ast → Ast → Ast → Ast

-- The errors of the lexer and of the parser, with the offsets that they state.
pub data FeelError : Type 0 where
  stray_dot unclosed_string bad_member unclosed_bracket : ℕ → FeelError
  unexpected_character : ℕ → ℕ → FeelError
  unexpected_token : Tok → FeelError
  unexpected_end no_colon : FeelError
  expected_rparen : ℕ → FeelError
  empty_expression too_long : FeelError
  disallowed_character : ℕ → FeelError
  forbidden_identifier : Str → FeelError

-- PRECEDENCE, which has no entry for `!`.
abbrev pub precedence : Op → Option ℕ
precedence or = some 1
precedence and = some 2
precedence eq = some 3
precedence ne = some 3
precedence eq_strict = some 3
precedence ne_strict = some 3
precedence lt = some 4
precedence le = some 4
precedence gt = some 4
precedence ge = some 4
precedence plus = some 5
precedence minus = some 5
precedence times = some 6
precedence div = some 6
precedence rem = some 6
precedence bang = none
