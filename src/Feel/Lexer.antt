-- ===== src/Feel/Lexer.antt =====
-- tokenize. The loop takes fuel, a unit for each round, and each round takes a character at least; so
-- the length of the input and one more is enough.
use bpm_new.Common.{
  ℕ, zero, suc, ◌-◌, Bool, false, ◌||◌, Option, none, some, List, [], ◌∷◌, ◌++◌, Str, codes, ◌==◌,
  if◌then◌else◌, length,
}
use bpm_new.Data.Chars.{is_digit, is_letter, is_word, drop_while, take_while, starts_with}
use bpm_new.Feel.Syntax.{
  Op, or, and, eq, ne, eq_strict, ne_strict, lt, le, gt, ge, plus, minus, times, div, rem, bang,
  Tok, num, str, ident, op, lparen, rparen, lbrack, rbrack, comma, question, colon, FeelError,
  stray_dot, unclosed_string, bad_member, unclosed_bracket, unexpected_character,
}

-- One token with the input that is left, or an error. `out_of_fuel` has no counterpart.
pub data Lexed (A : Type 0) : Type 0 where
  done : A → Str → Lexed A
  fail : FeelError → Lexed A
  out_of_fuel : Lexed A

abbrev pub head_is : (ℕ → Bool) → Str → Bool
head_is p [] = false
head_is p (c ∷ s) = p c

abbrev pub tail : Str → Str
tail [] = []
tail (_ ∷ s) = s

abbrev pub is_blank : ℕ → Bool
is_blank c = c == 32 || c == 9 || c == 10 || c == 13

abbrev pub is_quote : ℕ → Bool
is_quote c = c == b'"' || c == b'\'' || c == b'`'

-- [A-Za-z_$] and [\w$]
abbrev pub is_ident_start : ℕ → Bool
is_ident_start c = is_letter c || c == b'_' || c == b'$'

abbrev pub is_ident_char : ℕ → Bool
is_ident_char c = is_word c || c == b'$'

-- A number, from its first digit.
unfoldable pub lex_number : ℕ → Str → Lexed Tok
unfolding take_while drop_while
lex_number start s =
    let whole = take_while is_digit s in
    let rest = drop_while is_digit s in
    let fraction = tail rest in
    if head_is (λ c. c == b'.') rest
    then (if head_is is_digit fraction
        then done (num (whole ++ b'.' ∷ take_while is_digit fraction) start)
            (drop_while is_digit fraction)
        else fail (stray_dot start))
    else done (num whole start) rest

abbrev pub prefix_value : ℕ → Option (Str × Str) → Option (Str × Str)
prefix_value c none = none
prefix_value c (some (value, rest)) = some (c ∷ value, rest)

-- The value of a string, behind its opening quote, and what follows the closing one.
unfoldable pub string_body : ℕ → Str → Option (Str × Str)
string_body quote [] = none
string_body quote (c ∷ []) = if c == quote then some ([], []) else none
string_body quote (c ∷ d ∷ s) =
    let escaped = prefix_value d (string_body quote s) in
    let plain = prefix_value c (string_body quote (d ∷ s)) in
    if c == quote then some ([], d ∷ s) else if c == b'\\' then escaped else plain

unfoldable pub lex_string : ℕ → ℕ → Str → Lexed Tok
lex_string start quote s = elim (string_body quote s) [
  | none ↦ fail (unclosed_string start)
  | some (value, rest) ↦ done (str value start) rest
]

-- Up to the bracket that closes the `depth` open ones: the text with it, and the rest.
unfoldable pub slurp : ℕ → Str → Option (Str × Str)
slurp depth [] = none
slurp depth (c ∷ s) =
    let deeper = prefix_value c (slurp (suc depth) s) in
    let shallower = prefix_value c (slurp (depth - 1) s) in
    let same = prefix_value c (slurp depth s) in
    if c == b'['
    then deeper
    else if c == b']'
    then (if depth == 1 then some (c ∷ [], s) else shallower)
    else same

-- The `.name` and `[…]` parts behind an identifier, which has `read` so far. `total` is the length of
-- the input, from which offsets are counted.
unfoldable pub lex_path : ℕ → ℕ → ℕ → Str → Str → Lexed Tok
unfolding slurp take_while drop_while
lex_path zero total start read s = out_of_fuel
lex_path (suc f) total start read s =
    let rest = tail s in
    let member =
      lex_path f total start (read ++ b'.' ∷ take_while is_ident_char rest)
        (drop_while is_ident_char rest) in
    let index : Lexed Tok = elim (slurp 1 rest) [
      | none ↦ fail (unclosed_bracket start)
      | some (inside, after) ↦ lex_path f total start (read ++ b'[' ∷ inside) after
    ] in
    if head_is (λ c. c == b'.') s
    then (if head_is is_ident_start rest then member else fail (bad_member (total - length rest)))
    else if head_is (λ c. c == b'[') s
    then index
    else done (ident read start) s

-- Operators, the longest first.
abbrev pub three_char : Str → Option Op
three_char s =
    if starts_with (codes "===") s
    then some eq_strict
    else if starts_with (codes "!==") s
    then some ne_strict
    else none

abbrev pub two_char : Str → Option Op
two_char s =
    if starts_with (codes "==") s
    then some eq
    else if starts_with (codes "!=") s
    then some ne
    else if starts_with (codes "<=") s
    then some le
    else if starts_with (codes ">=") s
    then some ge
    else if starts_with (codes "&&") s
    then some and
    else if starts_with (codes "||") s
    then some or
    else none

abbrev pub one_char : ℕ → Option Op
one_char c =
    if c == b'+'
    then some plus
    else if c == b'-'
    then some minus
    else if c == b'*'
    then some times
    else if c == b'/'
    then some div
    else if c == b'%'
    then some rem
    else if c == b'<'
    then some lt
    else if c == b'>'
    then some gt
    else if c == b'!'
    then some bang
    else none

abbrev pub punctuation : ℕ → Option (ℕ → Tok)
punctuation c =
    if c == b'('
    then some lparen
    else if c == b')'
    then some rparen
    else if c == b'['
    then some lbrack
    else if c == b']'
    then some rbrack
    else if c == b','
    then some comma
    else if c == b'?'
    then some question
    else if c == b':'
    then some colon
    else none

unfoldable pub lex_operator : ℕ → ℕ → Str → Lexed Tok
lex_operator start c s = elim (three_char (c ∷ s)) [
  | some o ↦ done (op o start) (tail (tail s))
  | none ↦ elim (two_char (c ∷ s)) [
    | some o ↦ done (op o start) (tail s)
    | none ↦ elim (one_char c) [
      | some o ↦ done (op o start) s
      | none ↦ fail (unexpected_character c start)
    ]
  ]
]

-- The token that begins with `c`, which is not blank.
unfoldable pub lex_one : ℕ → ℕ → Str → Lexed Tok
unfolding lex_number lex_string lex_path lex_operator take_while drop_while
lex_one total c s =
    let start = total - length (c ∷ s) in
    if is_digit c
    then lex_number start (c ∷ s)
    else if is_quote c
    then lex_string start c s
    else if is_ident_start c
    then lex_path (suc (length s)) total start (c ∷ take_while is_ident_char s)
        (drop_while is_ident_char s)
    else elim (punctuation c) [ some t ↦ done (t start) s | none ↦ lex_operator start c s ]

unfoldable pub lex_all : ℕ → ℕ → Str → Lexed (List Tok)
unfolding lex_one
lex_all zero total s = out_of_fuel
lex_all (suc f) total [] = done [] []
lex_all (suc f) total (c ∷ s) =
    let skipped = lex_all f total s in
    let next : Lexed (List Tok) = elim (lex_one total c s) [
      | done t rest ↦ elim (lex_all f total rest) [
        | done ts end ↦ done (t ∷ ts) end
        | fail e ↦ fail e
        | out_of_fuel ↦ out_of_fuel
      ]
      | fail e ↦ fail e
      | out_of_fuel ↦ out_of_fuel
    ] in
    if is_blank c then skipped else next

unfoldable pub tokenize : Str → Lexed (List Tok)
unfolding lex_all
tokenize src = lex_all (suc (length src)) (length src) src
