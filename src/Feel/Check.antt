-- ===== src/Feel/Check.antt =====
-- parseFeelCondition: the designer's check of a condition. The errors' offsets are left out here.
use bpm_new.Common.{
  ℕ, Bool, ◌||◌, not, none, some, List, [], ◌∷◌, ◌++◌, Str, codes, ◌==◌, ltb, str_eq, any, find,
  keep, if◌then◌else◌, length,
}
use bpm_new.Data.Chars.{is_empty, trim, words}
use bpm_new.Data.Split.{split}
use bpm_new.Engine.Canvas.Condition.{is_allowed, forbidden_words}
use bpm_new.Feel.Syntax.{
  Tok, Ast, name, unary, binary, ternary, FeelError, empty_expression, too_long,
  disallowed_character, forbidden_identifier,
}
use bpm_new.Feel.Lexer.{Lexed, tokenize}
use bpm_new.Feel.Parser.{Parsed, parse_expression}

abbrev pub max_len : ℕ
max_len = 500

-- ALLOWED_CHAR_RE: the class of the engine's expression, with `?` and `:`.
abbrev pub is_operator_of_choice : ℕ → Bool
is_operator_of_choice c = c == b'?' || c == b':'

unfoldable pub is_checked : ℕ → Bool
is_checked c = is_allowed c || is_operator_of_choice c

-- FORBIDDEN_RE has the same words as the engine's expression.
unfoldable pub is_forbidden : Str → Bool
unfolding forbidden_words
is_forbidden w = any (λ f. str_eq f w) forbidden_words

-- A JavaScript Set keeps the order in which its elements were added.
unfoldable pub add : Str → List Str → List Str
add s ids = if any (λ t. str_eq s t) ids then ids else ids ++ s ∷ []

abbrev first_part : List Str → Str
first_part [] = []
first_part (p ∷ _) = p

-- The first part of the path, `path[0]`.
unfoldable pub root : Str → Str
unfolding split
root s = first_part (split b'.' s)

unfoldable pub collect_identifiers : Ast → List Str → List Str
unfolding add root
collect_identifiers (name s) into = add (root s) into
collect_identifiers (unary u a) into = collect_identifiers a into
collect_identifiers (binary o l r) into = collect_identifiers r (collect_identifiers l into)
collect_identifiers (ternary c a b) into =
    collect_identifiers b (collect_identifiers a (collect_identifiers c into))
collect_identifiers _ into = into

unfoldable pub is_keyword : Str → Bool
is_keyword s = str_eq s (codes "true") || str_eq s (codes "false") || str_eq s (codes "null")

unfoldable pub free_identifiers : Ast → List Str
unfolding collect_identifiers is_keyword
free_identifiers a = keep (λ s. not (is_keyword s)) (collect_identifiers a [])

pub data Verdict : Type 0 where
  accepted : Ast → List Str → Verdict
  refused : FeelError → Verdict
  out_of_fuel : Verdict

abbrev pub from_parsed : Parsed Ast → Verdict
from_parsed (Parsed.done a _) = accepted a (free_identifiers a)
from_parsed (Parsed.fail e) = refused e
from_parsed Parsed.out_of_fuel = out_of_fuel

abbrev pub from_lexed : Lexed (List Tok) → Verdict
from_lexed (Lexed.done ts _) = from_parsed (parse_expression ts)
from_lexed (Lexed.fail e) = refused e
from_lexed Lexed.out_of_fuel = out_of_fuel

unfoldable pub parse_feel_condition : Str → Verdict
unfolding trim is_checked words is_forbidden tokenize
parse_feel_condition src =
    if is_empty (trim src)
    then refused empty_expression
    else if ltb max_len (length src)
    then refused too_long
    else elim (find (λ c. not (is_checked c)) src) [
      | some c ↦ refused (disallowed_character c)
      | none ↦ elim (find is_forbidden (words src)) [
        | some w ↦ refused (forbidden_identifier w)
        | none ↦ from_lexed (tokenize src)
      ]
    ]
