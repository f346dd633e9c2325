-- ===== src/Engine/Canvas/Condition.antt =====
-- evalCondition: what is checked of a condition before it is run as JavaScript. The engine that runs
-- it, `new Function`, is a parameter.
use bpm_new.Common.{
  ℕ, Bool, false, ◌&&◌, ◌||◌, not, List, [], ◌∷◌, Str, codes, ◌==◌, ltb, str_eq, any, if◌then◌else◌,
  length,
}
use bpm_new.Data.Chars.{is_letter, is_word, is_space, is_empty, all, words}
use bpm_new.Data.Json.{Fields, end, field}

-- ALLOWED_CONDITION_CHAR_RE: [\w\s\d.,\[\]()+\-*/%<>=!&|"'`]
abbrev punctuation : Str
punctuation = codes ".,[]()+-*/%<>=!&|'`"

unfoldable pub is_allowed : ℕ → Bool
unfolding is_word is_space
is_allowed c = is_word c || is_space c || any (λ d. d == c) punctuation || c == b'"'

unfoldable pub forbidden_words : List Str
forbidden_words =
    codes "this"
    ∷ codes "window"
    ∷ codes "globalThis"
    ∷ codes "process"
    ∷ codes "global"
    ∷ codes "require"
    ∷ codes "import"
    ∷ codes "export"
    ∷ codes "eval"
    ∷ codes "Function"
    ∷ codes "constructor"
    ∷ codes "prototype"
    ∷ codes "__proto__"
    ∷ codes "arguments"
    ∷ codes "new"
    ∷ codes "class"
    ∷ codes "async"
    ∷ codes "await"
    ∷ codes "yield"
    ∷ codes "throw"
    ∷ codes "while"
    ∷ codes "for"
    ∷ codes "do"
    ∷ codes "if"
    ∷ codes "else"
    ∷ codes "return"
    ∷ codes "var"
    ∷ codes "let"
    ∷ codes "const"
    ∷ codes "delete"
    ∷ codes "void"
    ∷ codes "typeof"
    ∷ codes "instanceof"
    ∷ codes "in"
    ∷ []

-- FORBIDDEN_CONDITION_TOKENS_RE: a forbidden word between two word boundaries.
unfoldable pub has_forbidden : Str → Bool
unfolding words forbidden_words
has_forbidden expr = any (λ w. any (λ f. str_eq f w) forbidden_words) (words expr)

abbrev pub max_condition_length : ℕ
max_condition_length = 500

-- VALID_IDENTIFIER_RE: ^[A-Za-z_$][\w$]*$
abbrev pub is_identifier : Str → Bool
is_identifier [] = false
is_identifier (c ∷ s) =
    (is_letter c || c == b'_' || c == b'$') && all (λ d. is_word d || d == b'$') s

pub data ConditionError : Type 0 where
  too_long disallowed_character forbidden_identifier : ConditionError
  eval_failed : Str → ConditionError

-- What running the expression gives: the value coerced to a Boolean, or what it throws.
pub data Run : Type 0 where
  value : Bool → Run
  threw : Str → Run

pub data Evaluation : Type 0 where
  result : Bool → Evaluation
  rejected : ConditionError → Evaluation

abbrev pub evaluated : Run → Evaluation
evaluated (value b) = result b
evaluated (threw message) = rejected (eval_failed message)

module _ {N : Type 0} where
  -- The variables whose names can be parameters.
  unfoldable pub safe_variables : Fields N → Fields N
  unfolding is_word
  safe_variables end = end
  safe_variables (field k v fs) =
      if is_identifier k then field k v (safe_variables fs) else safe_variables fs

  unfoldable pub eval_condition : (Str → Fields N → Run) → Str → Fields N → Evaluation
  unfolding is_allowed has_forbidden safe_variables
  eval_condition run expr variables =
      if ltb max_condition_length (length expr)
      then rejected too_long
      else if is_empty expr || not (all is_allowed expr)
      then rejected disallowed_character
      else if has_forbidden expr
      then rejected forbidden_identifier
      else evaluated (run expr (safe_variables variables))
