-- ===== src/Feel/LexTotal.antt =====
-- The fuel of the lexer always suffices: each round takes a character.
use bpm_new.Common.{
  ℕ, zero, suc, ◌-◌, ◌≤◌, ◌<◌, Bool, true, false, ◌≡◌, ◌⊎◌, inl, inr, refl, Option, none, some,
  List, [], ◌∷◌, ◌++◌, Str, ◌==◌, Option-cases, if◌then◌else◌, length, arith,
}
use bpm_new.Data.Chars.{is_digit, drop_while, take_while}
use bpm_new.Feel.Syntax.{Tok, str, FeelError, unclosed_string, unclosed_bracket}
use bpm_new.Feel.Lexer.{
  Lexed, done, fail, out_of_fuel, head_is, tail, is_blank, is_quote, is_ident_start, is_ident_char,
  lex_number, prefix_value, string_body, lex_string, slurp, lex_path, three_char, two_char,
  one_char, punctuation, lex_operator, lex_one, lex_all, tokenize,
}

-- At most `n` characters are left, where the run gave a value; it never stops for want of fuel.
data Leaves {A : Type 0} (n : ℕ) : Lexed A → Type 0 where
  left : {a : A} {rest : Str} → length rest ≤ n → Leaves n (done a rest)
  failed : {e : FeelError} → Leaves n (fail e)

data Cuts (n : ℕ) : Option (Str × Str) → Type 0 where
  cut : {value rest : Str} → length rest ≤ n → Cuts n (some (value, rest))
  uncut : Cuts n none

drop_while-le : (p : ℕ → Bool) (s : Str) → length (drop_while p s) ≤ length s
unfolding drop_while
drop_while-le p [] = omega arith
drop_while-le p (c ∷ s) = ground (arith, drop_while-le p s)

tail-le : (s : Str) → length (tail s) ≤ length s
tail-le [] = omega arith
tail-le (c ∷ s) = omega arith

head-tail : (p : ℕ → Bool) (s : Str) → head_is p s ≡ true → length (tail s) < length s
head-tail p [] h = cc
head-tail p (c ∷ s) h = omega arith

module _ {n : ℕ} where
  prefix_value-Cuts :
      {m : ℕ} (c : ℕ) {o : Option (Str × Str)} → n ≤ m → Cuts n o → Cuts m (prefix_value c o)
  prefix_value-Cuts c h uncut = uncut
  prefix_value-Cuts c h (cut k) = cut (omega arith)

  Cuts-if :
      (b : Bool) {x y : Option (Str × Str)} → Cuts n x → Cuts n y → Cuts n (if b then x else y)
  Cuts-if true h k = h
  Cuts-if false h k = k

  Leaves-if :
      {A : Type 0} (b : Bool) {x y : Lexed A}
      → (b ≡ true → Leaves n x)
      → (b ≡ false → Leaves n y)
      → Leaves n (if b then x else y)
  Leaves-if true h k = h refl
  Leaves-if false h k = k refl

  Leaves-weaken : {A : Type 0} {m : ℕ} {r : Lexed A} → n ≤ m → Leaves n r → Leaves m r
  Leaves-weaken h (left k) = left (omega arith)
  Leaves-weaken h failed = failed

string_body-Cuts : (quote : ℕ) (s : Str) → Cuts (length s) (string_body quote s)
unfolding string_body
string_body-Cuts quote [] = uncut
string_body-Cuts quote (c ∷ []) = Cuts-if (c == quote) (cut (omega arith)) uncut
string_body-Cuts quote (c ∷ d ∷ s) = Cuts-if (c == quote) (cut (omega arith)) (
    Cuts-if (c == b'\\') (prefix_value-Cuts _ (omega arith) (string_body-Cuts quote s))
      (prefix_value-Cuts _ (omega arith) (string_body-Cuts quote (d ∷ s))))

slurp-Cuts : (depth : ℕ) (s : Str) → Cuts (length s) (slurp depth s)
unfolding slurp
slurp-Cuts depth [] = uncut
slurp-Cuts depth (c ∷ s) =
    Cuts-if (c == b'[') (prefix_value-Cuts _ (omega arith) (slurp-Cuts (suc depth) s)) (
      Cuts-if (c == b']')
        (Cuts-if (depth == 1) (cut (omega arith))
          (prefix_value-Cuts _ (omega arith) (slurp-Cuts (depth - 1) s)))
        (prefix_value-Cuts _ (omega arith) (slurp-Cuts depth s)))

lex_number-Leaves :
    (start c : ℕ) (s : Str) → is_digit c ≡ true → Leaves (length s) (lex_number start (c ∷ s))
unfolding lex_number
lex_number-Leaves start c s h =
    rw (h, drop_while)
      (Leaves-if (head_is (λ c. c == b'.') (drop_while is_digit s))
        (λ _.
          Leaves-if (head_is is_digit (tail (drop_while is_digit s)))
            (λ _. left (omega (arith, shorter, shorter'))) (λ _. failed))
        (λ _. left (drop_while-le is_digit s)))
  where
    shorter : length (tail (drop_while is_digit s)) ≤ length s
    shorter = omega (arith, tail-le (drop_while is_digit s), drop_while-le is_digit s)

    shorter' :
        length (drop_while is_digit (tail (drop_while is_digit s)))
        ≤ length (tail (drop_while is_digit s))
    shorter' = drop_while-le is_digit (tail (drop_while is_digit s))

read_string :
    {n : ℕ} (start : ℕ) (o : Option (Str × Str))
    → Cuts n o
    → Leaves n (elim o as (λ _. Lexed Tok) [
      | none ↦ fail (unclosed_string start)
      | some (value, rest) ↦ done (str value start) rest
    ])
read_string start _ (cut h) = left h
read_string start _ uncut = failed

lex_string-Leaves : (start quote : ℕ) (s : Str) → Leaves (length s) (lex_string start quote s)
unfolding lex_string
lex_string-Leaves start quote s = read_string start (string_body quote s) (string_body-Cuts quote s)

read_index :
    {n : ℕ} (start : ℕ) (k : Str → Str → Lexed Tok) (o : Option (Str × Str))
    → ((inside after : Str) → length after ≤ n → Leaves n (k inside after))
    → Cuts n o
    → Leaves n (elim o as (λ _. Lexed Tok) [
      | none ↦ fail (unclosed_bracket start)
      | some (inside, after) ↦ k inside after
    ])
read_index start k _ f (cut {value} {rest} h) = f value rest h
read_index start k _ f uncut = failed

lex_path-Leaves :
    (f total start : ℕ) (read s : Str)
    → length s < f
    → Leaves (length s) (lex_path f total start read s)
unfolding lex_path
lex_path-Leaves zero total start read s h = absurd (omega arith)
lex_path-Leaves (suc f) total start read [] h = left (omega arith)
lex_path-Leaves (suc f) total start read (c ∷ s) h =
    Leaves-if (c == b'.')
      (λ _.
        Leaves-if (head_is is_ident_start s)
          (λ _. Leaves-weaken (omega (arith, drop_while-le is_ident_char s)) (
            lex_path-Leaves f total start (read ++ b'.' ∷ take_while is_ident_char s)
              (drop_while is_ident_char s) (omega (arith, drop_while-le is_ident_char s))))
          (λ _. failed))
      (λ _.
        Leaves-if (c == b'[')
          (λ _. Leaves-weaken (omega arith) (
            read_index start (λ inside after. lex_path f total start (read ++ b'[' ∷ inside) after)
              (slurp 1 s)
              (λ inside after k.
                Leaves-weaken k
                  (lex_path-Leaves f total start (read ++ b'[' ∷ inside) after (omega arith)))
              (slurp-Cuts 1 s)))
          (λ _. left (omega arith)))

lex_operator-Leaves : (start c : ℕ) (s : Str) → Leaves (length s) (lex_operator start c s)
unfolding lex_operator
lex_operator-Leaves start c s = elim (Option-cases (three_char (c ∷ s))) [
  | inr (o, e) ↦ rw (e, lex_operator) (left (omega (arith, tail-le s, tail-le (tail s))))
  | inl e ↦ elim (Option-cases (two_char (c ∷ s))) [
    | inr (o, e₂) ↦ rw (e, e₂, lex_operator) (left (tail-le s))
    | inl e₂ ↦ elim (Option-cases (one_char c)) [
      | inr (o, e₃) ↦ rw (e, e₂, e₃, lex_operator) (left (omega arith))
      | inl e₃ ↦ rw (e, e₂, e₃, lex_operator) failed
    ]
  ]
]

read_mark :
    (start c : ℕ) (s : Str) (o : Option (ℕ → Tok))
    → Leaves
        (length s)
        (elim o as (λ _. Lexed Tok) [ some t ↦ done (t start) s | none ↦ lex_operator start c s ])
read_mark start c s (some t) = left (omega arith)
read_mark start c s none = lex_operator-Leaves start c s

lex_one-Leaves : (total c : ℕ) (s : Str) → Leaves (length s) (lex_one total c s)
unfolding lex_one
lex_one-Leaves total c s =
    Leaves-if (is_digit c) (λ d. lex_number-Leaves start c s d)
      (λ _.
        Leaves-if (is_quote c) (λ _. lex_string-Leaves start c s)
          (λ _.
            Leaves-if (is_ident_start c)
              (λ _. Leaves-weaken (drop_while-le is_ident_char s) (
                lex_path-Leaves (suc (length s)) total start (c ∷ take_while is_ident_char s)
                  (drop_while is_ident_char s) (omega (arith, drop_while-le is_ident_char s))))
              (λ _. read_mark start c s (punctuation c))))
  where
    start : ℕ
    start = total - length (c ∷ s)

then_more :
    {n : ℕ} (r : Lexed Tok) (more : Str → Lexed (List Tok))
    → Leaves n r
    → ((rest : Str) → length rest ≤ n → Leaves 0 (more rest))
    → Leaves 0 (elim r as (λ _. Lexed (List Tok)) [
      | done t rest ↦ elim (more rest) as (λ _. Lexed (List Tok)) [
        | done ts end ↦ done (t ∷ ts) end
        | fail e ↦ fail e
        | out_of_fuel ↦ out_of_fuel
      ]
      | fail e ↦ fail e
      | out_of_fuel ↦ out_of_fuel
    ])
then_more _ more (left {a} {rest} h) f = cons_token a (more rest) (f rest h)
  where
    cons_token :
        (t : Tok) (r : Lexed (List Tok))
        → Leaves 0 r
        → Leaves 0 (elim r as (λ _. Lexed (List Tok)) [
          | done ts end ↦ done (t ∷ ts) end
          | fail e ↦ fail e
          | out_of_fuel ↦ out_of_fuel
        ])
    cons_token t _ (left h) = left h
    cons_token t _ failed = failed
then_more _ more failed f = failed

lex_all-Leaves : (f total : ℕ) (s : Str) → length s < f → Leaves 0 (lex_all f total s)
unfolding lex_all
lex_all-Leaves zero total s h = absurd (omega arith)
lex_all-Leaves (suc f) total [] h = left (omega arith)
lex_all-Leaves (suc f) total (c ∷ s) h =
    Leaves-if (is_blank c) (λ _. lex_all-Leaves f total s (omega arith))
      (λ _.
        then_more (lex_one total c s) (λ rest. lex_all f total rest) (lex_one-Leaves total c s)
          (λ rest k. lex_all-Leaves f total rest (omega arith)))

-- The lexer ends on every input, with the whole input read or with an error: the number of rounds that
-- it is given, one more than the characters of the input, always suffices.
pub tokenize-total :
    (src : Str)
    → ((ts : List Tok) × (tokenize src ≡ done ts [])) ⊎ ((e : FeelError) × (tokenize src ≡ fail e))
unfolding tokenize
tokenize-total src =
    ended (lex_all (suc (length src)) (length src) src)
      (lex_all-Leaves (suc (length src)) (length src) src (omega arith))
  where
    ended :
        (r : Lexed (List Tok))
        → Leaves 0 r
        → ((ts : List Tok) × (r ≡ done ts [])) ⊎ ((e : FeelError) × (r ≡ fail e))
    ended _ (left {rest = []} h) = inl (_, refl)
    ended _ (left {rest = c ∷ s} h) = absurd (omega arith)
    ended _ (failed {e}) = inr (e, refl)
