-- ===== src/Feel/Grouping.antt =====
-- How two binary operators group that stand side by side without brackets.
use mathlib.Core.List.{append-nil}
use bpm_new.Common.{
  ℕ, suc, ◌+◌, ◌≤◌, ◌<◌, ◌≡◌, inl, inr, refl, none, some, List, [], ◌∷◌, ◌++◌, subst, leb, leb→le,
  Bool-cases, length, length-append, if◌then◌else◌, arith,
}
use bpm_new.Feel.Syntax.{Op, Tok, op, Ast, binary, precedence}
use bpm_new.Feel.Parser.{
  done, binary_op, parse_ternary, parse_binary, binary_loop, parse_unary, parse_primary,
  enough_fuel, parse_expression,
}
use bpm_new.Feel.Descent.{
  Reads, Reads-weaken, unary_of, binary_of, ternary_of, loop_stop, loop_step, operation,
}
use bpm_new.Feel.Printed.{print, WellFormed, cost, cost-positive, last, unary_op-print}
use bpm_new.Feel.RoundTrip.{cost-le, parse_primary-print}

-- The tree that the precedences `p₁` and `p₂` call for.
abbrev pub grouped : Op → ℕ → Op → ℕ → Ast → Ast → Ast → Ast
grouped o₁ p₁ o₂ p₂ a b c =
    if leb p₂ p₁ then binary o₂ (binary o₁ a b) c else binary o₁ a (binary o₂ b c)

binds_below :
    (o : Op) (p m : ℕ) (ts : List Tok) (i : ℕ)
    → precedence o ≡ some p
    → m ≤ p
    → binary_op m (op o i ∷ ts) ≡ some (o, p)
unfolding binary_op
binds_below o p m ts i h k = rw h (ground arith)

too_loose :
    (o : Op) (p m : ℕ) (ts : List Tok) (i : ℕ)
    → precedence o ≡ some p
    → p < m
    → binary_op m (op o i ∷ ts) ≡ none
unfolding binary_op
too_loose o p m ts i h k = rw h (ground arith)

module _ (a b c : Ast) (o₁ o₂ : Op) (p₁ p₂ n : ℕ) (one : 1 ≤ n) (e₁ : precedence o₁ ≡ some p₁)
    (e₂ : precedence o₂ ≡ some p₂)
    (ra : (end : List Tok) → Reads parse_primary n (print a ++ end) a end)
    (rb : (end : List Tok) → Reads parse_primary n (print b ++ end) b end)
    (rc : (end : List Tok) → Reads parse_primary n (print c ++ end) c end) where
  abbrev c_tokens : List Tok
  c_tokens = print c ++ []

  abbrev b_tokens : List Tok
  b_tokens = print b ++ op o₂ 0 ∷ c_tokens

  abbrev tokens : List Tok
  tokens = print a ++ op o₁ 0 ∷ b_tokens

  left_first :
      p₂ ≤ p₁ → Reads (λ f. parse_binary f 0) (n + 6) tokens (binary o₂ (binary o₁ a b) c) []
  unfolding binary_op
  left_first h f k =
      binary_of (n + 3 + 1) tokens (op o₁ 0 ∷ b_tokens) a 0 all []
        (Reads-weaken parse_unary (n + 1) (n + 3 + 1) tokens a _ (omega arith)
          (unary_of n tokens (op o₁ 0 ∷ b_tokens) a (ra _) (unary_op-print a _)))
        (loop_step (n + 3) 0 a b all o₁ p₁ 0 b_tokens (op o₂ 0 ∷ c_tokens) []
          (binds_below o₁ p₁ 0 b_tokens 0 e₁ (omega arith))
          (Reads-weaken (λ f. parse_binary f (suc p₁)) (n + 2) (n + 3) b_tokens b _ (omega arith)
            (last b n one (suc p₁) (op o₂ 0 ∷ c_tokens) (rb _)
              (too_loose o₂ p₂ (suc p₁) c_tokens 0 e₂ (omega arith))))
          (Reads-weaken (λ f. binary_loop f 0 (binary o₁ a b)) (n + 2 + 1) (n + 3)
            (op o₂ 0 ∷ c_tokens) all [] (omega arith)
            (loop_step (n + 2) 0 (binary o₁ a b) c all o₂ p₂ 0 c_tokens [] []
              (binds_below o₂ p₂ 0 c_tokens 0 e₂ (omega arith))
              (last c n one (suc p₂) [] (rc []) refl)
              (Reads-weaken (λ f. binary_loop f 0 all) 1 (n + 2) [] all [] (omega arith)
                (loop_stop 0 all [] refl)))))
        f (omega arith)
    where
      all : Ast
      all = binary o₂ (binary o₁ a b) c

  right_first :
      p₁ < p₂ → Reads (λ f. parse_binary f 0) (n + 6) tokens (binary o₁ a (binary o₂ b c)) []
  unfolding binary_op
  right_first h f k =
      operation (n + 4) 0 o₁ p₁ 0 tokens b_tokens [] a (binary o₂ b c) (omega arith)
        (Reads-weaken parse_primary n (n + 4) tokens a _ (omega arith) (ra _)) (unary_op-print a _)
        (binds_below o₁ p₁ 0 b_tokens 0 e₁ (omega arith))
        (Reads-weaken (λ f. parse_binary f (suc p₁)) (n + 2 + 2) (n + 4) b_tokens (binary o₂ b c) []
          (omega arith)
          (operation (n + 2) (suc p₁) o₂ p₂ 0 b_tokens c_tokens [] b c (omega arith)
            (Reads-weaken parse_primary n (n + 2) b_tokens b _ (omega arith) (rb _))
            (unary_op-print b _) (binds_below o₂ p₂ (suc p₁) c_tokens 0 e₂ (omega arith))
            (last c n one (suc p₂) [] (rc []) refl) refl))
        refl f (omega arith)

  -- One statement for both.
  grouped-Reads : Reads parse_ternary (n + 7) tokens (grouped o₁ p₁ o₂ p₂ a b c) []
  grouped-Reads f k = elim (Bool-cases (leb p₂ p₁)) [
    | inl e ↦
        rw e (ternary_of (n + 6) tokens [] _ (left_first (leb→le p₂ p₁ e)) refl f (omega arith))
    | inr e ↦
        rw e (ternary_of (n + 6) tokens [] _ (right_first (ground arith)) refl f (omega arith))
  ]

-- Three well-formed operands, each printed in brackets, with two binary operators between them and no
-- brackets around these: the first operator is the inner one if the second binds no tighter, so equal
-- levels group to the left; else the second is the inner one. No token is left.
pub parse_expression-grouped :
    (a b c : Ast) (o₁ o₂ : Op) (p₁ p₂ : ℕ)
    → WellFormed a
    → WellFormed b
    → WellFormed c
    → precedence o₁ ≡ some p₁
    → precedence o₂ ≡ some p₂
    → parse_expression (print a ++ op o₁ 0 ∷ (print b ++ op o₂ 0 ∷ print c))
      ≡ done (grouped o₁ p₁ o₂ p₂ a b c) []
unfolding parse_expression
parse_expression-grouped a b c o₁ o₂ p₁ p₂ wa wb wc e₁ e₂ = rw whole refl
  where
    n : ℕ
    n = cost a + cost b + cost c

    ts : List Tok
    ts = print a ++ op o₁ 0 ∷ (print b ++ op o₂ 0 ∷ print c)

    size : length ts ≡ length (print a) + length (print b) + length (print c) + 2
    size =
        rw
          (
            length-append (print a) (op o₁ 0 ∷ (print b ++ op o₂ 0 ∷ print c)),
            length-append (print b) (op o₂ 0 ∷ print c),
          )
          (omega arith)

    read :
        Reads parse_ternary
          (n + 7)
          (print a ++ op o₁ 0 ∷ (print b ++ op o₂ 0 ∷ (print c ++ [])))
          (grouped o₁ p₁ o₂ p₂ a b c)
          []
    read =
        grouped-Reads a b c o₁ o₂ p₁ p₂ n (omega (arith, cost-positive a)) e₁ e₂
          (λ end.
            Reads-weaken parse_primary (cost a) n _ a end (omega arith)
              (parse_primary-print a wa end))
          (λ end.
            Reads-weaken parse_primary (cost b) n _ b end (omega arith)
              (parse_primary-print b wb end))
          (λ end.
            Reads-weaken parse_primary (cost c) n _ c end (omega arith)
              (parse_primary-print c wc end))

    whole : parse_ternary (enough_fuel ts) ts ≡ done (grouped o₁ p₁ o₂ p₂ a b c) []
    whole =
        subst
          (λ x.
            parse_ternary (enough_fuel ts) (print a ++ op o₁ 0 ∷ (print b ++ op o₂ 0 ∷ x))
            ≡ done (grouped o₁ p₁ o₂ p₂ a b c) [])
          (append-nil (print c))
          (read (enough_fuel ts) (omega (arith, size, cost-le a, cost-le b, cost-le c)))
