-- ===== src/Feel/Printed.antt =====
-- Trees as tokens, all but atoms in brackets, and what the parser reads of a bracket.
use mathlib.Core.List.{append_assoc}
use bpm_new.Common.{
  ℕ, suc, ◌+◌, ◌≤◌, true, false, ◌≡◌, refl, none, some, List, [], ◌∷◌, ◌++◌, arith, codes,
}
use bpm_new.Feel.Syntax.{
  Op, plus, minus, bang, Tok, num, str, ident, op, lparen, rparen, question, colon, UnaryOp, neg,
  not_, pos, Ast, number, text, truth, null, name, unary, binary, ternary, precedence,
}
use bpm_new.Feel.Parser.{
  is_question, binary_op, unary_op, word, parse_ternary, parse_binary, binary_loop, parse_unary,
  parse_primary,
}
use bpm_new.Feel.Descent.{
  Reads, Reads-weaken, unary_of, unary_step, binary_of, ternary_of, parens, loop_stop, ternary_step,
  operand, operation,
}

-- The tree in tokens, all that is not an atom in brackets. Positions do not matter to the parser.
abbrev pub unary_token : UnaryOp → Tok
unary_token neg = op minus 0
unary_token not_ = op bang 0
unary_token pos = op plus 0

unfoldable pub print : Ast → List Tok
print (number n) = num n 0 ∷ []
print (text s) = str s 0 ∷ []
print (truth true) = ident (codes "true") 0 ∷ []
print (truth false) = ident (codes "false") 0 ∷ []
print null = ident (codes "null") 0 ∷ []
print (name s) = ident s 0 ∷ []
print (unary u a) = lparen 0 ∷ unary_token u ∷ (print a ++ rparen 0 ∷ [])
print (binary o l r) = lparen 0 ∷ (print l ++ op o 0 ∷ (print r ++ rparen 0 ∷ []))
print (ternary c a b) =
    lparen 0 ∷ (print c ++ question 0 ∷ (print a ++ colon 0 ∷ (print b ++ rparen 0 ∷ [])))

-- A name is no keyword, and an operator is one with a precedence: what the parser can give.
abbrev pub WellFormed : Ast → Type 0
WellFormed (name s) = word s ≡ name s
WellFormed (unary u a) = WellFormed a
WellFormed (binary o l r) = ((p : ℕ) × (precedence o ≡ some p)) × WellFormed l × WellFormed r
WellFormed (ternary c a b) = WellFormed c × WellFormed a × WellFormed b
WellFormed _ = Unit

unfoldable pub cost : Ast → ℕ
cost (unary u a) = cost a + 5
cost (binary o l r) = cost l + cost r + 6
cost (ternary c a b) = cost c + cost a + cost b + 6
cost _ = 1

pub unary_op-print : (a : Ast) (rest : List Tok) → unary_op (print a ++ rest) ≡ none
unfolding unary_op print
unary_op-print (number n) rest = refl
unary_op-print (truth true) rest = refl
unary_op-print (truth false) rest = refl
unary_op-print _ rest = refl

pub binds_zero :
    (o : Op) (p : ℕ) (ts : List Tok) (i : ℕ)
    → precedence o ≡ some p
    → binary_op 0 (op o i ∷ ts) ≡ some (o, p)
unfolding binary_op
binds_zero o p ts i h = rw h (ground arith)

pub cost-positive : (a : Ast) → 1 ≤ cost a
unfolding cost
cost-positive (unary u a) = omega arith
cost-positive (binary o l r) = omega arith
cost-positive (ternary c a b) = omega arith
cost-positive (number n) = omega arith
cost-positive (text n) = omega arith
cost-positive (truth n) = omega arith
cost-positive null = omega arith
cost-positive (name n) = omega arith

-- A printed tree whose own parse is known, as the operand at the end of a bracket or a branch.
module _ (a : Ast) (n : ℕ) (one : 1 ≤ n) where
  pub last :
      (m : ℕ) (rest : List Tok)
      → Reads parse_primary n (print a ++ rest) a rest
      → binary_op m rest ≡ none
      → Reads (λ f. parse_binary f m) (n + 2) (print a ++ rest) a rest
  last m rest r b = operand n m (print a ++ rest) rest a one r (unary_op-print a rest) b

  pub branch :
      (rest : List Tok)
      → Reads parse_primary n (print a ++ rest) a rest
      → binary_op 0 rest ≡ none
      → is_question rest ≡ false
      → Reads parse_ternary (n + 3) (print a ++ rest) a rest
  branch rest r b q f k =
      ternary_of (n + 2) (print a ++ rest) rest a (last 0 rest r b) q f (omega arith)

-- What is printed in brackets, with the rest of the input moved behind the last bracket.
pub binary-flat :
    (o : Op) (l r : Ast) (rest : List Tok)
    → print (binary o l r) ++ rest ≡ lparen 0 ∷ (print l ++ op o 0 ∷ (print r ++ rparen 0 ∷ rest))
unfolding print
binary-flat o l r rest =
    rw
      (
        append_assoc (print l) (op o 0 ∷ (print r ++ rparen 0 ∷ [])) rest,
        append_assoc (print r) (rparen 0 ∷ []) rest,
      )
      refl

pub unary-flat :
    (u : UnaryOp) (a : Ast) (rest : List Tok)
    → print (unary u a) ++ rest ≡ lparen 0 ∷ unary_token u ∷ (print a ++ rparen 0 ∷ rest)
unfolding print
unary-flat u a rest = rw (append_assoc (print a) (rparen 0 ∷ []) rest) refl

pub ternary-flat :
    (c a b : Ast) (rest : List Tok)
    → print (ternary c a b) ++ rest
      ≡ lparen 0 ∷ (print c ++ question 0 ∷ (print a ++ colon 0 ∷ (print b ++ rparen 0 ∷ rest)))
unfolding print
ternary-flat c a b rest =
    rw
      (
        append_assoc (print c) (question 0 ∷ (print a ++ colon 0 ∷ (print b ++ rparen 0 ∷ [])))
            rest,
        append_assoc (print a) (colon 0 ∷ (print b ++ rparen 0 ∷ [])) rest,
        append_assoc (print b) (rparen 0 ∷ []) rest,
      )
      refl

-- In brackets, a tree that the ternary level reads.
pub bracketed :
    (n k : ℕ) (inner full rest : List Tok) (a : Ast)
    → full ≡ lparen 0 ∷ inner
    → suc n ≤ k
    → Reads parse_ternary n inner a (rparen 0 ∷ rest)
    → Reads parse_primary k full a rest
bracketed n k inner full rest a e h r f x =
    rw e (parens n inner (rparen 0 ∷ rest) a 0 0 rest refl r f (omega arith))

pub unary_op-unary_token : (u : UnaryOp) (ts : List Tok) → unary_op (unary_token u ∷ ts) ≡ some u
unfolding unary_op
unary_op-unary_token neg ts = refl
unary_op-unary_token not_ ts = refl
unary_op-unary_token pos ts = refl

pub unary-branch :
    (n : ℕ) (u : UnaryOp) (a : Ast) (rest : List Tok)
    → 1 ≤ n
    → Reads parse_primary n (print a ++ rparen 0 ∷ rest) a (rparen 0 ∷ rest)
    → Reads parse_ternary
        (n + 4)
        (unary_token u ∷ (print a ++ rparen 0 ∷ rest))
        (unary u a)
        (rparen 0 ∷ rest)
unfolding binary_op
unary-branch n u a rest one r f k =
    ternary_of (n + 3) ts end (unary u a) at_binary refl f (omega arith)
  where
    end : List Tok
    end = rparen 0 ∷ rest

    ts : List Tok
    ts = unary_token u ∷ (print a ++ end)

    arg : Reads parse_unary (n + 1) (print a ++ end) a end
    arg = unary_of n (print a ++ end) end a r (unary_op-print a end)

    signed : Reads parse_unary (n + 1 + 1) ts (unary u a) end
    signed =
        unary_step (n + 1) (print a ++ end) end a (unary_token u) u
          (unary_op-unary_token u (print a ++ end)) arg

    at_binary : Reads (λ f. parse_binary f 0) (n + 3) ts (unary u a) end
    at_binary f k =
        binary_of (n + 2) ts end (unary u a) 0 (unary u a) end
          (Reads-weaken parse_unary (n + 1 + 1) (n + 2) ts (unary u a) end (omega arith) signed)
          (Reads-weaken (λ f. binary_loop f 0 (unary u a)) 1 (n + 2) end (unary u a) end
            (omega arith) (loop_stop 0 (unary u a) end refl))
          f (omega arith)

pub binary-branch :
    (n : ℕ) (o : Op) (p : ℕ) (l r : Ast) (rest : List Tok)
    → 1 ≤ n
    → precedence o ≡ some p
    → Reads parse_primary n
        (print l ++ op o 0 ∷ (print r ++ rparen 0 ∷ rest))
        l
        (op o 0 ∷ (print r ++ rparen 0 ∷ rest))
    → Reads parse_primary n (print r ++ rparen 0 ∷ rest) r (rparen 0 ∷ rest)
    → Reads parse_ternary
        (n + 5)
        (print l ++ op o 0 ∷ (print r ++ rparen 0 ∷ rest))
        (binary o l r)
        (rparen 0 ∷ rest)
unfolding binary_op
binary-branch n o p l r rest one e left right f k =
    ternary_of (n + 4) ts end (binary o l r) at_binary refl f (omega arith)
  where
    end : List Tok
    end = rparen 0 ∷ rest

    ts₁ : List Tok
    ts₁ = print r ++ end

    ts : List Tok
    ts = print l ++ op o 0 ∷ ts₁

    at_binary : Reads (λ f. parse_binary f 0) (n + 4) ts (binary o l r) end
    at_binary f k =
        operation (n + 2) 0 o p 0 ts ts₁ end l r (omega arith)
          (Reads-weaken parse_primary n (n + 2) ts l (op o 0 ∷ ts₁) (omega arith) left)
          (unary_op-print l (op o 0 ∷ ts₁)) (binds_zero o p ts₁ 0 e)
          (last r n one (suc p) end right refl) refl f (omega arith)

pub ternary-branch :
    (n : ℕ) (c a b : Ast) (rest : List Tok)
    → 1 ≤ n
    → ((end : List Tok) → Reads parse_primary n (print c ++ end) c end)
    → ((end : List Tok) → Reads parse_primary n (print a ++ end) a end)
    → ((end : List Tok) → Reads parse_primary n (print b ++ end) b end)
    → Reads parse_ternary
        (n + 4)
        (print c ++ question 0 ∷ (print a ++ colon 0 ∷ (print b ++ rparen 0 ∷ rest)))
        (ternary c a b)
        (rparen 0 ∷ rest)
unfolding binary_op
ternary-branch n c a b rest one rc ra rb f k =
    ternary_step (n + 3) 0 0 c a b _ after_question after_colon (rparen 0 ∷ rest)
      (Reads-weaken (λ f. parse_binary f 0) (n + 2) (n + 3) _ c (question 0 ∷ after_question)
        (omega arith) (last c n one 0 (question 0 ∷ after_question) (rc _) refl))
      (branch a n one (colon 0 ∷ after_colon) (ra _) refl refl)
      (branch b n one (rparen 0 ∷ rest) (rb _) refl refl) f (omega arith)
  where
    after_colon : List Tok
    after_colon = print b ++ rparen 0 ∷ rest

    after_question : List Tok
    after_question = print a ++ colon 0 ∷ after_colon
