-- ===== src/Feel/Descent.antt =====
-- One lemma for each step of the recursive descent of class Parser, when it succeeds.
use bpm_new.Common.{ℕ, zero, suc, ◌+◌, ◌≤◌, false, ◌≡◌, refl, none, some, List, ◌∷◌, arith}
use bpm_new.Feel.Syntax.{
  Op, Tok, op, lparen, rparen, question, colon, UnaryOp, Ast, unary, binary, ternary,
}
use bpm_new.Feel.Parser.{
  Parsed, done, is_question, binary_op, unary_op, start_of, atom, parse_ternary, parse_binary,
  binary_loop, parse_unary, parse_primary,
}

-- With this much fuel or more, `p` reads the tree and leaves the rest.
abbrev pub Reads : (ℕ → List Tok → Parsed Ast) → ℕ → List Tok → Ast → List Tok → Type 0
Reads p n ts a rest = (f : ℕ) → n ≤ f → p f ts ≡ done a rest

pub Reads-weaken :
    (p : ℕ → List Tok → Parsed Ast) (n m : ℕ) (ts : List Tok) (a : Ast) (rest : List Tok)
    → n ≤ m
    → Reads p n ts a rest
    → Reads p m ts a rest
Reads-weaken p n m ts a rest h r f k = r f (omega arith)

-- One lemma for each step of the descent.
module _ (n : ℕ) (ts rest : List Tok) (a : Ast) where
  pub unary_of :
      Reads parse_primary n ts a rest → unary_op ts ≡ none → Reads parse_unary (n + 1) ts a rest
  unfolding parse_unary
  unary_of r h zero k = absurd (omega arith)
  unary_of r h (suc f) k = rw (h, parse_unary) (r f (omega arith))

  pub unary_step :
      (t : Tok) (u : UnaryOp)
      → unary_op (t ∷ ts) ≡ some u
      → Reads parse_unary n ts a rest
      → Reads parse_unary (n + 1) (t ∷ ts) (unary u a) rest
  unfolding parse_unary
  unary_step t u h r zero k = absurd (omega arith)
  unary_step t u h r (suc f) k = rw (h, parse_unary) (rw (r f (omega arith)) refl)

  pub binary_of :
      (m : ℕ) (b : Ast) (end : List Tok)
      → Reads parse_unary n ts a rest
      → Reads (λ f. binary_loop f m a) n rest b end
      → Reads (λ f. parse_binary f m) (n + 1) ts b end
  unfolding parse_binary
  binary_of m b end r l zero k = absurd (omega arith)
  binary_of m b end r l (suc f) k = rw (r f (omega arith)) (l f (omega arith))

  pub ternary_of :
      Reads (λ f. parse_binary f 0) n ts a rest
      → is_question rest ≡ false
      → Reads parse_ternary (n + 1) ts a rest
  unfolding parse_ternary
  ternary_of r h zero k = absurd (omega arith)
  ternary_of r h (suc f) k = rw (r f (omega arith)) (rw h refl)

  pub parens :
      (p q : ℕ) (end : List Tok)
      → rest ≡ rparen q ∷ end
      → Reads parse_ternary n ts a rest
      → Reads parse_primary (n + 1) (lparen p ∷ ts) a end
  unfolding parse_primary start_of
  parens p q end e r zero k = absurd (omega arith)
  parens p q end e r (suc f) k = rw (r f (omega arith)) (rw e refl)

pub atom_of :
    (t : Tok) (rest : List Tok) (a : Ast)
    → start_of (t ∷ rest) ≡ atom a
    → Reads parse_primary 1 (t ∷ rest) a rest
unfolding parse_primary
atom_of t rest a h zero k = absurd (omega arith)
atom_of t rest a h (suc f) k = rw (h, parse_primary) refl

pub loop_stop :
    (m : ℕ) (l : Ast) (ts : List Tok)
    → binary_op m ts ≡ none
    → Reads (λ f. binary_loop f m l) 1 ts l ts
unfolding binary_loop
loop_stop m l ts h zero k = absurd (omega arith)
loop_stop m l ts h (suc f) k = rw (h, binary_loop) refl

pub loop_step :
    (n m : ℕ) (l r b : Ast) (o : Op) (p pos' : ℕ) (ts rest end : List Tok)
    → binary_op m (op o pos' ∷ ts) ≡ some (o, p)
    → Reads (λ f. parse_binary f (suc p)) n ts r rest
    → Reads (λ f. binary_loop f m (binary o l r)) n rest b end
    → Reads (λ f. binary_loop f m l) (n + 1) (op o pos' ∷ ts) b end
unfolding binary_loop
loop_step n m l r b o p pos' ts rest end h right more zero k = absurd (omega arith)
loop_step n m l r b o p pos' ts rest end h right more (suc f) k =
    rw (h, binary_loop) (rw (right f (omega arith)) (more f (omega arith)))

pub ternary_step :
    (n p q : ℕ) (c a b : Ast) (ts ts₁ ts₂ rest : List Tok)
    → Reads (λ f. parse_binary f 0) n ts c (question p ∷ ts₁)
    → Reads parse_ternary n ts₁ a (colon q ∷ ts₂)
    → Reads parse_ternary n ts₂ b rest
    → Reads parse_ternary (n + 1) ts (ternary c a b) rest
unfolding parse_ternary
ternary_step n p q c a b ts ts₁ ts₂ rest h k l zero x = absurd (omega arith)
ternary_step n p q c a b ts ts₁ ts₂ rest h k l (suc f) x =
    rw (h f (omega arith)) (rw (k f (omega arith)) (rw (l f (omega arith)) refl))

-- An operand behind which no operator of level `m` follows.
pub operand :
    (n m : ℕ) (ts rest : List Tok) (a : Ast)
    → 1 ≤ n
    → Reads parse_primary n ts a rest
    → unary_op ts ≡ none
    → binary_op m rest ≡ none
    → Reads (λ f. parse_binary f m) (n + 2) ts a rest
operand n m ts rest a h r u b f k =
    binary_of (n + 1) ts rest a m a rest (unary_of n ts rest a r u)
      (Reads-weaken (λ f. binary_loop f m a) 1 (n + 1) rest a rest (omega arith)
        (loop_stop m a rest b))
      f (omega arith)

-- An operand, an operator of level `m` or more, and what that operator takes on its right.
pub operation :
    (n m : ℕ) (o : Op) (p i : ℕ) (ts ts₁ rest : List Tok) (l r : Ast)
    → 1 ≤ n
    → Reads parse_primary n ts l (op o i ∷ ts₁)
    → unary_op ts ≡ none
    → binary_op m (op o i ∷ ts₁) ≡ some (o, p)
    → Reads (λ f. parse_binary f (suc p)) n ts₁ r rest
    → binary_op m rest ≡ none
    → Reads (λ f. parse_binary f m) (n + 2) ts (binary o l r) rest
operation n m o p i ts ts₁ rest l r one h u b right e f k =
    binary_of (n + 1) ts (op o i ∷ ts₁) l m (binary o l r) rest (unary_of n ts (op o i ∷ ts₁) l h u)
      (loop_step n m l r (binary o l r) o p i ts₁ rest rest b right (
        Reads-weaken (λ f. binary_loop f m (binary o l r)) 1 n rest (binary o l r) rest one
          (loop_stop m (binary o l r) rest e)))
      f (omega arith)
