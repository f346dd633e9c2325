-- ===== src/Feel/RoundTrip.antt =====
-- Trees printed with brackets parse back.
use mathlib.Core.List.{append-nil}
use bpm_new.Common.{
  ◌+◌, ◌*◌, ◌≤◌, true, false, ◌≡◌, refl, List, [], ◌∷◌, ◌++◌, subst, length, length-append, arith,
  codes,
}
use bpm_new.Feel.Syntax.{
  Tok, num, str, ident, op, rparen, question, colon, Ast, number, text, truth, null, name, unary,
  binary, ternary,
}
use bpm_new.Feel.Parser.{
  done, binary_op, start_of, parse_ternary, parse_primary, enough_fuel, parse_expression,
}
use bpm_new.Feel.Descent.{Reads, Reads-weaken, atom_of}
use bpm_new.Feel.Printed.{
  WellFormed, binary-branch, binary-flat, bracketed, branch, cost, cost-positive, print,
  ternary-branch, ternary-flat, unary-branch, unary-flat,
}

-- Behind the tokens of a well-formed tree anything may follow.
pub parse_primary-print :
    (a : Ast)
    → WellFormed a
    → (rest : List Tok) → Reads parse_primary (cost a) (print a ++ rest) a rest
unfolding start_of print cost binary_op
parse_primary-print (number n) w rest = atom_of (num n 0) rest (number n) refl
parse_primary-print (text s) w rest = atom_of (str s 0) rest (text s) refl
parse_primary-print (truth true) w rest = atom_of (ident (codes "true") 0) rest (truth true) refl
parse_primary-print (truth false) w rest = atom_of (ident (codes "false") 0) rest (truth false) refl
parse_primary-print null w rest = atom_of (ident (codes "null") 0) rest null refl
parse_primary-print (name s) w rest = atom_of (ident s 0) rest (name s) (rw w refl)
parse_primary-print (unary u a) w rest =
    bracketed (cost a + 4) (cost a + 5) _ _ rest (unary u a) (unary-flat u a rest) (omega arith)
      (unary-branch (cost a) u a rest (cost-positive a) (parse_primary-print a w (rparen 0 ∷ rest)))
parse_primary-print (binary o l r) ((p, e), wl, wr) rest =
    bracketed (cost l + cost r + 5) (cost l + cost r + 6) _ _ rest (binary o l r)
      (binary-flat o l r rest) (omega arith)
      (binary-branch (cost l + cost r) o p l r rest (omega (arith, cost-positive l)) e
        (Reads-weaken parse_primary (cost l) (cost l + cost r) _ l _ (omega arith)
          (parse_primary-print l wl _))
        (Reads-weaken parse_primary (cost r) (cost l + cost r) _ r _ (omega arith)
          (parse_primary-print r wr _)))
parse_primary-print (ternary c a b) (wc, wa, wb) rest =
    bracketed (cost c + cost a + cost b + 4) (cost c + cost a + cost b + 6) _ _ rest (ternary c a b)
      (ternary-flat c a b rest) (omega arith)
      (ternary-branch (cost c + cost a + cost b) c a b rest (omega (arith, cost-positive c))
        (λ end.
          Reads-weaken parse_primary (cost c) (cost c + cost a + cost b) _ c end (omega arith)
            (parse_primary-print c wc end))
        (λ end.
          Reads-weaken parse_primary (cost a) (cost c + cost a + cost b) _ a end (omega arith)
            (parse_primary-print a wa end))
        (λ end.
          Reads-weaken parse_primary (cost b) (cost c + cost a + cost b) _ b end (omega arith)
            (parse_primary-print b wb end)))

pub cost-le : (a : Ast) → cost a ≤ 6 * length (print a)
unfolding cost print
cost-le (number n) = omega arith
cost-le (text n) = omega arith
cost-le (truth true) = omega arith
cost-le (truth false) = omega arith
cost-le null = omega arith
cost-le (name n) = omega arith
cost-le (unary u a) = rw (length-append (print a) (rparen 0 ∷ [])) (omega (arith, cost-le a))
cost-le (binary o l r) =
    rw
      (
        length-append (print l) (op o 0 ∷ (print r ++ rparen 0 ∷ [])),
        length-append (print r) (rparen 0 ∷ []),
      )
      (omega (arith, cost-le l, cost-le r))
cost-le (ternary c a b) =
    rw
      (
        length-append (print c) (question 0 ∷ (print a ++ colon 0 ∷ (print b ++ rparen 0 ∷ []))),
        length-append (print a) (colon 0 ∷ (print b ++ rparen 0 ∷ [])),
        length-append (print b) (rparen 0 ∷ []),
      )
      (omega (arith, cost-le c, cost-le a, cost-le b))

-- What is printed from a tree that the parser can give, every operation in brackets, is parsed to that
-- same tree with no token left.
pub parse_expression-print : (a : Ast) → WellFormed a → parse_expression (print a) ≡ done a []
unfolding parse_expression binary_op
parse_expression-print a w = rw whole refl
  where
    read : Reads parse_ternary (cost a + 3) (print a ++ []) a []
    read = branch a (cost a) (cost-positive a) [] (parse_primary-print a w []) refl refl

    whole : parse_ternary (enough_fuel (print a)) (print a) ≡ done a []
    whole =
        subst (λ ts. parse_ternary (enough_fuel (print a)) ts ≡ done a []) (append-nil (print a))
          (read (enough_fuel (print a)) (omega (arith, cost-le a)))
