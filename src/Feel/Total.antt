-- ===== src/Feel/Total.antt =====
-- The fuel of the parser always suffices.
use bpm_new.Common.{
  ℕ, zero, suc, ◌+◌, ◌*◌, ◌≤◌, ◌<◌, Bool, true, false, ◌≡◌, ◌≢◌, ◌⊎◌, inl, inr, refl, some, List,
  [], ◌∷◌, subst, Option-cases, if◌then◌else◌, length, arith,
}
use bpm_new.Feel.Syntax.{Op, Tok, num, str, ident, lparen, UnaryOp, Ast, FeelError}
use bpm_new.Feel.Parser.{
  Parsed, done, fail, out_of_fuel, bind, tail, is_question, is_colon, is_rparen, binary_op,
  unary_op, Start, atom, opens, refused, start_of, parse_ternary, parse_binary, binary_loop,
  parse_unary, parse_primary, at_end, enough_fuel, parse_expression,
}

-- The run kept within its fuel, and `P` holds of its value and what it left, if it has one.
pub data Ensures {A : Type 0} (P : A → List Tok → Type 0) : Parsed A → Type 0 where
  holds : {a : A} {rest : List Tok} → P a rest → Ensures P (done a rest)
  rejected : {e : FeelError} → Ensures P (fail e)

module _ {A : Type 0} {P : A → List Tok → Type 0} where
  pub Ensures-bind :
      {B : Type 0} {Q : B → List Tok → Type 0} {r : Parsed A} {f : A → List Tok → Parsed B}
      → Ensures P r
      → ((a : A) (rest : List Tok) → P a rest → Ensures Q (f a rest))
      → Ensures Q (bind r f)
  Ensures-bind (holds {a} {rest} h) k = k a rest h
  Ensures-bind rejected k = rejected

  pub Ensures-if :
      (b : Bool) {x y : Parsed A}
      → (b ≡ true → Ensures P x)
      → (b ≡ false → Ensures P y)
      → Ensures P (if b then x else y)
  Ensures-if true h k = h refl
  Ensures-if false h k = k refl

  pub Ensures-ne : {r : Parsed A} → Ensures P r → r ≢ out_of_fuel
  Ensures-ne (holds h) e = cc
  Ensures-ne rejected e = cc

-- Something was taken off the front; nothing was put there.
abbrev pub Shorter : List Tok → Ast → List Tok → Type 0
Shorter ts a rest = length rest < length ts

abbrev pub NoLonger : List Tok → Ast → List Tok → Type 0
NoLonger ts a rest = length rest ≤ length ts

question-tail : (ts : List Tok) → is_question ts ≡ true → length (tail ts) < length ts
question-tail [] h = cc
question-tail (t ∷ ts) h = omega arith

colon-tail : (ts : List Tok) → is_colon ts ≡ true → length (tail ts) < length ts
colon-tail [] h = cc
colon-tail (t ∷ ts) h = omega arith

rparen-tail : (ts : List Tok) → is_rparen ts ≡ true → length (tail ts) < length ts
rparen-tail [] h = cc
rparen-tail (t ∷ ts) h = omega arith

binary-tail :
    (m : ℕ) (ts : List Tok) (b : Op × ℕ) → binary_op m ts ≡ some b → length (tail ts) < length ts
unfolding binary_op
binary-tail m [] b h = cc
binary-tail m (t ∷ ts) b h = omega arith

unary-tail : (ts : List Tok) (u : UnaryOp) → unary_op ts ≡ some u → length (tail ts) < length ts
unfolding unary_op
unary-tail [] u h = cc
unary-tail (t ∷ ts) u h = omega arith

abbrev Takes : List Tok → Start → Type 0
Takes ts (refused e) = Unit
Takes ts _ = length (tail ts) < length ts

start_of-Takes : (ts : List Tok) → Takes ts (start_of ts)
unfolding start_of
start_of-Takes [] = tt
start_of-Takes (num n p ∷ ts) = omega arith
start_of-Takes (str s p ∷ ts) = omega arith
start_of-Takes (ident s p ∷ ts) = omega arith
start_of-Takes (lparen p ∷ ts) = omega arith
start_of-Takes (_ ∷ ts) = tt

Start-cases :
    (s : Start)
    → ((a : Ast) × (s ≡ atom a)) ⊎ ((p : ℕ) × (s ≡ opens p)) ⊎ ((e : FeelError) × (s ≡ refused e))
Start-cases (atom a) = inl (a, refl)
Start-cases (opens p) = inr (inl (p, refl))
Start-cases (refused e) = inr (inr (e, refl))

mutual
  unfolding parse_ternary

  ternary-Ensures :
      (f : ℕ) (ts : List Tok) → 6 * length ts + 4 ≤ f → Ensures (Shorter ts) (parse_ternary f ts)
  ternary-Ensures zero ts h = absurd (omega arith)
  ternary-Ensures (suc f) ts h = Ensures-bind (binary-Ensures f 0 ts (omega arith)) λ test ts₁ p.
      Ensures-if (is_question ts₁)
        (λ q.
          Ensures-bind (ternary-Ensures f (tail ts₁) (omega (arith, question-tail ts₁ q)))
            λ a ts₂ p₂.
              Ensures-if (is_colon ts₂)
                (λ c.
                  Ensures-bind
                    (ternary-Ensures f (tail ts₂)
                      (omega (arith, question-tail ts₁ q, colon-tail ts₂ c)))
                    λ b ts₃ p₃. holds (omega (arith, question-tail ts₁ q, colon-tail ts₂ c)))
                (λ _. rejected))
        (λ _. holds p)

  binary-Ensures :
      (f m : ℕ) (ts : List Tok) → 6 * length ts + 3 ≤ f → Ensures (Shorter ts) (parse_binary f m ts)
  binary-Ensures zero m ts h = absurd (omega arith)
  binary-Ensures (suc f) m ts h =
      Ensures-bind (unary-Ensures f ts (omega arith))
        λ left ts₁ p. loop-Ensures f m left ts₁ ts (omega arith) p

  loop-Ensures :
      (f m : ℕ) (left : Ast) (ts ts₀ : List Tok)
      → 6 * length ts + 1 ≤ f
      → length ts < length ts₀
      → Ensures (Shorter ts₀) (binary_loop f m left ts)
  loop-Ensures zero m left ts ts₀ h k = absurd (omega arith)
  loop-Ensures (suc f) m left ts ts₀ h k = elim (Option-cases (binary_op m ts)) [
    | inl e ↦ rw (e, binary_loop) (holds k)
    | inr ((o, p), e) ↦
        rw (e, binary_loop)
          (Ensures-bind
            (binary-Ensures f (suc p) (tail ts) (omega (arith, binary-tail m ts (o, p) e)))
            λ right ts₁ q.
              loop-Ensures f m _ ts₁ ts₀ (omega (arith, binary-tail m ts (o, p) e))
                (omega (arith, binary-tail m ts (o, p) e)))
  ]

  unary-Ensures :
      (f : ℕ) (ts : List Tok) → 6 * length ts + 2 ≤ f → Ensures (Shorter ts) (parse_unary f ts)
  unary-Ensures zero ts h = absurd (omega arith)
  unary-Ensures (suc f) ts h = elim (Option-cases (unary_op ts)) [
    | inl e ↦ rw (e, parse_unary) (primary-Ensures f ts (omega arith))
    | inr (u, e) ↦
        rw (e, parse_unary)
          (Ensures-bind (unary-Ensures f (tail ts) (omega (arith, unary-tail ts u e)))
            λ a ts₁ q. holds (omega (arith, unary-tail ts u e)))
  ]

  primary-Ensures :
      (f : ℕ) (ts : List Tok) → 6 * length ts + 1 ≤ f → Ensures (Shorter ts) (parse_primary f ts)
  primary-Ensures zero ts h = absurd (omega arith)
  primary-Ensures (suc f) ts h = elim (Start-cases (start_of ts)) [
    | inl (a, e) ↦ rw (e, parse_primary) (holds (subst (Takes ts) e (start_of-Takes ts)))
    | inr (inl (p, e)) ↦
        let t : length (tail ts) < length ts = subst (Takes ts) e (start_of-Takes ts) in
        rw (e, parse_primary)
          (Ensures-bind (ternary-Ensures f (tail ts) (omega arith)) λ inner ts₁ q.
            Ensures-if (is_rparen ts₁) (λ r. holds (omega (arith, rparen-tail ts₁ r)))
              (λ _. rejected))
    | inr (inr (x, e)) ↦ rw (e, parse_primary) rejected
  ]

-- With the fuel that it is given, the parser ends with a tree and no token left, or with an error, on
-- every list of tokens.
pub parse_expression-total : (ts : List Tok) → Ensures (λ a rest. rest ≡ []) (parse_expression ts)
unfolding parse_expression
parse_expression-total ts = Ensures-bind (ternary-Ensures (enough_fuel ts) ts (omega arith)) ended
  where
    ended :
        (a : Ast) (rest : List Tok) → Shorter ts a rest → Ensures (λ b r. r ≡ []) (at_end a rest)
    ended a [] h = holds refl
    ended a (t ∷ rest) h = rejected
