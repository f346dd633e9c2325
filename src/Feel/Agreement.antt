-- ===== src/Feel/Agreement.antt =====
-- What the designer accepts, put to the engine: parseFeelCondition and evalCondition.
use bpm_new.Common.{
  ℕ, Bool, true, false, not, ◌≡◌, ◌⊎◌, inl, inr, refl, none, List, [], ◌∷◌, Str, ltb, any, find,
  length, Bool-cases, Option-cases, arith,
}
use bpm_new.Data.Chars.{is_empty, all, trim, words}
use bpm_new.Data.Json.{Fields}
use bpm_new.Engine.Canvas.Condition.{
  is_allowed, has_forbidden, Run, rejected, evaluated, safe_variables, eval_condition,
  ConditionError,
}
use bpm_new.Feel.Syntax.{Ast}
use bpm_new.Feel.Check.{
  is_operator_of_choice, is_checked, is_forbidden, accepted, parse_feel_condition, max_len,
}

find-any : {A : Type 0} (p : A → Bool) (xs : List A) → find p xs ≡ none → any p xs ≡ false
find-any p [] h = refl
find-any p (x ∷ xs) h = ground (arith, find-any p xs)

-- Without `?` and `:` the two character classes are one.
all_allowed :
    (src : Str)
    → find (λ c. not (is_checked c)) src ≡ none
    → any is_operator_of_choice src ≡ false
    → all is_allowed src ≡ true
unfolding is_checked
all_allowed [] h k = refl
all_allowed (c ∷ s) h k = ground (arith, all_allowed s)

not_allowed : (c : ℕ) → is_operator_of_choice c ≡ true → is_allowed c ≡ false
not_allowed c h = elim (is_choice c h) [
  | inl e ↦ rw e unfold is_allowed in refl
  | inr e ↦ rw e unfold is_allowed in refl
]
  where
    is_choice : (c : ℕ) → is_operator_of_choice c ≡ true → (c ≡ b'?') ⊎ (c ≡ b':')
    is_choice c h = ground arith

not_all_allowed : (src : Str) → any is_operator_of_choice src ≡ true → all is_allowed src ≡ false
not_all_allowed [] h = cc
not_all_allowed (c ∷ s) h = elim (Bool-cases (is_operator_of_choice c)) [
  | inl e ↦ rw (not_allowed c e) refl
  | inr e ↦ elim (Bool-cases (is_allowed c)) [
    | inl a ↦ rw a (not_all_allowed s (rw e at h))
    | inr a ↦ rw a refl
  ]
]

no_forbidden : (src : Str) → find is_forbidden (words src) ≡ none → has_forbidden src ≡ false
unfolding has_forbidden is_forbidden
no_forbidden src h = find-any is_forbidden (words src) h

-- What every accepted source has passed.
accepted-passes :
    (src : Str) (a : Ast) (ids : List Str)
    → parse_feel_condition src ≡ accepted a ids
    → (ltb max_len (length src) ≡ false)
      × (find (λ c. not (is_checked c)) src ≡ none)
      × (find is_forbidden (words src) ≡ none)
      × (is_empty src ≡ false)
unfolding parse_feel_condition
accepted-passes [] a ids h = cc
accepted-passes (c ∷ s) a ids h = elim (Bool-cases (is_empty (trim (c ∷ s)))) [
  | inl e ↦ absurd (cc (rw e at h))
  | inr e ↦ elim (Bool-cases (ltb max_len (length (c ∷ s)))) [
    | inl l ↦ absurd (cc (rw (e, l) at h))
    | inr l ↦ elim (Option-cases (find (λ c. not (is_checked c)) (c ∷ s))) [
      | inr (d, k) ↦ absurd (cc (rw (e, l, k) at h))
      | inl k ↦ elim (Option-cases (find is_forbidden (words (c ∷ s)))) [
        | inr (d, f) ↦ absurd (cc (rw (e, l, k, f) at h))
        | inl f ↦ (l, k, f, refl)
      ]
    ]
  ]
]

-- A condition that the designer accepts meets one of two fates at the engine. Without a `?` and a `:`
-- it passes every check of the engine, which then runs it on the variables with safe names. With one of
-- them the engine refuses it for a disallowed character, whatever the variables are.
pub accepted-fate :
    {N : Type 0} (run : Str → Fields N → Run) (src : Str) (a : Ast) (ids : List Str)
    (variables : Fields N)
    → parse_feel_condition src ≡ accepted a ids
    → ((any is_operator_of_choice src ≡ false)
        × (eval_condition run src variables ≡ evaluated (run src (safe_variables variables))))
      ⊎ ((any is_operator_of_choice src ≡ true)
          × (eval_condition run src variables ≡ rejected ConditionError.disallowed_character))
unfolding eval_condition
accepted-fate run src a ids variables h =
    let (short, checked, words_fine, nonempty) = accepted-passes src a ids h in
    elim (Bool-cases (any is_operator_of_choice src)) [
      | inr e ↦
          inl (e, rw (short, nonempty, all_allowed src checked e, no_forbidden src words_fine) refl)
      | inl e ↦ inr (e, rw (short, nonempty, not_all_allowed src e) refl)
    ]
