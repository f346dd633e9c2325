-- ===== src/Engine/Mapping/Assignment.antt =====
-- What resolveDirectUserAssignee may write to a token.
use bpm_new.Common.{
  Bool, true, false, ◌≡◌, ◌≢◌, refl, Option, none, some, [], ◌∷◌, Str, codes, arith, if◌then◌else◌,
  str_eq,
}
use bpm_new.Data.Chars.{trim, is_empty}
use bpm_new.Data.Json.{Json, null, str, Fields, Host, property, is_object}
use bpm_new.Engine.Mapping.Defs.{
  is_uuid, Assignment, nobody, user, role, Diagnostic, resolve_variable_expression, assign_direct,
  assign_role, assign_resolved, assign_expression, assign_by, assign_from,
  resolve_direct_user_assignee,
}

-- An assignee is a UUID; a candidate role is not empty; at most one of an assignee, a candidate role
-- and a diagnostic is set.
record IsConsistent (a : Assignment) : Type 0 where
  pub uuid : (u : Str) → a.assignee ≡ some u → is_uuid u ≡ true
  pub named : (r : Str) → a.candidate_role ≡ some r → r ≢ []
  pub claim_first : (r : Str) → a.candidate_role ≡ some r → a.assignee ≡ none
  pub silent :
      (d : Diagnostic) → a.diagnostic ≡ some d → (a.assignee ≡ none) × (a.candidate_role ≡ none)

nobody-IsConsistent : (d : Option Diagnostic) → IsConsistent (nobody d)
nobody-IsConsistent d = record {
  uuid = λ u e. cc;
  named = λ r e. cc;
  claim_first = λ r e. cc;
  silent = λ d e. (refl, refl);
}

user-IsConsistent : (u : Str) → is_uuid u ≡ true → IsConsistent (user u)
user-IsConsistent u h = record {
  uuid = λ v e. ground (arith, h);
  named = λ r e. cc;
  claim_first = λ r e. cc;
  silent = λ d e. cc;
}

role-IsConsistent : (s : Str) → is_empty s ≡ false → IsConsistent (role s)
role-IsConsistent s h = record {
  uuid = λ v e. cc;
  named = λ r e n. ground arith;
  claim_first = λ r e. refl;
  silent = λ d e. cc;
}

if-IsConsistent :
    (b : Bool) (x y : Assignment)
    → (b ≡ true → IsConsistent x)
    → (b ≡ false → IsConsistent y)
    → IsConsistent (if b then x else y)
if-IsConsistent true x y h k = h refl
if-IsConsistent false x y h k = k refl

module _ {N : Type 0} (host : Host N) where
  direct-IsConsistent : (v : Option (Json N)) → IsConsistent (assign_direct host v)
  unfolding assign_direct
  direct-IsConsistent (some (str s)) =
      if-IsConsistent (is_uuid s) _ _ (user-IsConsistent s) (λ _. nobody-IsConsistent _)
  direct-IsConsistent none = nobody-IsConsistent _
  direct-IsConsistent (some null) = nobody-IsConsistent _
  direct-IsConsistent (some _) = nobody-IsConsistent _

  role_key-IsConsistent : (v : Option (Json N)) → IsConsistent (assign_role host v)
  unfolding assign_role
  role_key-IsConsistent (some (str s)) =
      if-IsConsistent (is_empty (trim s)) _ _ (λ _. nobody-IsConsistent _)
        (role-IsConsistent (trim s))
  role_key-IsConsistent none = nobody-IsConsistent _
  role_key-IsConsistent (some null) = nobody-IsConsistent _
  role_key-IsConsistent (some _) = nobody-IsConsistent _

  resolved-IsConsistent : (e : Str) (v : Option (Json N)) → IsConsistent (assign_resolved host e v)
  unfolding assign_resolved
  resolved-IsConsistent e (some (str (c ∷ s))) =
      if-IsConsistent (is_uuid (c ∷ s)) _ _ (user-IsConsistent (c ∷ s)) (λ _. nobody-IsConsistent _)
  resolved-IsConsistent e (some (str [])) = nobody-IsConsistent _
  resolved-IsConsistent e none = nobody-IsConsistent _
  resolved-IsConsistent e (some null) = nobody-IsConsistent _
  resolved-IsConsistent e (some _) = nobody-IsConsistent _

  expression-IsConsistent :
      (v : Option (Json N)) (vars : Fields N) → IsConsistent (assign_expression host v vars)
  unfolding assign_expression
  expression-IsConsistent (some (str s)) vars =
      if-IsConsistent (is_empty (trim s)) _ _ (λ _. nobody-IsConsistent _)
        (λ _. resolved-IsConsistent s (resolve_variable_expression host s vars))
  expression-IsConsistent none vars = nobody-IsConsistent _
  expression-IsConsistent (some null) vars = nobody-IsConsistent _
  expression-IsConsistent (some _) vars = nobody-IsConsistent _

  strategy-IsConsistent :
      (t v : Option (Json N)) (vars : Fields N) → IsConsistent (assign_by host t v vars)
  unfolding assign_by
  strategy-IsConsistent (some (str t)) v vars =
      if-IsConsistent (str_eq t (codes "directUser")) _ _ (λ _. direct-IsConsistent v)
        λ _.
          if-IsConsistent (str_eq t (codes "role")) _ _ (λ _. role_key-IsConsistent v)
            λ _.
              if-IsConsistent (str_eq t (codes "expression")) _ _
                (λ _. expression-IsConsistent v vars) (λ _. nobody-IsConsistent _)
  strategy-IsConsistent none v vars = nobody-IsConsistent _
  strategy-IsConsistent (some null) v vars = nobody-IsConsistent _
  strategy-IsConsistent (some _) v vars = nobody-IsConsistent _

  source-IsConsistent :
      (a : Option (Json N)) (vars : Fields N) → IsConsistent (assign_from host a vars)
  unfolding assign_from
  source-IsConsistent none vars = nobody-IsConsistent _
  source-IsConsistent (some a) vars =
      if-IsConsistent (is_object a) _ _
        (λ _.
          strategy-IsConsistent (property host a (codes "type")) (property host a (codes "value"))
            vars)
        (λ _. nobody-IsConsistent _)

  resolve_direct_user_assignee-IsConsistent :
      (node_data : Option (Json N)) (variables : Fields N)
      → IsConsistent (resolve_direct_user_assignee host node_data variables)
  unfolding resolve_direct_user_assignee
  resolve_direct_user_assignee-IsConsistent none variables = nobody-IsConsistent _
  resolve_direct_user_assignee-IsConsistent (some d) variables =
      source-IsConsistent (property host d (codes "assignment")) variables

-- Nobody, with a diagnostic or none; a UUID; or a candidate role that is not empty.
abbrev pub IsClean : Option Str → Option Str → Option Diagnostic → Type 0
IsClean none none diagnostic = Unit
IsClean (some u) none none = is_uuid u ≡ true
IsClean none (some r) none = r ≢ []
IsClean _ _ _ = ⊥

consistent-IsClean :
    (a r : Option Str) (d : Option Diagnostic)
    → ((u : Str) → a ≡ some u → is_uuid u ≡ true)
    → ((s : Str) → r ≡ some s → s ≢ [])
    → ((s : Str) → r ≡ some s → a ≡ none)
    → ((x : Diagnostic) → d ≡ some x → (a ≡ none) × (r ≡ none))
    → IsClean a r d
consistent-IsClean none none d h k l m = tt
consistent-IsClean (some u) none none h k l m = h u refl
consistent-IsClean none (some s) none h k l m = k s refl
consistent-IsClean (some u) (some s) d h k l m = absurd (cc (l s refl))
consistent-IsClean (some u) none (some x) h k l m = absurd (cc (m x refl).0)
consistent-IsClean none (some s) (some x) h k l m = absurd (cc (m x refl).1)

-- Whatever the node and the variables hold, what is written to the token is one of these: no assignee
-- and no candidate role, with a diagnostic or none; an assignee that is a UUID; or a candidate role
-- that is not empty.
pub resolve_direct_user_assignee-IsClean :
    {N : Type 0} (host : Host N) (node_data : Option (Json N)) (variables : Fields N)
    → let a = resolve_direct_user_assignee host node_data variables in
      IsClean a.assignee a.candidate_role a.diagnostic
resolve_direct_user_assignee-IsClean host node_data variables =
    let h = resolve_direct_user_assignee-IsConsistent host node_data variables in
    consistent-IsClean _ _ _ h.uuid h.named h.claim_first h.silent
