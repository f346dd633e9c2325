-- ===== src/Access/Permissions/Trail.antt =====
-- Each change keeps the audit trail in step with the rows of the grants.
use bpm_new.Common.{
  ℕ, Bool, true, false, ◌≡◌, refl, sym, ap, ◌∙◌, subst, not, some, List, [], ◌∷◌, Str, inl, inr,
  Bool-cases, Option-cases, arith, neither, any, keep, head?, if◌then◌else◌, ◌==◌, str_eq,
  str_eq→eq, codes,
}
use bpm_new.Access.Permissions.Defs.{Permission, GranteeType, user, role, Grant}
use bpm_new.Access.Permissions.Effective.{is_permission→eq}
use bpm_new.Access.Permissions.Grants.{
  Key, key_of, same_key, same_type, Action, granted, revoked, AuditEvent, Store, Reply, done,
  refused, clashes, insert_grant, grant, is_target, revoke, new_grant, is_process, is_named,
}

-- Is there a grant with the key?
abbrev pub is_granted : Key → List Grant → Bool
is_granted k = any (λ g. same_key k (key_of g))

abbrev pub grants_access : Action → Bool
grants_access granted = true
grants_access revoked = false

-- The abstract view: a key is granted if the newest event on it says so.
abbrev pub replay : Key → List AuditEvent → Bool
replay k [] = false
replay k (a ∷ as') = if same_key k a.subject then grants_access a.action else replay k as'

-- No two rows have the same id or the same key.
abbrev pub IsDistinct : List Grant → Type 0
IsDistinct [] = Unit
IsDistinct (g ∷ gs) = (any (clashes g) gs ≡ false) × IsDistinct gs

same_type→eq : (t u : GranteeType) → same_type t u ≡ true → t ≡ u
same_type→eq user user h = refl
same_type→eq role role h = refl
same_type→eq user role h = cc
same_type→eq role user h = cc

same_key→eq : (k l : Key) → same_key k l ≡ true → k ≡ l
same_key→eq k l h =
    let a : k.tenant_id ≡ l.tenant_id = ground arith in
    let b : k.process_id ≡ l.process_id = ground arith in
    let c = same_type→eq k.grantee_type l.grantee_type (ground arith) in
    let d = str_eq→eq k.grantee_id l.grantee_id (ground arith) in
    let e = is_permission→eq k.permission l.permission (ground arith) in
    λ i. record {
      tenant_id = a i;
      process_id = b i;
      grantee_type = c i;
      grantee_id = d i;
      permission = e i;
    }

-- The rows are distinct and the trail is in step with them.
abbrev pub IsSound : Store → Type 0
IsSound store =
    IsDistinct store.grants × ((k : Key) → is_granted k store.grants ≡ replay k store.audits)

abbrev pub StaysSound : Reply → Type 0
StaysSound (done store) = IsSound store
StaysSound (refused _) = Unit

insert_grant-IsSound :
    (g : Grant) (store : Store) → IsSound store → StaysSound (insert_grant g store)
insert_grant-IsSound g store (distinct, agree) = elim (Bool-cases (any (clashes g) store.grants)) [
  | inl e ↦ rw e tt
  | inr e ↦ rw e ((e, distinct), λ k. rw (agree k) (ground arith))
]

any-weaken : (f p : Grant → Bool) (gs : List Grant) → any f gs ≡ false → any f (keep p gs) ≡ false
any-weaken f p [] h = refl
any-weaken f p (g ∷ gs) h = elim (Bool-cases (p g)) [
  | inl e ↦ rw e (let rest = any-weaken f p gs (ground arith) in ground arith)
  | inr e ↦ rw e (any-weaken f p gs (ground arith))
]

IsDistinct-keep : (p : Grant → Bool) (gs : List Grant) → IsDistinct gs → IsDistinct (keep p gs)
IsDistinct-keep p [] h = tt
IsDistinct-keep p (g ∷ gs) h = elim (Bool-cases (p g)) [
  | inl e ↦ rw e (any-weaken (clashes g) p gs h.0, IsDistinct-keep p gs h.1)
  | inr e ↦ rw e (IsDistinct-keep p gs h.1)
]

clashes-target :
    (tenant process id : ℕ) (d g : Grant)
    → is_target tenant process id d ≡ true
    → clashes d g ≡ false
    → is_target tenant process id g ≡ false
clashes-target tenant process id d g h c =
    let n = (neither (g.id == d.id) (same_key (key_of d) (key_of g)) c).0 in
    let m : d.id ≡ id = ground arith in
    let i : (g.id == id) ≡ false = subst (λ x. (g.id == x) ≡ false) m n in rw i refl

pub any-clashes-target :
    (tenant process id : ℕ) (d : Grant) (gs : List Grant)
    → is_target tenant process id d ≡ true
    → any (clashes d) gs ≡ false
    → keep (λ g. not (is_target tenant process id g)) gs ≡ gs
any-clashes-target tenant process id d [] h c = refl
any-clashes-target tenant process id d (g ∷ gs) h c =
    let (here, rest) = neither (clashes d g) (any (clashes d) gs) c in
    rw (clashes-target tenant process id d g h here)
      (ap (λ l. g ∷ l) (any-clashes-target tenant process id d gs h rest))

-- A key that clashes with no row is not granted.
any-clashes-key :
    (d : Grant) (gs : List Grant) → any (clashes d) gs ≡ false → is_granted (key_of d) gs ≡ false
any-clashes-key d [] h = refl
any-clashes-key d (g ∷ gs) h =
    let (here, rest) = neither (clashes d g) (any (clashes d) gs) h in
    let other = (neither (g.id == d.id) (same_key (key_of d) (key_of g)) here).1 in
    rw other (any-clashes-key d gs rest)

some_injective : {g d : Grant} → some g ≡ some d → g ≡ d
some_injective h = cc

first-clashes :
    (f p : Grant → Bool) (d : Grant) (gs : List Grant)
    → any f gs ≡ false
    → head? (keep p gs) ≡ some d
    → f d ≡ false
first-clashes f p d [] h e = cc
first-clashes f p d (g ∷ gs) h e =
    let (here, rest) = neither (f g) (any f gs) h in
    elim (Bool-cases (p g)) [
      | inl t ↦ let e' = rw t at e in subst (λ x. f x ≡ false) (some_injective e') here
      | inr t ↦ first-clashes f p d gs rest (rw t at e)
    ]

-- The rows left by a DELETE of one id lack the key of the row that it returned, and no other.
is_granted-keep :
    (tenant process id : ℕ) (k : Key) (d : Grant) (gs : List Grant)
    → IsDistinct gs
    → head? (keep (is_target tenant process id) gs) ≡ some d
    → is_granted k (keep (λ g. not (is_target tenant process id g)) gs)
      ≡ (if same_key k (key_of d) then false else is_granted k gs)
is_granted-keep tenant process id k d [] h e = cc
is_granted-keep tenant process id k d (g ∷ gs) h e =
    elim (Bool-cases (is_target tenant process id g)) [
      | inl t ↦
          let same = some_injective (rw t at e) in
          subst
            (λ x.
              is_granted k (keep (λ y. not (is_target tenant process id y)) (g ∷ gs))
              ≡ (if same_key k (key_of x) then false else is_granted k (g ∷ gs)))
            same
            (rw (t, any-clashes-target tenant process id g gs t h.0)
              (elim (Bool-cases (same_key k (key_of g))) [
                | inl s ↦
                    let none_left =
                      subst (λ l. is_granted l gs ≡ false) (sym (same_key→eq k (key_of g) s))
                        (any-clashes-key g gs h.0) in
                    rw (s, none_left) refl
                | inr s ↦ rw s refl
              ]))
      | inr t ↦
          let e' = rw t at e in
          let differ =
            (neither (d.id == g.id) (same_key (key_of g) (key_of d))
              (first-clashes (clashes g) (is_target tenant process id) d gs h.0 e')).1 in
          rw (t, is_granted-keep tenant process id k d gs h.1 e')
            (elim (Bool-cases (same_key k (key_of d))) [
              | inl s ↦ elim (Bool-cases (same_key k (key_of g))) [
                | inl u ↦ absurd (
                    cc (
                      subst (λ l. same_key l (key_of d) ≡ true) (same_key→eq k (key_of g) u) s,
                      differ,
                    ))
                | inr u ↦ rw (s, u) refl
              ]
              | inr s ↦ rw s refl
            ])
    ]

pub revoke-IsSound :
    (tenant process id : ℕ) (actor : Str) (store : Store)
    → IsSound store
    → StaysSound (revoke tenant process id actor store)
unfolding revoke
revoke-IsSound tenant process id actor store (distinct, agree) =
    elim (Option-cases (head? (keep (is_target tenant process id) store.grants))) [
      | inl e ↦ rw e tt
      | inr (d, e) ↦ rw e (
        IsDistinct-keep _ store.grants distinct,
        λ k. is_granted-keep tenant process id k d store.grants distinct e ∙ rw (agree k) refl,
      )
    ]

if-StaysSound :
    (b : Bool) (x y : Reply) → StaysSound x → StaysSound y → StaysSound (if b then x else y)
if-StaysSound true x y h k = h
if-StaysSound false x y h k = k

pub grant-IsSound :
    (id tenant process : ℕ) (grantee_type grantee : Str) (p : Permission) (by : Str) (store : Store)
    → IsSound store
    → StaysSound (grant id tenant process grantee_type grantee p by store)
unfolding grant
grant-IsSound id tenant process grantee_type grantee p by store sound =
    let row = new_grant id tenant process grantee p by in
    if-StaysSound (not (any (is_process tenant process) store.processes)) _ _ tt (
      if-StaysSound (str_eq grantee_type (codes "user")) _ _
        (if-StaysSound (not (any (is_named tenant grantee) store.users)) _ _ tt
          (insert_grant-IsSound (row user) store sound))
        (if-StaysSound (str_eq grantee_type (codes "role")) _ _
          (if-StaysSound (not (any (is_named tenant grantee) store.roles)) _ _ tt
            (insert_grant-IsSound (row role) store sound))
          tt))
