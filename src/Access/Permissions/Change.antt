-- ===== src/Access/Permissions/Change.antt =====
-- What a single grant changes, and that its revocation takes it back.
use bpm_new.Common.{
  ℕ, Bool, true, false, ◌≡◌, refl, ◌∙◌, ◌&&◌, ◌||◌, not, some, ◌∷◌, Str, inl, inr, Bool-cases,
  arith, any, head?, keep, if◌then◌else◌, ==_refl, str_eq, codes,
}
use bpm_new.Access.Permissions.Defs.{
  Permission, GranteeType, user, role, Grant, Caller, can, implies, has_permission, is_grant_to,
  is_grant_on, is_administrator, includes,
}
use bpm_new.Access.Permissions.Effective.{confers, can_lem}
use bpm_new.Access.Permissions.Grants.{
  Key, key_of, granted, revoked, Store, done, clashes, insert_grant, grant, is_target, revoke,
  new_grant, is_process, is_named,
}
use bpm_new.Access.Permissions.Trail.{any-clashes-target}

-- The grantee of a grant is the caller, or a role of the caller's.
abbrev pub names : Caller → Str → Str → Bool
names c grantee_type grantee =
    if str_eq grantee_type (codes "user")
    then str_eq grantee c.user_id
    else includes c.roles grantee

abbrev pub with_grant : Grant → Store → Store
with_grant g store = record store {
  grants = g ∷ store.grants;
  audits =
      record { action = granted; subject = key_of g; actor_user_id = g.granted_by } ∷ store.audits;
}

insert_grant-done :
    (g : Grant) (store : Store) {store' : Store}
    → insert_grant g store ≡ done store'
    → (any (clashes g) store.grants ≡ false) × (store' ≡ with_grant g store)
insert_grant-done g store {store'} h = elim (Bool-cases (any (clashes g) store.grants)) [
  | inl e ↦ absurd (cc (rw e at h))
  | inr e ↦ (e, let h' = rw e at h in cc)
]

-- A grant that succeeds has inserted one row, for the kind of grantee that was named.
grant-done :
    (id tenant process : ℕ) (grantee_type grantee : Str) (p : Permission) (by : Str) (store : Store)
    {store' : Store}
    → grant id tenant process grantee_type grantee p by store ≡ done store'
    → (t : GranteeType) × (insert_grant (new_grant id tenant process grantee p by t) store
        ≡ done store')
      × ((c : Caller)
          → is_grant_to c (new_grant id tenant process grantee p by t)
            ≡ names c grantee_type grantee)
unfolding grant
grant-done id tenant process grantee_type grantee p by store {store'} h =
    elim (Bool-cases (any (is_process tenant process) store.processes)) [
      | inr e ↦ absurd (cc (rw e at h))
      | inl e ↦
          let h1 = rw e at h in
          elim (Bool-cases (str_eq grantee_type (codes "user"))) [
            | inl u ↦
                let h2 = rw u at h1 in
                elim (Bool-cases (any (is_named tenant grantee) store.users)) [
                  | inl k ↦ (user, rw k at h2, λ c. rw u (ground arith))
                  | inr k ↦ absurd (cc (rw k at h2))
                ]
            | inr u ↦
                let h2 = rw u at h1 in
                elim (Bool-cases (str_eq grantee_type (codes "role"))) [
                  | inr r ↦ absurd (cc (rw r at h2))
                  | inl r ↦
                      let h3 = rw r at h2 in
                      elim (Bool-cases (any (is_named tenant grantee) store.roles)) [
                        | inl k ↦ (role, rw k at h3, λ c. rw u refl)
                        | inr k ↦ absurd (cc (rw k at h3))
                      ]
                ]
          ]
    ]

can-with_grant :
    (g : Grant) (store : Store) (c : Caller) (process : ℕ) (q : Permission)
    → is_grant_on c.tenant_id process g ≡ true
    → is_administrator c ≡ false
    → can (with_grant g store).grants (with_grant g store).grants c process q
      ≡ (confers c q g || any (confers c q) (keep (is_grant_on c.tenant_id process) store.grants))
can-with_grant g store c process q on other =
    can_lem (g ∷ store.grants) (g ∷ store.grants) c process q ∙ rw (other, on) (ground arith)

-- After a grant that succeeds, a caller of its tenant who is no administrator may do on the process
-- what the grant confers, if it names them, and what earlier grants on the process confer, and
-- nothing else: what was open to the tenant before the first grant no longer is.
pub can-grant :
    (id tenant process : ℕ) (grantee_type grantee : Str) (p : Permission) (by : Str) (store : Store)
    {store' : Store} (c : Caller) (q : Permission)
    → grant id tenant process grantee_type grantee p by store ≡ done store'
    → c.tenant_id ≡ tenant
    → is_administrator c ≡ false
    → can store'.grants store'.grants c process q ≡ (
        (names c grantee_type grantee && has_permission q (implies p))
        || any (confers c q) (keep (is_grant_on tenant process) store.grants))
can-grant id tenant process grantee_type grantee p by store {store'} c q h same other =
    let (t, inserted, named) = grant-done id tenant process grantee_type grantee p by store h in
    let (free, after) =
      insert_grant-done (new_grant id tenant process grantee p by t) store inserted in
    let g = new_grant id tenant process grantee p by t in
    let on : is_grant_on c.tenant_id process g ≡ true =
      rw (same, ==_refl tenant, ==_refl process) refl in
    rw after (can-with_grant g store c process q on other ∙ rw (same, named c) refl)

revoke-with_grant :
    (g : Grant) (store : Store) (actor : Str)
    → any (clashes g) store.grants ≡ false
    → revoke g.tenant_id g.process_id g.id actor (with_grant g store)
      ≡ done record store {
        audits =
            record { action = revoked; subject = key_of g; actor_user_id = actor }
            ∷ record { action = granted; subject = key_of g; actor_user_id = g.granted_by }
            ∷ store.audits;
      }
unfolding revoke
revoke-with_grant g store actor free =
    let target : is_target g.tenant_id g.process_id g.id g ≡ true =
      rw (==_refl g.id, ==_refl g.tenant_id, ==_refl g.process_id) refl in
    let first : head? (keep (is_target g.tenant_id g.process_id g.id) (g ∷ store.grants)) ≡ some g =
      rw target refl in
    let others : keep (λ x. not (is_target g.tenant_id g.process_id g.id x)) (g ∷ store.grants)
        ≡ store.grants =
      rw target (any-clashes-target g.tenant_id g.process_id g.id g store.grants target free) in
    rw (first, others) refl

-- A grant that succeeds is taken back by a revocation with its id: the grants are again those from
-- before, and the audit trail has two events more, of the grant and of its revocation.
pub revoke-grant :
    (id tenant process : ℕ) (grantee_type grantee : Str) (p : Permission) (by actor : Str)
    (store : Store) {store' : Store}
    → grant id tenant process grantee_type grantee p by store ≡ done store'
    → (k : Key) × (revoke tenant process id actor store'
        ≡ done record store {
          audits =
              record { action = revoked; subject = k; actor_user_id = actor }
              ∷ record { action = granted; subject = k; actor_user_id = by }
              ∷ store.audits;
        })
revoke-grant id tenant process grantee_type grantee p by actor store {store'} h =
    let (t, inserted, named) = grant-done id tenant process grantee_type grantee p by store h in
    let g = new_grant id tenant process grantee p by t in
    let (free, after) = insert_grant-done g store inserted in
    (key_of g, rw after (revoke-with_grant g store actor free))
