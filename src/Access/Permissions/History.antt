-- ===== src/Access/Permissions/History.antt =====
-- Any sequence of grants and revocations, and what a single one is for.
use bpm_new.Common.{ℕ, ◌≡◌, refl, subst, List, [], Str}
use bpm_new.Access.Permissions.Defs.{Permission}
use bpm_new.Access.Permissions.Grants.{Key, ProcessRow, NamedRow, Store, done, grant, revoke}
use bpm_new.Access.Permissions.Trail.{
  is_granted, replay, IsDistinct, IsSound, StaysSound, grant-IsSound, revoke-IsSound,
}

-- What happens to the tables: grants and revocations that succeed, and changes of the other tables.
pub data Step (store : Store) : Store → Type 0 where
  grant_made :
      {store' : Store} (id tenant process : ℕ) (grantee_type grantee : Str) (p : Permission)
      (by : Str)
      → grant id tenant process grantee_type grantee p by store ≡ done store'
      → Step store store'
  grant_revoked :
      {store' : Store} (tenant process id : ℕ) (actor : Str)
      → revoke tenant process id actor store ≡ done store'
      → Step store store'
  tables_changed :
      (processes : List ProcessRow) (users roles : List NamedRow)
      → Step store record store { processes = processes; users = users; roles = roles }

pub data History : Store → Type 0 where
  begins :
      (processes : List ProcessRow) (users roles : List NamedRow)
      → History
          record { processes = processes; users = users; roles = roles; grants = []; audits = [] }
  after : {store store' : Store} → History store → Step store store' → History store'

Step-IsSound : {store store' : Store} → Step store store' → IsSound store → IsSound store'
Step-IsSound {store} (grant_made id tenant process t grantee p by e) h =
    subst StaysSound e (grant-IsSound id tenant process t grantee p by store h)
Step-IsSound {store} (grant_revoked tenant process id actor e) h =
    subst StaysSound e (revoke-IsSound tenant process id actor store h)
Step-IsSound (tables_changed processes users roles) h = h

-- Whatever grants and revocations have succeeded since the tables were empty, in any order: a grant
-- with a key is there exactly if the newest event of the audit trail on this key is of a grant, and no
-- two grants have the same id or the same key.
pub History-IsSound :
    {store : Store}
    → History store
    → IsDistinct store.grants × ((k : Key) → is_granted k store.grants ≡ replay k store.audits)
History-IsSound (begins processes users roles) = (tt, λ k. refl)
History-IsSound (after h s) = Step-IsSound s (History-IsSound h)
