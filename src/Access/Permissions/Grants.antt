-- ===== src/Access/Permissions/Grants.antt =====
-- ProcessPermissionsService, its changes: grant, revoke and listAudit. Of an audit row the id, the
-- correlation id and the time are left out; the table of these rows is kept with the newest first.
use bpm_new.Common.{
  ℕ, Bool, ◌&&◌, ◌||◌, not, Option, none, some, List, ◌∷◌, Str, codes, str_eq, ◌==◌, if◌then◌else◌,
  any, keep, head?, take,
}
use bpm_new.Access.Permissions.Defs.{
  Permission, is_permission, GranteeType, user, role, is_user_type, Grant,
}

-- The columns of the unique index on PROCESS_PERMISSIONS, which the audit rows repeat.
pub record Key : Type 0 where
  pub tenant_id : ℕ
  pub process_id : ℕ
  pub grantee_type : GranteeType
  pub grantee_id : Str
  pub permission : Permission

pub data Action : Type 0 where
  granted revoked : Action

pub record AuditEvent : Type 0 where
  pub action : Action
  pub subject : Key
  pub actor_user_id : Str

-- A row of PROCESSES, USERS or ROLES, as far as it is looked up here.
pub record ProcessRow : Type 0 where
  pub id : ℕ
  pub tenant_id : ℕ

pub record NamedRow : Type 0 where
  pub name : Str
  pub tenant_id : ℕ

pub record Store : Type 0 where
  pub processes : List ProcessRow
  pub users : List NamedRow
  pub roles : List NamedRow
  pub grants : List Grant
  pub audits : List AuditEvent

pub data Refusal : Type 0 where
  process_not_found user_not_found role_not_found invalid_grantee_type : Refusal
  grant_exists grant_not_found : Refusal

pub data Reply : Type 0 where
  done : Store → Reply
  refused : Refusal → Reply

abbrev pub key_of : Grant → Key
key_of g = record {
  tenant_id = g.tenant_id;
  process_id = g.process_id;
  grantee_type = g.grantee_type;
  grantee_id = g.grantee_id;
  permission = g.permission;
}

abbrev pub same_type : GranteeType → GranteeType → Bool
same_type user t = is_user_type t
same_type role t = not (is_user_type t)

abbrev pub same_key : Key → Key → Bool
same_key k l =
    k.tenant_id == l.tenant_id
    && k.process_id == l.process_id
    && same_type k.grantee_type l.grantee_type
    && str_eq k.grantee_id l.grantee_id
    && is_permission k.permission l.permission

-- The primary key or the unique index refuses to have both rows.
abbrev pub clashes : Grant → Grant → Bool
clashes g h = h.id == g.id || same_key (key_of g) (key_of h)

abbrev pub is_process : ℕ → ℕ → ProcessRow → Bool
is_process tenant process r = r.id == process && r.tenant_id == tenant

abbrev pub is_named : ℕ → Str → NamedRow → Bool
is_named tenant name r = str_eq r.name name && r.tenant_id == tenant

-- The transaction: the row and its audit event, or neither.
abbrev pub insert_grant : Grant → Store → Reply
insert_grant g store =
    if any (clashes g) store.grants
    then refused grant_exists
    else done record store {
      grants = g ∷ store.grants;
      audits =
          record { action = granted; subject = key_of g; actor_user_id = g.granted_by }
          ∷ store.audits;
    }

-- .values({…}), with the id that the database gives the row.
abbrev pub new_grant : ℕ → ℕ → ℕ → Str → Permission → Str → GranteeType → Grant
new_grant id tenant process grantee permission by t = record {
  id = id;
  tenant_id = tenant;
  process_id = process;
  grantee_type = t;
  grantee_id = grantee;
  permission = permission;
  granted_by = by;
}

-- `id` is the id that the database gives the new row.
unfoldable pub grant : ℕ → ℕ → ℕ → Str → Str → Permission → Str → Store → Reply
grant id tenant process grantee_type grantee permission by store =
    let row = new_grant id tenant process grantee permission by in
    if not (any (is_process tenant process) store.processes)
    then refused process_not_found
    else if str_eq grantee_type (codes "user")
    then if not (any (is_named tenant grantee) store.users)
      then refused user_not_found
      else insert_grant (row user) store
    else if str_eq grantee_type (codes "role")
    then if not (any (is_named tenant grantee) store.roles)
      then refused role_not_found
      else insert_grant (row role) store
    else refused invalid_grantee_type

abbrev pub is_target : ℕ → ℕ → ℕ → Grant → Bool
is_target tenant process id g = g.id == id && g.tenant_id == tenant && g.process_id == process

-- What the transaction does with the first row that the DELETE returned.
abbrev pub record_revocation : (Grant → Bool) → Str → Option Grant → Store → Reply
record_revocation p actor none store = refused grant_not_found
record_revocation p actor (some deleted) store = done record store {
  grants = keep (λ g. not (p g)) store.grants;
  audits =
      record { action = revoked; subject = key_of deleted; actor_user_id = actor } ∷ store.audits;
}

unfoldable pub revoke : ℕ → ℕ → ℕ → Str → Store → Reply
revoke tenant process id actor store =
    record_revocation (is_target tenant process id) actor
      (head? (keep (is_target tenant process id) store.grants)) store

unfoldable pub list_audit : ℕ → ℕ → Store → List AuditEvent
list_audit tenant process store =
    take 200
      (keep (λ a. a.subject.tenant_id == tenant && a.subject.process_id == process) store.audits)
