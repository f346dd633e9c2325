-- ===== src/Engine/Tasks/Defs.antt =====
-- The operations. A transaction reads its row first and updates it later; `others` is what other
-- transactions have committed in between.
use bpm_new.Common.{
  ℕ, Bool, true, false, ◌&&◌, not, Option, none, some, List, [], ◌∷◌, Str, str_eq, ◌==◌,
  if◌then◌else◌, any, find,
}
use bpm_new.Engine.Tokens.Defs.{
  Token, Instance, running, suspended, task_claimed, task_unclaimed, task_reassigned,
  instance_suspended, instance_resumed, Db, Exception, not_found, bad_request, forbidden, conflict,
  task_not_found, instance_not_found, target_not_found, instance_is_suspended, not_waiting,
  not_role_assigned, target_inactive, target_lacks_role, already_claimed, role_not_held,
  assignment_changed, cannot_suspend, cannot_resume, Result, ok, err, ◌>>=◌, ◌>>◌, throw_if,
  or_throw, is_waiting, is_user_task, is_suspended, is_running, update_token_with_lock,
  update_instance_with_lock, record_event, emit_outbox, find_token, find_instance,
}

pub record User : Type 0 where
  pub id : ℕ
  pub tenant_id : ℕ
  pub is_active : Bool

abbrev pub includes : List Str → Str → Bool
includes roles r = any (λ s. str_eq s r) roles

-- Whether the candidate role, if one is set, is among the roles. The empty role counts as none.
abbrev pub may_perform : Option Str → List Str → Bool
may_perform none roles = true
may_perform (some []) roles = true
may_perform (some (c ∷ r)) roles = includes roles (c ∷ r)

abbrev pub is_role_assigned : Option Str → Bool
is_role_assigned none = false
is_role_assigned (some []) = false
is_role_assigned (some (_ ∷ _)) = true

abbrev pub is_user : ℕ → Option ℕ → Bool
is_user u none = false
is_user u (some v) = v == u

abbrev pub is_assigned : Option ℕ → Bool
is_assigned none = false
is_assigned (some _) = true

-- `catch (err) { if (err instanceof ConflictException) throw …; throw err; }`
abbrev pub on_conflict {ℓ} : {A : Type ℓ} → Exception → Result A → Result A
on_conflict e (ok a) = ok a
on_conflict e (err (conflict _)) = err e
on_conflict e (err other) = err other

-- instRow?.status === "suspended"
abbrev pub finds_suspended : Option Instance → Bool
finds_suspended none = false
finds_suspended (some i) = is_suspended i.status

abbrev pub instance_by_id : ℕ → List Instance → Option Instance
instance_by_id id = find (λ i. i.id == id)

abbrev pub awaits_user : Token → Bool
awaits_user t = is_waiting t.status && is_user_task t.waiting_for

abbrev pub assign_to : Option ℕ → Token → Token
assign_to u t = record t { assigned_to = u }

pub data ClaimReply : Type 0 where
  claimed already_mine : ClaimReply

-- The part of claimTask that follows the guards on the row.
unfoldable pub claim_row : (Db → Db) → ℕ → List Str → Token → Db → Result (ClaimReply × Db)
claim_row others user roles row db =
    if is_user user row.assigned_to then ok (already_mine, db) else do
      throw_if (is_assigned row.assigned_to) (forbidden already_claimed)
      throw_if (not (may_perform row.candidate_role roles)) (forbidden role_not_held)
      db' ←
          on_conflict (forbidden already_claimed)
            (update_token_with_lock row.id row.version (assign_to (some user)) (others db))
      ok (claimed, record_event (task_claimed row.id user row.candidate_role) db')

unfoldable pub claim_task : (Db → Db) → ℕ → ℕ → ℕ → List Str → Db → Result (ClaimReply × Db)
unfolding claim_row
claim_task others token tenant user roles db = do
  row ← or_throw (find_token token tenant db.tokens) (not_found task_not_found)
  throw_if (finds_suspended (instance_by_id row.instance_id db.instances))
      (bad_request instance_is_suspended)
  throw_if (not (awaits_user row)) (bad_request not_waiting)
  claim_row others user roles row db

unfoldable pub unclaim_row : (Db → Db) → ℕ → Token → Db → Result (Bool × Db)
unclaim_row others user row db = if not (is_user user row.assigned_to) then ok (false, db) else do
  throw_if (not (is_role_assigned row.candidate_role)) (bad_request not_role_assigned)
  db' ←
      on_conflict (conflict assignment_changed)
        (update_token_with_lock row.id row.version (assign_to none) (others db))
  ok (true, record_event (task_unclaimed row.id user row.candidate_role) db')

unfoldable pub unclaim_task : (Db → Db) → ℕ → ℕ → ℕ → Db → Result (Bool × Db)
unfolding unclaim_row
unclaim_task others token tenant user db = do
  row ← or_throw (find_token token tenant db.tokens) (not_found task_not_found)
  throw_if (not (awaits_user row)) (bad_request not_waiting)
  unclaim_row others user row db

abbrev pub of_tenant : ℕ → Option User → Option User
of_tenant tenant none = none
of_tenant tenant (some u) = if u.tenant_id == tenant then some u else none

-- `users` is the table USERS, `role_keys` the roles that a user holds in the tenant.
unfoldable pub reassign_task :
    (Db → Db) → List User → (ℕ → List Str) → ℕ → ℕ → ℕ → ℕ → Db → Result (Bool × Db)
reassign_task others users role_keys token tenant admin target db = do
  row ← or_throw (find_token token tenant db.tokens) (not_found task_not_found)
  throw_if (not (awaits_user row)) (bad_request not_waiting)
  u ← or_throw (of_tenant tenant (find (λ v. v.id == target) users)) (not_found target_not_found)
  throw_if (not u.is_active) (bad_request target_inactive)
  throw_if (not (may_perform row.candidate_role (role_keys target))) (bad_request target_lacks_role)
  if is_user target row.assigned_to then ok (false, db) else do
    db' ←
        on_conflict (conflict assignment_changed)
          (update_token_with_lock row.id row.version (assign_to (some target)) (others db))
    ok (true, record_event (task_reassigned row.id admin row.assigned_to target) db')

unfoldable pub suspend_instance : (Db → Db) → ℕ → ℕ → ℕ → Db → Result Db
suspend_instance others instance_id tenant user db = do
  inst ← or_throw (find_instance instance_id tenant db.instances) (not_found instance_not_found)
  if is_suspended inst.status then ok db else do
    throw_if (not (is_running inst.status)) (bad_request (cannot_suspend inst.status))
    db' ← update_instance_with_lock inst.id inst.version suspended (others db)
    ok (
        emit_outbox (instance_suspended instance_id user)
          (record_event (instance_suspended instance_id user) db'))

unfoldable pub resume_instance : (Db → Db) → ℕ → ℕ → ℕ → Db → Result Db
resume_instance others instance_id tenant user db = do
  inst ← or_throw (find_instance instance_id tenant db.instances) (not_found instance_not_found)
  if is_running inst.status then ok db else do
    throw_if (not (is_suspended inst.status)) (bad_request (cannot_resume inst.status))
    db' ← update_instance_with_lock inst.id inst.version running (others db)
    ok (
        emit_outbox (instance_resumed instance_id user)
          (record_event (instance_resumed instance_id user) db'))
