-- ===== src/Engine/Tasks/Race.antt =====
-- Two users claim one task at the same time.
use bpm_new.Common.{
  ℕ, true, false, ◌≡◌, refl, Option, none, some, List, Str, inl, inr, Bool-cases, Option-cases,
  arith, ◌⊎◌, any,
}
use bpm_new.Engine.Tokens.Defs.{
  Token, Db, Reason, Exception, forbidden, conflict, already_claimed, concurrent_update, Result, ok,
  err, find_token, update_token_with_lock, record_event, task_claimed, at_version, Event,
  role_not_held,
}
use bpm_new.Engine.Tokens.Lock.{update_token_with_lock_once}
use bpm_new.Engine.Tasks.Defs.{
  ClaimReply, claimed, claim_row, claim_task, may_perform, is_user, is_assigned, assign_to,
  awaits_user, finds_suspended, instance_by_id,
}

Result-cases {ℓ} :
    {A : Type ℓ} (r : Result A) → ((a : A) × (r ≡ ok a)) ⊎ ((e : Exception) × (r ≡ err e))
Result-cases (ok a) = inl (a, refl)
Result-cases (err e) = inr (e, refl)

-- What a granted claim has found in the row that it read.
claim_row-claimed :
    (others : Db → Db) (user : ℕ) (roles : List Str) (row : Token) (db : Db) {db' : Db}
    → claim_row others user roles row db ≡ ok (claimed, db')
    → (is_assigned row.assigned_to ≡ false)
      × (may_perform row.candidate_role roles ≡ true)
      × (d : Db) × (update_token_with_lock row.id row.version (assign_to (some user)) (others db)
          ≡ ok d)
      × (db' ≡ record_event (task_claimed row.id user row.candidate_role) d)
unfolding claim_row
claim_row-claimed others user roles row db {db'} h =
    elim (Result-cases
      (update_token_with_lock row.id row.version (assign_to (some user)) (others db))) [
        | inl (d, e) ↦ (ground arith, ground arith, d, e, ground arith)
        | inr (x, e) ↦ absurd (ground arith)
      ]

update_token_with_lock-record_event :
    (id version : ℕ) (patch : Token → Token) (e : Event) (db : Db) {x : Exception}
    → update_token_with_lock id version patch db ≡ err x
    → update_token_with_lock id version patch (record_event e db) ≡ err x
unfolding update_token_with_lock
update_token_with_lock-record_event id version patch e db {x} h =
    elim (Bool-cases (any (at_version id version) db.tokens)) [
      | inl t ↦ absurd (cc (rw t at h))
      | inr f ↦ rw f (rw f at h)
    ]

-- The row that the transaction read passed the guards in front of the claim.
claim_task-row :
    (others : Db → Db) (token tenant user : ℕ) (roles : List Str) (db : Db) {r : ClaimReply × Db}
    → claim_task others token tenant user roles db ≡ ok r
    → (row : Token) × (find_token token tenant db.tokens ≡ some row)
      × (finds_suspended (instance_by_id row.instance_id db.instances) ≡ false)
      × (awaits_user row ≡ true)
      × (claim_row others user roles row db ≡ ok r)
unfolding claim_task
claim_task-row others token tenant user roles db {r} h =
    elim (Option-cases (find_token token tenant db.tokens)) [
      | inl e ↦ absurd (cc (rw e at h))
      | inr (row, e) ↦
          let h' = rw e at h in
          elim (Bool-cases (finds_suspended (instance_by_id row.instance_id db.instances))) [
            | inl s ↦ absurd (cc (rw s at h'))
            | inr s ↦
                let h'' = rw s at h' in
                elim (Bool-cases (awaits_user row)) [
                  | inl w ↦ (row, e, s, w, rw w at h'')
                  | inr w ↦ absurd (cc (rw w at h''))
                ]
          ]
    ]

-- A user whose claim is granted held the candidate role, on a task that nobody had claimed, that was
-- waiting for a user, and whose instance was not suspended; and afterwards the version that was read
-- is gone.
pub claim_task-authorized :
    (others : Db → Db) (token tenant user : ℕ) (roles : List Str) (db : Db) {db' : Db}
    → claim_task others token tenant user roles db ≡ ok (claimed, db')
    → (row : Token) × (find_token token tenant db.tokens ≡ some row)
      × (is_assigned row.assigned_to ≡ false)
      × (may_perform row.candidate_role roles ≡ true)
      × (awaits_user row ≡ true)
      × (finds_suspended (instance_by_id row.instance_id db.instances) ≡ false)
      × ((patch : Token → Token)
          → update_token_with_lock row.id row.version patch db' ≡ err (conflict concurrent_update))
claim_task-authorized others token tenant user roles db {db'} h =
    let (row, found, running, waits, inner) = claim_task-row others token tenant user roles db h in
    let (free, may, d, updated, done) = claim_row-claimed others user roles row db inner in
    (
      row,
      found,
      free,
      may,
      waits,
      running,
      λ patch. rw done (
          update_token_with_lock-record_event row.id row.version patch _ d (
            update_token_with_lock_once row.id row.version (assign_to (some user)) patch (others db)
              updated)),
    )

is_user-unassigned : (u : ℕ) (o : Option ℕ) → is_assigned o ≡ false → is_user u o ≡ false
is_user-unassigned u none h = refl
is_user-unassigned u (some v) h = cc

claim_row-stale :
    (others : Db → Db) (rival : ℕ) (roles : List Str) (row : Token) (db : Db)
    → is_assigned row.assigned_to ≡ false
    → update_token_with_lock row.id row.version (assign_to (some rival)) (others db)
      ≡ err (conflict concurrent_update)
    → (reason : Reason) × (claim_row others rival roles row db ≡ err (forbidden reason))
unfolding claim_row
claim_row-stale others rival roles row db free stale =
    elim (Bool-cases (may_perform row.candidate_role roles)) [
      | inl m ↦ (
        already_claimed,
        rw (is_user-unassigned rival row.assigned_to free) (rw free (rw m (rw stale refl))),
      )
      | inr m ↦
          (role_not_held, rw (is_user-unassigned rival row.assigned_to free) (rw free (rw m refl)))
    ]

-- Two users claim a task that both have read at the same time. If the claim of one is granted, the
-- claim of the other is refused as forbidden, whatever roles he holds.
pub claim_task_race :
    (token tenant user rival : ℕ) (roles roles' : List Str) (db : Db) {db' : Db}
    → claim_task (λ d. d) token tenant user roles db ≡ ok (claimed, db')
    → (reason : Reason) × (claim_task (λ _. db') token tenant rival roles' db
        ≡ err (forbidden reason))
unfolding claim_task
claim_task_race token tenant user rival roles roles' db {db'} h =
    let (row, found, free, may, waits, running, gone) =
      claim_task-authorized (λ d. d) token tenant user roles db h in
    let (reason, refused) =
      claim_row-stale (λ _. db') rival roles' row db free (gone (assign_to (some rival))) in
    (reason, rw found (rw running (rw waits refused)))
