-- ===== src/Engine/Tasks/Suspension.antt =====
-- Suspending an instance and resuming it.
use bpm_new.Common.{
  subst, ℕ, ◌+◌, Bool, true, ◌≡◌, refl, sym, ap, ◌∙◌, some, List, [], ◌∷◌, Str, inl, inr,
  Bool-cases, arith, any, find,
}
use bpm_new.Engine.Tasks.Later.{Later, Later-instance_by_id}
use bpm_new.Engine.Tokens.Defs.{
  Token, Instance, InstanceStatus, running, suspended, Db, Result, bad_request,
  instance_is_suspended, ok, err, find_token, find_instance, instance_at, update_instances,
  update_instance_with_lock, record_event, emit_outbox, instance_suspended, instance_resumed,
}
use bpm_new.Engine.Tasks.Defs.{claim_task, suspend_instance, resume_instance, instance_by_id}

-- The key of the table: the first row with the id is the row of the tenant.
abbrev pub IsInstance : ℕ → ℕ → Instance → Db → Type 0
IsInstance id tenant i db =
    (instance_by_id id db.instances ≡ some i) × (find_instance id tenant db.instances ≡ some i)

find-update_instances :
    (p q : Instance → Bool) (f : Instance → Instance) (is' : List Instance) (t : Instance)
    → ((s : Instance) → q s ≡ true → p (f s) ≡ p s)
    → find p is' ≡ some t
    → q t ≡ true
    → find p (update_instances q f is') ≡ some (f t)
find-update_instances p q f [] t k h g = cc
find-update_instances p q f (s ∷ ss) t k h g = elim (Bool-cases (p s)) [
  | inl b ↦
      let h' = rw b at h in
      let e : s ≡ t = cc in
      rw (rw (← e) at g) (rw (k s (rw (← e) at g)) (rw b (ap (λ z. some (f z)) e)))
  | inr b ↦
      let ih = find-update_instances p q f ss t k (rw b at h) g in
      elim (Bool-cases (q s)) [ inl a ↦ rw a (rw (k s a) (rw b ih)) | inr a ↦ rw a (rw b ih) ]
]

find→any :
    (p q : Instance → Bool) (is' : List Instance) (t : Instance)
    → find p is' ≡ some t
    → q t ≡ true
    → any q is' ≡ true
find→any p q [] t h g = cc
find→any p q (s ∷ ss) t h g = elim (Bool-cases (p s)) [
  | inl b ↦ let h' = rw b at h in let e : s ≡ t = cc in rw (rw (← e) at g) refl
  | inr b ↦ ground (arith, find→any p q ss t (rw b at h) g)
]

-- The row under an update of its status.
abbrev pub with_status : InstanceStatus → Instance → Instance
with_status s i = record i { status = s; version = i.version + 1 }

instance_at_self : (i : Instance) → instance_at i.id i.version i ≡ true
instance_at_self i = ground arith

-- The update under the lock finds the row that it has read.
update_status :
    (id tenant : ℕ) (s : InstanceStatus) (i : Instance) (db : Db)
    → IsInstance id tenant i db
    → (db' : Db) × (update_instance_with_lock i.id i.version s db ≡ ok db')
      × IsInstance id tenant (with_status s i) db'
      × (db'.tokens ≡ db.tokens)
unfolding update_instance_with_lock
update_status id tenant s i db (h, k) = (
  record db {
    instances =
        update_instances (instance_at i.id i.version)
          (λ j. record j { status = s; version = i.version + 1 }) db.instances;
  },
  rw (find→any _ (instance_at i.id i.version) db.instances i h (instance_at_self i)) refl,
  (
    find-update_instances _ _ _ db.instances i (λ j e. refl) h (instance_at_self i),
    find-update_instances _ _ _ db.instances i (λ j e. refl) k (instance_at_self i),
  ),
  refl,
)

suspend_instance-suspended :
    (id tenant user : ℕ) (i : Instance) (db : Db)
    → IsInstance id tenant i db
    → i.status ≡ running
    → (db' : Db) × (suspend_instance (λ d. d) id tenant user db ≡ ok db')
      × IsInstance id tenant (with_status suspended i) db'
      × (db'.tokens ≡ db.tokens)
unfolding suspend_instance
suspend_instance-suspended id tenant user i db (h, k) r =
    let (d, updated, found, same) = update_status id tenant suspended i db (h, k) in
    (
      emit_outbox (instance_suspended id user) (record_event (instance_suspended id user) d),
      simp (k, r, updated),
      found,
      same,
    )

-- The database after an operation, which an error rolls back.
abbrev pub reached : Db → Result Db → Db
reached db (ok db') = db'
reached db (err e) = db

-- Suspending a running instance succeeds, keeps the tokens, and makes its row suspended and one version
-- older. In the state that it reaches and in every later one that claims, unclaims and reassignments of
-- any tasks and suspensions and resumptions of other instances lead to, each of them a transaction that
-- ends before the next, a claim that reads there a task of the instance is refused, whoever makes it and
-- whatever others commit before it ends.
pub suspend_instance-blocks_claims :
    (id tenant user : ℕ) (i : Instance) (db after : Db) (others : Db → Db) (token claimant : ℕ)
    (roles : List Str) (t : Token)
    → IsInstance id tenant i db
    → i.status ≡ running
    → Later id (reached db (suspend_instance (λ d. d) id tenant user db)) after
    → find_token token tenant after.tokens ≡ some t
    → t.instance_id ≡ id
    → (db' : Db) × (suspend_instance (λ d. d) id tenant user db ≡ ok db')
      × IsInstance id tenant (with_status suspended i) db'
      × (db'.tokens ≡ db.tokens)
      × (claim_task others token tenant claimant roles after
          ≡ err (bad_request instance_is_suspended))
unfolding claim_task
suspend_instance-blocks_claims id tenant user i db after others token claimant roles t h r later ht
      hi =
    let (db', done, found, same) = suspend_instance-suspended id tenant user i db h r in
    let later' : Later id db' after = subst (λ d. Later id d after) (ap (reached db) done) later in
    (db', done, found, same, rw (ht, hi, Later-instance_by_id id later' ∙ found.0) refl)

-- Suspending a running instance and resuming it succeeds and gives it back: running, with its tokens
-- as they were, and two versions older.
pub suspend_instance-resume_instance :
    (id tenant user user' : ℕ) (i : Instance) (db : Db)
    → IsInstance id tenant i db
    → i.status ≡ running
    → (db' db'' : Db) × (suspend_instance (λ d. d) id tenant user db ≡ ok db')
      × (resume_instance (λ d. d) id tenant user' db' ≡ ok db'')
      × IsInstance id tenant (record i { version = i.version + 1 + 1 }) db''
      × (db''.tokens ≡ db.tokens)
unfolding suspend_instance resume_instance
suspend_instance-resume_instance id tenant user user' i db (h, k) r =
    let (d, updated, found, same) = update_status id tenant suspended i db (h, k) in
    let d' =
      emit_outbox (instance_suspended id user) (record_event (instance_suspended id user) d) in
    let (e, updated', found', same') =
      update_status id tenant running (with_status suspended i) d' found in
    let back =
      ap (λ (s : InstanceStatus). some (record i { status = s; version = i.version + 1 + 1 }))
        (sym r) in
    (
      d',
      emit_outbox (instance_resumed id user') (record_event (instance_resumed id user') e),
      simp (k, r, updated),
      simp (found.1, updated'),
      (found'.0 ∙ back, found'.1 ∙ back),
      same' ∙ same,
    )
