-- ===== src/Engine/Tasks/Later.antt =====
-- What the operations on tasks and instances leave of the row of an instance.
use bpm_new.Common.{
  ℕ, ◌+◌, Bool, true, false, ◌≡◌, ◌⊎◌, refl, ap, ◌∙◌, ◌&&◌, none, some, List, [], ◌∷◌, Str, inl,
  inr, Bool-cases, Option-cases, arith, any, find, find-passes, ◌==◌,
}
use bpm_new.Engine.Tokens.Defs.{
  Token, Instance, InstanceStatus, running, suspended, Db, Exception, Result, ok, err, at_version,
  find_token, find_instance, instance_at, update_token_with_lock, update_instances,
  update_instance_with_lock,
}
use bpm_new.Engine.Tasks.Defs.{
  User, ClaimReply, claim_row, claim_task, unclaim_row, unclaim_task, reassign_task, assign_to,
  of_tenant, suspend_instance, resume_instance, instance_by_id,
}

-- What may happen after a state: tasks of any instance are claimed, unclaimed and reassigned, and
-- instances but the one with the id are suspended and resumed, each in one transaction at a time.
pub data Later (id : ℕ) (start : Db) : Db → Type 0 where
  at_once : Later id start start
  claims :
      {db db' : Db} {r : ClaimReply}
      → Later id start db
      → (token tenant user : ℕ) (roles : List Str)
      → claim_task (λ d. d) token tenant user roles db ≡ ok (r, db')
      → Later id start db'
  unclaims :
      {db db' : Db} {b : Bool}
      → Later id start db
      → (token tenant user : ℕ) → unclaim_task (λ d. d) token tenant user db ≡ ok (b, db')
      → Later id start db'
  reassigns :
      {db db' : Db} {b : Bool}
      → Later id start db
      → (users : List User) (role_keys : ℕ → List Str) (token tenant admin target : ℕ)
      → reassign_task (λ d. d) users role_keys token tenant admin target db ≡ ok (b, db')
      → Later id start db'
  suspends :
      {db db' : Db}
      → Later id start db
      → (other tenant user : ℕ) → (other == id) ≡ false
      → suspend_instance (λ d. d) other tenant user db ≡ ok db'
      → Later id start db'
  resumes :
      {db db' : Db}
      → Later id start db
      → (other tenant user : ℕ) → (other == id) ≡ false
      → resume_instance (λ d. d) other tenant user db ≡ ok db'
      → Later id start db'

Result-cases {ℓ} :
    {A : Type ℓ} (r : Result A) → ((a : A) × (r ≡ ok a)) ⊎ ((e : Exception) × (r ≡ err e))
Result-cases (ok a) = inl (a, refl)
Result-cases (err e) = inr (e, refl)

-- The update of a token leaves the instances alone.
update_token_with_lock-instances :
    (id version : ℕ) (patch : Token → Token) (db : Db) {d : Db}
    → update_token_with_lock id version patch db ≡ ok d
    → d.instances ≡ db.instances
unfolding update_token_with_lock
update_token_with_lock-instances id version patch db h =
    elim (Bool-cases (any (at_version id version) db.tokens)) [
      | inl t ↦ cc (rw t at h)
      | inr f ↦ absurd (cc (rw f at h))
    ]

claim_task-instances :
    (token tenant user : ℕ) (roles : List Str) (db : Db) {r : ClaimReply} {db' : Db}
    → claim_task (λ d. d) token tenant user roles db ≡ ok (r, db')
    → db'.instances ≡ db.instances
unfolding claim_task claim_row
claim_task-instances token tenant user roles db h =
    elim (Option-cases (find_token token tenant db.tokens)) [
      | inl e ↦ absurd (cc (rw e at h))
      | inr (row, e) ↦
          let h' = rw e at h in
          elim (Result-cases
            (update_token_with_lock row.id row.version (assign_to (some user)) db)) [
              | inl (d, u) ↦
                  let same =
                    update_token_with_lock-instances row.id row.version (assign_to (some user)) db
                      u in
                  ground (arith, same)
              | inr (x, u) ↦ ground arith
            ]
    ]

unclaim_task-instances :
    (token tenant user : ℕ) (db : Db) {r : Bool} {db' : Db}
    → unclaim_task (λ d. d) token tenant user db ≡ ok (r, db')
    → db'.instances ≡ db.instances
unfolding unclaim_task unclaim_row
unclaim_task-instances token tenant user db h =
    elim (Option-cases (find_token token tenant db.tokens)) [
      | inl e ↦ absurd (cc (rw e at h))
      | inr (row, e) ↦
          let h' = rw e at h in
          elim (Result-cases (update_token_with_lock row.id row.version (assign_to none) db)) [
            | inl (d, u) ↦
                let same =
                  update_token_with_lock-instances row.id row.version (assign_to none) db u in
                ground (arith, same)
            | inr (x, u) ↦ ground arith
          ]
    ]

reassign_task-instances :
    (users : List User) (role_keys : ℕ → List Str) (token tenant admin target : ℕ) (db : Db)
    {r : Bool} {db' : Db}
    → reassign_task (λ d. d) users role_keys token tenant admin target db ≡ ok (r, db')
    → db'.instances ≡ db.instances
unfolding reassign_task
reassign_task-instances users role_keys token tenant admin target db h =
    elim (Option-cases (find_token token tenant db.tokens)) [
      | inl e ↦ absurd (cc (rw e at h))
      | inr (row, e) ↦
          let h' = rw e at h in
          let patch = assign_to (some target) in
          elim (Option-cases (of_tenant tenant (find (λ v. v.id == target) users))) [
            | inl n ↦ absurd (ground arith)
            | inr (u, f) ↦
                let h'' = rw f at h' in
                elim (Result-cases (update_token_with_lock row.id row.version patch db)) [
                  | inl (d, v) ↦
                      let same = update_token_with_lock-instances row.id row.version patch db v in
                      ground (arith, same)
                  | inr (x, v) ↦ ground arith
                ]
          ]
    ]

-- An update of rows that another id names leaves the row with the id alone.
find-update_others :
    (id : ℕ) (q : Instance → Bool) (f : Instance → Instance) (is' : List Instance)
    → ((s : Instance) → (f s).id ≡ s.id)
    → ((s : Instance) → q s ≡ true → (s.id == id) ≡ false)
    → instance_by_id id (update_instances q f is') ≡ instance_by_id id is'
find-update_others id q f [] same other = refl
find-update_others id q f (s ∷ ss) same other = elim (Bool-cases (q s)) [
  | inl a ↦
      let no = other s a in
      let no' : ((f s).id == id) ≡ false = rw (same s) no in
      rw (a, no', no) (find-update_others id q f ss same other)
  | inr a ↦ rw a (elim (Bool-cases (s.id == id)) [
    | inl b ↦ rw b refl
    | inr b ↦ rw b (find-update_others id q f ss same other)
  ])
]

update_instance_with_lock-other :
    (id other version : ℕ) (status : InstanceStatus) (db : Db) {d : Db}
    → (other == id) ≡ false
    → update_instance_with_lock other version status db ≡ ok d
    → instance_by_id id d.instances ≡ instance_by_id id db.instances
unfolding update_instance_with_lock
update_instance_with_lock-other id other version status db {d} apart h =
    elim (Bool-cases (any (instance_at other version) db.instances)) [
      | inl t ↦
          let e : d.instances
              ≡ update_instances (instance_at other version)
                  (λ i. record i { status = status; version = version + 1 }) db.instances =
            cc (rw t at h) in
          rw e (
            find-update_others id (instance_at other version) _ db.instances (λ s. refl)
              (λ s a. ground arith))
      | inr f ↦ absurd (cc (rw f at h))
    ]

find_instance-id :
    (id tenant : ℕ) (is' : List Instance) {i : Instance}
    → find_instance id tenant is' ≡ some i
    → (i.id == id) ≡ true
find_instance-id id tenant is' {i} e =
    let both : (i.id == id && i.tenant_id == tenant) ≡ true =
      find-passes (λ x. x.id == id && x.tenant_id == tenant) is' e in
    ground arith

suspend_instance-other :
    (id other tenant user : ℕ) (db : Db) {db' : Db}
    → (other == id) ≡ false
    → suspend_instance (λ d. d) other tenant user db ≡ ok db'
    → instance_by_id id db'.instances ≡ instance_by_id id db.instances
unfolding suspend_instance
suspend_instance-other id other tenant user db apart h =
    elim (Option-cases (find_instance other tenant db.instances)) [
      | inl e ↦ absurd (cc (rw e at h))
      | inr (i, e) ↦
          let h' = rw e at h in
          let named : (i.id == other) ≡ true = find_instance-id other tenant db.instances e in
          let apart' : (i.id == id) ≡ false = ground arith in
          elim (Result-cases (update_instance_with_lock i.id i.version suspended db)) [
            | inl (d, u) ↦
                let same =
                  update_instance_with_lock-other id i.id i.version suspended db apart' u in
                ground (arith, same)
            | inr (x, u) ↦ ground arith
          ]
    ]

resume_instance-other :
    (id other tenant user : ℕ) (db : Db) {db' : Db}
    → (other == id) ≡ false
    → resume_instance (λ d. d) other tenant user db ≡ ok db'
    → instance_by_id id db'.instances ≡ instance_by_id id db.instances
unfolding resume_instance
resume_instance-other id other tenant user db apart h =
    elim (Option-cases (find_instance other tenant db.instances)) [
      | inl e ↦ absurd (cc (rw e at h))
      | inr (i, e) ↦
          let h' = rw e at h in
          let named : (i.id == other) ≡ true = find_instance-id other tenant db.instances e in
          let apart' : (i.id == id) ≡ false = ground arith in
          elim (Result-cases (update_instance_with_lock i.id i.version running db)) [
            | inl (d, u) ↦
                let same = update_instance_with_lock-other id i.id i.version running db apart' u in
                ground (arith, same)
            | inr (x, u) ↦ ground arith
          ]
    ]

-- What a later state finds under the id.
pub Later-instance_by_id :
    (id : ℕ) {start db : Db}
    → Later id start db
    → instance_by_id id db.instances ≡ instance_by_id id start.instances
Later-instance_by_id id at_once = refl
Later-instance_by_id id (claims {db} l token tenant user roles e) =
    ap (instance_by_id id) (claim_task-instances token tenant user roles db e)
    ∙ Later-instance_by_id id l
Later-instance_by_id id (unclaims {db} l token tenant user e) =
    ap (instance_by_id id) (unclaim_task-instances token tenant user db e)
    ∙ Later-instance_by_id id l
Later-instance_by_id id (reassigns {db} l users role_keys token tenant admin target e) =
    ap (instance_by_id id) (reassign_task-instances users role_keys token tenant admin target db e)
    ∙ Later-instance_by_id id l
Later-instance_by_id id (suspends {db} l other tenant user apart e) =
    suspend_instance-other id other tenant user db apart e ∙ Later-instance_by_id id l
Later-instance_by_id id (resumes {db} l other tenant user apart e) =
    resume_instance-other id other tenant user db apart e ∙ Later-instance_by_id id l
