-- ===== src/Engine/Worker/Keys.antt =====
-- The ids of the rows, and what handlers and others do to the table while a job runs.
use mathlib.Core.List.{Memᴰ}
use bpm_new.Common.{
  ℕ, ◌≤◌, ◌<◌, Bool, true, false, ◌≡◌, ◌≢◌, ◌⊎◌, refl, sym, ap, ◌∙◌, List, [], ◌∷◌, ◌++◌, Option,
  none, some, Str, inl, inr, All, All-append, Bool-cases, arith, if◌then◌else◌,
}
use bpm_new.Engine.Worker.Defs.{
  Job, JobStatus, queued, attempt_cap, mark_dead, Handler, Registry, lookup,
}
use bpm_new.Engine.Worker.Queue.{update_where, enqueue}

-- The attempts that a status leaves a row.
abbrev pub MaySpend : JobStatus → ℕ → ℕ → Type 0
MaySpend queued attempts cap = attempts < cap
MaySpend _ attempts cap = attempts ≤ cap

module _ {V : Type 0} where
  -- A row that waits has an attempt left, and no row has made more attempts than its cap.
  abbrev pub InBudget : Job V → Type 0
  InBudget j = MaySpend j.status j.attempts (attempt_cap j.max_attempts)

  -- A snapshot of a row tells the row's attempts.
  abbrev pub Agrees : Job V → Job V → Type 0
  Agrees c j = c.id ≡ j.id → (c.attempts ≡ j.attempts) × (c.max_attempts ≡ j.max_attempts)

  -- The primary key: rows with one id are one row.
  abbrev pub HasKey : List (Job V) → Type 0
  HasKey jobs = (a b : Job V) → Memᴰ a jobs → Memᴰ b jobs → a.id ≡ b.id → a ≡ b

  pub All-update_where :
      (P Q : Job V → Type 0) (p : Job V → Bool) (f : Job V → Job V)
      → ((j : Job V) → p j ≡ true → P j → Q (f j))
      → ((j : Job V) → p j ≡ false → P j → Q j)
      → (jobs : List (Job V)) → All P jobs
      → All Q (update_where p f jobs)
  All-update_where P Q p f yes' no' [] h = tt
  All-update_where P Q p f yes' no' (j ∷ jobs) h =
      let rest = All-update_where P Q p f yes' no' jobs h.1 in
      elim (Bool-cases (p j)) [
        | inl e ↦ rw e (yes' j e h.0, rest)
        | inr e ↦ rw e (no' j e h.0, rest)
      ]

  abbrev changed : (Job V → Bool) → (Job V → Job V) → Job V → Job V
  changed p f j = if p j then f j else j

  update_where-Mem :
      (p : Job V → Bool) (f : Job V → Job V) (jobs : List (Job V)) (x : Job V)
      → Memᴰ x (update_where p f jobs)
      → (a : Job V) × Memᴰ a jobs × (x ≡ changed p f a)
  update_where-Mem p f [] x h = elim h [ ]
  update_where-Mem p f (j ∷ jobs) x (Memᴰ.head e) = (j, Memᴰ.head refl, e)
  update_where-Mem p f (j ∷ jobs) x (Memᴰ.tail h) =
      let (a, m, e) = update_where-Mem p f jobs x h in (a, Memᴰ.tail m, e)

  changed-id :
      (p : Job V → Bool) (f : Job V → Job V) (j : Job V)
      → ((k : Job V) → (f k).id ≡ k.id)
      → (changed p f j).id ≡ j.id
  changed-id p f j h = elim (Bool-cases (p j)) [ inl e ↦ rw e (h j) | inr e ↦ rw e refl ]

  -- An update that leaves the ids alone keeps the key.
  pub update_where-HasKey :
      (p : Job V → Bool) (f : Job V → Job V) (jobs : List (Job V))
      → ((k : Job V) → (f k).id ≡ k.id)
      → HasKey jobs
      → HasKey (update_where p f jobs)
  update_where-HasKey p f jobs same key x y mx my e =
      let (a, ma, ea) = update_where-Mem p f jobs x mx in
      let (b, mb, eb) = update_where-Mem p f jobs y my in
      let ids : a.id ≡ b.id =
        sym (changed-id p f a same)
        ∙ ap (λ (j : Job V). j.id) (sym ea)
        ∙ e
        ∙ ap (λ (j : Job V). j.id) eb
        ∙ changed-id p f b same in
      ea ∙ ap (changed p f) (key a b ma mb ids) ∙ sym eb

  Mem-end : (x j : Job V) (jobs : List (Job V)) → Memᴰ x (jobs ++ j ∷ []) → Memᴰ x jobs ⊎ (x ≡ j)
  Mem-end x j [] (Memᴰ.head e) = inr e
  Mem-end x j [] (Memᴰ.tail h) = elim h [ ]
  Mem-end x j (k ∷ jobs) (Memᴰ.head e) = inl (Memᴰ.head e)
  Mem-end x j (k ∷ jobs) (Memᴰ.tail h) = elim (Mem-end x j jobs h) [
    | inl m ↦ inl (Memᴰ.tail m)
    | inr e ↦ inr e
  ]

  -- No row has the id.
  abbrev pub IsUnused : ℕ → List (Job V) → Type 0
  IsUnused id jobs = (a : Job V) → Memᴰ a jobs → a.id ≢ id

  pub enqueue-HasKey :
      (j : Job V) (jobs : List (Job V)) → IsUnused j.id jobs → HasKey jobs → HasKey (enqueue j jobs)
  unfolding enqueue
  enqueue-HasKey j jobs new key x y mx my e = elim (Mem-end x j jobs mx) [
    | inl a ↦ elim (Mem-end y j jobs my) [
      | inl b ↦ key x y a b e
      | inr q ↦ absurd (new x a (e ∙ ap (λ (k : Job V). k.id) q))
    ]
    | inr p ↦ elim (Mem-end y j jobs my) [
      | inl b ↦ absurd (new y b (sym e ∙ ap (λ (k : Job V). k.id) p))
      | inr q ↦ p ∙ sym q
    ]
  ]

  Mem-update_where :
      (p : Job V → Bool) (f : Job V → Job V) (a : Job V) (jobs : List (Job V))
      → Memᴰ a jobs
      → Memᴰ (changed p f a) (update_where p f jobs)
  Mem-update_where p f a [] m = elim m [ ]
  Mem-update_where p f a (j ∷ jobs) (Memᴰ.head e) = Memᴰ.head (ap (changed p f) e)
  Mem-update_where p f a (j ∷ jobs) (Memᴰ.tail m) = Memᴰ.tail (Mem-update_where p f a jobs m)

  pub update_where-IsUnused :
      (p : Job V → Bool) (f : Job V → Job V) (jobs : List (Job V)) (id : ℕ)
      → ((k : Job V) → (f k).id ≡ k.id)
      → IsUnused id (update_where p f jobs)
      → IsUnused id jobs
  update_where-IsUnused p f jobs id same new a m e =
      new (changed p f a) (Mem-update_where p f a jobs m) (changed-id p f a same ∙ e)

  Mem-front : (a : Job V) (xs ys : List (Job V)) → Memᴰ a xs → Memᴰ a (xs ++ ys)
  Mem-front a [] ys m = elim m [ ]
  Mem-front a (x ∷ xs) ys (Memᴰ.head e) = Memᴰ.head e
  Mem-front a (x ∷ xs) ys (Memᴰ.tail m) = Memᴰ.tail (Mem-front a xs ys m)

  -- What may be done to the table while a job runs: jobs with new ids that have made no attempt and may
  -- make one are added, and rows are marked dead, as the cancellation of an instance does.
  pub data Meanwhile (jobs : List (Job V)) : List (Job V) → Type 0 where
    nothing_done : Meanwhile jobs jobs
    adds :
        {jobs' : List (Job V)}
        → Meanwhile jobs jobs'
        → (j : Job V) → IsUnused j.id jobs'
        → j.attempts ≡ 0
        → 1 ≤ j.max_attempts
        → Meanwhile jobs (enqueue j jobs')
    cancels :
        {jobs' : List (Job V)}
        → Meanwhile jobs jobs'
        → (p : Job V → Bool) (message : Str)
        → Meanwhile jobs (update_where p (mark_dead message) jobs')

  -- The handlers of a registry do no more than that.
  abbrev pub TameHandler : Option (Handler V) → Type 0
  TameHandler none = Unit
  TameHandler (some handler) =
      (job : Job V) (jobs : List (Job V)) → Meanwhile jobs (handler job jobs).1

  abbrev pub IsTame : Registry V → Type 0
  IsTame r = (topic : Str) → TameHandler (lookup topic r.handlers)

  -- A claimed job that has not run yet: its attempts are those of its row, and its id is taken.
  abbrev pub IsPending : List (Job V) → Job V → Type 0
  IsPending jobs c = All (Agrees c) jobs × ((id : ℕ) → IsUnused id jobs → c.id ≢ id)

  pub update_where-IsPending :
      (p : Job V → Bool) (f : Job V → Job V) (jobs : List (Job V)) (c : Job V)
      → ((k : Job V)
          → ((f k).id ≡ k.id)
            × ((f k).attempts ≡ k.attempts)
            × ((f k).max_attempts ≡ k.max_attempts))
      → IsPending jobs c
      → IsPending (update_where p f jobs) c
  update_where-IsPending p f jobs c same (a, u) = (
    All-update_where (Agrees c) (Agrees c) p f
        (λ j e h q. let (i, n, m) = same j in let r = h (q ∙ i) in (r.0 ∙ sym n, r.1 ∙ sym m))
        (λ j e h. h) jobs a,
    λ id new. u id (update_where-IsUnused p f jobs id (λ k. (same k).0) new),
  )

  mark_dead-same :
      (message : Str) (k : Job V)
      → ((mark_dead message k).id ≡ k.id)
        × ((mark_dead message k).attempts ≡ k.attempts)
        × ((mark_dead message k).max_attempts ≡ k.max_attempts)
  unfolding mark_dead
  mark_dead-same message k = (refl, refl, refl)

  pub dead-InBudget : (message : Str) (j : Job V) → InBudget j → InBudget (mark_dead message j)
  unfolding mark_dead
  dead-InBudget message j h = ground arith

  new-InBudget : (j : Job V) → j.attempts ≡ 0 → 1 ≤ j.max_attempts → InBudget j
  unfolding attempt_cap
  new-InBudget j z one = ground arith

  pub Meanwhile-InBudget :
      {jobs jobs' : List (Job V)} → Meanwhile jobs jobs' → All InBudget jobs → All InBudget jobs'
  unfolding enqueue
  Meanwhile-InBudget nothing_done h = h
  Meanwhile-InBudget (adds {jobs'} m j new z one) h =
      All-append InBudget jobs' _ (Meanwhile-InBudget m h) (new-InBudget j z one, tt)
  Meanwhile-InBudget (cancels {jobs'} m p message) h =
      All-update_where InBudget InBudget p (mark_dead message) (λ j e a. dead-InBudget message j a)
        (λ j e a. a) jobs' (Meanwhile-InBudget m h)

  pub Meanwhile-IsPending :
      {jobs jobs' : List (Job V)} (c : Job V)
      → Meanwhile jobs jobs'
      → IsPending jobs c
      → IsPending jobs' c
  unfolding enqueue
  Meanwhile-IsPending c nothing_done h = h
  Meanwhile-IsPending c (adds {jobs'} m j new z one) h =
      let (a, u) = Meanwhile-IsPending c m h in
      (
        All-append (Agrees c) jobs' _ a ((λ q. absurd (u j.id new q)), tt),
        λ id new'. u id (λ x k. new' x (Mem-front x jobs' _ k)),
      )
  Meanwhile-IsPending c (cancels {jobs'} m p message) h =
      update_where-IsPending p (mark_dead message) jobs' c (mark_dead-same message)
        (Meanwhile-IsPending c m h)

  pub Meanwhile-HasKey :
      {jobs jobs' : List (Job V)} → Meanwhile jobs jobs' → HasKey jobs → HasKey jobs'
  Meanwhile-HasKey nothing_done h = h
  Meanwhile-HasKey (adds {jobs'} m j new z one) h =
      enqueue-HasKey j jobs' new (Meanwhile-HasKey m h)
  Meanwhile-HasKey (cancels {jobs'} m p message) h =
      update_where-HasKey p (mark_dead message) jobs' (λ k. (mark_dead-same message k).0)
        (Meanwhile-HasKey m h)
