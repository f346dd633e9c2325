-- ===== src/Engine/Worker/Claim.antt =====
-- What the claiming query hands to a worker.
use mathlib.Core.List.{Memᴰ, Perm}
use bpm_new.Common.{
  ℕ, zero, suc, min, Bool, true, false, ◌≡◌, refl, sym, ap, List, [], ◌∷◌, ◌++◌, map, Str, inl, inr,
  All, All-map_image, All-keep_of, All-map, All-take, Bool-cases, length, take, keep, arith, subst,
  ◌∙◌,
}
use bpm_new.Engine.Worker.Defs.{Job, start}
use bpm_new.Engine.Worker.Queue.{is_claimable, order_by, pick, is_among, claim, update_where}
use bpm_new.Engine.Worker.Order.{IsOrdered, order_by-IsOrdered, order_by-perm, All-order_by}

keep-Mem {ℓ} :
    {A : Type ℓ} (p : A → Bool) (xs : List A) → All (λ x. (p x ≡ true) × Memᴰ x xs) (keep p xs)
keep-Mem p [] = tt
keep-Mem p (x ∷ xs) =
    let rest =
      All-map _ (λ y. (p y ≡ true) × Memᴰ y (x ∷ xs)) (λ y h. (h.0, Memᴰ.tail h.1)) (keep p xs)
        (keep-Mem p xs) in
    elim (Bool-cases (p x)) [ inl e ↦ rw e ((e, Memᴰ.head refl), rest) | inr e ↦ rw e rest ]

take_rest {ℓ} :
    {A : Type ℓ} (n : ℕ) (xs : List A)
    → (rest : List A) × (take n xs ++ rest ≡ xs) × (length (take n xs) ≡ min n (length xs))
take_rest zero xs = (xs, refl, omega arith)
take_rest (suc n) [] = ([], refl, omega arith)
take_rest (suc n) (x ∷ xs) =
    let (rest, e, k) = take_rest n xs in (rest, ap (λ l. x ∷ l) e, omega arith)

module _ {V : Type 0} (locked suspended : ℕ → Bool) (worker : Str) (now batch : ℕ)
    (jobs : List (Job V)) where
  pub pick-Mem :
      All
        (λ j. (is_claimable locked suspended now j ≡ true) × Memᴰ j jobs)
        (pick locked suspended now batch jobs)
  unfolding pick
  pick-Mem =
      All-take _ batch _ (All-order_by _ _ (keep-Mem (is_claimable locked suspended now) jobs))

  -- Every row that `claim` returns was a row of the table that is queued, due, not locked by another
  -- transaction and of no suspended instance, and is that row with one attempt more, running, and
  -- locked by this worker now.
  pub claim-claimable :
      All
        (λ c.
          (j : Job V) × (c ≡ start now worker j)
          × (is_claimable locked suspended now j ≡ true)
          × Memᴰ j jobs)
        (claim locked suspended worker now batch jobs).1
  unfolding claim
  claim-claimable =
      All-map_image _ (start now worker) _ (All-map _ _ (λ j h. (j, refl, h.0, h.1)) _ pick-Mem)

  -- The rows claimed are the first ones of the claimable rows of the table in the order of their
  -- schedule and then of their creation: `batch` of them, or all if there are fewer.
  pub claim_in_order :
      (picked rest : List (Job V)) × ((claim locked suspended worker now batch jobs).1
        ≡ map (start now worker) picked)
      × IsOrdered (picked ++ rest)
      × Perm (picked ++ rest) (keep (is_claimable locked suspended now) jobs)
      × (length picked ≡ min batch (length (picked ++ rest)))
  unfolding claim pick
  claim_in_order =
      let due = order_by (keep (is_claimable locked suspended now) jobs) in
      let (rest, e, k) = take_rest batch due in
      (
        take batch due,
        rest,
        refl,
        subst IsOrdered (sym e) (order_by-IsOrdered _),
        subst (λ l. Perm l (keep (is_claimable locked suspended now) jobs)) (sym e)
            (order_by-perm _),
        rw e k,
      )

is_among-start :
    {V : Type 0} (now : ℕ) (worker : Str) (picked : List (Job V)) (j : Job V)
    → is_among (map (start now worker) picked) j ≡ is_among picked j
unfolding start
is_among-start now worker [] j = refl
is_among-start now worker (p ∷ picked) j = rw (is_among-start now worker picked j)

start-not_claimable :
    {V : Type 0} (locked suspended : ℕ → Bool) (now' now : ℕ) (worker : Str) (j : Job V)
    → is_claimable locked suspended now' (start now worker j) ≡ false
unfolding is_claimable start
start-not_claimable locked suspended now' now worker j = refl

module _ {V : Type 0} (locked suspended : ℕ → Bool) (now' now : ℕ) (worker : Str) where
  left_over :
      (picked jobs : List (Job V))
      → All
          (λ j. is_claimable locked suspended now' j ≡ true → is_among picked j ≡ false)
          (update_where (is_among picked) (start now worker) jobs)
  left_over picked [] = tt
  left_over picked (j ∷ jobs) = elim (Bool-cases (is_among picked j)) [
    | inl e ↦
        rw e
          (λ h. cc (start-not_claimable locked suspended now' now worker j), left_over picked jobs)
    | inr e ↦ rw e (λ h. e, left_over picked jobs)
  ]

relocked :
    {V : Type 0} (worker : Str) (now : ℕ) (first : List (Job V)) (j : Job V)
    → is_among first j ≡ false
    → is_among first (start now worker j) ≡ false
unfolding start
relocked worker now first j h = h

-- No row is claimed twice: a claim on the table that another claim left, at any time and by any
-- worker, returns no row whose id the first one returned.
pub claim-claim_disjoint :
    {V : Type 0} (locked suspended locked' suspended' : ℕ → Bool) (worker worker' : Str)
    (now now' batch batch' : ℕ) (jobs : List (Job V))
    → let (jobs', first) = claim locked suspended worker now batch jobs in
      All (λ c. is_among first c ≡ false) (claim locked' suspended' worker' now' batch' jobs').1
unfolding claim pick
claim-claim_disjoint locked suspended locked' suspended' worker worker' now now' batch batch' jobs =
    let picked = pick locked suspended now batch jobs in
    All-map_image _ (start now' worker') _ (
      All-map _ _
        (λ j h.
          relocked worker' now' (map (start now worker) picked) j
            (is_among-start now worker picked j ∙ h))
        _
        (All-take _ batch' _ (
          All-order_by _ _ (
            All-keep_of _ (is_claimable locked' suspended' now') _
              (left_over locked' suspended' now' now worker picked jobs)))))
