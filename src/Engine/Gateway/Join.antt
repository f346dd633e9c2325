-- ===== src/Engine/Gateway/Join.antt =====
-- The join is a barrier: it fires with the arrival that makes the fork complete.
use bpm_new.Common.{
  ℕ, ◌+◌, ◌≤◌, ◌<◌, Bool, true, false, ◌&&◌, ◌≡◌, refl, ap, ◌∙◌, some, List, [], ◌∷◌, ◌++◌, Str,
  inl, inr, All, Bool-cases, arith, if◌then◌else◌, ◌==◌, not, any, keep, length, IsOnly,
  keep-append, length-append, ==_refl, str_eq_refl, ltb, ltb→lt, leb→le, ==_iff,
}
use bpm_new.Engine.Tokens.Defs.{
  Token, active, Db, ok, at_version, update_tokens, patched, update_token_with_lock,
}
use bpm_new.Engine.Gateway.Defs.{
  is_fork, is_parked, parked, park_at, reactivate, complete, merge_siblings, Arrival, parks, fires,
  arrive_at_join,
}

-- The primary key: `t` is the row with this id.
abbrev pub IsRow : ℕ → Token → List Token → Type 0
IsRow id t ts = IsOnly (λ s. s.id == id) t ts

module _ (p : Token → Bool) (f : Token → Token) where
  update_others : (ts : List Token) → All (λ s. p s ≡ false) ts → update_tokens p f ts ≡ ts
  update_others [] h = refl
  update_others (t ∷ ts) h = rw h.0 (ap (λ l. t ∷ l) (update_others ts h.1))

  update-append :
      (xs ys : List Token)
      → update_tokens p f (xs ++ ys) ≡ update_tokens p f xs ++ update_tokens p f ys
  update-append [] ys = refl
  update-append (x ∷ xs) ys = ap (λ l. (if p x then f x else x) ∷ l) (update-append xs ys)

other_version :
    (id version : ℕ) (ts : List Token)
    → All (λ s. (s.id == id) ≡ false) ts
    → All (λ s. at_version id version s ≡ false) ts
other_version id version [] h = tt
other_version id version (t ∷ ts) h = (rw h.0 refl, other_version id version ts h.1)

-- The update under the lock of the row that was read, in its place.
pub update_row :
    (id : ℕ) (patch : Token → Token) (before after : List Token) (t : Token)
    → All (λ s. (s.id == id) ≡ false) before
    → (t.id == id) ≡ true
    → All (λ s. (s.id == id) ≡ false) after
    → (any (at_version id t.version) (before ++ t ∷ after) ≡ true)
      × (update_tokens (at_version id t.version) (patched patch t.version) (before ++ t ∷ after)
          ≡ before ++ patched patch t.version t ∷ after)
update_row id patch before after t b e a = (found before b, placed)
  where
    found :
        (l : List Token)
        → All (λ s. (s.id == id) ≡ false) l
        → any (at_version id t.version) (l ++ t ∷ after) ≡ true
    found [] h = rw e (rw (==_refl t.version) refl)
    found (s ∷ l) h = rw h.0 (found l h.1)

    at_row : at_version id t.version t ≡ true
    at_row = rw e (==_refl t.version)

    placed :
        update_tokens (at_version id t.version) (patched patch t.version) (before ++ t ∷ after)
        ≡ before ++ patched patch t.version t ∷ after
    placed =
        update-append (at_version id t.version) (patched patch t.version) before (t ∷ after)
        ∙ rw at_row (
            rw
              (update_others (at_version id t.version) (patched patch t.version) before
                (other_version id t.version before b))
              (rw
                (update_others (at_version id t.version) (patched patch t.version) after
                  (other_version id t.version after a))
                refl))

unfoldable pub with_tokens : Db → List Token → Db
with_tokens db ts = record db { tokens = ts }

pub update_token_with_lock_row :
    (id : ℕ) (patch : Token → Token) (before after : List Token) (t : Token) (db : Db)
    → db.tokens ≡ before ++ t ∷ after
    → All (λ s. (s.id == id) ≡ false) before
    → (t.id == id) ≡ true
    → All (λ s. (s.id == id) ≡ false) after
    → update_token_with_lock id t.version patch db
      ≡ ok (with_tokens db (before ++ patched patch t.version t ∷ after))
unfolding update_token_with_lock with_tokens
update_token_with_lock_row id patch before after t db split b e a =
    let (found, placed) = update_row id patch before after t b e a in
    rw split (rw found (ap (λ ts. ok (record db { tokens = ts })) placed))

module _ (instance_id fork : ℕ) (node : Str) where
  abbrev pub count_parked : List Token → ℕ
  count_parked ts = length (keep (is_parked instance_id fork node) ts)

  count-append : (xs ys : List Token) → count_parked (xs ++ ys) ≡ count_parked xs + count_parked ys
  count-append xs ys =
      ap length (keep-append (is_parked instance_id fork node) xs ys)
      ∙ length-append (keep (is_parked instance_id fork node) xs)
          (keep (is_parked instance_id fork node) ys)

  abbrev BelongsTo : Token → Type 0
  BelongsTo t = ((t.instance_id == instance_id) ≡ true) × (is_fork fork t.fork_id ≡ true)

  parked_self :
      (t : Token) (v : ℕ)
      → BelongsTo t
      → is_parked instance_id fork node (patched (park_at node) v t) ≡ true
  unfolding is_parked
  parked_self t v (i, f) = rw i (rw f (rw (str_eq_refl node) refl))

  pub reactivated_self :
      (t : Token) (v : ℕ) → is_parked instance_id fork node (patched reactivate v t) ≡ false
  unfolding is_parked
  reactivated_self t v = ground arith

  abbrev pub merge : ℕ → List Token → List Token
  merge self = update_tokens (λ t. is_parked instance_id fork node t && not (t.id == self)) complete

  pub merge-ids :
      (id self : ℕ) (ts : List Token)
      → All (λ s. (s.id == id) ≡ false) ts
      → All (λ s. (s.id == id) ≡ false) (merge self ts)
  merge-ids id self [] h = tt
  merge-ids id self (t ∷ ts) h =
      elim (Bool-cases (is_parked instance_id fork node t && not (t.id == self))) [
        | inl e ↦ rw e (h.0, merge-ids id self ts h.1)
        | inr e ↦ rw e (h.0, merge-ids id self ts h.1)
      ]

  pub completed-not_parked : (t : Token) → is_parked instance_id fork node (complete t) ≡ false
  unfolding is_parked
  completed-not_parked t = ground arith

  merge-none_parked :
      (self : ℕ) (ts : List Token)
      → All (λ s. (s.id == self) ≡ false) ts
      → count_parked (merge self ts) ≡ 0
  merge-none_parked self [] h = refl
  merge-none_parked self (t ∷ ts) h = elim (Bool-cases (is_parked instance_id fork node t)) [
    | inl e ↦ rw e (rw h.0 (rw (completed-not_parked t) (merge-none_parked self ts h.1)))
    | inr e ↦ rw e (rw e (merge-none_parked self ts h.1))
  ]

  count-one :
      (before after : List Token) (t : Token)
      → is_parked instance_id fork node t ≡ false
      → count_parked (before ++ t ∷ after) ≡ count_parked before + count_parked after
  count-one before after t h =
      count-append before (t ∷ after) ∙ ap (λ n. count_parked before + n) (rw h refl)

  pub count-park :
      (before after : List Token) (t p : Token)
      → is_parked instance_id fork node t ≡ false
      → is_parked instance_id fork node p ≡ true
      → count_parked (before ++ p ∷ after) ≡ count_parked (before ++ t ∷ after) + 1
  count-park before after t p h k =
      let one : count_parked (p ∷ after) ≡ count_parked after + 1 = rw k (omega arith) in
      omega (arith, count-append before (p ∷ after), count-one before after t h, one)

  merge-around :
      (self : ℕ) (before after : List Token) (p : Token)
      → (p.id == self) ≡ true
      → merge self (before ++ p ∷ after) ≡ merge self before ++ p ∷ merge self after
  merge-around self before after p e =
      update-append (λ t. is_parked instance_id fork node t && not (t.id == self)) complete before
        (p ∷ after)
      ∙ ap (λ q. merge self before ++ q ∷ merge self after) skipped
    where
      skipped :
          (if is_parked instance_id fork node p && not (p.id == self) then complete p else p) ≡ p
      skipped = ground arith

  -- The row as the arrival leaves it, parked and then active again.
  abbrev pub parked_row : Token → Token
  parked_row t = patched (park_at node) t.version t

  abbrev pub fired_row : Token → Token
  fired_row t = patched reactivate (t.version + 1) (parked_row t)

  pub parked_row-is_parked :
      (t : Token)
      → t.instance_id ≡ instance_id
      → t.fork_id ≡ some fork
      → is_parked instance_id fork node (parked_row t) ≡ true
  parked_row-is_parked t hi hf =
      parked_self t t.version ((==_iff t.instance_id instance_id).1 hi, rw hf (==_refl fork))

  -- The arrival that completes the fork, with the table that it leaves.
  pub fires_at_last :
      (token size : ℕ) (before after : List Token) (t : Token) (db : Db)
      → db.tokens ≡ before ++ t ∷ after
      → All (λ s. (s.id == token) ≡ false) before
      → (t.id == token) ≡ true
      → All (λ s. (s.id == token) ≡ false) after
      → ltb (count_parked (before ++ parked_row t ∷ after)) size ≡ false
      → (d : Db) × (arrive_at_join instance_id fork size node token t.version db ≡ ok (fires d))
        × (d.tokens ≡ merge token before ++ fired_row t ∷ merge token after)
  unfolding arrive_at_join merge_siblings parked with_tokens
  fires_at_last token size before after t db split b e a l =
      let p = parked_row t in
      let db' = with_tokens db (before ++ p ∷ after) in
      let step = update_token_with_lock_row token (park_at node) before after t db split b e a in
      let merged = with_tokens db' (merge token (before ++ p ∷ after)) in
      let again =
        update_token_with_lock_row token reactivate (merge token before) (merge token after) p
          merged (merge-around token before after p e) (merge-ids token token before b) e
          (merge-ids token token after a) in
      (
        with_tokens merged (merge token before ++ fired_row t ∷ merge token after),
        rw step (rw l (rw again refl)),
        refl,
      )

  -- What an arrival does, by the number of siblings that were parked at the join before it.
  abbrev pub IsBarrier : ℕ → ℕ → ℕ → Arrival → Type 0
  IsBarrier self size before (parks db) =
      (before + 1 < size) × (count_parked db.tokens ≡ before + 1)
  IsBarrier self size before (fires db) =
      (size ≤ before + 1)
      × (count_parked db.tokens ≡ 0)
      × ((t : Token) × IsRow self t db.tokens × (t.status ≡ active) × (t.fork_id ≡ some fork))

  -- A join is a barrier. The arrival of a token of the fork always succeeds. It parks, as one more
  -- token at the join, as long as with it fewer are there than the fork has; the arrival that completes
  -- the fork fires: the token goes on as active, and no sibling is left waiting at the join.
  pub arrive_at_join-IsBarrier :
      (token size : ℕ) (t : Token) (db : Db)
      → IsRow token t db.tokens
      → t.instance_id ≡ instance_id
      → t.fork_id ≡ some fork
      → is_parked instance_id fork node t ≡ false
      → (a : Arrival) × (arrive_at_join instance_id fork size node token t.version db ≡ ok a)
        × IsBarrier token size (count_parked db.tokens) a
  unfolding arrive_at_join merge_siblings parked with_tokens
  arrive_at_join-IsBarrier token size t db (before, after, split, b, e, a) hi hf idle =
      let p = parked_row t in
      let db' = with_tokens db (before ++ p ∷ after) in
      let step = update_token_with_lock_row token (park_at node) before after t db split b e a in
      let count = count-park before after t p idle (parked_row-is_parked t hi hf) in
      let sum : count_parked db'.tokens ≡ count_parked db.tokens + 1 = rw split count in
      elim (Bool-cases (ltb (count_parked db'.tokens) size)) [
        | inl l ↦
            let few = ltb→lt (count_parked db'.tokens) size l in
            (parks db', rw step (rw l refl), (omega arith, sum))
        | inr l ↦
            let (d, done, tokens) = fires_at_last token size before after t db split b e a l in
            let r = fired_row t in
            let none_left : count_parked (merge token before ++ r ∷ merge token after) ≡ 0 = omega (
              arith,
              count-one (merge token before) (merge token after) r
                  (reactivated_self p (t.version + 1)),
              merge-none_parked token before b,
              merge-none_parked token after a,
            ) in
            (
              fires d,
              done,
              (
                leb→le size (count_parked db.tokens + 1) (ground arith),
                rw tokens none_left,
                (
                  r,
                  (
                    merge token before,
                    merge token after,
                    tokens,
                    merge-ids token token before b,
                    e,
                    merge-ids token token after a,
                  ),
                  refl,
                  hf,
                ),
              ),
            )
      ]
