-- ===== src/Engine/Gateway/Nested.antt =====
-- A join behind a join.
use bpm_new.Common.{
  ℕ, ◌+◌, ◌≤◌, ◌<◌, false, ◌&&◌, ◌≡◌, refl, sym, ap, ◌∙◌, subst, some, List, [], ◌∷◌, ◌++◌, Str,
  inl, inr, All, All-append, Bool-cases, arith, ◌==◌, not, ltb,
}
use bpm_new.Engine.Tokens.Defs.{Token, Db, ok}
use bpm_new.Engine.Gateway.Defs.{is_parked, Arrival, parks, fires, arrive_at_join}
use bpm_new.Engine.Gateway.Join.{
  IsRow, count_parked, fired_row, parked_row, merge, merge-ids, fires_at_last, count-park,
  parked_row-is_parked, arrive_at_join-IsBarrier, IsBarrier, completed-not_parked, reactivated_self,
}

none_parked :
    (instance_id fork : ℕ) (node : Str) (ts : List Token)
    → All (λ t. is_parked instance_id fork node t ≡ false) ts
    → count_parked instance_id fork node ts ≡ 0
none_parked instance_id fork node [] h = refl
none_parked instance_id fork node (t ∷ ts) h = rw h.0 (none_parked instance_id fork node ts h.1)

merge-none_elsewhere :
    (instance_id fork : ℕ) (inner outer : Str) (self : ℕ) (ts : List Token)
    → All (λ t. is_parked instance_id fork outer t ≡ false) ts
    → All (λ t. is_parked instance_id fork outer t ≡ false) (merge instance_id fork inner self ts)
merge-none_elsewhere instance_id fork inner outer self [] h = tt
merge-none_elsewhere instance_id fork inner outer self (t ∷ ts) h =
    let rest = merge-none_elsewhere instance_id fork inner outer self ts h.1 in
    elim (Bool-cases (is_parked instance_id fork inner t && not (t.id == self))) [
      | inl e ↦ rw e (completed-not_parked instance_id fork outer t, rest)
      | inr e ↦ rw e (h.0, rest)
    ]

All-around {ℓ κ} :
    {A : Type ℓ} (P : A → Type κ) (xs ys : List A) (y : A)
    → All P (xs ++ y ∷ ys)
    → All P xs × P y × All P ys
All-around P [] ys y h = (tt, h.0, h.1)
All-around P (x ∷ xs) ys y h = let (a, b, c) = All-around P xs ys y h.1 in ((h.0, a), b, c)

le→not_ltb : (a b : ℕ) → b ≤ a → ltb a b ≡ false
le→not_ltb a b h = ground arith

alone_parks :
    (instance_id fork : ℕ) (node : Str) (token size before : ℕ) (a : Arrival)
    → IsBarrier instance_id fork node token size before a
    → before + 1 < size
    → (d : Db) × (a ≡ parks d)
alone_parks instance_id fork node token size before (parks d) h k = (d, refl)
alone_parks instance_id fork node token size before (fires d) h k = absurd (omega (arith, h.0))

-- A token that completes a fork of two or more at a join is let through and still carries that fork.
-- At the next join that it reaches it parks, if no token of that fork waits there.
pub nested_join_waits :
    (instance_id fork size token : ℕ) (inner outer : Str) (t : Token) (db : Db)
    → IsRow token t db.tokens
    → t.instance_id ≡ instance_id
    → t.fork_id ≡ some fork
    → is_parked instance_id fork inner t ≡ false
    → All (λ s. is_parked instance_id fork outer s ≡ false) db.tokens
    → 2 ≤ size
    → size ≡ count_parked instance_id fork inner db.tokens + 1
    → (db' db'' : Db) × (r : Token) × (arrive_at_join instance_id fork size inner token t.version db
        ≡ ok (fires db'))
      × IsRow token r db'.tokens
      × (r.fork_id ≡ some fork)
      × (arrive_at_join instance_id fork size outer token r.version db' ≡ ok (parks db''))
nested_join_waits instance_id fork size token inner outer t db (before, after, split, b, e, a) hi hf
      idle free two full =
    let count =
      count-park instance_id fork inner before after t (parked_row instance_id fork inner t) idle
        (parked_row-is_parked instance_id fork inner t hi hf) in
    let last : ltb
          (count_parked instance_id fork inner
            (before ++ parked_row instance_id fork inner t ∷ after))
          size
        ≡ false =
      le→not_ltb _ size (omega (arith, ap (count_parked instance_id fork inner) split)) in
    let (db', done, tokens) =
      fires_at_last instance_id fork inner token size before after t db split b e a last in
    let r = fired_row instance_id fork inner t in
    let row : IsRow token r db'.tokens = (
      merge instance_id fork inner token before,
      merge instance_id fork inner token after,
      tokens,
      merge-ids instance_id fork inner token token before b,
      e,
      merge-ids instance_id fork inner token token after a,
    ) in
    let idle' =
      reactivated_self instance_id fork outer (parked_row instance_id fork inner t)
        (t.version + 1) in
    let (free_before, _, free_after) =
      All-around (λ s. is_parked instance_id fork outer s ≡ false) before after t
        (subst (All (λ s. is_parked instance_id fork outer s ≡ false)) split free) in
    let nobody : count_parked instance_id fork outer db'.tokens ≡ 0 =
      none_parked instance_id fork outer db'.tokens (
        subst (All (λ s. is_parked instance_id fork outer s ≡ false)) (sym tokens) (
          All-append (λ s. is_parked instance_id fork outer s ≡ false) _ (r ∷ _)
            (merge-none_elsewhere instance_id fork inner outer token before free_before)
            (idle', merge-none_elsewhere instance_id fork inner outer token after free_after))) in
    let (arrival, arrived, barrier) =
      arrive_at_join-IsBarrier instance_id fork outer token size r db' row hi hf idle' in
    let (db'', waits) =
      alone_parks instance_id fork outer token size _ arrival barrier (omega arith) in
    (db', db'', r, done, row, hf, arrived ∙ ap ok waits)
