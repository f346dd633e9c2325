-- ===== src/Engine/Gateway/Split.antt =====
-- The tokens after a split.
use bpm_new.Common.{
  Bool, take, ℕ, suc, ◌+◌, ◌≤◌, true, false, ◌≡◌, refl, sym, ap, ◌∙◌, subst, Option, some, List, [],
  ◌∷◌, ◌++◌, Str, All, All-append, arith, inl, inr, Bool-cases, keep, length, length-append,
  ==_refl, map,
}
use bpm_new.Engine.Canvas.Defs.{Edge}
use bpm_new.Engine.Tokens.Defs.{Token, Db, ok, patched}
use bpm_new.Engine.Gateway.Defs.{
  is_fork, Advanced, child, insert_token, complete_at, fire_each, split,
}
use bpm_new.Engine.Gateway.Join.{IsRow, update_token_with_lock_row, with_tokens}

-- What a token keeps for its whole life.
pub record Lineage : Type 0 where
  pub id : ℕ
  pub instance_id : ℕ
  pub scope_token_id : Option ℕ
  pub parent_token_id : Option ℕ
  pub fork_size : Option ℕ

abbrev pub lineage : Token → Lineage
lineage t = record {
  id = t.id;
  instance_id = t.instance_id;
  scope_token_id = t.scope_token_id;
  parent_token_id = t.parent_token_id;
  fork_size = t.fork_size;
}

-- The lineages of the tokens of a fork.
abbrev kin_of : ℕ → List Token → List Lineage
kin_of fork ts = map lineage (keep (λ t. is_fork fork t.fork_id) ts)

abbrev pub kin : ℕ → Db → List Lineage
kin fork db = kin_of fork db.tokens

-- A child of the split, in the instance and the scope of the parent, that knows the size of the fork.
abbrev pub IsChild : Token → ℕ → Lineage → Type 0
IsChild parent size k =
    (k.instance_id ≡ parent.instance_id)
    × (k.scope_token_id ≡ parent.scope_token_id)
    × (k.parent_token_id ≡ some parent.id)
    × (k.fork_size ≡ some size)

kin-append :
    (fork : ℕ) (xs ys : List Token) → kin_of fork (xs ++ ys) ≡ kin_of fork xs ++ kin_of fork ys
kin-append fork [] ys = refl
kin-append fork (x ∷ xs) ys = elim (Bool-cases (is_fork fork x.fork_id)) [
  | inl e ↦ rw e (ap (λ l. lineage x ∷ l) (kin-append fork xs ys))
  | inr e ↦ rw e (kin-append fork xs ys)
]

kin-child :
    (parent : Token) (fork size id : ℕ) (e : Edge) (db : Db)
    → kin fork (insert_token (child parent fork size id e) db)
      ≡ kin fork db ++ lineage (child parent fork size id e) ∷ []
unfolding child
kin-child parent fork size id e db =
    kin-append fork db.tokens (child parent fork size id e ∷ []) ∙ rw (==_refl fork) refl

-- The completed parent is in no other fork than before.
kin-parent :
    (fork : ℕ) (node : Str) (version : ℕ) (before after : List Token) (t : Token)
    → kin_of fork (before ++ patched (complete_at node) version t ∷ after)
      ≡ kin_of fork (before ++ t ∷ after)
kin-parent fork node version before after t =
    kin-append fork before (patched (complete_at node) version t ∷ after)
    ∙ ap (λ l. kin_of fork before ++ l)
        (elim (Bool-cases (is_fork fork t.fork_id)) [ inl e ↦ rw e refl | inr e ↦ rw e refl ])
    ∙ sym (kin-append fork before (t ∷ after))

-- The calls of `advance` in a split: the child and the database with it. All but the last have not
-- failed, and the last has failed if the split has.
module _ (run : Token → Db → Advanced × Db) where
  abbrev pub IsOutcome : Bool → List (Token × Db) → Type 0
  IsOutcome failed [] = failed ≡ false
  IsOutcome failed (call ∷ []) = (run call.0 call.1).0.has_failed ≡ failed
  IsOutcome failed (call ∷ next ∷ calls) =
      ((run call.0 call.1).0.has_failed ≡ false) × IsOutcome failed (next ∷ calls)

  IsOutcome-cons :
      (failed : Bool) (call : Token × Db) (calls : List (Token × Db))
      → (run call.0 call.1).0.has_failed ≡ false
      → IsOutcome failed calls
      → IsOutcome failed (call ∷ calls)
  IsOutcome-cons failed call [] f h = f ∙ sym h
  IsOutcome-cons failed call (next ∷ calls) f h = (f, h)

abbrev pub target_of : Token × Db → Str
target_of call = call.0.current_node_id

module _ (parent : Token) (fork size : ℕ) (ids : ℕ → ℕ) (run : Token → Db → Advanced × Db)
    (keeps : (t : Token) (d : Db) → kin fork (run t d).1 ≡ kin fork d) where
  -- How many of the children the loop has advanced when it ends.
  abbrev IsCount : ℕ → Advanced → ℕ → Type 0
  IsCount left a m =
      (a.has_failed ≡ false → m ≡ left) × (a.has_failed ≡ true → (1 ≤ m) × (m ≤ left))

  fire_each-siblings :
      (i hops seen : ℕ) (es : List Edge) (db : Db)
      → length (kin fork db) ≡ seen
      → All (IsChild parent size) (kin fork db)
      → (a : Advanced) × (db' : Db) × (calls : List (Token × Db)) × (fire_each
            (λ t d. ok (run t d))
            parent
            fork
            size
            ids
            i
            hops
            es
            db
          ≡ ok (a, db'))
        × All (IsChild parent size) (kin fork db')
        × (length (kin fork db') ≡ seen + length calls)
        × IsOutcome run a.has_failed calls
        × (map target_of calls ≡ take (length calls) (map (λ (e : Edge). e.target) es))
        × IsCount (length es) a (length calls)
  unfolding fire_each child
  fire_each-siblings i hops seen [] db n h =
      (_, db, [], refl, h, omega arith, refl, refl, ((λ _. refl), (λ e. absurd (cc e))))
  fire_each-siblings i hops seen (e ∷ es) db n h =
      let c = child parent fork size (ids i) e in
      let (a, db') = run c (insert_token c db) in
      let grown : kin fork db' ≡ kin fork db ++ lineage c ∷ [] =
        keeps c (insert_token c db) ∙ kin-child parent fork size (ids i) e db in
      let count : length (kin fork db') ≡ seen + 1 =
        ap length grown ∙ length-append (kin fork db) (lineage c ∷ []) ∙ ap (λ k. k + 1) n in
      let all' : All (IsChild parent size) (kin fork db') =
        subst (All (IsChild parent size)) (sym grown) (
          All-append (IsChild parent size) (kin fork db) (lineage c ∷ []) h
            ((refl, refl, refl, refl), tt)) in
      elim (Bool-cases a.has_failed) [
        | inl f ↦ (
          record a { hops = hops + a.hops },
          db',
          (c, insert_token c db) ∷ [],
          rw f refl,
          all',
          count,
          refl,
          refl,
          ((λ g. absurd (cc (f, g))), (λ _. (omega arith, omega arith))),
        )
        | inr f ↦
            let (a', db'', calls, step, all'', more, outcome, targets, (done, broken)) =
              fire_each-siblings (suc i) (hops + a.hops) (seen + 1) es db' count all' in
            (
              a',
              db'',
              (c, insert_token c db) ∷ calls,
              rw f step,
              all'',
              omega (arith, more),
              IsOutcome-cons run a'.has_failed (c, insert_token c db) calls f outcome,
              ap (λ l. e.target ∷ l) targets,
              (
                (λ g. ap suc (done g)),
                (λ g. (omega (arith, (broken g).0), omega (arith, (broken g).1))),
              ),
            )
      ]

-- Where no token was of the new fork, and where the advance of a token throws nothing and leaves alone
-- which tokens are of the fork and their lineage, a split returns. It has advanced children at the
-- targets of the first flows that fire, in the order of these; none but the last of them has failed, and
-- the split has failed just if the last has. If it has not failed, there is one for each flow, and
-- otherwise at least one and no more than that. The tokens of the fork are as many as these calls, and
-- each is a child of the parent, in its instance and its scope, and knows as the size of the fork the
-- number of flows that fire: a join that waits for so many misses none where the split has not failed.
pub split-siblings :
    (parent : Token) (fork : ℕ) (ids : ℕ → ℕ) (run : Token → Db → Advanced × Db) (node : Str)
    (hops : ℕ) (firing : List Edge) (db : Db)
    → IsRow parent.id parent db.tokens
    → kin fork db ≡ []
    → ((t : Token) (d : Db) → kin fork (run t d).1 ≡ kin fork d)
    → (a : Advanced) × (db' : Db) × (calls : List (Token × Db)) × (split
          (λ t d. ok (run t d))
          parent
          fork
          ids
          node
          hops
          firing
          db
        ≡ ok (a, db'))
      × All (IsChild parent (length firing)) (kin fork db')
      × (length (kin fork db') ≡ length calls)
      × IsOutcome run a.has_failed calls
      × (map target_of calls ≡ take (length calls) (map (λ (e : Edge). e.target) firing))
      × (a.has_failed ≡ false → length calls ≡ length firing)
      × (a.has_failed ≡ true → (1 ≤ length calls) × (length calls ≤ length firing))
unfolding split with_tokens
split-siblings parent fork ids run node hops firing db (before, after, rows, b, e, a) new keeps =
    let step =
      update_token_with_lock_row parent.id (complete_at node) before after parent db rows b e a in
    let p = patched (complete_at node) parent.version parent in
    let none_yet : kin_of fork (before ++ p ∷ after) ≡ [] =
      kin-parent fork node parent.version before after parent ∙ ap (kin_of fork) (sym rows) ∙ new in
    let (r, db', calls, fired, children, more, outcome, targets, count) =
      fire_each-siblings parent fork (length firing) ids run keeps 0 hops 0 firing
        (with_tokens db (before ++ p ∷ after)) (ap length none_yet)
        (subst (All (IsChild parent (length firing))) (sym none_yet) tt) in
    (
      r,
      db',
      calls,
      rw step fired,
      children,
      omega (arith, more),
      outcome,
      targets,
      count.0,
      count.1,
    )
