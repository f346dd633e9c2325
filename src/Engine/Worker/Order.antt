-- ===== src/Engine/Worker/Order.antt =====
-- ORDER BY and LIMIT of the claiming query.
use mathlib.Core.List.{Perm}
use mathlib.Core.List.Perm
use bpm_new.Common.{true, false, ◌≡◌, List, [], ◌∷◌, inl, inr, All, All-map, Bool-cases, arith}
use bpm_new.Engine.Worker.Defs.{Job}
use bpm_new.Engine.Worker.Queue.{comes_before, insert_ordered, order_by}

module _ {V : Type 0} where
  -- `a` need not wait for `b`.
  abbrev pub NotAfter : Job V → Job V → Type 0
  NotAfter a b = comes_before a b ≡ true

  -- Each row stands before all that follow it in the list.
  abbrev pub IsOrdered : List (Job V) → Type 0
  IsOrdered [] = Unit
  IsOrdered (a ∷ l) = All (NotAfter a) l × IsOrdered l

  comes_before_trans : (a b c : Job V) → NotAfter a b → NotAfter b c → NotAfter a c
  unfolding comes_before
  comes_before_trans a b c h k = ground arith

  comes_before_total : (a b : Job V) → comes_before a b ≡ false → NotAfter b a
  unfolding comes_before
  comes_before_total a b h = ground arith

  All-insert_ordered :
      (P : Job V → Type 0) (a : Job V) (l : List (Job V))
      → P a
      → All P l
      → All P (insert_ordered a l)
  unfolding insert_ordered
  All-insert_ordered P a [] h k = (h, tt)
  All-insert_ordered P a (b ∷ l) h k = elim (Bool-cases (comes_before a b)) [
    | inl e ↦ rw e (h, k)
    | inr e ↦ rw e (k.0, All-insert_ordered P a l h k.1)
  ]

  insert_ordered-IsOrdered :
      (a : Job V) (l : List (Job V)) → IsOrdered l → IsOrdered (insert_ordered a l)
  unfolding insert_ordered
  insert_ordered-IsOrdered a [] h = (tt, tt)
  insert_ordered-IsOrdered a (b ∷ l) h = elim (Bool-cases (comes_before a b)) [
    | inl e ↦
        rw e ((e, All-map (NotAfter b) (NotAfter a) (λ c. comes_before_trans a b c e) l h.0), h)
    | inr e ↦ rw e (
      All-insert_ordered (NotAfter b) a l (comes_before_total a b e) h.0,
      insert_ordered-IsOrdered a l h.1,
    )
  ]

  pub order_by-IsOrdered : (l : List (Job V)) → IsOrdered (order_by l)
  unfolding order_by
  order_by-IsOrdered [] = tt
  order_by-IsOrdered (a ∷ l) = insert_ordered-IsOrdered a (order_by l) (order_by-IsOrdered l)

  insert_ordered-perm : (a : Job V) (l : List (Job V)) → Perm (insert_ordered a l) (a ∷ l)
  unfolding insert_ordered
  insert_ordered-perm a [] = Perm.refl (a ∷ [])
  insert_ordered-perm a (b ∷ l) = elim (Bool-cases (comes_before a b)) [
    | inl e ↦ rw e (Perm.refl (a ∷ b ∷ l))
    | inr e ↦ rw e (Perm.trans (Perm.cons b (insert_ordered-perm a l)) (Perm.swap a b l))
  ]

  pub order_by-perm : (l : List (Job V)) → Perm (order_by l) l
  unfolding order_by
  order_by-perm [] = Perm.refl []
  order_by-perm (a ∷ l) =
      Perm.trans (insert_ordered-perm a (order_by l)) (Perm.cons a (order_by-perm l))

  pub All-order_by : (P : Job V → Type 0) (l : List (Job V)) → All P l → All P (order_by l)
  unfolding order_by
  All-order_by P [] h = tt
  All-order_by P (a ∷ l) h = All-insert_ordered P a (order_by l) h.0 (All-order_by P l h.1)
