-- ===== src/Access/Permissions/Effective.antt =====
-- What `can` and `effective` answer, said with the rows of the table.
use bpm_new.Common.{
  ℕ, Bool, true, false, ◌≡◌, refl, ◌∙◌, List, [], ◌∷◌, ◌&&◌, ◌||◌, inl, inr, Bool-cases, arith, any,
  keep,
}
use bpm_new.Data.Sets.{add, has-add, has-add_all, has-keep}
use bpm_new.Access.Permissions.Defs.{
  Permission, view, start, edit, publish, admin, Caller, Grant, implies, is_permission,
  is_administrator, has_permission, is_grant_to, is_grant_on, hold, is_empty, is_open, can,
  everything, open_if, effective,
}

-- The grant gives the caller the permission, itself or one above it.
abbrev pub confers : Caller → Permission → Grant → Bool
confers c p g = is_grant_to c g && has_permission p (implies g.permission)

pub is_permission→eq : (p q : Permission) → is_permission p q ≡ true → p ≡ q
is_permission→eq p q h = ground arith

has_permission-hold :
    (c : Caller) (p : Permission) (gs : List Grant) (held : List Permission)
    → has_permission p (hold c gs held) ≡ (has_permission p held || any (confers c p) gs)
has_permission-hold c p [] held = ground arith
has_permission-hold c p (g ∷ gs) held = elim (Bool-cases (is_grant_to c g)) [
  | inl e ↦ rw e (
      has_permission-hold c p gs _
      ∙ rw (has-add_all is_permission is_permission→eq p (implies g.permission) held)
          (ground arith))
  | inr e ↦ rw e (has_permission-hold c p gs held)
]

has_permission-everything : (p : Permission) → has_permission p everything ≡ true
has_permission-everything view = refl
has_permission-everything start = refl
has_permission-everything edit = refl
has_permission-everything publish = refl
has_permission-everything admin = refl

has_permission-keep-everything :
    (f : Permission → Bool) (p : Permission) → has_permission p (keep f everything) ≡ f p
has_permission-keep-everything f p =
    has-keep is_permission is_permission→eq f p everything ∙ rw (has_permission-everything p) refl

-- An administrator may do everything. Another caller may do what a grant on the process confers, as
-- the second read found it, and may view and start the process if the first read found no grant on it.
pub can_lem :
    (earlier later : List Grant) (c : Caller) (process : ℕ) (p : Permission)
    → can earlier later c process p ≡ (
        is_administrator c
        || any (confers c p) (keep (is_grant_on c.tenant_id process) later)
        || (is_empty (keep (is_grant_on c.tenant_id process) earlier) && is_open p))
unfolding can
can_lem earlier later c process p =
    rw (has_permission-hold c p (keep (is_grant_on c.tenant_id process) later) []) (ground arith)

has_permission-open_if :
    (b : Bool) (p : Permission) (held : List Permission)
    → has_permission p (open_if b held) ≡ (has_permission p held || (b && is_open p))
has_permission-open_if false p held = ground arith
has_permission-open_if true p held =
    has-add is_permission is_permission→eq p start (add is_permission view held)
    ∙ rw (has-add is_permission is_permission→eq p view held) (ground arith)

-- The set that `effective` returns holds a permission exactly if `can` answers that the caller has it,
-- whatever the table holds, as long as the table does not change between the reads of `can`.
pub effective_iff_can :
    (grants : List Grant) (c : Caller) (process : ℕ) (p : Permission)
    → has_permission p (effective grants c process) ≡ can grants grants c process p
unfolding effective can
effective_iff_can grants c process p = elim (Bool-cases (is_administrator c)) [
  | inl e ↦ rw e (has_permission-everything p)
  | inr e ↦ rw e (
      let rows = keep (is_grant_on c.tenant_id process) grants in
      has_permission-keep-everything
        (λ q. has_permission q (open_if (is_empty rows) (hold c rows []))) p
      ∙ has_permission-open_if (is_empty rows) p (hold c rows [])
      ∙ ground arith)
]

-- Between the two reads of `can` the last grant on a process may go. The caller is then denied to
-- view the process, although after it, as with every table without a grant on the process, the answer
-- is yes: the first read still found a grant, the second none.
pub can-torn :
    (earlier later : List Grant) (c : Caller) (process : ℕ)
    → is_administrator c ≡ false
    → is_empty (keep (is_grant_on c.tenant_id process) earlier) ≡ false
    → keep (is_grant_on c.tenant_id process) later ≡ []
    → (can earlier later c process view ≡ false) × (can later later c process view ≡ true)
unfolding can
can-torn earlier later c process other some_grant gone = rw (gone, other, some_grant) (refl, refl)
