-- ===== src/Access/Permissions/Visible.antt =====
-- Which processes a caller sees in the list.
use bpm_new.Common.{
  ℕ, Bool, true, false, ◌≡◌, refl, sym, ap, ◌∙◌, subst, List, [], ◌∷◌, ◌&&◌, ◌||◌, not, inl, inr,
  Bool-cases, arith, any, any-keep, any-cong, any-||, any-&&, keep, ◌==◌,
}
use bpm_new.Data.Sets.{add_all, has-add, has-add_all, has-keep}
use bpm_new.Access.Permissions.Defs.{
  Permission, view, start, edit, publish, admin, Caller, Grant, implies, is_administrator,
  has_permission, is_grant_to, is_grant_on, is_empty, is_open, can, everything, has_id, is_scanned,
  restricted_by, granted_to, pick_visible, filter_visible, filter_visible_with_restricted,
}
use bpm_new.Access.Permissions.Effective.{confers, can_lem}

id→eq : (i k : ℕ) → (i == k) ≡ true → i ≡ k
id→eq i k h = ground arith

has_id-restricted_by :
    (i : ℕ) (gs : List Grant) (acc : List ℕ)
    → has_id i (restricted_by gs acc) ≡ (has_id i acc || any (λ g. i == g.process_id) gs)
has_id-restricted_by i [] acc = ground arith
has_id-restricted_by i (g ∷ gs) acc =
    has_id-restricted_by i gs _ ∙ rw (has-add ◌==◌ id→eq i g.process_id acc) (ground arith)

has_id-granted_to :
    (c : Caller) (i : ℕ) (gs : List Grant) (acc : List ℕ)
    → has_id i (granted_to c gs acc)
      ≡ (has_id i acc || any (λ g. is_grant_to c g && i == g.process_id) gs)
has_id-granted_to c i [] acc = ground arith
has_id-granted_to c i (g ∷ gs) acc = elim (Bool-cases (is_grant_to c g)) [
  | inl e ↦
      rw e (has_id-granted_to c i gs _ ∙ rw (has-add ◌==◌ id→eq i g.process_id acc) (ground arith))
  | inr e ↦ rw e (has_id-granted_to c i gs acc)
]

pick_visible_lem :
    (restricted granted ids acc : List ℕ)
    → pick_visible restricted granted ids acc
      ≡ add_all ◌==◌ (keep (λ i. not (has_id i restricted) || has_id i granted) ids) acc
pick_visible_lem restricted granted [] acc = refl
pick_visible_lem restricted granted (k ∷ ids) acc =
    elim (Bool-cases (not (has_id k restricted) || has_id k granted)) [
      | inl e ↦ rw e (pick_visible_lem restricted granted ids _)
      | inr e ↦ rw e (pick_visible_lem restricted granted ids _)
    ]

-- Of the rows scanned, those on a process asked for are all its rows.
is_scanned_lem :
    (f : Grant → Bool) (c : Caller) (ids : List ℕ) (i : ℕ)
    → has_id i ids ≡ true
    → (g : Grant)
    → (is_scanned c ids g && (f g && i == g.process_id)) ≡ (is_grant_on c.tenant_id i g && f g)
is_scanned_lem f c ids i h g = elim (Bool-cases (i == g.process_id)) [
  | inl e ↦
      let m = subst (λ k. has_id k ids ≡ true) (id→eq i g.process_id e) h in
      let t : (g.process_id == i) ≡ true = ground arith in rw (e, t, m) (ground arith)
  | inr e ↦ let t : (g.process_id == i) ≡ false = ground arith in rw (e, t) (ground arith)
]

any-scanned :
    (f : Grant → Bool) (c : Caller) (ids : List ℕ) (i : ℕ) (gs : List Grant)
    → has_id i ids ≡ true
    → any (λ g. f g && i == g.process_id) (keep (is_scanned c ids) gs)
      ≡ any f (keep (is_grant_on c.tenant_id i) gs)
any-scanned f c ids i gs h =
    any-keep _ (is_scanned c ids) gs
    ∙ any-cong (is_scanned_lem f c ids i h) gs
    ∙ sym (any-keep f (is_grant_on c.tenant_id i) gs)

any-true : (gs : List Grant) → any (λ _. true) gs ≡ not (is_empty gs)
any-true [] = refl
any-true (g ∷ gs) = refl

implies-some : (p : Permission) → any (λ q. has_permission q (implies p)) everything ≡ true
implies-some view = refl
implies-some start = refl
implies-some edit = refl
implies-some publish = refl
implies-some admin = refl

any-confers :
    (c : Caller) (gs : List Grant)
    → any (λ p. any (confers c p) gs) everything ≡ any (is_grant_to c) gs
any-confers c [] = refl
any-confers c (g ∷ gs) =
    any-|| (λ p. confers c p g) (λ p. any (confers c p) gs) everything
    ∙ rw
        (
          any-&& (is_grant_to c g) (λ p. has_permission p (implies g.permission)) everything,
          implies-some g.permission,
          any-confers c gs,
        )
        (ground arith)

-- A caller has some permission if a grant names it, or if there is no grant.
any-can :
    (grants : List Grant) (c : Caller) (i : ℕ)
    → is_administrator c ≡ false
    → any (can grants grants c i) everything ≡ (
        any (is_grant_to c) (keep (is_grant_on c.tenant_id i) grants)
        || is_empty (keep (is_grant_on c.tenant_id i) grants))
any-can grants c i other =
    let rows = keep (is_grant_on c.tenant_id i) grants in
    any-cong (can_lem grants grants c i) everything
    ∙ rw other (
        any-|| (λ p. any (confers c p) rows) (λ p. is_empty rows && is_open p) everything
        ∙ rw (any-confers c rows, any-&& (is_empty rows) is_open everything) (ground arith))

has_id-visible :
    (grants : List Grant) (c : Caller) (ids : List ℕ) (i : ℕ)
    → has_id i (
        pick_visible
          (restricted_by (keep (is_scanned c ids) grants) [])
          (granted_to c (keep (is_scanned c ids) grants) [])
          ids
          [])
      ≡ (has_id i ids
          && (any (is_grant_to c) (keep (is_grant_on c.tenant_id i) grants)
              || is_empty (keep (is_grant_on c.tenant_id i) grants)))
has_id-visible grants c ids i =
    let rows = keep (is_scanned c ids) grants in
    let ok = λ (k : ℕ). not (has_id k (restricted_by rows [])) || has_id k (granted_to c rows []) in
    ap (has_id i) (pick_visible_lem (restricted_by rows []) (granted_to c rows []) ids [])
    ∙ has-add_all ◌==◌ id→eq i (keep ok ids) []
    ∙ has-keep ◌==◌ id→eq ok i ids
    ∙ rw (has_id-restricted_by i rows [], has_id-granted_to c i rows [])
        (elim (Bool-cases (has_id i ids)) [
          | inl h ↦
              let scan = any-scanned (λ _. true) c ids i grants h in
              rw
                (
                  h,
                  scan,
                  any-scanned (is_grant_to c) c ids i grants h,
                  any-true (keep (is_grant_on c.tenant_id i) grants),
                )
                (ground arith)
          | inr h ↦ rw h refl
        ])

filter_visible-administrator :
    (grants : List Grant) (c : Caller) (ids : List ℕ)
    → is_administrator c ≡ true
    → filter_visible grants c ids ≡ add_all ◌==◌ ids []
unfolding filter_visible filter_visible_with_restricted
filter_visible-administrator grants c ids e =
    rw (filter_visible, filter_visible_with_restricted, e) refl

filter_visible-other :
    (grants : List Grant) (c : Caller) (ids : List ℕ)
    → is_administrator c ≡ false
    → filter_visible grants c ids
      ≡ pick_visible
          (restricted_by (keep (is_scanned c ids) grants) [])
          (granted_to c (keep (is_scanned c ids) grants) [])
          ids
          []
unfolding filter_visible filter_visible_with_restricted
filter_visible-other grants c [] e = rw (filter_visible, filter_visible_with_restricted, e) refl
filter_visible-other grants c (k ∷ ids) e =
    rw (filter_visible, filter_visible_with_restricted, e) refl

any-can-administrator :
    (grants : List Grant) (c : Caller) (i : ℕ)
    → is_administrator c ≡ true
    → any (can grants grants c i) everything ≡ true
any-can-administrator grants c i e = any-cong (can_lem grants grants c i) everything ∙ rw e refl

-- The list of the processes shows one, of those asked for, exactly if the caller has some permission
-- on it, be it only to start it.
pub filter_visible_iff_can :
    (grants : List Grant) (c : Caller) (ids : List ℕ) (i : ℕ)
    → has_id i (filter_visible grants c ids)
      ≡ (has_id i ids && any (can grants grants c i) everything)
filter_visible_iff_can grants c ids i = elim (Bool-cases (is_administrator c)) [
  | inl e ↦
      ap (has_id i) (filter_visible-administrator grants c ids e)
      ∙ has-add_all ◌==◌ id→eq i ids []
      ∙ rw (any-can-administrator grants c i e) (ground arith)
  | inr e ↦
      ap (has_id i) (filter_visible-other grants c ids e)
      ∙ has_id-visible grants c ids i
      ∙ rw (any-can grants c i e) refl
]
