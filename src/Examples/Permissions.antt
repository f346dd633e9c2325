-- ===== src/Examples/Permissions.antt =====
-- A process with a grant or two.
use bpm_new.Common.{true, false, ◌≡◌, refl, [], ◌∷◌, ◌&&◌, ◌||◌, codes, any, keep}
use bpm_new.Access.Permissions.Defs.{
  view, start, role, Caller, Grant, can, effective, filter_visible, has_permission, has_id,
  everything, implies, is_grant_on,
}
use bpm_new.Access.Permissions.Effective.{confers, effective_iff_can, can-torn}
use bpm_new.Access.Permissions.Visible.{filter_visible_iff_can}
use bpm_new.Access.Permissions.Grants.{Key, key_of, revoked, Store, done, grant, revoke, new_grant}
use bpm_new.Access.Permissions.Trail.{is_granted, replay, IsDistinct}
use bpm_new.Access.Permissions.History.{begins, after, grant_made, grant_revoked, History-IsSound}
use bpm_new.Access.Permissions.Change.{names, with_grant, can-grant}

abbrev ann : Caller
ann = record {
  user_id = codes "ann";
  tenant_id = 1;
  system_role = codes "member";
  roles = codes "clerk" ∷ [];
}

-- A grant to the role "clerk" on process 7.
abbrev clerks_start : Grant
clerks_start = new_grant 3 1 7 (codes "clerk") start (codes "boss") role

effective_iff_can_example :
    has_permission start (effective (clerks_start ∷ []) ann 7)
    ≡ can (clerks_start ∷ []) (clerks_start ∷ []) ann 7 start
effective_iff_can_example = effective_iff_can (clerks_start ∷ []) ann 7 start

-- Whoever may only start the process sees it in the list, and may not view it.
starts_only : can (clerks_start ∷ []) (clerks_start ∷ []) ann 7 view ≡ false
unfolding can
starts_only = refl

sees_it : has_id 7 (filter_visible (clerks_start ∷ []) ann (7 ∷ 8 ∷ [])) ≡ true
unfolding filter_visible
sees_it = refl

filter_visible_iff_can_example :
    has_id 7 (filter_visible (clerks_start ∷ []) ann (7 ∷ 8 ∷ []))
    ≡ (has_id 7 (7 ∷ 8 ∷ []) && any (can (clerks_start ∷ []) (clerks_start ∷ []) ann 7) everything)
filter_visible_iff_can_example = filter_visible_iff_can (clerks_start ∷ []) ann (7 ∷ 8 ∷ []) 7

torn : can (clerks_start ∷ []) [] ann 7 view ≡ false
torn = (can-torn (clerks_start ∷ []) [] ann 7 refl refl refl).0

abbrev at_first : Store
at_first = record {
  processes = record { id = 7; tenant_id = 1 } ∷ [];
  users = [];
  roles = record { name = codes "clerk"; tenant_id = 1 } ∷ [];
  grants = [];
  audits = [];
}

abbrev later : Store
later = with_grant clerks_start at_first

grant_works : grant 3 1 7 (codes "role") (codes "clerk") start (codes "boss") at_first ≡ done later
unfolding grant
grant_works = refl

revoke_works :
    revoke 1 7 3 (codes "boss") later
    ≡ done record at_first {
      audits =
          record { action = revoked; subject = key_of clerks_start; actor_user_id = codes "boss" }
          ∷ later.audits;
    }
unfolding revoke
revoke_works = refl

abbrev at_last : Store
at_last = record at_first {
  audits =
      record { action = revoked; subject = key_of clerks_start; actor_user_id = codes "boss" }
      ∷ later.audits;
}

History-IsSound_example :
    IsDistinct at_last.grants × ((k : Key) → is_granted k at_last.grants ≡ replay k at_last.audits)
History-IsSound_example = History-IsSound (
    after
      (after (begins at_first.processes [] at_first.roles)
        (grant_made 3 1 7 (codes "role") (codes "clerk") start (codes "boss") grant_works))
      (grant_revoked 1 7 3 (codes "boss") revoke_works))

can-grant_example : can later.grants later.grants ann 7 start ≡ (
    (names ann (codes "role") (codes "clerk") && has_permission start (implies start))
    || any (confers ann start) (keep (is_grant_on 1 7) at_first.grants))
can-grant_example =
    can-grant 3 1 7 (codes "role") (codes "clerk") start (codes "boss") at_first ann start
      grant_works refl refl
