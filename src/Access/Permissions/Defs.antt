-- ===== src/Access/Permissions/Defs.antt =====
-- ProcessPermissionsService, its questions: can, effective, assert and filterVisible.
use bpm_new.Common.{
  ℕ, Bool, true, false, ◌&&◌, ◌||◌, not, List, [], ◌∷◌, Str, codes, str_eq, ◌==◌, if◌then◌else◌,
  any, keep,
}
use bpm_new.Data.Sets.{has, add, add_all}

pub data Permission : Type 0 where
  view start edit publish admin : Permission

pub data GranteeType : Type 0 where
  user role : GranteeType

-- The hierarchy of permissions.
abbrev pub implies : Permission → List Permission
implies admin = admin ∷ publish ∷ edit ∷ view ∷ start ∷ []
implies publish = publish ∷ edit ∷ view ∷ []
implies edit = edit ∷ view ∷ []
implies view = view ∷ []
implies start = start ∷ []

abbrev pub rank : Permission → ℕ
rank view = 0
rank start = 1
rank edit = 2
rank publish = 3
rank admin = 4

-- `===` on permissions.
abbrev pub is_permission : Permission → Permission → Bool
is_permission p q = rank p == rank q

abbrev pub is_user_type : GranteeType → Bool
is_user_type user = true
is_user_type role = false

-- A caller as the access token describes it. Ids of users are strings, since a grant names a user or
-- a role in the same column.
pub record Caller : Type 0 where
  pub user_id : Str
  pub tenant_id : ℕ
  pub system_role : Str
  pub roles : List Str

-- A row of PROCESS_PERMISSIONS, less the time of the grant.
pub record Grant : Type 0 where
  pub id : ℕ
  pub tenant_id : ℕ
  pub process_id : ℕ
  pub grantee_type : GranteeType
  pub grantee_id : Str
  pub permission : Permission
  pub granted_by : Str

abbrev pub is_administrator : Caller → Bool
is_administrator c = str_eq c.system_role (codes "owner") || str_eq c.system_role (codes "admin")

abbrev pub has_permission : Permission → List Permission → Bool
has_permission = has is_permission

abbrev pub includes : List Str → Str → Bool
includes roles r = any (λ s. str_eq s r) roles

-- isUserGrant || isRoleGrant
abbrev pub is_grant_to : Caller → Grant → Bool
is_grant_to c g =
    (is_user_type g.grantee_type && str_eq g.grantee_id c.user_id)
    || (not (is_user_type g.grantee_type) && includes c.roles g.grantee_id)

abbrev pub is_grant_on : ℕ → ℕ → Grant → Bool
is_grant_on tenant process g = g.tenant_id == tenant && g.process_id == process

-- The loop over the rows that collects what the caller holds.
abbrev pub hold : Caller → List Grant → List Permission → List Permission
hold c [] held = held
hold c (g ∷ gs) held =
    hold c gs (if is_grant_to c g then add_all is_permission (implies g.permission) held else held)

abbrev pub is_empty {ℓ} : {A : Type ℓ} → List A → Bool
is_empty [] = true
is_empty (_ ∷ _) = false

-- view and start are open to the tenant while a process has no grants.
abbrev pub is_open : Permission → Bool
is_open p = is_permission p view || is_permission p start

-- `can` reads the table twice, first to see whether there are grants at all.
unfoldable pub can : List Grant → List Grant → Caller → ℕ → Permission → Bool
can earlier later c process p =
    if is_administrator c
    then true
    else if has_permission p (hold c (keep (is_grant_on c.tenant_id process) later) [])
    then true
    else (is_empty (keep (is_grant_on c.tenant_id process) earlier) && is_open p)

abbrev pub everything : List Permission
everything = view ∷ start ∷ edit ∷ publish ∷ admin ∷ []

abbrev pub open_if : Bool → List Permission → List Permission
open_if true held = add is_permission start (add is_permission view held)
open_if false held = held

unfoldable pub effective : List Grant → Caller → ℕ → List Permission
effective grants c process =
    if is_administrator c
    then everything
    else let rows = keep (is_grant_on c.tenant_id process) grants in
      keep (λ p. has_permission p (open_if (is_empty rows) (hold c rows []))) everything

-- Sets of process ids.
abbrev pub has_id : ℕ → List ℕ → Bool
has_id = has ◌==◌

pub record Visibility : Type 0 where
  pub visible : List ℕ
  pub restricted : List ℕ

-- The rows that the scan reads.
abbrev pub is_scanned : Caller → List ℕ → Grant → Bool
is_scanned c ids g = g.tenant_id == c.tenant_id && has_id g.process_id ids

abbrev pub restricted_by : List Grant → List ℕ → List ℕ
restricted_by [] acc = acc
restricted_by (g ∷ gs) acc = restricted_by gs (add ◌==◌ g.process_id acc)

abbrev pub granted_to : Caller → List Grant → List ℕ → List ℕ
granted_to c [] acc = acc
granted_to c (g ∷ gs) acc =
    granted_to c gs (if is_grant_to c g then add ◌==◌ g.process_id acc else acc)

abbrev pub pick_visible : List ℕ → List ℕ → List ℕ → List ℕ → List ℕ
pick_visible restricted granted [] acc = acc
pick_visible restricted granted (i ∷ is') acc =
    pick_visible restricted granted is'
      (if not (has_id i restricted) || has_id i granted then add ◌==◌ i acc else acc)

unfoldable pub filter_visible_with_restricted : List Grant → Caller → List ℕ → Visibility
filter_visible_with_restricted grants c ids =
    if is_administrator c
    then record { visible = add_all ◌==◌ ids []; restricted = [] }
    else if is_empty ids
    then record { visible = []; restricted = [] }
    else let rows = keep (is_scanned c ids) grants in
      record {
        visible = pick_visible (restricted_by rows []) (granted_to c rows []) ids [];
        restricted = restricted_by rows [];
      }

unfoldable pub filter_visible : List Grant → Caller → List ℕ → List ℕ
unfolding filter_visible_with_restricted
filter_visible grants c ids = (filter_visible_with_restricted grants c ids).visible
