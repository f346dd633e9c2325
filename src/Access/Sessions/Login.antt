-- ===== src/Access/Sessions/Login.antt =====
-- The logins of AuthService in api/src/auth/auth.service.ts, with its lockout, and changes of a
-- password. E-mail addresses are ASCII, whose `toLowerCase` is `lower`. `matches` is the comparison of
-- bcrypt, `sign` and `verify` are the challenges of the JWT service, each at a time: a challenge is
-- signed to hold for five minutes.
use bpm_new.Common.{
  ℕ, ◌+◌, ◌*◌, Bool, false, ◌&&◌, not, Option, none, some, List, [], ◌∷◌, ◌++◌, Str, str_eq, ◌==◌,
  leb, if◌then◌else◌, length, map, find,
}
use bpm_new.Data.Chars.{trim}
use bpm_new.Access.Window.{fresh}
use bpm_new.Access.Sessions.Defs.{Session, Reply, issue_tokens}

abbrev pub lockout_threshold : ℕ
lockout_threshold = 5

abbrev pub lockout_window_ms : ℕ
lockout_window_ms = 15 * 60 * 1000

-- A row of USERS, as far as a login looks at it.
pub record Account : Type 0 where
  pub id : ℕ
  pub tenant_id : ℕ
  pub email : Str
  pub password_hash : Option Str
  pub is_active : Bool
  pub mfa_enabled : Bool
  pub mfa_secret : Option Str

-- A row of MFA_RECOVERY_CODES.
pub record RecoveryCode : Type 0 where
  pub id : ℕ
  pub user_id : ℕ
  pub code_hash : Str
  pub used_at : Option ℕ

-- The service: its tables, and the map from a key to the times of failures, where a key that
-- is missing has none.
pub record Service : Type 0 where
  pub accounts : List Account
  pub recovery_codes : List RecoveryCode
  pub sessions : List Session
  pub failed_attempts : Str → List ℕ

abbrev pub lower : ℕ → ℕ
lower c = if leb b'A' c && leb c b'Z' then c + 32 else c

-- email.trim().toLowerCase()
unfoldable pub login_key : Str → Str
login_key email = map lower (trim email)

abbrev pub set_attempts : Str → List ℕ → Service → Service
set_attempts key ts s = record s {
  failed_attempts = λ k. if str_eq k key then ts else s.failed_attempts k;
}

-- `isLocked`: the answer, and the service with the old failures of the key dropped.
unfoldable pub is_locked : ℕ → Str → Service → Bool × Service
is_locked now key s =
    let ts = fresh lockout_window_ms now (s.failed_attempts key) in
    (leb lockout_threshold (length ts), set_attempts key ts s)

unfoldable pub record_failure : ℕ → Str → Service → Service
record_failure now key s =
    set_attempts key (fresh lockout_window_ms now (s.failed_attempts key) ++ now ∷ []) s

pub data Denial : Type 0 where
  locked invalid_credentials deactivated : Denial
  bad_challenge not_a_challenge not_eligible invalid_code : Denial

pub data Login : Type 0 where
  signed_in : Reply → Login
  challenged : Str → Login
  denied : Denial → Login

-- An empty hash counts as none.
abbrev pub accepts : (Str → Str → Bool) → Str → Option Str → Bool
accepts matches password none = false
accepts matches password (some []) = false
accepts matches password (some (c ∷ h)) = matches password (c ∷ h)

-- `findByEmail` and `findById` of UsersService.
abbrev pub find_by_email : Str → List Account → Option Account
find_by_email email = find (λ a. str_eq a.email email)

abbrev pub find_by_id : ℕ → List Account → Option Account
find_by_id id = find (λ a. a.id == id)

abbrev pub sign_in : (Str → Str) → ℕ → ℕ → Str → ℕ → Service → Login × Service
sign_in hash now id fresh user s =
    let r = issue_tokens hash user now id fresh s.sessions in
    (signed_in r.0, record s { sessions = r.1 })

-- The checks of a user that was found, or not, by the address.
unfoldable pub check_password :
    (Str → Str → Bool)
    → (ℕ → ℕ → Str)
    → (Str → Str)
    → ℕ
    → ℕ
    → Str
    → Str
    → Str
    → Option Account
    → Service
    → Login × Service
unfolding record_failure
check_password matches sign hash now id fresh key password none s =
    (denied invalid_credentials, record_failure now key s)
check_password matches sign hash now id fresh key password (some a) s =
    if not (accepts matches password a.password_hash)
    then (denied invalid_credentials, record_failure now key s)
    else if not a.is_active
    then (denied deactivated, record_failure now key s)
    else if a.mfa_enabled
    then (challenged (sign now a.id), set_attempts key [] s)
    else sign_in hash now id fresh a.id (set_attempts key [] s)

-- `login` at a time; `id` and `fresh` are for a new session.
unfoldable pub login :
    (Str → Str → Bool)
    → (ℕ → ℕ → Str)
    → (Str → Str)
    → ℕ
    → ℕ
    → Str
    → Str
    → Str
    → Service
    → Login × Service
unfolding login_key is_locked check_password
login matches sign hash now id fresh email password s =
    let key = login_key email in
    let r = is_locked now key s in
    if r.0
    then (denied locked, r.1)
    else check_password matches sign hash now id fresh key password (find_by_email email s.accounts)
        r.1
