-- ===== src/Access/Sessions/Defs.antt =====
-- The sessions of AuthService in api/src/auth/auth.service.ts: refresh, issueTokens, listSessions,
-- revokeSession, logout and revokeAllSessionsFor. Of a row of SESSIONS the tenant, the address, the
-- browser and the time of creation are left out. `hash` is SHA-256 in hexadecimal; ids and refresh
-- tokens that the database and `randomBytes` make up are arguments.
use bpm_new.Common.{
  ℕ, ◌+◌, ◌*◌, Bool, true, false, ◌&&◌, ◌||◌, not, Option, none, some, List, [], ◌∷◌, Str, str_eq,
  ◌==◌, ltb, if◌then◌else◌, any, find, keep, map,
}

pub data Status : Type 0 where
  active expired revoked : Status

pub record Session : Type 0 where
  pub id : ℕ
  pub user_id : ℕ
  pub token_hash : Str
  pub status : Status
  pub expires_at : ℕ

pub record User : Type 0 where
  pub id : ℕ
  pub is_active : Bool

abbrev pub refresh_token_ttl_ms : ℕ
refresh_token_ttl_ms = 30 * 24 * 60 * 60 * 1000

pub data Reason : Type 0 where
  token_required not_recognized reuse_detected token_expired account_unavailable : Reason

-- What a caller gets: a new refresh token, with an access token that is left out, an exception that the
-- code throws, or the one that the database throws for a row that breaks a unique index.
pub data Reply : Type 0 where
  issued : Str → Reply
  unauthorized : Reason → Reply
  not_unique : Reply

abbrev pub is_active : Status → Bool
is_active active = true
is_active _ = false

abbrev pub has_hash : Str → Session → Bool
has_hash h s = str_eq s.token_hash h

abbrev pub has_id : ℕ → Session → Bool
has_id i s = s.id == i

abbrev pub is_active_of : ℕ → Session → Bool
is_active_of u s = s.user_id == u && is_active s.status

-- UPDATE "SESSIONS" SET "STATUS" = …, for one row and for all.
abbrev pub restatus : (Session → Bool) → Status → Session → Session
restatus p status s = if p s then record s { status = status } else s

abbrev pub set_status : (Session → Bool) → Status → List Session → List Session
set_status p status = map (restatus p status)

abbrev pub new_session : (Str → Str) → ℕ → ℕ → ℕ → Str → Session
new_session hash user now id token = record {
  id = id;
  user_id = user;
  token_hash = hash token;
  status = active;
  expires_at = now + refresh_token_ttl_ms;
}

-- The primary key or the unique index on the hash refuses to have both rows.
abbrev pub collides : Session → Session → Bool
collides s t = has_id s.id t || has_hash s.token_hash t

unfoldable pub issue_tokens : (Str → Str) → ℕ → ℕ → ℕ → Str → List Session → Reply × List Session
issue_tokens hash user now id token sessions =
    let s = new_session hash user now id token in
    if any (collides s) sessions then (not_unique, sessions) else (issued token, s ∷ sessions)

abbrev pub is_available : Option User → Bool
is_available none = false
is_available (some u) = u.is_active

-- `refresh` after the SELECT: its writes go to the table as it is by then.
unfoldable pub rotate :
    (Str → Str)
    → (ℕ → Option User)
    → ℕ
    → ℕ
    → Str
    → Option Session
    → List Session
    → Reply × List Session
unfolding issue_tokens
rotate hash users now id fresh none sessions = (unauthorized not_recognized, sessions)
rotate hash users now id fresh (some s) sessions =
    if not (is_active s.status)
    then (unauthorized reuse_detected, set_status (is_active_of s.user_id) revoked sessions)
    else if ltb s.expires_at now
    then (unauthorized token_expired, set_status (has_id s.id) expired sessions)
    else if not (is_available (users s.user_id))
    then (unauthorized account_unavailable, sessions)
    else issue_tokens hash s.user_id now id fresh (set_status (has_id s.id) revoked sessions)

-- `refresh` of a token at a time. `read` is the table at the SELECT, `sessions` the table at the writes;
-- `id` and `fresh` are for the new session.
unfoldable pub refresh :
    (Str → Str)
    → (ℕ → Option User)
    → ℕ
    → ℕ
    → Str
    → Str
    → List Session
    → List Session
    → Reply × List Session
unfolding rotate
refresh hash users now id fresh [] read sessions = (unauthorized token_required, sessions)
refresh hash users now id fresh (c ∷ token) read sessions =
    rotate hash users now id fresh (find (has_hash (hash (c ∷ token))) read) sessions

unfoldable pub list_sessions : ℕ → List Session → List Session
list_sessions user = keep (is_active_of user)

unfoldable pub revoke_session : ℕ → ℕ → List Session → List Session
revoke_session user id = set_status (λ s. has_id id s && s.user_id == user) revoked

unfoldable pub logout : (Str → Str) → Str → List Session → List Session
logout hash [] sessions = sessions
logout hash (c ∷ token) sessions = set_status (has_hash (hash (c ∷ token))) revoked sessions

unfoldable pub revoke_all_sessions_for : ℕ → List Session → List Session
revoke_all_sessions_for user = set_status (is_active_of user) revoked
