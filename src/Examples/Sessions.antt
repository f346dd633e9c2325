-- ===== src/Examples/Sessions.antt =====
-- Logins and refreshes of one user.
use bpm_new.Common.{
  ℕ, ◌+◌, ◌≤◌, leb, if◌then◌else◌, true, false, ◌≡◌, refl, Option, none, some, List, [], ◌∷◌, Str,
  codes, str_eq, any, find, map, length, ◌∷◌, arith, Bool,
}
use bpm_new.Data.Chars.{is_space}
use bpm_new.Access.Window.{fresh}
use bpm_new.Access.Throttle.{
  passed, login_limit_window_ms, login_limit_count, can_activate-IsWithin,
}
use bpm_new.Access.Sessions.Defs.{
  Session, active, revoked, User, issued, unauthorized, reuse_detected, has_hash, refresh,
  list_sessions, new_session, revoke_all_sessions_for, collides,
}
use bpm_new.Access.Sessions.Trace.{at_once}
use bpm_new.Access.Sessions.Rotation.{refresh_once}
use bpm_new.Access.Sessions.Overlap.{refresh_race}
use bpm_new.Access.Sessions.Login.{
  Account, Service, signed_in, lockout_window_ms, lockout_threshold, login, accepts, find_by_email,
}
use bpm_new.Access.Sessions.Lockout.{Attempt, tried, fits}
use bpm_new.Access.Sessions.Guesses.{login-IsWithin}
use bpm_new.Access.Sessions.Mfa.{Payload}
use bpm_new.Access.Sessions.MfaGuesses.{
  challenge_ms, password, code, replies, answer, mfa_guesses_unbounded,
}
use bpm_new.Access.Sessions.Passwords.{generate_temporary_password, admin_reset_password, temporary}
use bpm_new.Access.Sessions.Reset.{login-admin_reset_password}

-- A stand-in for the hash.
abbrev same : Str → Str
same s = s

abbrev everyone : ℕ → Option User
everyone n = some record { id = n; is_active = true }

abbrev first : Session
first = record { id = 1; user_id = 5; token_hash = codes "t1"; status = active; expires_at = 900 }

abbrev second : Session
second = new_session same 5 100 2 (codes "t2")

abbrev third : Session
third = new_session same 5 100 3 (codes "t3")

abbrev spent : Session
spent = record first { status = revoked }

refreshes :
    refresh same everyone 100 2 (codes "t2") (codes "t1") (first ∷ []) (first ∷ [])
    ≡ (issued (codes "t2"), second ∷ spent ∷ [])
unfolding refresh
refreshes = refl

refresh_once_example :
    (s : Session) × (find (has_hash (codes "t1")) (first ∷ []) ≡ some s)
    × (refresh same everyone 200 4
          (codes "t4")
          (codes "t1")
          (second ∷ spent ∷ [])
          (second ∷ spent ∷ [])
        ≡ (unauthorized reuse_detected, revoke_all_sessions_for s.user_id (second ∷ spent ∷ [])))
    × (list_sessions s.user_id (revoke_all_sessions_for s.user_id (second ∷ spent ∷ [])) ≡ [])
refresh_once_example =
    refresh_once same everyone 100 2 (codes "t2") (codes "t1") (first ∷ []) (first ∷ []) at_once
      refreshes everyone 200 4 (codes "t4") (second ∷ spent ∷ []) (second ∷ spent ∷ []) at_once

refresh_race_example :
    (rest : List Session) × (refresh same everyone 100 3
        (codes "t3")
        (codes "t1")
        (first ∷ [])
        (second ∷ spent ∷ [])
      ≡ (issued (codes "t3"), third ∷ second ∷ rest))
refresh_race_example =
    refresh_race same everyone 100 2 3 (codes "t2") (codes "t3") (codes "t1") (first ∷ []) refreshes
      refl refl

can_activate-IsWithin_example :
    length (
      fresh login_limit_window_ms 9 (
        passed
          (codes "unknown")
          []
          (record { time = 5; ip = none } ∷ record { time = 7; ip = none } ∷ [])
          (λ _. [])))
    ≤ login_limit_count
can_activate-IsWithin_example =
    can_activate-IsWithin (codes "unknown") 0 9
      (record { time = 5; ip = none } ∷ record { time = 7; ip = none } ∷ [])
      (omega arith, (omega arith, omega arith))

abbrev account : Account
account = record {
  id = 5;
  tenant_id = 1;
  email = codes "ann";
  password_hash = some (codes "secret");
  is_active = true;
  mfa_enabled = true;
  mfa_secret = some (codes "seed");
}

abbrev service : Service
service = record {
  accounts = account ∷ [];
  recovery_codes = [];
  sessions = [];
  failed_attempts = λ _. [];
}

-- Stand-ins for bcrypt and for the signature of a challenge.
abbrev equal : Str → Str → Bool
equal = str_eq

abbrev sign : ℕ → ℕ → Str
sign t n = t ∷ n ∷ []

abbrev verify : ℕ → Str → Option Payload
verify now [] = none
verify now (t ∷ []) = none
verify now (t ∷ n ∷ _) =
    if leb now (t + challenge_ms) then some record { sub = some n; mfa_pending = true } else none

verify-sign :
    (t now : ℕ)
    → t ≤ now
    → now ≤ t + challenge_ms
    → verify now (sign t 5) ≡ some record { sub = some 5; mfa_pending = true }
verify-sign t now h k = ground arith

abbrev no_otp : ℕ → Str → Str → Bool
no_otp _ _ _ = false

abbrev guess : ℕ → Attempt
guess t = record {
  time = t;
  email = codes "ann";
  password = codes "x";
  id = 1;
  fresh_token = codes "t";
}

wrong : fits equal (codes "x") (find_by_email (codes "ann") (account ∷ [])) ≡ false
wrong = refl

login-IsWithin_example :
    length (
      fresh lockout_window_ms 30
        (tried equal sign same (codes "ann") [] (guess 10 ∷ guess 20 ∷ []) service))
    ≤ lockout_threshold
login-IsWithin_example =
    login-IsWithin equal sign same (codes "ann") 0 30 (guess 10 ∷ guess 20 ∷ []) service refl
      (omega arith, (λ _. wrong), (omega arith, (λ _. wrong), omega arith))

mfa_guesses_unbounded_example :
    replies equal sign verify no_otp same same account
      (password 1 1 [] (codes "secret") ∷ code 1 2 1 [] (codes "123456") ∷ [])
      service
    ≡ map
        (answer equal sign verify no_otp same same account)
        (password 1 1 [] (codes "secret") ∷ code 1 2 1 [] (codes "123456") ∷ [])
unfolding is_space
mfa_guesses_unbounded_example =
    mfa_guesses_unbounded equal sign verify no_otp same same account
      (password 1 1 [] (codes "secret") ∷ code 1 2 1 [] (codes "123456") ∷ []) service refl
      (refl, refl, refl, refl, refl, verify-sign)
      (omega arith, refl, (omega arith, refl, omega arith, omega arith, (refl, refl), tt))

abbrev bytes : List ℕ
bytes = 200 ∷ 7 ∷ 31 ∷ []

reset_works : admin_reset_password same (codes "admin") 1 5 bytes service ≡ (
  temporary (generate_temporary_password bytes),
  (admin_reset_password same (codes "admin") 1 5 bytes service).1,
)
unfolding admin_reset_password
reset_works = refl

still_free :
    any
      (collides (new_session same 5 10 1 (codes "t1")))
      (admin_reset_password same (codes "admin") 1 5 bytes service).1.sessions
    ≡ false
unfolding admin_reset_password revoke_all_sessions_for
still_free = refl

fitting :
    accepts equal (generate_temporary_password bytes) (some (generate_temporary_password bytes))
    ≡ true
unfolding generate_temporary_password
fitting = refl

login-admin_reset_password_example :
    (list_sessions 5 (admin_reset_password same (codes "admin") 1 5 bytes service).1.sessions ≡ [])
    × ((login equal sign same 10 1
          (codes "t1")
          (codes "ann")
          (generate_temporary_password bytes)
          (admin_reset_password same (codes "admin") 1 5 bytes service).1).0
        ≡ signed_in (issued (codes "t1")))
login-admin_reset_password_example =
    login-admin_reset_password equal same sign same (codes "admin") 1 5 bytes service 10 1
      (codes "t1") (generate_temporary_password bytes) reset_works refl refl refl fitting still_free
