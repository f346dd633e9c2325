-- ===== src/Access/Sessions/Reset.antt =====
-- An administrator's reset of a password and the login after it.
use bpm_new.Common.{
  ℕ, Bool, true, false, ◌≡◌, refl, sym, ap, ◌∙◌, subst, ◌&&◌, not, none, some, List, [], Str, codes,
  str_eq, str_eq_refl, ◌==◌, if◌then◌else◌, any, find-passes, find-map, map, inl, inr, Bool-cases,
}
use bpm_new.Access.Sessions.Defs.{issued, new_session, collides, issue_tokens, list_sessions}
use bpm_new.Access.Sessions.Rotation.{list_sessions-revoke_all}
use bpm_new.Access.Sessions.Login.{
  Account, Service, login_key, signed_in, accepts, find_by_email, find_by_id, set_attempts,
  check_password, login,
}
use bpm_new.Access.Sessions.Lockout.{Attempt, login_lem}
use bpm_new.Access.Sessions.Passwords.{
  generate_temporary_password, set_password_hash, revoke_sessions, clear_mfa, temporary, reset_for,
  admin_reset_password,
}

-- What a reset leaves of the account.
abbrev reset_account : Str → Account → Account
reset_account new_hash a = record a {
  password_hash = some new_hash;
  mfa_enabled = false;
  mfa_secret = none;
}

abbrev after_reset : ℕ → Str → Str → Service → Service
after_reset target key new_hash s =
    set_attempts key []
      (clear_mfa target (revoke_sessions target (set_password_hash target new_hash s)))

reset_for-done :
    (digest : Str → Str) (tenant target : ℕ) (bytes : List ℕ) (a : Account) (s : Service)
    {word : Str} {s' : Service}
    → reset_for digest tenant target bytes (some a) s ≡ (temporary word, s')
    → s' ≡ after_reset target (login_key a.email) (digest word) s
reset_for-done digest tenant target bytes a s {word} h = elim (Bool-cases (a.tenant_id == tenant)) [
  | inl e ↦
      let h' = rw e at h in
      let given : generate_temporary_password bytes ≡ word = cc (ap (λ r. r.0) h') in
      sym (ap (λ r. r.1) h') ∙ ap (λ w. after_reset target (login_key a.email) (digest w) s) given
  | inr e ↦ absurd (cc (ap (λ r. r.0) (rw e at h)))
]

admin_reset_password-done :
    (digest : Str → Str) (role : Str) (tenant target : ℕ) (bytes : List ℕ) (s : Service)
    {word : Str} {s' : Service} {a : Account}
    → admin_reset_password digest role tenant target bytes s ≡ (temporary word, s')
    → find_by_id target s.accounts ≡ some a
    → s' ≡ after_reset target (login_key a.email) (digest word) s
unfolding admin_reset_password
admin_reset_password-done digest role tenant target bytes s {word} {s'} {a} h found =
    elim (Bool-cases (not (str_eq role (codes "owner")) && not (str_eq role (codes "admin")))) [
      | inl e ↦ absurd (cc (ap (λ r. r.0) (rw e at h)))
      | inr e ↦ let h' = rw e at h in reset_for-done digest tenant target bytes a s (rw found at h')
    ]

abbrev changed : ℕ → (Account → Account) → Account → Account
changed target f a = if a.id == target then f a else a

changed-email :
    (target : ℕ) (f : Account → Account) (email : Str)
    → ((a : Account) → (f a).email ≡ a.email)
    → (a : Account) → str_eq (changed target f a).email email ≡ str_eq a.email email
changed-email target f email same a = elim (Bool-cases (a.id == target)) [
  | inl e ↦ rw e (rw (same a) refl)
  | inr e ↦ rw e refl
]

-- The account as it is found by its address after the reset.
find_by_email-reset :
    (target : ℕ) (key new_hash : Str) (s : Service) (a : Account)
    → find_by_id target s.accounts ≡ some a
    → find_by_email a.email s.accounts ≡ some a
    → find_by_email a.email (after_reset target key new_hash s).accounts
      ≡ some (reset_account new_hash a)
find_by_email-reset target key new_hash s a by_id by_email =
    let this : (a.id == target) ≡ true = find-passes (λ x. x.id == target) s.accounts by_id in
    let set : Account → Account = λ x. record x { password_hash = some new_hash } in
    let clear : Account → Account = λ x. record x { mfa_enabled = false; mfa_secret = none } in
    find-map (λ x. str_eq x.email a.email) (changed target clear)
      (changed-email target clear a.email (λ x. refl)) (map (changed target set) s.accounts)
      (find-map (λ x. str_eq x.email a.email) (changed target set)
        (changed-email target set a.email (λ x. refl)) s.accounts by_email)
    ∙ rw this (rw this refl)

check_password-signed_in :
    (matches : Str → Str → Bool) (sign : ℕ → ℕ → Str) (hash : Str → Str) (now id : ℕ)
    (token key password : Str) (a : Account) (s : Service)
    → accepts matches password a.password_hash ≡ true
    → a.is_active ≡ true
    → a.mfa_enabled ≡ false
    → any (collides (new_session hash a.id now id token)) s.sessions ≡ false
    → (check_password matches sign hash now id token key password (some a) s).0
      ≡ signed_in (issued token)
unfolding check_password issue_tokens
check_password-signed_in matches sign hash now id token key password a s right live no_mfa free =
    rw (right, live, no_mfa) (rw free refl)

-- After an administrator's reset, the active user who was reset has no active session, and signs in with
-- the temporary password that the administrator got, or with another that fits its hash, at any time,
-- whatever failures and whatever second step there were, if the new session breaks no unique index. It
-- takes that the user is the one who is found by the address, and that the comparison of bcrypt accepts
-- the password for the hash of the temporary one, which is not empty.
pub login-admin_reset_password :
    (matches : Str → Str → Bool) (digest : Str → Str) (sign : ℕ → ℕ → Str) (hash : Str → Str)
    (role : Str) (tenant target : ℕ) (bytes : List ℕ) (s : Service) {word : Str} {s' : Service}
    {a : Account} (now id : ℕ) (token password : Str)
    → admin_reset_password digest role tenant target bytes s ≡ (temporary word, s')
    → find_by_id target s.accounts ≡ some a
    → find_by_email a.email s.accounts ≡ some a
    → a.is_active ≡ true
    → accepts matches password (some (digest word)) ≡ true
    → any (collides (new_session hash a.id now id token)) s'.sessions ≡ false
    → (list_sessions target s'.sessions ≡ [])
      × ((login matches sign hash now id token a.email password s').0 ≡ signed_in (issued token))
login-admin_reset_password matches digest sign hash role tenant target bytes s {word} {s'} {a} now
      id token password done by_id by_email live right free =
    let after = admin_reset_password-done digest role tenant target bytes s done by_id in
    let key = login_key a.email in
    let found = find_by_email-reset target key (digest word) s a by_id by_email in
    let attempt : Attempt = record {
      time = now;
      email = a.email;
      password = password;
      id = id;
      fresh_token = token;
    } in
    let free' =
      subst (λ x. any (collides (new_session hash a.id now id token)) x.sessions ≡ false) after
        free in
    rw after (
      list_sessions-revoke_all target s.sessions,
      ap (λ r. r.0) (login_lem matches sign hash attempt (after_reset target key (digest word) s))
          ∙ rw (str_eq_refl key) (
              rw found (
                check_password-signed_in matches sign hash now id token key password
                  (reset_account (digest word) a) _ right live refl free')),
    )
