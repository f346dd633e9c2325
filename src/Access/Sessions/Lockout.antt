-- ===== src/Access/Sessions/Lockout.antt =====
-- What a login does to the failures of its key and of other keys.
use bpm_new.Common.{
  ℕ, ◌≤◌, Bool, true, false, ◌≡◌, refl, ◌∙◌, Option, none, some, List, [], ◌∷◌, ◌++◌, Str, str_eq,
  str_eq_refl, leb, if◌then◌else◌, length, inl, inr, Bool-cases,
}
use bpm_new.Access.Window.{fresh}
use bpm_new.Access.Sessions.Login.{
  Account, Service, lockout_threshold, lockout_window_ms, login_key, set_attempts, is_locked,
  record_failure, Login, denied, locked, invalid_credentials, accepts, find_by_email,
  check_password, login,
}

-- A login: its time and what it is given.
pub record Attempt : Type 0 where
  pub time : ℕ
  pub email : Str
  pub password : Str
  pub id : ℕ
  pub fresh_token : Str

abbrev pub is_locked_out : Login → Bool
is_locked_out (denied locked) = true
is_locked_out _ = false

-- The password is that of the account with the address.
abbrev pub fits : (Str → Str → Bool) → Str → Option Account → Bool
fits matches password none = false
fits matches password (some a) = accepts matches password a.password_hash

module _ (matches : Str → Str → Bool) (sign : ℕ → ℕ → Str) (hash : Str → Str) where
  abbrev pub try_login : Attempt → Service → Login × Service
  try_login a = login matches sign hash a.time a.id a.fresh_token a.email a.password

  check_password-accounts :
      (now id : ℕ) (new key password : Str) (found : Option Account) (s : Service)
      → (check_password matches sign hash now id new key password found s).1.accounts ≡ s.accounts
  unfolding check_password record_failure
  check_password-accounts now id new key password none s = refl
  check_password-accounts now id new key password (some a) s =
      elim (Bool-cases (accepts matches password a.password_hash)) [
        | inr e ↦ rw e refl
        | inl e ↦ elim (Bool-cases a.is_active) [
          | inr f ↦ rw (e, f) refl
          | inl f ↦ elim (Bool-cases a.mfa_enabled) [
            | inl m ↦ rw (e, f, m) refl
            | inr m ↦ rw (e, f, m) refl
          ]
        ]
      ]

  check_password-other :
      (now id : ℕ) (new key password : Str) (found : Option Account) (s : Service) (k : Str)
      → str_eq k key ≡ false
      → (check_password matches sign hash now id new key password found s).1.failed_attempts k
        ≡ s.failed_attempts k
  unfolding check_password record_failure
  check_password-other now id new key password none s k o = rw o refl
  check_password-other now id new key password (some a) s k o =
      elim (Bool-cases (accepts matches password a.password_hash)) [
        | inr e ↦ rw e (rw o refl)
        | inl e ↦ elim (Bool-cases a.is_active) [
          | inr f ↦ rw (e, f) (rw o refl)
          | inl f ↦ elim (Bool-cases a.mfa_enabled) [
            | inl m ↦ rw (e, f, m) (rw o refl)
            | inr m ↦ rw (e, f, m) (rw o refl)
          ]
        ]
      ]

  check_password-wrong :
      (now id : ℕ) (new key password : Str) (found : Option Account) (s : Service)
      → fits matches password found ≡ false
      → check_password matches sign hash now id new key password found s
        ≡ (denied invalid_credentials, record_failure now key s)
  unfolding check_password
  check_password-wrong now id new key password none s wrong = refl
  check_password-wrong now id new key password (some a) s wrong = rw wrong refl

  -- The times at which the logins to a key are not locked out, so that a password is looked at, added to
  -- a log.
  abbrev pub tried : Str → List ℕ → List Attempt → Service → List ℕ
  tried key log [] s = log
  tried key log (a ∷ attempts) s =
      let r = try_login a s in
      tried key
        (if str_eq key (login_key a.email)
          then if is_locked_out r.0 then log else log ++ a.time ∷ []
          else log)
        attempts r.1

  -- The logins come one after the other, and those to the key have a wrong password.
  abbrev pub IsGuessing : Str → List Account → ℕ → ℕ → List Attempt → Type 0
  IsGuessing key accounts last end [] = last ≤ end
  IsGuessing key accounts last end (a ∷ attempts) =
      (last ≤ a.time)
      × (str_eq key (login_key a.email) ≡ true
          → fits matches a.password (find_by_email a.email accounts) ≡ false)
      × IsGuessing key accounts a.time end attempts

  -- The times of failures that count, and the service without the others.
  abbrev pub recent : Attempt → Service → List ℕ
  recent a s = fresh lockout_window_ms a.time (s.failed_attempts (login_key a.email))

  abbrev pub pruned : Attempt → Service → Service
  pruned a s = set_attempts (login_key a.email) (recent a s) s

  abbrev pub is_full : Attempt → Service → Bool
  is_full a s = leb lockout_threshold (length (recent a s))

  pub login_lem :
      (a : Attempt) (s : Service)
      → try_login a s ≡ (
          if is_full a s
          then (denied locked, pruned a s)
          else check_password matches sign hash a.time a.id a.fresh_token
              (login_key a.email)
              a.password
              (find_by_email a.email s.accounts)
              (pruned a s))
  unfolding login is_locked login_key
  login_lem a s = refl

  pub login-accounts : (a : Attempt) (s : Service) → (try_login a s).1.accounts ≡ s.accounts
  login-accounts a s = elim (Bool-cases (is_full a s)) [
    | inl e ↦ rw (login_lem a s, e) refl
    | inr e ↦
        rw (login_lem a s, e)
          (check_password-accounts a.time a.id a.fresh_token (login_key a.email) a.password _
            (pruned a s))
  ]

  pub login-other :
      (key : Str) (a : Attempt) (s : Service)
      → str_eq key (login_key a.email) ≡ false
      → (try_login a s).1.failed_attempts key ≡ s.failed_attempts key
  login-other key a s o = elim (Bool-cases (is_full a s)) [
    | inl e ↦ rw (login_lem a s, e) (rw o refl)
    | inr e ↦
        rw (login_lem a s, e)
          (check_password-other a.time a.id a.fresh_token (login_key a.email) a.password _
              (pruned a s) key o
            ∙ rw o refl)
  ]

  pub login-full :
      (a : Attempt) (s : Service)
      → is_full a s ≡ true
      → (is_locked_out (try_login a s).0 ≡ true)
        × ((try_login a s).1.failed_attempts (login_key a.email) ≡ recent a s)
  login-full a s full = rw (login_lem a s, full) (refl, rw (str_eq_refl (login_key a.email)) refl)

  pub login-wrong :
      (a : Attempt) (s : Service)
      → is_full a s ≡ false
      → fits matches a.password (find_by_email a.email s.accounts) ≡ false
      → (is_locked_out (try_login a s).0 ≡ false)
        × ((try_login a s).1.failed_attempts (login_key a.email)
            ≡ fresh lockout_window_ms a.time (recent a s) ++ a.time ∷ [])
  unfolding record_failure
  login-wrong a s room wrong =
      let e =
        check_password-wrong a.time a.id a.fresh_token (login_key a.email) a.password
          (find_by_email a.email s.accounts) (pruned a s) wrong in
      rw (login_lem a s, room, e) (refl, rw (str_eq_refl (login_key a.email)) refl)
