-- ===== src/Access/Sessions/Mfa.antt =====
-- The second step of a login, mfaLogin of api/src/auth/auth.service.ts with consumeOtpOrRecovery of
-- api/src/auth/mfa.service.ts. `verify` is the JWT service on a challenge, `otp` the library's check of
-- a one-time password, both at a time, `hash_recovery` the hash of a recovery code.
use bpm_new.Common.{
  ℕ, ◌-◌, Bool, true, false, ◌&&◌, ◌||◌, not, Option, none, some, List, [], ◌∷◌, Str, str_eq, ◌==◌,
  leb, if◌then◌else◌, find, map, keep, length,
}
use bpm_new.Data.Chars.{is_digit, is_space, all}
use bpm_new.Access.Sessions.Login.{
  Account, RecoveryCode, Service, login_key, is_locked, record_failure, set_attempts, Login, denied,
  locked, bad_challenge, not_a_challenge, not_eligible, invalid_code, find_by_id, sign_in,
}

-- code.replace(/[-\s]/g, "")
abbrev pub clean : Str → Str
clean = keep (λ c. not (c == b'-' || is_space c))

-- /^\d{6}$/
abbrev pub is_six_digits : Str → Bool
is_six_digits s = length s == 6 && all is_digit s

abbrev pub upper : ℕ → ℕ
upper c = if leb b'a' c && leb c b'z' then c - 32 else c

abbrev pub is_unused_code : ℕ → Str → RecoveryCode → Bool
is_unused_code user h r = r.user_id == user && str_eq r.code_hash h && is_unused r.used_at
  where
    is_unused : Option ℕ → Bool
    is_unused none = true
    is_unused (some _) = false

abbrev pub use_code : ℕ → ℕ → List RecoveryCode → List RecoveryCode
use_code id now = map (λ r. if r.id == id then record r { used_at = some now } else r)

-- The row that the SELECT finds, if any, is used up.
abbrev pub consume_found : ℕ → Option RecoveryCode → List RecoveryCode → Bool × List RecoveryCode
consume_found now none codes = (false, codes)
consume_found now (some r) codes = (true, use_code r.id now codes)

unfoldable pub consume_otp_or_recovery :
    (ℕ → Str → Str → Bool)
    → (Str → Str)
    → ℕ
    → ℕ
    → Str
    → Str
    → List RecoveryCode
    → Bool × List RecoveryCode
consume_otp_or_recovery otp hash_recovery now user secret code codes =
    if is_six_digits (clean code) && otp now secret (clean code)
    then (true, codes)
    else consume_found now
        (find (is_unused_code user (hash_recovery (map upper (clean code)))) codes) codes

-- The claims of a challenge that the code reads. An empty `sub` counts as none.
pub record Payload : Type 0 where
  pub sub : Option ℕ
  pub mfa_pending : Bool

-- !user.mfaSecret
abbrev pub has_secret : Option Str → Bool
has_secret none = false
has_secret (some []) = false
has_secret (some (_ ∷ _)) = true

abbrev pub secret_of : Option Str → Str
secret_of none = []
secret_of (some s) = s

abbrev pub is_eligible : Account → Bool
is_eligible a = a.is_active && a.mfa_enabled && has_secret a.mfa_secret

-- `mfaLogin` once the account is known to be eligible.
unfoldable pub check_code :
    (ℕ → Str → Str → Bool)
    → (Str → Str)
    → (Str → Str)
    → ℕ
    → ℕ
    → Str
    → Str
    → Account
    → Service
    → Login × Service
unfolding login_key is_locked consume_otp_or_recovery record_failure
check_code otp hash_recovery hash now id fresh code a s =
    let key = login_key a.email in
    let r = is_locked now key s in
    let c =
      consume_otp_or_recovery otp hash_recovery now a.id (secret_of a.mfa_secret) code
        s.recovery_codes in
    let s' = record r.1 { recovery_codes = c.1 } in
    if r.0
    then (denied locked, r.1)
    else if not c.0
    then (denied invalid_code, record_failure now key s')
    else sign_in hash now id fresh a.id (set_attempts key [] s')

abbrev pub check_account :
    (ℕ → Str → Str → Bool)
    → (Str → Str)
    → (Str → Str)
    → ℕ
    → ℕ
    → Str
    → Str
    → Option Account
    → Service
    → Login × Service
check_account otp hash_recovery hash now id fresh code none s = (denied not_eligible, s)
check_account otp hash_recovery hash now id fresh code (some a) s =
    if not (is_eligible a)
    then (denied not_eligible, s)
    else check_code otp hash_recovery hash now id fresh code a s

abbrev pub check_payload :
    (ℕ → Str → Str → Bool)
    → (Str → Str)
    → (Str → Str)
    → ℕ
    → ℕ
    → Str
    → Str
    → Option Payload
    → Service
    → Login × Service
check_payload otp hash_recovery hash now id fresh code none s = (denied bad_challenge, s)
check_payload otp hash_recovery hash now id fresh code (some p) s =
    if not p.mfa_pending then (denied not_a_challenge, s) else with_sub p.sub
  where
    with_sub : Option ℕ → Login × Service
    with_sub none = (denied not_a_challenge, s)
    with_sub (some user) =
        check_account otp hash_recovery hash now id fresh code (find_by_id user s.accounts) s

unfoldable pub mfa_login :
    (ℕ → Str → Option Payload)
    → (ℕ → Str → Str → Bool)
    → (Str → Str)
    → (Str → Str)
    → ℕ
    → ℕ
    → Str
    → Str
    → Str
    → Service
    → Login × Service
mfa_login verify otp hash_recovery hash now id fresh challenge code s =
    check_payload otp hash_recovery hash now id fresh code (verify now challenge) s
