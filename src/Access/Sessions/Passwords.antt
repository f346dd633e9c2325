-- ===== src/Access/Sessions/Passwords.antt =====
-- changePassword, adminResetPassword and generateTemporaryPassword of api/src/auth/auth.service.ts.
-- `digest` is the hash of bcrypt, and the random bytes are an argument.
use bpm_new.Common.{
  ℕ, zero, suc, ◌%◌, Bool, true, false, ◌&&◌, not, Option, none, some, List, [], ◌∷◌, ◌++◌, Str,
  codes, str_eq, ◌==◌, if◌then◌else◌, any, keep, map, length,
}
use bpm_new.Data.Chars.{is_digit, is_letter}
use bpm_new.Access.Sessions.Defs.{revoke_all_sessions_for}
use bpm_new.Access.Sessions.Login.{Account, Service, login_key, set_attempts, accepts, find_by_id}

pub data PasswordError : Type 0 where
  account_unavailable wrong_current same_as_current not_privileged user_not_found : PasswordError

pub data Changed : Type 0 where
  changed : Changed
  refused : PasswordError → Changed

-- usersService.setPasswordHash
abbrev pub set_password_hash : ℕ → Str → Service → Service
set_password_hash user new_hash s = record s {
  accounts =
      map (λ a. if a.id == user then record a { password_hash = some new_hash } else a) s.accounts;
}

abbrev pub revoke_sessions : ℕ → Service → Service
revoke_sessions user s = record s { sessions = revoke_all_sessions_for user s.sessions }

abbrev pub has_hash : Option Str → Bool
has_hash none = false
has_hash (some []) = false
has_hash (some (_ ∷ _)) = true

abbrev pub change_for :
    (Str → Str → Bool) → (Str → Str) → Str → Str → Option Account → Service → Changed × Service
change_for matches digest current new none s = (refused account_unavailable, s)
change_for matches digest current new (some a) s =
    if not (has_hash a.password_hash)
    then (refused account_unavailable, s)
    else if not (accepts matches current a.password_hash)
    then (refused wrong_current, s)
    else if str_eq current new
    then (refused same_as_current, s)
    else (changed, revoke_sessions a.id (set_password_hash a.id (digest new) s))

unfoldable pub change_password :
    (Str → Str → Bool) → (Str → Str) → ℕ → Str → Str → Service → Changed × Service
change_password matches digest user current new s =
    change_for matches digest current new (find_by_id user s.accounts) s

abbrev pub alphabet : Str
alphabet = codes "ABCDEFGHJKMNPQRSTUVWXYZabcdefghjkmnpqrstuvwxyz23456789"

-- alphabet[i], for an index below the length.
abbrev pub char_at : Str → ℕ → Str
char_at [] i = []
char_at (c ∷ s) zero = c ∷ []
char_at (c ∷ s) (suc i) = char_at s i

-- The loop over the random bytes.
abbrev pub draw : List ℕ → Str
draw [] = []
draw (b ∷ bytes) = char_at alphabet (b % length alphabet) ++ draw bytes

-- "A" + pw.slice(1)
abbrev pub letter_first : Str → Str
letter_first [] = b'A' ∷ []
letter_first (c ∷ s) = b'A' ∷ s

-- pw.slice(0, -1) + "2"
abbrev pub digit_last : Str → Str
digit_last [] = b'2' ∷ []
digit_last (c ∷ []) = b'2' ∷ []
digit_last (c ∷ d ∷ s) = c ∷ digit_last (d ∷ s)

unfoldable pub generate_temporary_password : List ℕ → Str
generate_temporary_password bytes =
    let pw = draw bytes in
    let pw' = if not (any is_letter pw) then letter_first pw else pw in
    if not (any is_digit pw') then digit_last pw' else pw'

abbrev pub clear_mfa : ℕ → Service → Service
clear_mfa user s = record s {
  accounts =
      map (λ a. if a.id == user then record a { mfa_enabled = false; mfa_secret = none } else a)
        s.accounts;
  recovery_codes = keep (λ r. not (r.user_id == user)) s.recovery_codes;
}

pub data Reset : Type 0 where
  temporary : Str → Reset
  not_reset : PasswordError → Reset

abbrev pub reset_for : (Str → Str) → ℕ → ℕ → List ℕ → Option Account → Service → Reset × Service
reset_for digest tenant target bytes none s = (not_reset user_not_found, s)
reset_for digest tenant target bytes (some a) s =
    let word = generate_temporary_password bytes in
    if not (a.tenant_id == tenant) then (not_reset user_not_found, s) else (
      temporary word,
      set_attempts (login_key a.email) []
          (clear_mfa target (revoke_sessions target (set_password_hash target (digest word) s))),
    )

-- `role` and `tenant` are those of the one who resets.
unfoldable pub admin_reset_password : (Str → Str) → Str → ℕ → ℕ → List ℕ → Service → Reset × Service
admin_reset_password digest role tenant target bytes s =
    if not (str_eq role (codes "owner")) && not (str_eq role (codes "admin"))
    then (not_reset not_privileged, s)
    else reset_for digest tenant target bytes (find_by_id target s.accounts) s
