-- ===== src/Access/Sessions/MfaGuesses.antt =====
-- How many codes of the second step can be tried by one who knows the password.
use bpm_new.Common.{
  ℕ, ◌+◌, ◌≤◌, Bool, true, false, ◌≡◌, refl, ap, ◌∙◌, ◌&&◌, Option, none, some, List, [], ◌∷◌, ◌++◌,
  Str, str_eq_refl, leb, length, find, map, arith, length-append,
}
use bpm_new.Access.Window.{fresh, length-fresh}
use bpm_new.Access.Sessions.Login.{
  Account, RecoveryCode, Service, lockout_threshold, lockout_window_ms, login_key, set_attempts,
  is_locked, record_failure, Login, denied, challenged, invalid_code, accepts, find_by_email,
  find_by_id, check_password, login,
}
use bpm_new.Access.Sessions.Lockout.{Attempt, login_lem}
use bpm_new.Access.Sessions.Mfa.{
  Payload, clean, is_six_digits, upper, is_unused_code, consume_otp_or_recovery, has_secret,
  secret_of, is_eligible, check_code, mfa_login,
}

leb-small : (n : ℕ) → n ≤ 4 → leb lockout_threshold n ≡ false
leb-small n h = ground arith

-- The first step with the right password, or the second with a code, and the time at which the
-- challenge for it was issued. Each has the time and what a new session would get.
pub data Move : Type 0 where
  password : ℕ → ℕ → Str → Str → Move
  code : ℕ → ℕ → ℕ → Str → Str → Move

-- For how long a challenge holds: five minutes, less the second to which its times are rounded.
abbrev pub challenge_ms : ℕ
challenge_ms = 299000

module _ (matches : Str → Str → Bool) (sign : ℕ → ℕ → Str) (verify : ℕ → Str → Option Payload)
    (otp : ℕ → Str → Str → Bool) (hash_recovery hash : Str → Str) where
  -- The moves of one who has an account's password and the challenges that it yields.
  abbrev pub move : Account → Move → Service → Login × Service
  move a (password now id new word) = login matches sign hash now id new a.email word
  move a (code issued now id new word) =
      mfa_login verify otp hash_recovery hash now id new (sign issued a.id) word

  abbrev pub replies : Account → List Move → Service → List Login
  replies a [] s = []
  replies a (m ∷ moves) s = let r = move a m s in let rest = replies a moves r.1 in r.0 ∷ rest

  -- A password is answered with a challenge, a code is looked at and found wrong.
  abbrev pub answer : Account → Move → Login
  answer a (password now _ _ _) = challenged (sign now a.id)
  answer a (code _ _ _ _ _) = denied invalid_code

  abbrev pub IsWrong : Account → List RecoveryCode → ℕ → Str → Type 0
  IsWrong a codes now word =
      ((is_six_digits (clean word) && otp now (secret_of a.mfa_secret) (clean word)) ≡ false)
      × (find (is_unused_code a.id (hash_recovery (map upper (clean word)))) codes ≡ none)

  -- After `n` wrong codes in a row: at most four of them come before a password, the passwords are
  -- right and the codes wrong. A code comes with the challenge of the latest password, issued at `last`,
  -- while it holds.
  abbrev pub IsPaced : Account → List RecoveryCode → Option ℕ → ℕ → List Move → Type 0
  IsPaced a codes last n [] = Unit
  IsPaced a codes last n (password now id new word ∷ moves) =
      (n ≤ 4) × (accepts matches word a.password_hash ≡ true) × IsPaced a codes (some now) 0 moves
  IsPaced a codes last n (code issued now id new word ∷ moves) =
      (n ≤ 4)
      × (last ≡ some issued)
      × (issued ≤ now)
      × (now ≤ issued + challenge_ms)
      × IsWrong a codes now word
      × IsPaced a codes last (n + 1) moves

  -- The account is found and uses the second step, and the JWT service accepts a challenge that it has
  -- signed for it while that holds.
  abbrev pub IsEnrolled : Account → List Account → Type 0
  IsEnrolled a accounts =
      (find_by_email a.email accounts ≡ some a)
      × (find_by_id a.id accounts ≡ some a)
      × (a.is_active ≡ true)
      × (a.mfa_enabled ≡ true)
      × (has_secret a.mfa_secret ≡ true)
      × ((issued now : ℕ)
          → issued ≤ now
          → now ≤ issued + challenge_ms
          → verify now (sign issued a.id) ≡ some record { sub = some a.id; mfa_pending = true })

  free_lem :
      (now : ℕ) (ts : List ℕ)
      → length ts ≤ 4
      → leb lockout_threshold (length (fresh lockout_window_ms now ts)) ≡ false
  free_lem now ts few =
      let fewer = length-fresh lockout_window_ms now ts in
      leb-small (length (fresh lockout_window_ms now ts)) (omega (arith, few, fewer))

  check_password-challenged :
      (now id : ℕ) (new key word : Str) (a : Account) (s : Service)
      → accepts matches word a.password_hash ≡ true
      → a.is_active ≡ true
      → a.mfa_enabled ≡ true
      → check_password matches sign hash now id new key word (some a) s
        ≡ (challenged (sign now a.id), set_attempts key [] s)
  unfolding check_password
  check_password-challenged now id new key word a s right live mfa = rw (right, live, mfa) refl

  -- The right password forgets the failures.
  password_lem :
      (a : Account) (now id : ℕ) (new word : Str) (s : Service)
      → IsEnrolled a s.accounts
      → accepts matches word a.password_hash ≡ true
      → length (s.failed_attempts (login_key a.email)) ≤ 4
      → (kept : List ℕ) × (move a (password now id new word) s ≡ (
        challenged (sign now a.id),
        set_attempts (login_key a.email) [] (set_attempts (login_key a.email) kept s),
      ))
  password_lem a now id new word s (found, by_id, live, mfa, secret, signs) right few =
      let attempt : Attempt = record {
        time = now;
        email = a.email;
        password = word;
        id = id;
        fresh_token = new;
      } in
      let ts = fresh lockout_window_ms now (s.failed_attempts (login_key a.email)) in
      (
        ts,
        login_lem matches sign hash attempt s
            ∙ rw (free_lem now (s.failed_attempts (login_key a.email)) few, found)
                (check_password-challenged now id new (login_key a.email) word a
                  (set_attempts (login_key a.email) ts s) right live mfa),
      )

  consume-wrong :
      (a : Account) (now : ℕ) (word : Str) (codes : List RecoveryCode)
      → IsWrong a codes now word
      → consume_otp_or_recovery otp hash_recovery now a.id (secret_of a.mfa_secret) word codes
        ≡ (false, codes)
  unfolding consume_otp_or_recovery
  consume-wrong a now word codes (no_otp, no_code) = rw (no_otp, no_code) refl

  -- The service after the answer that it is not locked.
  abbrev recent : Account → ℕ → Service → List ℕ
  recent a now s = fresh lockout_window_ms now (s.failed_attempts (login_key a.email))

  abbrev pruned : Account → ℕ → Service → Service
  pruned a now s = set_attempts (login_key a.email) (recent a now s) s

  check_code-free :
      (a : Account) (now id : ℕ) (new word : Str) (s : Service)
      → leb lockout_threshold (length (recent a now s)) ≡ false
      → (consume_otp_or_recovery otp hash_recovery now a.id
          (secret_of a.mfa_secret)
          word
          s.recovery_codes).0
        ≡ false
      → check_code otp hash_recovery hash now id new word a s ≡ (
        denied invalid_code,
        record_failure now (login_key a.email) record (pruned a now s) {
          recovery_codes =
              (consume_otp_or_recovery otp hash_recovery now a.id
                (secret_of a.mfa_secret)
                word
                s.recovery_codes).1;
        },
      )
  unfolding check_code is_locked login_key
  check_code-free a now id new word s room refused = rw room (rw refused refl)

  -- The failures of the key after a wrong code.
  abbrev counted : Account → ℕ → Service → List ℕ
  counted a now s = fresh lockout_window_ms now (recent a now s) ++ now ∷ []

  length-counted :
      (a : Account) (now : ℕ) (s : Service)
      → length (counted a now s) ≤ length (s.failed_attempts (login_key a.email)) + 1
  length-counted a now s =
      let one = length-append (fresh lockout_window_ms now (recent a now s)) (now ∷ []) in
      let fewer = length-fresh lockout_window_ms now (recent a now s) in
      let few = length-fresh lockout_window_ms now (s.failed_attempts (login_key a.email)) in
      omega (arith, one, fewer, few)

  record_failure-pruned :
      (a : Account) (now : ℕ) (s : Service)
      → record_failure now (login_key a.email) (pruned a now s)
        ≡ set_attempts (login_key a.email) (counted a now s) (pruned a now s)
  unfolding record_failure
  record_failure-pruned a now s = rw (str_eq_refl (login_key a.email)) refl

  -- A wrong code is one failure more.
  code_lem :
      (a : Account) (issued now id : ℕ) (new word : Str) (s : Service)
      → IsEnrolled a s.accounts
      → issued ≤ now
      → now ≤ issued + challenge_ms
      → IsWrong a s.recovery_codes now word
      → length (s.failed_attempts (login_key a.email)) ≤ 4
      → move a (code issued now id new word) s
        ≡ (denied invalid_code, set_attempts (login_key a.email) (counted a now s) (pruned a now s))
  unfolding mfa_login
  code_lem a issued now id new word s (found, by_id, live, mfa, secret, signs) later soon wrong
        few =
      let c = consume-wrong a now word s.recovery_codes wrong in
      let room = free_lem now (s.failed_attempts (login_key a.email)) few in
      let eligible : is_eligible a ≡ true = rw (live, mfa, secret) refl in
      rw (signs issued now later soon, by_id, eligible)
        (check_code-free a now id new word s room (ap (λ r. r.0) c)
          ∙ rw c (rw (record_failure-pruned a now s) refl))

  replies-wrong :
      (a : Account) (last : Option ℕ) (n : ℕ) (moves : List Move) (s : Service)
      → IsEnrolled a s.accounts
      → IsPaced a s.recovery_codes last n moves
      → length (s.failed_attempts (login_key a.email)) ≤ n
      → replies a moves s ≡ map (answer a) moves
  replies-wrong a last n [] s enrolled paced few = refl
  replies-wrong a last n (password now id new word ∷ moves) s enrolled (small, right, paced) few =
      let (kept, e) = password_lem a now id new word s enrolled right (omega (arith, small, few)) in
      let s' = set_attempts (login_key a.email) [] (set_attempts (login_key a.email) kept s) in
      rw e (
        ap (λ l. challenged (sign now a.id) ∷ l)
          (replies-wrong a (some now) 0 moves s' enrolled paced
            (rw (str_eq_refl (login_key a.email)) (omega arith))))
  replies-wrong a last n (code issued now id new word ∷ moves) s enrolled
        (small, _, later, soon, wrong, paced) few =
      let e =
        code_lem a issued now id new word s enrolled later soon wrong (omega (arith, small, few)) in
      let s' = set_attempts (login_key a.email) (counted a now s) (pruned a now s) in
      let more = length-counted a now s in
      rw e (
        ap (λ l. denied invalid_code ∷ l)
          (replies-wrong a last (n + 1) moves s' enrolled paced
            (rw (str_eq_refl (login_key a.email)) (omega (arith, more, few)))))

-- One who knows the password of an account that uses the second step can try any number of codes: if
-- after every four wrong codes, or fewer, comes the password, which forgets the failures and yields a
-- new challenge, and each code comes with the latest challenge and no later than 299 seconds after it,
-- each password is answered with a challenge and each code is looked at and found wrong, and none of
-- these is locked out, however many they are. It takes that the JWT service accepts its challenges for
-- so long, and that the account has no failures at the start.
pub mfa_guesses_unbounded :
    (matches : Str → Str → Bool) (sign : ℕ → ℕ → Str) (verify : ℕ → Str → Option Payload)
    (otp : ℕ → Str → Str → Bool) (hash_recovery hash : Str → Str) (a : Account) (moves : List Move)
    (s : Service)
    → s.failed_attempts (login_key a.email) ≡ []
    → IsEnrolled matches sign verify otp hash_recovery hash a s.accounts
    → IsPaced matches sign verify otp hash_recovery hash a s.recovery_codes none 0 moves
    → replies matches sign verify otp hash_recovery hash a moves s
      ≡ map (answer matches sign verify otp hash_recovery hash a) moves
mfa_guesses_unbounded matches sign verify otp hash_recovery hash a moves s none_yet enrolled paced =
    replies-wrong matches sign verify otp hash_recovery hash a none 0 moves s enrolled paced
      (rw none_yet (omega arith))
