-- ===== src/Access/Sessions/Guesses.antt =====
-- How many passwords can be tried.
use bpm_new.Common.{
  ℕ, ◌≤◌, Bool, ◌≡◌, refl, sym, subst, List, [], ◌∷◌, ◌++◌, Str, str_eq, str_eq→eq, length, inl,
  inr, Bool-cases, arith,
}
use bpm_new.Access.Window.{
  fresh, Tracks, Tracks-prune, Tracks-push, Tracks-later, IsWithin, IsWithin-push, IsWithin-later,
}
use bpm_new.Access.Throttle.{leb-false}
use bpm_new.Access.Sessions.Login.{Service, lockout_threshold, lockout_window_ms, login_key}
use bpm_new.Access.Sessions.Lockout.{
  Attempt, try_login, tried, IsGuessing, is_full, login-accounts, login-other, login-full,
  login-wrong,
}

module _ (matches : Str → Str → Bool) (sign : ℕ → ℕ → Str) (hash : Str → Str) where
  tried-IsWithin :
      (key : Str) (last end : ℕ) (log : List ℕ) (attempts : List Attempt) (s : Service)
      → Tracks lockout_window_ms last log (s.failed_attempts key)
      → IsWithin lockout_threshold lockout_window_ms last log
      → IsGuessing matches sign hash key s.accounts last end attempts
      → length (fresh lockout_window_ms end (tried matches sign hash key log attempts s))
        ≤ lockout_threshold
  tried-IsWithin key last end log [] s same within order = within end order
  tried-IsWithin key last end log (a ∷ attempts) s same within (begins, wrong, order) =
      let r = try_login matches sign hash a s in
      let order' =
        subst (λ as'. IsGuessing matches sign hash key as' a.time end attempts)
          (sym (login-accounts matches sign hash a s)) order in
      let within' =
        IsWithin-later lockout_threshold lockout_window_ms last a.time log begins within in
      elim (Bool-cases (str_eq key (login_key a.email))) [
        | inr e ↦ rw e (
            tried-IsWithin key a.time end log attempts r.1
              (subst (Tracks lockout_window_ms a.time log)
                (sym (login-other matches sign hash key a s e))
                (Tracks-later lockout_window_ms last a.time log _ begins same))
              within' order')
        | inl e ↦
            let k = str_eq→eq key (login_key a.email) e in
            let tracks =
              Tracks-prune lockout_window_ms last a.time log _ begins
                (subst (λ x. Tracks lockout_window_ms last log (s.failed_attempts x)) k same) in
            elim (Bool-cases (is_full matches sign hash a s)) [
              | inl full ↦
                  let (out, left) = login-full matches sign hash a s full in
                  rw (e, out)
                    (tried-IsWithin key a.time end log attempts r.1
                      (subst (λ x. Tracks lockout_window_ms a.time log (r.1.failed_attempts x))
                        (sym k) (subst (Tracks lockout_window_ms a.time log) (sym left) tracks))
                      within' order')
              | inr room ↦
                  let (looked, left) = login-wrong matches sign hash a s room (wrong e) in
                  let pushed =
                    Tracks-push lockout_window_ms a.time log _
                      (Tracks-prune lockout_window_ms a.time a.time log _ (omega arith) tracks) in
                  rw (e, looked)
                    (tried-IsWithin key a.time end (log ++ a.time ∷ []) attempts r.1
                      (subst
                        (λ x.
                          Tracks lockout_window_ms a.time (log ++ a.time ∷ [])
                            (r.1.failed_attempts x))
                        (sym k)
                        (subst (Tracks lockout_window_ms a.time (log ++ a.time ∷ [])) (sym left)
                          pushed))
                      (IsWithin-push lockout_threshold lockout_window_ms a.time log _ tracks
                        (leb-false lockout_threshold _ room))
                      order')
            ]
      ]

-- Whatever logins come one after the other, by any addresses: if no failure of a key is on record and
-- the logins to the key have wrong passwords, in the quarter of an
-- hour before any later time at most five of these are answered otherwise than with the lockout.
pub login-IsWithin :
    (matches : Str → Str → Bool) (sign : ℕ → ℕ → Str) (hash : Str → Str) (key : Str) (start end : ℕ)
    (attempts : List Attempt) (s : Service)
    → s.failed_attempts key ≡ []
    → IsGuessing matches sign hash key s.accounts start end attempts
    → length (fresh lockout_window_ms end (tried matches sign hash key [] attempts s))
      ≤ lockout_threshold
login-IsWithin matches sign hash key start end attempts s none_yet guessing =
    tried-IsWithin matches sign hash key start end [] attempts s
      (subst (Tracks lockout_window_ms start []) (sym none_yet) (λ now k. refl))
      (λ now k. omega arith) guessing
