-- ===== src/Access/Sessions/Rotation.antt =====
-- A refresh token is good for one refresh; and for two, if these overlap.
use bpm_new.Common.{
  ℕ, true, false, ◌≡◌, refl, ap, ◌∙◌, subst, Option, none, some, List, [], ◌∷◌, Str, inl, inr,
  Bool-cases, find, ◌==◌, ==_refl, ltb,
}
use bpm_new.Access.Sessions.Defs.{
  Status, revoked, Session, User, issued, unauthorized, reuse_detected, is_active, has_hash, has_id,
  restatus, set_status, issue_tokens, is_available, rotate, refresh, list_sessions,
  revoke_all_sessions_for,
}
use bpm_new.Access.Sessions.Trace.{
  Later, find-set_status, HasRow, HasRow-Later, HasRow-issue_tokens,
}

-- What a refresh that succeeds has found.
rotate-issued :
    (hash : Str → Str) (users : ℕ → Option User) (now id : ℕ) (fresh : Str) (found : Option Session)
    (sessions : List Session) {t : Str} {sessions' : List Session}
    → rotate hash users now id fresh found sessions ≡ (issued t, sessions')
    → (s : Session) × (found ≡ some s)
      × (is_active s.status ≡ true)
      × (ltb s.expires_at now ≡ false)
      × (is_available (users s.user_id) ≡ true)
      × (issue_tokens hash s.user_id now id fresh (set_status (has_id s.id) revoked sessions)
          ≡ (issued t, sessions'))
unfolding rotate
rotate-issued hash users now id fresh none sessions h = absurd (cc (ap (λ r. r.0) h))
rotate-issued hash users now id fresh (some s) sessions h = elim (Bool-cases (is_active s.status)) [
  | inr a ↦ absurd (cc (ap (λ r. r.0) (rw a at h)))
  | inl a ↦
      let h1 = rw a at h in
      elim (Bool-cases (ltb s.expires_at now)) [
        | inl b ↦ absurd (cc (ap (λ r. r.0) (rw b at h1)))
        | inr b ↦
            let h2 = rw b at h1 in
            elim (Bool-cases (is_available (users s.user_id))) [
              | inr c ↦ absurd (cc (ap (λ r. r.0) (rw c at h2)))
              | inl c ↦ (s, refl, a, b, c, rw c at h2)
            ]
      ]
]

pub refresh-issued :
    (hash : Str → Str) (users : ℕ → Option User) (now id : ℕ) (fresh token : Str)
    (read sessions : List Session) {t : Str} {sessions' : List Session}
    → refresh hash users now id fresh token read sessions ≡ (issued t, sessions')
    → (s : Session) × (find (has_hash (hash token)) read ≡ some s)
      × (is_active s.status ≡ true)
      × (ltb s.expires_at now ≡ false)
      × (is_available (users s.user_id) ≡ true)
      × (issue_tokens hash s.user_id now id fresh (set_status (has_id s.id) revoked sessions)
          ≡ (issued t, sessions'))
unfolding refresh
refresh-issued hash users now id fresh [] read sessions h = absurd (cc (ap (λ r. r.0) h))
refresh-issued hash users now id fresh (c ∷ token) read sessions h =
    rotate-issued hash users now id fresh _ sessions h

-- The row of the session is there under its hash, for the same user.
abbrev IsRowOf : Session → Session → Type 0
IsRowOf s x = (x.id ≡ s.id) × (x.user_id ≡ s.user_id)

abbrev IsSpent : Session → Session → Type 0
IsSpent s x = (x.user_id ≡ s.user_id) × (is_active x.status ≡ false)

refresh-spent :
    (hash : Str → Str) (users : ℕ → Option User) (now id : ℕ) (fresh : Str) (c : ℕ) (token : Str)
    (read sessions : List Session) {x : Session}
    → find (has_hash (hash (c ∷ token))) read ≡ some x
    → is_active x.status ≡ false
    → refresh hash users now id fresh (c ∷ token) read sessions
      ≡ (unauthorized reuse_detected, revoke_all_sessions_for x.user_id sessions)
unfolding refresh rotate revoke_all_sessions_for
refresh-spent hash users now id fresh c token read sessions e dead = rw e (rw dead refl)

pub list_sessions-revoke_all :
    (u : ℕ) (sessions : List Session) → list_sessions u (revoke_all_sessions_for u sessions) ≡ []
unfolding list_sessions revoke_all_sessions_for
list_sessions-revoke_all u [] = refl
list_sessions-revoke_all u (s ∷ ss) =
    let rest = list_sessions-revoke_all u ss in
    elim (Bool-cases (s.user_id == u)) [
      | inr e ↦ rw e (rw e rest)
      | inl e ↦ elim (Bool-cases (is_active s.status)) [
        | inl a ↦ rw (e, a) (rw e rest)
        | inr a ↦ rw (e, a) (rw (e, a) rest)
      ]
    ]

-- After a refresh the row of its token is spent.
refresh-IsSpent :
    (hash : Str → Str) (h : Str) (now id : ℕ) (fresh : Str) (s : Session) (sessions : List Session)
    {t : Str} {sessions' : List Session}
    → HasRow h (IsRowOf s) (λ x status over k. k) sessions
    → issue_tokens hash s.user_id now id fresh (set_status (has_id s.id) revoked sessions)
      ≡ (issued t, sessions')
    → HasRow h (IsSpent s) (λ x status over k. (k.0, over)) sessions'
refresh-IsSpent hash h now id fresh s sessions (x, e, (same_id, same_user)) done =
    let keeps : (y : Session) (status : Status)
        → is_active status ≡ false
        → IsSpent s y
        → IsSpent s record y { status = status } =
      λ y status over k. (k.0, over) in
    let this : has_id s.id x ≡ true = rw same_id (==_refl s.id) in
    let over : IsSpent s (restatus (has_id s.id) revoked x) = rw this (same_user, refl) in
    subst (HasRow h (IsSpent s) keeps) (ap (λ r. r.1) done) (
      HasRow-issue_tokens h (IsSpent s) keeps hash s.user_id now id fresh _ (
        restatus (has_id s.id) revoked x,
        find-set_status h (has_id s.id) revoked sessions e,
        over,
      ))

pub refresh-no_token :
    (hash : Str → Str) (users : ℕ → Option User) (now id : ℕ) (fresh : Str)
    (read sessions : List Session) {t : Str} {sessions' : List Session}
    → ¬ (refresh hash users now id fresh [] read sessions ≡ (issued t, sessions'))
unfolding refresh
refresh-no_token hash users now id fresh read sessions h = cc (ap (λ r. r.0) h)

-- A refresh token that a refresh has accepted is never accepted again, whatever logins, refreshes,
-- logouts and revocations come before and after: each further refresh with it, by whoever holds it,
-- is refused for reuse and leaves the user of the session without an active one. `read` and
-- `sessions` are the table when the refresh reads and when it writes, with changes in between.
pub refresh_once :
    (hash : Str → Str) (users : ℕ → Option User) (now id : ℕ) (fresh token : Str)
    (read sessions : List Session) {t : Str} {sessions' : List Session}
    → Later hash read sessions
    → refresh hash users now id fresh token read sessions ≡ (issued t, sessions')
    → (users2 : ℕ → Option User) (now2 id2 : ℕ) (fresh2 : Str) (read2 sessions2 : List Session)
    → Later hash sessions' read2
    → (s : Session) × (find (has_hash (hash token)) read ≡ some s)
      × (refresh hash users2 now2 id2 fresh2 token read2 sessions2
          ≡ (unauthorized reuse_detected, revoke_all_sessions_for s.user_id sessions2))
      × (list_sessions s.user_id (revoke_all_sessions_for s.user_id sessions2) ≡ [])
refresh_once hash users now id fresh [] read sessions between h users2 now2 id2 fresh2 read2
      sessions2 after =
    absurd (refresh-no_token hash users now id fresh read sessions h)
refresh_once hash users now id fresh (c ∷ token) read sessions between h users2 now2 id2 fresh2
      read2 sessions2 after =
    let (s, found, live, in_time, available, done) =
      refresh-issued hash users now id fresh (c ∷ token) read sessions h in
    let row =
      HasRow-Later (hash (c ∷ token)) (IsRowOf s) (λ x status over k. k) between
        (s, found, (refl, refl)) in
    let spent = refresh-IsSpent hash (hash (c ∷ token)) now id fresh s sessions row done in
    let (x, e, (same, dead)) =
      HasRow-Later (hash (c ∷ token)) (IsSpent s) (λ x status over k. (k.0, over)) after spent in
    (
      s,
      found,
      refresh-spent hash users2 now2 id2 fresh2 c token read2 sessions2 e dead ∙ rw same refl,
      list_sessions-revoke_all s.user_id sessions2,
    )
