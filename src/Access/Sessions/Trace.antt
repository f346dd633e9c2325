-- ===== src/Access/Sessions/Trace.antt =====
-- What becomes of the row of a refresh token while sessions come and go.
use bpm_new.Common.{
  ℕ, Bool, false, ◌≡◌, refl, sym, ◌∙◌, subst, Option, none, some, List, [], ◌∷◌, Str, inl, inr,
  Bool-cases, neither, any, find, find-map, str_eq, str_eq→eq, str_eq_refl, ltb,
}
use bpm_new.Access.Sessions.Defs.{
  Status, expired, revoked, Session, User, is_active, has_hash, has_id, is_active_of, restatus,
  set_status, new_session, collides, issue_tokens, is_available, rotate, refresh, revoke_session,
  logout, revoke_all_sessions_for,
}

-- How the table changes: the operations of AuthService, by any users at any times.
pub data Later (hash : Str → Str) (sessions : List Session) : List Session → Type 0 where
  at_once : Later hash sessions sessions
  logged_in :
      {after : List Session}
      → Later hash sessions after
      → (user now id : ℕ) (token : Str)
      → Later hash sessions (issue_tokens hash user now id token after).1
  refreshed :
      {after : List Session}
      → Later hash sessions after
      → (users : ℕ → Option User) (now id : ℕ) (fresh token : Str) (read : List Session)
      → Later hash sessions (refresh hash users now id fresh token read after).1
  session_revoked :
      {after : List Session}
      → Later hash sessions after
      → (user id : ℕ) → Later hash sessions (revoke_session user id after)
  logged_out :
      {after : List Session}
      → Later hash sessions after
      → (token : Str) → Later hash sessions (logout hash token after)
  all_revoked :
      {after : List Session}
      → Later hash sessions after
      → (user : ℕ) → Later hash sessions (revoke_all_sessions_for user after)

pub has_hash-restatus :
    (h : Str) (p : Session → Bool) (status : Status) (s : Session)
    → has_hash h (restatus p status s) ≡ has_hash h s
has_hash-restatus h p status s = elim (Bool-cases (p s)) [ inl e ↦ rw e refl | inr e ↦ rw e refl ]

pub find-set_status :
    (h : Str) (p : Session → Bool) (status : Status) (sessions : List Session) {s : Session}
    → find (has_hash h) sessions ≡ some s
    → find (has_hash h) (set_status p status sessions) ≡ some (restatus p status s)
find-set_status h p status sessions e =
    find-map (has_hash h) (restatus p status) (has_hash-restatus h p status) sessions e

-- A row that is inserted has another hash than those in the table.
find-insert :
    (h : Str) (new : Session) (sessions : List Session) {s : Session}
    → any (collides new) sessions ≡ false
    → find (has_hash h) sessions ≡ some s
    → has_hash h new ≡ false
find-insert h new [] free e = cc
find-insert h new (x ∷ xs) {s} free e =
    let (here, rest) = neither (collides new x) (any (collides new) xs) free in
    elim (Bool-cases (has_hash h x)) [
      | inl t ↦ elim (Bool-cases (has_hash h new)) [
        | inr u ↦ u
        | inl u ↦
            let same : x.token_hash ≡ new.token_hash =
              str_eq→eq x.token_hash h t ∙ sym (str_eq→eq new.token_hash h u) in
            let apart = (neither (has_id new.id x) (has_hash new.token_hash x) here).1 in
            absurd (
              cc (
                subst (λ y. str_eq y new.token_hash ≡ false) same apart,
                str_eq_refl new.token_hash,
              ))
      ]
      | inr t ↦ find-insert h new xs rest (rw t at e)
    ]

-- A property of the row of the hash that an end of the session does not destroy.
module _ (h : Str) (P : Session → Type 0)
    (ends : (s : Session) (status : Status)
      → is_active status ≡ false
      → P s
      → P record s { status = status }) where
  abbrev pub HasRow : List Session → Type 0
  HasRow sessions = (s : Session) × (find (has_hash h) sessions ≡ some s) × P s

  HasRow-set_status :
      (p : Session → Bool) (status : Status) (sessions : List Session)
      → is_active status ≡ false
      → HasRow sessions
      → HasRow (set_status p status sessions)
  HasRow-set_status p status sessions over (s, e, k) = (
    restatus p status s,
    find-set_status h p status sessions e,
    elim (Bool-cases (p s)) [ inl t ↦ rw t (ends s status over k) | inr t ↦ rw t k ],
  )

  pub HasRow-issue_tokens :
      (hash : Str → Str) (user now id : ℕ) (token : Str) (sessions : List Session)
      → HasRow sessions
      → HasRow (issue_tokens hash user now id token sessions).1
  unfolding issue_tokens
  HasRow-issue_tokens hash user now id token sessions (s, e, k) =
      let new = new_session hash user now id token in
      elim (Bool-cases (any (collides new) sessions)) [
        | inl t ↦ rw t (s, e, k)
        | inr t ↦ rw t (s, rw (find-insert h new sessions t e) e, k)
      ]

  HasRow-rotate :
      (hash : Str → Str) (users : ℕ → Option User) (now id : ℕ) (fresh : Str)
      (found : Option Session) (sessions : List Session)
      → HasRow sessions
      → HasRow (rotate hash users now id fresh found sessions).1
  unfolding rotate
  HasRow-rotate hash users now id fresh none sessions row = row
  HasRow-rotate hash users now id fresh (some s) sessions row =
      elim (Bool-cases (is_active s.status)) [
        | inr a ↦ rw a (HasRow-set_status (is_active_of s.user_id) revoked sessions refl row)
        | inl a ↦ elim (Bool-cases (ltb s.expires_at now)) [
          | inl b ↦ rw (a, b) (HasRow-set_status (has_id s.id) expired sessions refl row)
          | inr b ↦ elim (Bool-cases (is_available (users s.user_id))) [
            | inr c ↦ rw (a, b, c) row
            | inl c ↦
                rw (a, b, c)
                  (HasRow-issue_tokens hash s.user_id now id fresh
                    (set_status (has_id s.id) revoked sessions)
                    (HasRow-set_status (has_id s.id) revoked sessions refl row))
          ]
        ]
      ]

  HasRow-refresh :
      (hash : Str → Str) (users : ℕ → Option User) (now id : ℕ) (fresh token : Str)
      (read sessions : List Session)
      → HasRow sessions
      → HasRow (refresh hash users now id fresh token read sessions).1
  unfolding refresh
  HasRow-refresh hash users now id fresh [] read sessions row = row
  HasRow-refresh hash users now id fresh (c ∷ token) read sessions row =
      HasRow-rotate hash users now id fresh _ sessions row

  HasRow-logout :
      (hash : Str → Str) (token : Str) (sessions : List Session)
      → HasRow sessions
      → HasRow (logout hash token sessions)
  unfolding logout
  HasRow-logout hash [] sessions row = row
  HasRow-logout hash (c ∷ token) sessions row = HasRow-set_status _ revoked sessions refl row

  -- The row stays, whatever happens.
  pub HasRow-Later :
      {hash : Str → Str} {sessions later : List Session}
      → Later hash sessions later
      → HasRow sessions
      → HasRow later
  unfolding revoke_session revoke_all_sessions_for
  HasRow-Later at_once row = row
  HasRow-Later {hash} (logged_in h user now id token) row =
      HasRow-issue_tokens hash user now id token _ (HasRow-Later h row)
  HasRow-Later {hash} (refreshed h users now id fresh token read) row =
      HasRow-refresh hash users now id fresh token read _ (HasRow-Later h row)
  HasRow-Later (session_revoked h user id) row =
      HasRow-set_status _ revoked _ refl (HasRow-Later h row)
  HasRow-Later {hash} (logged_out h token) row = HasRow-logout hash token _ (HasRow-Later h row)
  HasRow-Later (all_revoked h user) row = HasRow-set_status _ revoked _ refl (HasRow-Later h row)
