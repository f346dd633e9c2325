-- ===== src/Access/Sessions/Overlap.antt =====
-- Two refreshes with one token that overlap.
use bpm_new.Common.{
  ℕ, Bool, true, false, ◌≡◌, refl, sym, ap, ◌∙◌, subst, Option, some, List, [], ◌∷◌, Str, inl, inr,
  Bool-cases, arith, neither, any, find, ltb,
}
use bpm_new.Access.Sessions.Defs.{
  Status, revoked, Session, User, issued, is_active, has_hash, has_id, restatus, set_status,
  new_session, collides, issue_tokens, is_available, rotate, refresh,
}
use bpm_new.Access.Sessions.Trace.{find-set_status}
use bpm_new.Access.Sessions.Rotation.{refresh-issued, refresh-no_token}

-- A row that collides with none has another id than the row found.
find-other_id :
    (h : Str) (new : Session) (sessions : List Session) {s : Session}
    → any (collides new) sessions ≡ false
    → find (has_hash h) sessions ≡ some s
    → has_id new.id s ≡ false
find-other_id h new [] free e = cc
find-other_id h new (x ∷ xs) {s} free e =
    let (here, rest) = neither (collides new x) (any (collides new) xs) free in
    elim (Bool-cases (has_hash h x)) [
      | inl t ↦
          let apart = (neither (has_id new.id x) (has_hash new.token_hash x) here).0 in
          let same : x ≡ s = cc (rw t at e) in subst (λ y. has_id new.id y ≡ false) same apart
      | inr t ↦ find-other_id h new xs rest (rw t at e)
    ]

has_id-restatus :
    (i : ℕ) (p : Session → Bool) (status : Status) (s : Session)
    → has_id i (restatus p status s) ≡ has_id i s
has_id-restatus i p status s = elim (Bool-cases (p s)) [ inl e ↦ rw e refl | inr e ↦ rw e refl ]

has_id-sym : (s t : Session) → has_id s.id t ≡ false → has_id t.id s ≡ false
has_id-sym s t h = ground arith

collides-set_status :
    (new : Session) (p : Session → Bool) (status : Status) (sessions : List Session)
    → any (collides new) (set_status p status sessions) ≡ any (collides new) sessions
collides-set_status new p status [] = refl
collides-set_status new p status (s ∷ ss) = elim (Bool-cases (p s)) [
  | inl e ↦ rw e (rw (collides-set_status new p status ss) refl)
  | inr e ↦ rw e (rw (collides-set_status new p status ss) refl)
]

issue_tokens-issued :
    (hash : Str → Str) (user now id : ℕ) (token : Str) (sessions : List Session) {t : Str}
    {sessions' : List Session}
    → issue_tokens hash user now id token sessions ≡ (issued t, sessions')
    → (any (collides (new_session hash user now id token)) sessions ≡ false)
      × (sessions' ≡ new_session hash user now id token ∷ sessions)
unfolding issue_tokens
issue_tokens-issued hash user now id token sessions {t} {sessions'} h =
    elim (Bool-cases (any (collides (new_session hash user now id token)) sessions)) [
      | inl e ↦ absurd (cc (ap (λ r. r.0) (rw e at h)))
      | inr e ↦ (e, sym (ap (λ r. r.1) (rw e at h)))
    ]

-- A session that the update leaves alone, and a new one in front of it.
issue_tokens-again :
    (hash : Str → Str) (user now id : ℕ) (token : Str) (p : Session → Bool) (first : Session)
    (rest : List Session)
    → p first ≡ false
    → any (collides (new_session hash user now id token)) (first ∷ rest) ≡ false
    → issue_tokens hash user now id token (set_status p revoked (first ∷ rest))
      ≡ (issued token, new_session hash user now id token ∷ first ∷ set_status p revoked rest)
unfolding issue_tokens
issue_tokens-again hash user now id token p first rest other free =
    let new = new_session hash user now id token in
    let clear : any (collides new) (set_status p revoked (first ∷ rest)) ≡ false =
      collides-set_status new p revoked (first ∷ rest) ∙ free in
    rw clear (rw other refl)

rotate-accepts :
    (hash : Str → Str) (users : ℕ → Option User) (now id : ℕ) (fresh : Str) (s : Session)
    (sessions : List Session)
    → is_active s.status ≡ true
    → ltb s.expires_at now ≡ false
    → is_available (users s.user_id) ≡ true
    → rotate hash users now id fresh (some s) sessions
      ≡ issue_tokens hash s.user_id now id fresh (set_status (has_id s.id) revoked sessions)
unfolding rotate
rotate-accepts hash users now id fresh s sessions live in_time available =
    rw (live, in_time, available) refl

-- Two refreshes with one token overlap: the second has read the table before the first writes, at the
-- same time by the clock and with the same users. Where the first is accepted and the new row of the second breaks no unique index, the second is accepted as
-- well, and both new sessions are active.
pub refresh_race :
    (hash : Str → Str) (users : ℕ → Option User) (now id id2 : ℕ) (fresh fresh2 token : Str)
    (sessions : List Session) {t : Str} {sessions' : List Session} {s : Session}
    → refresh hash users now id fresh token sessions sessions ≡ (issued t, sessions')
    → find (has_hash (hash token)) sessions ≡ some s
    → any (collides (new_session hash s.user_id now id2 fresh2)) sessions' ≡ false
    → (rest : List Session) × (refresh hash users now id2 fresh2 token sessions sessions' ≡ (
      issued fresh2,
      new_session hash s.user_id now id2 fresh2 ∷ new_session hash s.user_id now id fresh ∷ rest,
    ))
unfolding refresh
refresh_race hash users now id id2 fresh fresh2 [] sessions h found free =
    absurd (refresh-no_token hash users now id fresh sessions sessions h)
refresh_race hash users now id id2 fresh fresh2 (c ∷ token) sessions {t} {sessions'} {s} h found
      free =
    let (x, e, live, in_time, available, done) =
      refresh-issued hash users now id fresh (c ∷ token) sessions sessions h in
    let same : x ≡ s = cc in
    let (new, after) =
      issue_tokens-issued hash s.user_id now id fresh (set_status (has_id s.id) revoked sessions) (
        subst
          (λ y.
            issue_tokens hash y.user_id now id fresh (set_status (has_id y.id) revoked sessions)
            ≡ (issued t, sessions'))
          same done) in
    let row = new_session hash s.user_id now id fresh in
    let apart =
      find-other_id (hash (c ∷ token)) row _ new
        (find-set_status (hash (c ∷ token)) (has_id s.id) revoked sessions found) in
    let other = has_id-sym row s (sym (has_id-restatus row.id (has_id s.id) revoked s) ∙ apart) in
    (
      set_status (has_id s.id) revoked (set_status (has_id s.id) revoked sessions),
      rw (found, after)
          (rotate-accepts hash users now id2 fresh2 s
              (row ∷ set_status (has_id s.id) revoked sessions)
              (subst (λ y. is_active y.status ≡ true) same live)
              (subst (λ y. ltb y.expires_at now ≡ false) same in_time)
              (subst (λ y. is_available (users y.user_id) ≡ true) same available)
            ∙ issue_tokens-again hash s.user_id now id2 fresh2 (has_id s.id) row
                (set_status (has_id s.id) revoked sessions) other
                (subst (λ l. any (collides (new_session hash s.user_id now id2 fresh2)) l ≡ false)
                  after free)),
    )
