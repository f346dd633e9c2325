-- ===== src/Engine/Idempotency/Replay.antt =====
-- A request that is sent again.
use bpm_new.Common.{
  Bool, find-keep, find-both, find-any, find-none, ℕ, ◌+◌, ◌≤◌, ◌<◌, true, false, ◌≡◌, refl, ap,
  subst, not, Option, none, some, List, [], ◌∷◌, Str, str_eq, str_eq_refl, str_eq→eq, ==_refl, ltb,
  if◌then◌else◌, any, find, length, ◌&&◌, ◌||◌, leb, inl, inr, Bool-cases, arith,
}
use bpm_new.Engine.Idempotency.Defs.{
  ttl_ms, max_response_bytes, Entry, answered, reused_with_other_body, Outcome, returns, throws,
  is_entry, is_valid, fits_columns, lookup, new_entry, store, clean_up, settle, unkept, replay,
  wrap,
}

-- How the table changes up to a time: other requests, by any handlers, and the clean-up.
pub data Later (W : Type 0) {B R : Type 0} (hash : B → Str) (size : R → ℕ) (fails : Entry R → Bool)
    (end : ℕ) (entries : List (Entry R)) : List (Entry R) → Type 0 where
  at_once : Later W hash size fails end entries entries
  wrapped :
      {after : List (Entry R)}
      → Later W hash size fails end entries after
      → (now tenant : ℕ) (endpoint : Str) (key : Option Str) (body : B) (handler : W → Outcome R W)
        (w : W)
      → Later W hash size fails end entries
          (wrap hash size fails now tenant endpoint key body handler w after).2
  cleaned_up :
      {after : List (Entry R)}
      → Later W hash size fails end entries after
      → (now : ℕ) → now ≤ end
      → Later W hash size fails end entries (clean_up now after)

module _ {R : Type 0} where
  -- What has been stored under a key stays the first row with that key.
  find-store :
      (size : R → ℕ) (fails : Entry R → Bool) (now tenant tenant2 : ℕ)
      (endpoint endpoint2 key key2 h : Str) (r : R) (es : List (Entry R)) {e : Entry R}
      → find (is_entry tenant endpoint key) es ≡ some e
      → find (is_entry tenant endpoint key) (store size fails now tenant2 endpoint2 key2 h r es)
        ≡ some e
  unfolding store
  find-store size fails now tenant tenant2 endpoint endpoint2 key key2 h r es {e} found =
      elim (Bool-cases (ltb max_response_bytes (size r))) [
        | inl big ↦ rw big found
        | inr small ↦ elim (Bool-cases (any (is_entry tenant2 endpoint2 key2) es)) [
          | inl taken ↦ rw (small, taken) found
          | inr free ↦
              let row = new_entry now tenant2 endpoint2 key2 h r in
              elim (Bool-cases (not (fits_columns row) || fails row)) [
                | inl refused ↦ rw (small, free, refused) found
                | inr good ↦
                    rw (small, free, good)
                      (elim (Bool-cases
                        (is_entry tenant endpoint key (new_entry now tenant2 endpoint2 key2 h r))) [
                          | inr other ↦ rw other found
                          | inl same ↦
                              let taken = find-any (is_entry tenant endpoint key) es found in
                              let t : tenant2 ≡ tenant = ground arith in
                              let p = str_eq→eq endpoint2 endpoint (ground arith) in
                              let k = str_eq→eq key2 key (ground arith) in
                              let free' =
                                subst (λ x. any (is_entry tenant endpoint x) es ≡ false) k
                                  (subst (λ x. any (is_entry tenant x key2) es ≡ false) p
                                    (subst (λ x. any (is_entry x endpoint2 key2) es ≡ false) t
                                      free)) in
                              absurd (cc (taken, free'))
                        ])
              ]
        ]
      ]

module _ {B R W : Type 0} (hash : B → Str) (size : R → ℕ) (fails : Entry R → Bool) where
  find-wrap :
      (now tenant tenant2 : ℕ) (endpoint endpoint2 key : Str) (key2 : Option Str) (body : B)
      (handler : W → Outcome R W) (w : W) (es : List (Entry R)) {e : Entry R}
      → find (is_entry tenant endpoint key) es ≡ some e
      → find
          (is_entry tenant endpoint key)
          (wrap hash size fails now tenant2 endpoint2 key2 body handler w es).2
        ≡ some e
  unfolding wrap
  find-wrap now tenant tenant2 endpoint endpoint2 key none body handler w es {e} found =
      elim (handler w)
        as (λ o. find (is_entry tenant endpoint key) (unkept hash size fails o es).2 ≡ some e) [
          | returns r v ↦ found
          | throws x v ↦ found
        ]
  find-wrap now tenant tenant2 endpoint endpoint2 key (some []) body handler w es {e} found =
      elim (handler w)
        as (λ o. find (is_entry tenant endpoint key) (unkept hash size fails o es).2 ≡ some e) [
          | returns r v ↦ found
          | throws x v ↦ found
        ]
  find-wrap now tenant tenant2 endpoint endpoint2 key (some (c ∷ k)) body handler w es {e} found =
      elim (lookup now tenant2 endpoint2 (c ∷ k) es)
        as (λ l.
          find (is_entry tenant endpoint key)
            (replay hash size fails now tenant2 endpoint2 (c ∷ k) (hash body) handler l w es).2
          ≡ some e) [
            | none ↦
                elim (handler w)
                  as (λ o.
                    find (is_entry tenant endpoint key)
                      (settle hash size fails now tenant2 endpoint2 (c ∷ k) (hash body) o es).2
                    ≡ some e) [
                      | returns r v ↦
                          find-store size fails now tenant tenant2 endpoint endpoint2 key (c ∷ k)
                            (hash body) r es found
                      | throws x v ↦ found
                    ]
            | some x ↦ elim (Bool-cases (str_eq x.request_hash (hash body))) [
              | inl m ↦ rw m found
              | inr m ↦ rw m found
            ]
          ]

  find-Later :
      {end : ℕ} {entries after : List (Entry R)} (tenant : ℕ) (endpoint key : Str) {e : Entry R}
      → Later W hash size fails end entries after
      → end < e.expires_at
      → find (is_entry tenant endpoint key) entries ≡ some e
      → find (is_entry tenant endpoint key) after ≡ some e
  unfolding clean_up
  find-Later tenant endpoint key at_once valid found = found
  find-Later tenant endpoint key (wrapped l now tenant2 endpoint2 key2 body handler w) valid found =
      find-wrap now tenant tenant2 endpoint endpoint2 key key2 body handler w _
        (find-Later tenant endpoint key l valid found)
  find-Later tenant endpoint key {e} (cleaned_up l now soon) valid found =
      find-keep (is_entry tenant endpoint key) (λ x. not (ltb x.expires_at now)) _
        (find-Later tenant endpoint key l valid found) (ground arith)

  -- A first request whose handler ran is one whose table has the response under its key.
  wrap-stored :
      (now tenant : ℕ) (endpoint : Str) (c : ℕ) (k : Str) (body : B) (handler : W → Outcome R W)
      (w w' : W) (es : List (Entry R)) {r : R}
      → handler w ≡ returns r w'
      → size r ≤ max_response_bytes
      → fits_columns (new_entry now tenant endpoint (c ∷ k) (hash body) r) ≡ true
      → fails (new_entry now tenant endpoint (c ∷ k) (hash body) r) ≡ false
      → any (is_entry tenant endpoint (c ∷ k)) es ≡ false
      → wrap hash size fails now tenant endpoint (some (c ∷ k)) body handler w es
        ≡ (answered r, w', new_entry now tenant endpoint (c ∷ k) (hash body) r ∷ es)
  unfolding wrap lookup store
  wrap-stored now tenant endpoint c k body handler w w' es {r} ran small short inserts free =
      let first : lookup now tenant endpoint (c ∷ k) es ≡ none =
        find-none (is_entry tenant endpoint (c ∷ k)) (is_valid now) es free in
      let fits : ltb max_response_bytes (size r) ≡ false = ground arith in
      rw first (rw ran (rw (fits, free, short, inserts) refl))

fits : (a b c : ℕ) → a ≤ 64 → b ≤ 255 → c ≤ 64 → (leb a 64 && leb b 255 && leb c 64) ≡ true
fits a b c h k l = ground arith

-- A request with a key that the table lacks has run its handler, which returned a response whose text
-- is no longer than the cap. The endpoint, the key and the hash of the body are no longer than their
-- columns, and the insert of the response has not failed. Until a day later, whatever requests and clean-ups come in between, each
-- after the other, a further request of the tenant to the endpoint with this key changes neither the
-- world nor the table, whatever its handler would do; and it gets the first response, if its body has
-- the same hash, or the conflict, if it has another.
pub wrap_once :
    {B R W : Type 0} (hash : B → Str) (size : R → ℕ) (fails : Entry R → Bool) (now tenant : ℕ)
    (endpoint : Str) (c : ℕ) (k : Str) (body : B) (handler : W → Outcome R W) (w w' : W)
    (es : List (Entry R)) {r : R} {after : List (Entry R)} (end now2 : ℕ) (body2 : B)
    (handler2 : W → Outcome R W) (w2 : W)
    → handler w ≡ returns r w'
    → size r ≤ max_response_bytes
    → length endpoint ≤ 64
    → length (c ∷ k) ≤ 255
    → length (hash body) ≤ 64
    → fails (new_entry now tenant endpoint (c ∷ k) (hash body) r) ≡ false
    → any (is_entry tenant endpoint (c ∷ k)) es ≡ false
    → Later W hash size fails end
        (wrap hash size fails now tenant endpoint (some (c ∷ k)) body handler w es).2
        after
    → now2 ≤ end
    → end < now + ttl_ms
    → wrap hash size fails now2 tenant endpoint (some (c ∷ k)) body2 handler2 w2 after ≡ (
      (if str_eq (hash body) (hash body2) then answered r else reused_with_other_body),
      w2,
      after,
    )
unfolding wrap lookup
wrap_once {W} hash size fails now tenant endpoint c k body handler w w' es {r} {after} end now2
      body2 handler2 w2 ran small le1 le2 le3 inserts free between soon valid =
    let entry = new_entry now tenant endpoint (c ∷ k) (hash body) r in
    let short : fits_columns entry ≡ true = fits (length endpoint) _ _ le1 le2 le3 in
    let stored =
      wrap-stored hash size fails now tenant endpoint c k body handler w w' es ran small short
        inserts free in
    let self : is_entry tenant endpoint (c ∷ k) entry ≡ true =
      rw (==_refl tenant, str_eq_refl endpoint, str_eq_refl (c ∷ k)) refl in
    let first : find (is_entry tenant endpoint (c ∷ k)) (entry ∷ es) ≡ some entry = rw self refl in
    let there =
      find-Later hash size fails tenant endpoint (c ∷ k)
        (subst (λ l. Later W hash size fails end l after) (ap (λ x. x.2) stored) between) valid
        first in
    let found =
      find-both (is_entry tenant endpoint (c ∷ k)) (is_valid now2) after there (ground arith) in
    rw found (elim (Bool-cases (str_eq (hash body) (hash body2))) [
      | inl m ↦ rw m refl
      | inr m ↦ rw m refl
    ])
