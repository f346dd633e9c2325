-- ===== src/Engine/Tokens/Lock.antt =====
-- The optimistic lock: of the writers that have read one version of a row, one writes.
use bpm_new.Common.{ℕ, false, ◌≡◌, refl, ap, List, [], ◌∷◌, inl, inr, Bool-cases, any, arith}
use bpm_new.Engine.Tokens.Defs.{
  Token, Db, concurrent_update, conflict, Result, ok, err, at_version, update_tokens, patched,
  update_token_with_lock,
}

-- A patch leaves the key alone.
abbrev pub KeepsId : (Token → Token) → Type 0
KeepsId patch = (t : Token) → (patch t).id ≡ t.id

version_consumed :
    (id version : ℕ) (patch : Token → Token) (ts : List Token)
    → any (at_version id version) (update_tokens (at_version id version) (patched patch version) ts)
      ≡ false
version_consumed id version patch [] = refl
version_consumed id version patch (t ∷ ts) =
    let ih = version_consumed id version patch ts in
    elim (Bool-cases (at_version id version t)) [
      | inl e ↦ rw e (ground (arith, ih))
      | inr e ↦ rw e (rw e ih)
    ]

abbrev tokens_of : Result Db → List Token
tokens_of (ok db) = db.tokens
tokens_of (err _) = []

-- After an update under the lock, no second update with the version that the first one read goes
-- through, whatever it writes: it is a conflict.
pub update_token_with_lock_once :
    (id version : ℕ) (patch patch' : Token → Token) (db : Db) {db' : Db}
    → update_token_with_lock id version patch db ≡ ok db'
    → update_token_with_lock id version patch' db' ≡ err (conflict concurrent_update)
unfolding update_token_with_lock
update_token_with_lock_once id version patch patch' db {db'} h =
    elim (Bool-cases (any (at_version id version) db.tokens)) [
      | inl e ↦ rw (← ap tokens_of (rw e at h)) (rw (version_consumed id version patch db.tokens))
      | inr e ↦ absurd (cc (rw e at h))
    ]
