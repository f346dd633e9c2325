-- ===== src/Engine/Idempotency/Defs.antt =====
-- IdempotencyService with the clean-up of its table, in api/src/engine/cleanup.service.ts. `B` and `R` are
-- the types of bodies and responses, `W` is what handlers work on. `hash` is SHA-256 of the canonical
-- text of a body, `size` the length of the canonical text of a response, and `fails` the errors of an
-- insert that the table itself does not explain, such as a lost connection.
use bpm_new.Common.{
  ℕ, ◌+◌, ◌*◌, Bool, ◌&&◌, not, Option, none, some, List, [], ◌∷◌, Str, str_eq, ◌==◌, ltb,
  if◌then◌else◌, any, find, keep, length, leb, ◌||◌,
}

abbrev pub ttl_ms : ℕ
ttl_ms = 24 * 60 * 60 * 1000

abbrev pub max_response_bytes : ℕ
max_response_bytes = 16 * 1024

-- A row of IDEMPOTENCY_KEYS. The status of a response is 200 in all rows.
pub record Entry (R : Type 0) : Type 0 where
  pub tenant_id : ℕ
  pub endpoint : Str
  pub key : Str
  pub request_hash : Str
  pub response : R
  pub expires_at : ℕ

-- What a request gets: a response, the exception of its handler, or a conflict.
pub data Answer (R : Type 0) : Type 0 where
  answered : R → Answer R
  threw : Str → Answer R
  reused_with_other_body : Answer R

-- What a handler comes to: a response or an exception, and the world after it.
pub data Outcome (R W : Type 0) : Type 0 where
  returns : R → W → Outcome R W
  throws : Str → W → Outcome R W

module _ {R : Type 0} where
  -- The columns of the unique index.
  abbrev pub is_entry : ℕ → Str → Str → Entry R → Bool
  is_entry tenant endpoint key e =
      e.tenant_id == tenant && str_eq e.endpoint endpoint && str_eq e.key key

  abbrev pub is_valid : ℕ → Entry R → Bool
  is_valid now e = ltb now e.expires_at

  unfoldable pub lookup : ℕ → ℕ → Str → Str → List (Entry R) → Option (Entry R)
  lookup now tenant endpoint key = find (λ e. is_entry tenant endpoint key e && is_valid now e)

  abbrev pub new_entry : ℕ → ℕ → Str → Str → Str → R → Entry R
  new_entry now tenant endpoint key h r = record {
    tenant_id = tenant;
    endpoint = endpoint;
    key = key;
    request_hash = h;
    response = r;
    expires_at = now + ttl_ms;
  }

  -- The lengths that the columns ENDPOINT, KEY and REQUEST_HASH allow.
  abbrev pub fits_columns : Entry R → Bool
  fits_columns e =
      leb (length e.endpoint) 64 && leb (length e.key) 255 && leb (length e.request_hash) 64

  -- `store`: a row that breaks the unique index, that is too long for a column, or whose insert fails
  -- for another reason, as `fails` says, is not inserted, and nobody is told.
  unfoldable pub store :
      (R → ℕ) → (Entry R → Bool) → ℕ → ℕ → Str → Str → Str → R → List (Entry R) → List (Entry R)
  store size fails now tenant endpoint key h r entries =
      if ltb max_response_bytes (size r)
      then entries
      else if any (is_entry tenant endpoint key) entries
      then entries
      else if not (fits_columns (new_entry now tenant endpoint key h r))
          || fails (new_entry now tenant endpoint key h r)
      then entries
      else new_entry now tenant endpoint key h r ∷ entries

  -- DELETE of the entries that have expired.
  unfoldable pub clean_up : ℕ → List (Entry R) → List (Entry R)
  clean_up now = keep (λ e. not (ltb e.expires_at now))

module _ {B R W : Type 0} (hash : B → Str) (size : R → ℕ) (fails : Entry R → Bool) where
  -- The call of the handler and the attempt to keep its response.
  abbrev pub settle :
      ℕ → ℕ → Str → Str → Str → Outcome R W → List (Entry R) → Answer R × W × List (Entry R)
  settle now tenant endpoint key h (returns r w) entries =
      (answered r, w, store size fails now tenant endpoint key h r entries)
  settle now tenant endpoint key h (throws e w) entries = (threw e, w, entries)

  abbrev pub unkept : Outcome R W → List (Entry R) → Answer R × W × List (Entry R)
  unkept (returns r w) entries = (answered r, w, entries)
  unkept (throws e w) entries = (threw e, w, entries)

  abbrev pub replay :
      ℕ
      → ℕ
      → Str
      → Str
      → Str
      → (W → Outcome R W)
      → Option (Entry R)
      → W
      → List (Entry R)
      → Answer R × W × List (Entry R)
  replay now tenant endpoint key h handler none w entries =
      settle now tenant endpoint key h (handler w) entries
  replay now tenant endpoint key h handler (some e) w entries =
      if not (str_eq e.request_hash h)
      then (reused_with_other_body, w, entries)
      else (answered e.response, w, entries)

  -- `wrap`, with a key or without one; the empty key counts as none.
  unfoldable pub wrap :
      ℕ
      → ℕ
      → Str
      → Option Str
      → B
      → (W → Outcome R W)
      → W
      → List (Entry R)
      → Answer R × W × List (Entry R)
  wrap now tenant endpoint none body handler w entries = unkept (handler w) entries
  wrap now tenant endpoint (some []) body handler w entries = unkept (handler w) entries
  wrap now tenant endpoint (some (c ∷ k)) body handler w entries =
      replay now tenant endpoint (c ∷ k) (hash body) handler
        (lookup now tenant endpoint (c ∷ k) entries) w entries
