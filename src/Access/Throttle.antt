-- ===== src/Access/Throttle.antt =====
-- LoginThrottleGuard of api/src/auth/login-throttle.guard.ts.
use bpm_new.Common.{
  ℕ, ◌*◌, ◌≤◌, ◌<◌, Bool, true, false, ◌≡◌, refl, subst, Option, none, some, List, [], ◌∷◌, ◌++◌,
  Str, codes, str_eq, str_eq→eq, leb, if◌then◌else◌, length, inl, inr, Bool-cases, arith,
}
use bpm_new.Access.Window.{
  fresh, Tracks, Tracks-prune, Tracks-push, Tracks-later, IsWithin-later, IsWithin, IsWithin-push,
}

abbrev pub login_limit_count : ℕ
login_limit_count = 60

abbrev pub login_limit_window_ms : ℕ
login_limit_window_ms = 60 * 1000

-- The map of the buckets, where an address that is missing has an empty one.
abbrev pub Buckets : Type 0
Buckets = Str → List ℕ

-- req.ip || "unknown"
abbrev pub address : Option Str → Str
address none = codes "unknown"
address (some []) = codes "unknown"
address (some (c ∷ ip)) = c ∷ ip

abbrev pub set_bucket : Str → List ℕ → Buckets → Buckets
set_bucket ip bucket buckets i = if str_eq i ip then bucket else buckets i

-- `canActivate`: false stands for the exception with the status 429.
unfoldable pub can_activate : ℕ → Option Str → Buckets → Bool × Buckets
can_activate now ip buckets =
    let bucket = fresh login_limit_window_ms now (buckets (address ip)) in
    if leb login_limit_count (length bucket)
    then (false, buckets)
    else (true, set_bucket (address ip) (bucket ++ now ∷ []) buckets)

-- A request: its time and its address.
pub record Request : Type 0 where
  pub time : ℕ
  pub ip : Option Str

-- The times of the requests from the address that pass, added to a log.
abbrev pub passed : Str → List ℕ → List Request → Buckets → List ℕ
passed i log [] buckets = log
passed i log (r ∷ requests) buckets =
    let answer = can_activate r.time r.ip buckets in
    passed i (if str_eq i (address r.ip) then if answer.0 then log ++ r.time ∷ [] else log else log)
      requests answer.1

-- The requests come one after the other, from `last` to `end`.
abbrev pub IsOrdered : ℕ → ℕ → List Request → Type 0
IsOrdered last end [] = last ≤ end
IsOrdered last end (r ∷ requests) = (last ≤ r.time) × IsOrdered r.time end requests

pub leb-false : (a b : ℕ) → leb a b ≡ false → b < a
leb-false a b h = ground arith

passed-IsWithin :
    (i : Str) (last end : ℕ) (log : List ℕ) (requests : List Request) (buckets : Buckets)
    → Tracks login_limit_window_ms last log (buckets i)
    → IsWithin login_limit_count login_limit_window_ms last log
    → IsOrdered last end requests
    → length (fresh login_limit_window_ms end (passed i log requests buckets)) ≤ login_limit_count
unfolding can_activate
passed-IsWithin i last end log [] buckets same within order = within end order
passed-IsWithin i last end log (r ∷ requests) buckets same within (begins, order) =
    let bucket = fresh login_limit_window_ms r.time (buckets (address r.ip)) in
    let same' = Tracks-later login_limit_window_ms last r.time log (buckets i) begins same in
    let within' =
      IsWithin-later login_limit_count login_limit_window_ms last r.time log begins within in
    elim (Bool-cases (str_eq i (address r.ip))) [
      | inl e ↦
          let here =
            subst (λ a. Tracks login_limit_window_ms last log (buckets a))
              (str_eq→eq i (address r.ip) e) same in
          let tracks =
            Tracks-prune login_limit_window_ms last r.time log (buckets (address r.ip)) begins
              here in
          elim (Bool-cases (leb login_limit_count (length bucket))) [
            | inl full ↦
                rw (e, full) (passed-IsWithin i r.time end log requests buckets same' within' order)
            | inr room ↦
                rw (e, room)
                  (passed-IsWithin i r.time end (log ++ r.time ∷ []) requests
                    (set_bucket (address r.ip) (bucket ++ r.time ∷ []) buckets)
                    (rw e (Tracks-push login_limit_window_ms r.time log bucket tracks))
                    (IsWithin-push login_limit_count login_limit_window_ms r.time log bucket tracks
                      (leb-false login_limit_count (length bucket) room))
                    order)
          ]
      | inr e ↦ elim (Bool-cases (leb login_limit_count (length bucket))) [
        | inl full ↦
            rw (e, full) (passed-IsWithin i r.time end log requests buckets same' within' order)
        | inr room ↦
            rw (e, room)
              (passed-IsWithin i r.time end log requests
                (set_bucket (address r.ip) (bucket ++ r.time ∷ []) buckets) (rw e same') within'
                order)
      ]
    ]

-- Whatever requests have come from any addresses since the service started, one after the other: of
-- those from one address at most sixty have passed in the minute before any later time.
pub can_activate-IsWithin :
    (i : Str) (start end : ℕ) (requests : List Request)
    → IsOrdered start end requests
    → length (fresh login_limit_window_ms end (passed i [] requests (λ _. []))) ≤ login_limit_count
can_activate-IsWithin i start end requests order =
    passed-IsWithin i start end [] requests (λ _. []) (λ now k. refl) (λ now k. omega arith) order
