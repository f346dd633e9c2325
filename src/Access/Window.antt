-- ===== src/Access/Window.antt =====
-- A log of times of which those within a sliding window count, as AuthService (failures of an e-mail
-- address) and LoginThrottleGuard (logins from an address) keep it.
use bpm_new.Common.{
  ℕ, ◌+◌, ◌≤◌, ◌<◌, Bool, false, ◌≡◌, refl, ap, ◌∙◌, sym, List, [], ◌∷◌, ◌++◌, inl, inr, Bool-cases,
  arith, ltb, keep, length, keep-append, length-append,
}

-- `t > cutoff` where the cutoff is `now` less the window.
abbrev pub is_fresh : ℕ → ℕ → ℕ → Bool
is_fresh window now t = ltb now (t + window)

-- bucket.filter((t) => t > cutoff)
abbrev pub fresh : ℕ → ℕ → List ℕ → List ℕ
fresh window now = keep (is_fresh window now)

-- What is fresh later was fresh before.
pub fresh-later :
    (window earlier later : ℕ) (ts : List ℕ)
    → earlier ≤ later
    → fresh window later (fresh window earlier ts) ≡ fresh window later ts
fresh-later window earlier later [] h = refl
fresh-later window earlier later (t ∷ ts) h = elim (Bool-cases (is_fresh window earlier t)) [
  | inl e ↦ elim (Bool-cases (is_fresh window later t)) [
    | inl l ↦ rw (e, l, fresh-later window earlier later ts h) refl
    | inr l ↦ rw (e, l, fresh-later window earlier later ts h) refl
  ]
  | inr e ↦
      let l : is_fresh window later t ≡ false = ground arith in
      rw (e, l, fresh-later window earlier later ts h) refl
]

pub length-fresh : (window now : ℕ) (ts : List ℕ) → length (fresh window now ts) ≤ length ts
length-fresh window now [] = omega arith
length-fresh window now (t ∷ ts) =
    let rest = length-fresh window now ts in
    elim (Bool-cases (is_fresh window now t)) [
      | inl e ↦ rw e (omega arith)
      | inr e ↦ rw e (omega arith)
    ]

-- At each time from `last` on, the same of the log is fresh as of the bucket.
abbrev pub Tracks : ℕ → ℕ → List ℕ → List ℕ → Type 0
Tracks window last log bucket =
    (now : ℕ) → last ≤ now → fresh window now log ≡ fresh window now bucket

pub Tracks-prune :
    (window last now : ℕ) (log bucket : List ℕ)
    → last ≤ now
    → Tracks window last log bucket
    → Tracks window now log (fresh window now bucket)
Tracks-prune window last now log bucket h same later k =
    same later (omega (arith, h, k)) ∙ sym (fresh-later window now later bucket k)

pub Tracks-push :
    (window now : ℕ) (log bucket : List ℕ)
    → Tracks window now log bucket
    → Tracks window now (log ++ now ∷ []) (bucket ++ now ∷ [])
Tracks-push window now log bucket same later k =
    keep-append (is_fresh window later) log (now ∷ [])
    ∙ rw (same later k) (sym (keep-append (is_fresh window later) bucket (now ∷ [])))

-- From `last` on at most `limit` times of the log are fresh.
abbrev pub IsWithin : ℕ → ℕ → ℕ → List ℕ → Type 0
IsWithin limit window last log = (now : ℕ) → last ≤ now → length (fresh window now log) ≤ limit

pub IsWithin-push :
    (limit window now : ℕ) (log bucket : List ℕ)
    → Tracks window now log bucket
    → length bucket < limit
    → IsWithin limit window now (log ++ now ∷ [])
IsWithin-push limit window now log bucket same h later k =
    let one = length-append bucket (now ∷ []) in
    let fewer = length-fresh window later (bucket ++ now ∷ []) in
    let e = ap length (Tracks-push window now log bucket same later k) in
    omega (arith, one, fewer, e, h)

pub Tracks-later :
    (window last now : ℕ) (log bucket : List ℕ)
    → last ≤ now
    → Tracks window last log bucket
    → Tracks window now log bucket
Tracks-later window last now log bucket h same later k = same later (omega (arith, h, k))

pub IsWithin-later :
    (limit window last now : ℕ) (log : List ℕ)
    → last ≤ now
    → IsWithin limit window last log
    → IsWithin limit window now log
IsWithin-later limit window last now log h within later k = within later (omega (arith, h, k))
