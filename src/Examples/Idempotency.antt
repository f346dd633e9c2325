-- ===== src/Examples/Idempotency.antt =====
-- A request that is sent twice.
use bpm_new.Common.{
  Bool, false, ℕ, ◌+◌, ◌≡◌, refl, some, [], ◌∷◌, Str, codes, str_eq, if◌then◌else◌, arith,
}
use bpm_new.Engine.Idempotency.Defs.{
  Entry, Outcome, returns, answered, reused_with_other_body, new_entry, wrap, lookup, store,
}
use bpm_new.Engine.Idempotency.Replay.{at_once, wrap_once}

-- The handler counts its calls.
abbrev count : ℕ → Outcome ℕ ℕ
count n = returns n (n + 1)

abbrev text : Str → Str
text s = s

abbrev small : ℕ → ℕ
small _ = 2

abbrev never : Entry ℕ → Bool
never _ = false

first_time :
    wrap text small never 10 1 (codes "tasks") (some (codes "k1")) (codes "{}") count 5 []
    ≡ (answered 5, 6, new_entry 10 1 (codes "tasks") (codes "k1") (codes "{}") 5 ∷ [])
unfolding wrap lookup store
first_time = refl

wrap_once_example :
    wrap text small never 30 1
      (codes "tasks")
      (some (codes "k1"))
      (codes "{1}")
      count
      6
      (wrap text small never 10 1 (codes "tasks") (some (codes "k1")) (codes "{}") count 5 []).2
    ≡ (
      (if str_eq (codes "{}") (codes "{1}") then answered 5 else reused_with_other_body),
      6,
      (wrap text small never 10 1 (codes "tasks") (some (codes "k1")) (codes "{}") count 5 []).2,
    )
wrap_once_example =
    wrap_once text small never 10 1 (codes "tasks") b'k' (b'1' ∷ []) (codes "{}") count 5 6 [] 40 30
      (codes "{1}") count 6 refl (omega arith) (omega arith) (omega arith) (omega arith) refl refl
      at_once (omega arith) (omega arith)
