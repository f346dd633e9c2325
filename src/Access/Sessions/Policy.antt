-- ===== src/Access/Sessions/Policy.antt =====
-- What is sure of a temporary password.
use bpm_new.Common.{
  ℕ, zero, suc, ◌%◌, ◌≤◌, ◌<◌, Bool, true, ◌≡◌, refl, ap, ◌∙◌, ◌||◌, not, List, [], ◌∷◌, ◌++◌, Str,
  if◌then◌else◌, any, length, length-append, inl, inr, Bool-cases, arith,
}
use bpm_new.Data.Chars.{is_digit, is_letter, all}
use bpm_new.Access.Sessions.Passwords.{
  alphabet, char_at, draw, letter_first, digit_last, generate_temporary_password,
}

length-char_at : (s : Str) (i : ℕ) → i < length s → length (char_at s i) ≡ 1
length-char_at [] i h = absurd (omega (arith, h))
length-char_at (c ∷ s) zero h = refl
length-char_at (c ∷ s) (suc i) h = length-char_at s i (omega (arith, h))

length-draw : (bytes : List ℕ) → length (draw bytes) ≡ length bytes
length-draw [] = refl
length-draw (b ∷ bytes) =
    let one = length-char_at alphabet (b % length alphabet) (omega arith) in
    let both = length-append (char_at alphabet (b % length alphabet)) (draw bytes) in
    let rest = length-draw bytes in omega (arith, one, both, rest)

abbrev is_mixed : ℕ → Bool
is_mixed c = is_letter c || is_digit c

all-char_at : (s : Str) (i : ℕ) → all is_mixed s ≡ true → all is_mixed (char_at s i) ≡ true
all-char_at [] i h = refl
all-char_at (c ∷ s) zero h = ground arith
all-char_at (c ∷ s) (suc i) h = all-char_at s i (ground arith)

all-append :
    (s t : Str) → all is_mixed s ≡ true → all is_mixed t ≡ true → all is_mixed (s ++ t) ≡ true
all-append [] t h k = k
all-append (c ∷ s) t h k = let rest = all-append s t (ground arith) k in ground arith

-- Each character drawn is a letter or a digit.
all-draw : (bytes : List ℕ) → all is_mixed (draw bytes) ≡ true
all-draw [] = refl
all-draw (b ∷ bytes) =
    all-append (char_at alphabet (b % length alphabet)) (draw bytes)
      (all-char_at alphabet (b % length alphabet) refl) (all-draw bytes)

length-letter_first : (s : Str) → 1 ≤ length s → length (letter_first s) ≡ length s
length-letter_first [] h = absurd (omega (arith, h))
length-letter_first (c ∷ s) h = refl

length-digit_last : (s : Str) → 1 ≤ length s → length (digit_last s) ≡ length s
length-digit_last [] h = absurd (omega (arith, h))
length-digit_last (c ∷ []) h = refl
length-digit_last (c ∷ d ∷ s) h = ap suc (length-digit_last (d ∷ s) (omega arith))

any-digit_last : (s : Str) → any is_digit (digit_last s) ≡ true
any-digit_last [] = refl
any-digit_last (c ∷ []) = refl
any-digit_last (c ∷ d ∷ s) = rw (any-digit_last (d ∷ s)) (ground arith)

-- With a letter in front the digit at the end leaves a letter.
any-letter-digit_last :
    (c d : ℕ) (s : Str) → is_letter c ≡ true → any is_letter (digit_last (c ∷ d ∷ s)) ≡ true
any-letter-digit_last c d s h = rw h refl

-- A string of two characters or more, of letters and digits, has a letter and a digit after the two
-- repairs, and is as long as it was.
abbrev repaired : Str → Str
repaired pw =
    let pw' = if not (any is_letter pw) then letter_first pw else pw in
    if not (any is_digit pw') then digit_last pw' else pw'

abbrev IsAllowed : ℕ → Str → Type 0
IsAllowed n pw = (any is_letter pw ≡ true) × (any is_digit pw ≡ true) × (length pw ≡ n)

repair_end :
    (c d : ℕ) (s : Str)
    → any is_letter (c ∷ d ∷ s) ≡ true
    → is_mixed c ≡ true
    → IsAllowed
        (length (c ∷ d ∷ s))
        (if not (any is_digit (c ∷ d ∷ s)) then digit_last (c ∷ d ∷ s) else (c ∷ d ∷ s))
repair_end c d s letter mixed = elim (Bool-cases (any is_digit (c ∷ d ∷ s))) [
  | inl e ↦ rw e (letter, e, refl)
  | inr e ↦
      let first : is_letter c ≡ true = ground arith in
      rw e (
        any-letter-digit_last c d s first,
        any-digit_last (c ∷ d ∷ s),
        length-digit_last (c ∷ d ∷ s) (omega arith),
      )
]

repaired-IsAllowed :
    (c d : ℕ) (s : Str)
    → all is_mixed (c ∷ d ∷ s) ≡ true
    → IsAllowed (length (c ∷ d ∷ s)) (repaired (c ∷ d ∷ s))
repaired-IsAllowed c d s mixed = elim (Bool-cases (any is_letter (c ∷ d ∷ s))) [
  | inl e ↦ rw e (repair_end c d s e (ground arith))
  | inr e ↦ rw e (repair_end b'A' d s refl refl)
]

repaired-long :
    (pw : Str) → 2 ≤ length pw → all is_mixed pw ≡ true → IsAllowed (length pw) (repaired pw)
repaired-long [] h mixed = absurd (omega (arith, h))
repaired-long (c ∷ []) h mixed = absurd (omega (arith, h))
repaired-long (c ∷ d ∷ s) h mixed = repaired-IsAllowed c d s mixed

-- Whatever random bytes are drawn, two or more of them, sixteen in the service: the temporary password
-- has one character for each, among them a letter and a digit.
pub generate_temporary_password-IsAllowed :
    (bytes : List ℕ)
    → 2 ≤ length bytes
    → (any is_letter (generate_temporary_password bytes) ≡ true)
      × (any is_digit (generate_temporary_password bytes) ≡ true)
      × (length (generate_temporary_password bytes) ≡ length bytes)
unfolding generate_temporary_password
generate_temporary_password-IsAllowed bytes h =
    let n = length-draw bytes in
    let (letter, digit, size) = repaired-long (draw bytes) (omega (arith, n, h)) (all-draw bytes) in
    (letter, digit, size ∙ n)
