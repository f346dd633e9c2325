-- ===== src/Data/Split.antt =====
-- `split` by one character.
use bpm_new.Common.{
  ℕ, List, [], ◌∷◌, ◌++◌, Str, ◌==◌, if◌then◌else◌, ◌≡◌, refl, ap, Bool-cases, inl, inr, ==_refl,
  ==_iff, subst, ◌∙◌,
}

-- Puts a character in front of the first part.
abbrev pub push_first : ℕ → List Str → List Str
push_first c [] = (c ∷ []) ∷ []
push_first c (p ∷ ps) = (c ∷ p) ∷ ps

unfoldable pub split : ℕ → Str → List Str
split sep [] = [] ∷ []
split sep (c ∷ s) = if c == sep then [] ∷ split sep s else push_first c (split sep s)

abbrev pub join : ℕ → List Str → Str
join sep [] = []
join sep (p ∷ []) = p
join sep (p ∷ q ∷ ps) = p ++ sep ∷ join sep (q ∷ ps)

-- There is always a first part.
pub split-cons : (sep : ℕ) (s : Str) → (p : Str) × (ps : List Str) × (split sep s ≡ p ∷ ps)
unfolding split
split-cons sep [] = ([], [], refl)
split-cons sep (c ∷ s) =
    let (p, ps, e) = split-cons sep s in
    elim (Bool-cases (c == sep)) [
      | inl h ↦ rw h ([], split sep s, refl)
      | inr h ↦ rw h (rw e (c ∷ p, ps, refl))
    ]

pub split-append : (sep : ℕ) (s t : Str) → split sep (s ++ sep ∷ t) ≡ split sep s ++ split sep t
unfolding split
split-append sep [] t = rw (==_refl sep)
split-append sep (c ∷ s) t =
    let (p, ps, e) = split-cons sep s in
    elim (Bool-cases (c == sep)) [
      | inl h ↦ rw h (ap (λ l. [] ∷ l) (split-append sep s t))
      | inr h ↦ rw h (rw (split-append sep s t) (rw e refl))
    ]

join-push_first :
    (sep c : ℕ) (p : Str) (ps : List Str) → join sep (push_first c (p ∷ ps)) ≡ c ∷ join sep (p ∷ ps)
join-push_first sep c p [] = refl
join-push_first sep c p (q ∷ ps) = refl

-- The parts joined again are the string.
pub join-split : (sep : ℕ) (s : Str) → join sep (split sep s) ≡ s
unfolding split
join-split sep [] = refl
join-split sep (c ∷ s) =
    let (p, ps, e) = split-cons sep s in
    let ih : join sep (p ∷ ps) ≡ s = subst (λ l. join sep l ≡ s) e (join-split sep s) in
    elim (Bool-cases (c == sep)) [
      | inl h ↦ rw (h, e, ih, (==_iff c sep).0 h) refl
      | inr h ↦ rw h (rw e (join-push_first sep c p ps ∙ ap (λ t. c ∷ t) ih))
    ]
