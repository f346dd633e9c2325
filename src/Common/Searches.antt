-- ===== src/Common/Searches.antt =====
-- Searches in a list of which a filter has dropped some elements.
use mathlib.Core.Path.{◌≡◌, refl, ap, subst}
use mathlib.Core.Bool.{Bool, true, false, ◌&&◌}
use mathlib.Core.Option.{none, some}
use mathlib.Core.Logic.{inl, inr}
use mathlib.Core.List.{List, [], ◌∷◌}
use bpm_new.Common.Tests.{neither, Bool-cases}
use bpm_new.Common.Lists.{any, find, keep}

module _ {ℓ} {A : Type ℓ} where
  pub find-keep :
      (p q : A → Bool) (es : List A) {e : A}
      → find p es ≡ some e
      → q e ≡ true
      → find p (keep q es) ≡ some e
  find-keep p q [] h k = cc
  find-keep p q (x ∷ es) {e} h k = elim (Bool-cases (p x)) [
    | inl t ↦
        let same : x ≡ e = cc (rw t at h) in
        rw same (rw k (rw (subst (λ y. p y ≡ true) same t) refl))
    | inr t ↦ elim (Bool-cases (q x)) [
      | inl u ↦ rw (u, t) (find-keep p q es (rw t at h) k)
      | inr u ↦ rw u (find-keep p q es (rw t at h) k)
    ]
  ]

  pub find-both :
      (p q : A → Bool) (es : List A) {e : A}
      → find p es ≡ some e
      → q e ≡ true
      → find (λ x. p x && q x) es ≡ some e
  find-both p q [] h k = cc
  find-both p q (x ∷ es) {e} h k = elim (Bool-cases (p x)) [
    | inl t ↦
        let same : x ≡ e = cc (rw t at h) in
        rw same (rw k (rw (subst (λ y. p y ≡ true) same t) refl))
    | inr t ↦ rw t (find-both p q es (rw t at h) k)
  ]

  pub find-any : (p : A → Bool) (es : List A) {e : A} → find p es ≡ some e → any p es ≡ true
  find-any p [] h = cc
  find-any p (x ∷ es) h = elim (Bool-cases (p x)) [
    | inl t ↦ rw t refl
    | inr t ↦ rw t (find-any p es (rw t at h))
  ]

  pub find-none :
      (p q : A → Bool) (es : List A) → any p es ≡ false → find (λ x. p x && q x) es ≡ none
  find-none p q [] h = refl
  find-none p q (x ∷ es) h =
      let (here, rest) = neither (p x) (any p es) h in rw here (find-none p q es rest)

  pub keep-keep : (p q : A → Bool) (ts : List A) → keep p (keep q ts) ≡ keep (λ t. q t && p t) ts
  keep-keep p q [] = refl
  keep-keep p q (t ∷ ts) = elim (Bool-cases (q t)) [
    | inl e ↦ elim (Bool-cases (p t)) [
      | inl f ↦ rw (e, f, keep-keep p q ts) refl
      | inr f ↦ rw (e, f, keep-keep p q ts) refl
    ]
    | inr e ↦ rw (e, keep-keep p q ts) refl
  ]

  pub keep-cong : (p q : A → Bool) → ((t : A) → p t ≡ q t) → (ts : List A) → keep p ts ≡ keep q ts
  keep-cong p q h [] = refl
  keep-cong p q h (t ∷ ts) = rw (h t, keep-cong p q h ts) refl

  pub keep-all : (ts : List A) → keep (λ _. true) ts ≡ ts
  keep-all [] = refl
  keep-all (t ∷ ts) = ap (λ l. t ∷ l) (keep-all ts)
