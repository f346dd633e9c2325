-- ===== src/Data/Sets.antt =====
-- A JavaScript `Set` as the list of its members in the order of insertion. `same` is `===` on them.
use bpm_new.Common.{
  Bool, true, false, ◌≡◌, refl, sym, ◌∙◌, subst, List, [], ◌∷◌, ◌++◌, ◌&&◌, ◌||◌, inl, inr, arith,
  Bool-cases, any, any-append, keep, if◌then◌else◌,
}

module _ {ℓ} {A : Type ℓ} (same : A → A → Bool) where
  abbrev pub has : A → List A → Bool
  has x = any (same x)

  abbrev pub add : A → List A → List A
  add x set = if has x set then set else set ++ x ∷ []

  abbrev pub add_all : List A → List A → List A
  add_all [] set = set
  add_all (x ∷ xs) set = add_all xs (add x set)

module _ {ℓ} {A : Type ℓ} (same : A → A → Bool) (sound : (x y : A) → same x y ≡ true → x ≡ y) where
  has-same :
      (x y : A) (set : List A) → has same y set ≡ true → same x y ≡ true → has same x set ≡ true
  has-same x y set h s = subst (λ z. has same z set ≡ true) (sym (sound x y s)) h

  pub has-add :
      (x y : A) (set : List A) → has same x (add same y set) ≡ (has same x set || same x y)
  has-add x y set = elim (Bool-cases (has same y set)) [
    | inl e ↦ elim (Bool-cases (same x y)) [
      | inl s ↦ rw (e, s, has-same x y set e s) refl
      | inr s ↦ rw (e, s) (ground arith)
    ]
    | inr e ↦ rw e (any-append (same x) set (y ∷ []) ∙ ground arith)
  ]

  pub has-add_all :
      (x : A) (xs set : List A)
      → has same x (add_all same xs set) ≡ (has same x set || has same x xs)
  has-add_all x [] set = ground arith
  has-add_all x (y ∷ xs) set =
      has-add_all x xs (add same y set) ∙ rw (has-add x y set) (ground arith)

  pub has-keep :
      (f : A → Bool) (x : A) (xs : List A) → has same x (keep f xs) ≡ (has same x xs && f x)
  has-keep f x [] = refl
  has-keep f x (y ∷ xs) = elim (Bool-cases (f y)) [
    | inl e ↦ elim (Bool-cases (same x y)) [
      | inl s ↦ let m = subst (λ z. f z ≡ true) (sym (sound x y s)) e in rw (e, s, m) refl
      | inr s ↦ rw (e, s) (has-keep f x xs)
    ]
    | inr e ↦ elim (Bool-cases (same x y)) [
      | inl s ↦
          let m = subst (λ z. f z ≡ false) (sym (sound x y s)) e in
          rw (e, s, m) (rw (has-keep f x xs) (rw m (ground arith)))
      | inr s ↦ rw (e, s) (has-keep f x xs)
    ]
  ]
