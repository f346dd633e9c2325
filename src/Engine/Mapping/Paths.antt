-- ===== src/Engine/Mapping/Paths.antt =====
-- Reading along paths.
use bpm_new.Common.{
  ℕ, Bool, true, false, ◌≡◌, ◌≢◌, refl, sym, ap, ◌∙◌, Option, none, some, List, [], ◌∷◌, ◌++◌, Str,
  codes, inl, inr, Bool-cases, arith, &&_iff,
}
use bpm_new.Data.Chars.{is_space, drop_while, take_while, all}
use bpm_new.Data.Split.{split, split-append, split-cons}
use bpm_new.Data.Json.{Json, obj, Fields, Host, property, is_object}
use bpm_new.Engine.Mapping.Defs.{
  walk, get_by_path, bind, is_path, is_path_char, variable_reference, resolve_variable_expression,
}

module _ {N : Type 0} (host : Host N) where
  walk-none : (parts : List Str) → walk host none parts ≡ none
  unfolding walk
  walk-none [] = refl
  walk-none (p ∷ ps) = refl

  walk-append :
      (cur : Option (Json N)) (ps qs : List Str)
      → walk host cur (ps ++ qs) ≡ walk host (walk host cur ps) qs
  unfolding walk
  walk-append cur [] qs = refl
  walk-append none (p ∷ ps) qs = sym (walk-none qs)
  walk-append (some v) (p ∷ ps) qs = elim (Bool-cases (is_object v)) [
    | inl e ↦ rw e (walk-append (property host v p) ps qs)
    | inr e ↦ rw e (sym (walk-none qs))
  ]

  walk-not_object :
      (v : Json N) (p : Str) (ps : List Str)
      → is_object v ≡ false
      → walk host (some v) (p ∷ ps) ≡ none
  unfolding walk
  walk-not_object v p ps o = rw o refl

  get_by_path-walk :
      (v : Json N) (c : ℕ) (s : Str)
      → get_by_path host v (c ∷ s) ≡ walk host (some v) (split b'.' (c ∷ s))
  unfolding get_by_path
  get_by_path-walk v c s =
      let (p, ps, e) = split-cons b'.' (c ∷ s) in
      elim (Bool-cases (is_object v)) [
        | inl o ↦ rw o refl
        | inr o ↦ rw o (rw e (sym (walk-not_object v p ps o)))
      ]

  bind-walk :
      (o : Option (Json N)) (d : ℕ) (q : Str)
      → bind o (λ w. get_by_path host w (d ∷ q)) ≡ walk host o (split b'.' (d ∷ q))
  bind-walk none d q = sym (walk-none _)
  bind-walk (some w) d q = get_by_path-walk w d q

  -- A path of two parts, none of them empty, is read part by part.
  pub get_by_path-append :
      (v : Json N) (p q : Str)
      → p ≢ []
      → q ≢ []
      → get_by_path host v (p ++ b'.' ∷ q) ≡ bind (get_by_path host v p) (λ w. get_by_path host w q)
  get_by_path-append v [] q hp hq = absurd (hp refl)
  get_by_path-append v (c ∷ p) [] hp hq = absurd (hq refl)
  get_by_path-append v (c ∷ p) (d ∷ q) hp hq =
      get_by_path-walk v c (p ++ b'.' ∷ d ∷ q)
      ∙ ap (walk host (some v)) (split-append b'.' (c ∷ p) (d ∷ q))
      ∙ walk-append (some v) (split b'.' (c ∷ p)) (split b'.' (d ∷ q))
      ∙ sym (bind-walk (walk host (some v) (split b'.' (c ∷ p))) d q)
      ∙ ap (λ o. bind o (λ w. get_by_path host w (d ∷ q))) (sym (get_by_path-walk v c p))

-- A path of letters, digits, `_`, `$` and dots is no run of spaces, and ends at a brace.
take_while-all :
    (p : ℕ → Bool) (s t : Str) (c : ℕ)
    → all p s ≡ true
    → p c ≡ false
    → (take_while p (s ++ c ∷ t) ≡ s) × (drop_while p (s ++ c ∷ t) ≡ c ∷ t)
unfolding take_while drop_while
take_while-all p [] t c h k = (rw k refl, rw k refl)
take_while-all p (d ∷ s) t c h k =
    let (hd, hs) = (&&_iff (p d) (all p s)).0 h in
    let (a, b) = take_while-all p s t c hs k in (rw hd (ap (λ l. d ∷ l) a), rw hd b)

path_not_space : (c : ℕ) → is_path_char c ≡ true → is_space c ≡ false
unfolding is_space
path_not_space c h = ground arith

variable_reference-path :
    (name : Str)
    → is_path name ≡ true
    → variable_reference (codes "${" ++ name ++ codes "}") ≡ some name
unfolding variable_reference
variable_reference-path [] h = cc
variable_reference-path (c ∷ s) h =
    let hc : is_path_char c ≡ true = ground arith in
    let hs : all is_path_char s ≡ true = ground arith in
    let (a, b) = take_while-all is_path_char s [] b'}' hs refl in
    rw (path_not_space c hc) (rw hc (rw (a, b) (rw h refl)))

-- A reference `${path}`, where the path is of the characters that a reference allows, gives what
-- getByPath reads at that path of the bag.
pub resolve_variable_expression-path :
    {N : Type 0} (host : Host N) (name : Str) (variables : Fields N)
    → is_path name ≡ true
    → resolve_variable_expression host (codes "${" ++ name ++ codes "}") variables
      ≡ get_by_path host (obj variables) name
unfolding resolve_variable_expression
resolve_variable_expression-path host [] variables h = cc
resolve_variable_expression-path host (c ∷ s) variables h =
    rw (variable_reference-path (c ∷ s) h) (sym (get_by_path-walk host (obj variables) c s))
