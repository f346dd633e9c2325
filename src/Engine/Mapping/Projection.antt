-- ===== src/Engine/Mapping/Projection.antt =====
-- What a mapping projects.
use bpm_new.Common.{
  ℕ, true, false, sym, [], ◌∷◌, codes, ◌==◌, ==_iff, ◌≢◌, ◌≡◌, refl, ◌∙◌, Option, none, some, Str,
  inl, inr, Bool-cases, arith, if◌then◌else◌, str_eq, str_eq_refl, str_eq→eq, subst,
}
use bpm_new.Data.Json.{
  Json, null, bool, num, str, arr, obj, Fields, end, field, Host, get_field, set_field,
}
use bpm_new.Engine.Mapping.Defs.{
  get_by_path, entry_path, entry_from, entry_object, bind, resolve_entry, put_defined,
  apply_entries, apply_mapping,
}

module _ {N : Type 0} where
  pub get_field-set_field :
      (k j : Str) (v : Json N) (fs : Fields N)
      → get_field j (set_field k v fs) ≡ (if str_eq k j then some v else get_field j fs)
  unfolding get_field set_field
  get_field-set_field k j v end = refl
  get_field-set_field k j v (field i w fs) = elim (Bool-cases (str_eq i k)) [
    | inl e ↦ rw e (rw (str_eq→eq i k e) (ground arith))
    | inr e ↦
        rw e (
          ground (arith, str_eq→eq i j, str_eq→eq k j, str_eq_refl j, get_field-set_field k j v fs))
  ]

  -- The keys of an object are distinct.
  abbrev pub DistinctKeys : Fields N → Type 0
  DistinctKeys end = Unit
  DistinctKeys (field k v fs) = (get_field k fs ≡ none) × DistinctKeys fs

  -- A value if there is one, and otherwise what was there.
  abbrev overwrite : Option (Json N) → Option (Json N) → Option (Json N)
  overwrite none old = old
  overwrite (some v) old = some v

overwrite-none : {N : Type 0} (o : Option (Json N)) → overwrite o none ≡ o
overwrite-none none = refl
overwrite-none (some v) = refl

module _ {N : Type 0} (host : Host N) (source : Json N) where
  get_field-put_defined :
      (k j : Str) (o : Option (Json N)) (out : Fields N)
      → str_eq j (codes "__proto__") ≡ false
      → get_field j (put_defined host k o out)
        ≡ (if str_eq k j then overwrite o (get_field j out) else get_field j out)
  get_field-put_defined k j none out h = ground arith
  get_field-put_defined k j (some v) out h = elim (Bool-cases (str_eq k (codes "__proto__"))) [
    | inl e ↦
        let other : str_eq k j ≡ false = elim (Bool-cases (str_eq k j)) [
          | inl same ↦
              let p : j ≡ codes "__proto__" =
                sym (str_eq→eq k j same) ∙ str_eq→eq k (codes "__proto__") e in
              let yes' : str_eq j (codes "__proto__") ≡ true =
                rw p (str_eq_refl (codes "__proto__")) in
              absurd (cc (h, yes'))
          | inr other ↦ other
        ] in
        rw (e, other) refl
    | inr e ↦ rw e (get_field-set_field k j v out)
  ]

  get_field-apply_entries :
      (k : Str) (m out : Fields N)
      → str_eq k (codes "__proto__") ≡ false
      → DistinctKeys m
      → get_field k (apply_entries host m source out)
        ≡ overwrite (bind (get_field k m) (λ e. resolve_entry host e source)) (get_field k out)
  unfolding apply_entries get_field
  get_field-apply_entries k end out h d = refl
  get_field-apply_entries k (field t e rest) out h d =
      let o = resolve_entry host e source in
      let ih = get_field-apply_entries k rest (put_defined host t o out) h d.1 in
      let stored = get_field-put_defined t k o out h in
      elim (Bool-cases (str_eq t k)) [
        | inl same ↦
            let gone = subst (λ i. get_field i rest ≡ none) (str_eq→eq t k same) d.0 in
            rw same (ih ∙ rw gone (rw stored (rw same refl)))
        | inr other ↦ rw other (ih ∙ rw stored (rw other refl))
      ]

  put_defined-no_proto :
      (t : Str) (o : Option (Json N)) (out : Fields N)
      → get_field (codes "__proto__") out ≡ none
      → get_field (codes "__proto__") (put_defined host t o out) ≡ none
  put_defined-no_proto t none out h = h
  put_defined-no_proto t (some v) out h = elim (Bool-cases (str_eq t (codes "__proto__"))) [
    | inl e ↦ rw e h
    | inr e ↦ rw e (get_field-set_field t (codes "__proto__") v out ∙ rw e h)
  ]

  -- The result never has the key __proto__.
  no_proto :
      (m out : Fields N)
      → get_field (codes "__proto__") out ≡ none
      → get_field (codes "__proto__") (apply_entries host m source out) ≡ none
  unfolding apply_entries
  no_proto end out h = h
  no_proto (field t e rest) out h =
      no_proto rest (put_defined host t (resolve_entry host e source) out)
        (put_defined-no_proto t (resolve_entry host e source) out h)

  -- What an entry of a mapping stands for: a text after $ for the value at that path, another text for
  -- itself, an object with the key "from" for the value at the path that it holds there, if that is a
  -- text, and for nothing otherwise, and any other value for itself.
  pub data Resolves : Json N → Option (Json N) → Type 0 where
    path : (p : Str) → Resolves (str (b'$' ∷ p)) (get_by_path host source p)
    empty_text : Resolves (str []) (some (str []))
    text : (c : ℕ) (s : Str) → c ≢ b'$' → Resolves (str (c ∷ s)) (some (str (c ∷ s)))
    from_path :
        (fs : Fields N) (p : Str)
        → get_field (codes "from") fs ≡ some (str p)
        → Resolves (obj fs) (get_by_path host source p)
    from_other :
        (fs : Fields N) (v : Json N)
        → get_field (codes "from") fs ≡ some v
        → ((p : Str) → v ≢ str p)
        → Resolves (obj fs) none
    object :
        (fs : Fields N) → get_field (codes "from") fs ≡ none → Resolves (obj fs) (some (obj fs))
    other :
        (v : Json N)
        → ((s : Str) → v ≢ str s)
        → ((fs : Fields N) → v ≢ obj fs)
        → Resolves v (some v)

  object-Resolves :
      (fs : Fields N) (o : Option (Json N))
      → get_field (codes "from") fs ≡ o
      → Resolves (obj fs) (entry_from host o fs source)
  unfolding entry_from entry_path
  object-Resolves fs none e = (object fs e)
  object-Resolves fs (some (str p)) e = (from_path fs p e)
  object-Resolves fs (some null) e = (from_other fs null e (λ p. λ h. cc h))
  object-Resolves fs (some (bool b)) e = (from_other fs (bool b) e (λ p. λ h. cc h))
  object-Resolves fs (some (num n)) e = (from_other fs (num n) e (λ p. λ h. cc h))
  object-Resolves fs (some (arr xs)) e = (from_other fs (arr xs) e (λ p. λ h. cc h))
  object-Resolves fs (some (obj gs)) e = (from_other fs (obj gs) e (λ p. λ h. cc h))

  resolve_entry-Resolves : (e : Json N) → Resolves e (resolve_entry host e source)
  unfolding resolve_entry entry_object
  resolve_entry-Resolves null = other null (λ s. λ h. cc h) (λ fs. λ h. cc h)
  resolve_entry-Resolves (bool b) = other (bool b) (λ s. λ h. cc h) (λ fs. λ h. cc h)
  resolve_entry-Resolves (num n) = other (num n) (λ s. λ h. cc h) (λ fs. λ h. cc h)
  resolve_entry-Resolves (arr xs) = other (arr xs) (λ s. λ h. cc h) (λ fs. λ h. cc h)
  resolve_entry-Resolves (str []) = empty_text
  resolve_entry-Resolves (str (c ∷ s)) = elim (Bool-cases (c == b'$')) [
    | inl e ↦ rw e (
        subst (λ d. Resolves (str (d ∷ s)) (get_by_path host source s)) (sym ((==_iff c b'$').0 e))
          (path s))
    | inr e ↦ rw e (text c s (λ h. cc ((==_iff c b'$').1 h, e)))
  ]
  resolve_entry-Resolves (obj fs) = object-Resolves fs (get_field (codes "from") fs) refl

  -- What the result holds under a key, from what the mapping holds there.
  abbrev pub IsProjected : Str → Option (Json N) → Option (Json N) → Type 0
  IsProjected k none o = o ≡ none
  IsProjected k (some e) o = if str_eq k (codes "__proto__") then o ≡ none else Resolves e o

  proto-IsProjected : (o v : Option (Json N)) → v ≡ none → IsProjected (codes "__proto__") o v
  proto-IsProjected none v h = h
  proto-IsProjected (some e) v h = h

  entry-IsProjected :
      (k : Str) (o : Option (Json N))
      → str_eq k (codes "__proto__") ≡ false
      → IsProjected k o (bind o (λ e. resolve_entry host e source))
  entry-IsProjected k none h = refl
  entry-IsProjected k (some e) h = rw h (resolve_entry-Resolves e)

  -- For a mapping with distinct keys: under a key of the mapping the result holds what the entry stands
  -- for, and nothing if it stands for nothing or if the key is __proto__; it has no other keys.
  pub get_field-apply_mapping :
      (k : Str) (m : Fields N)
      → DistinctKeys m
      → IsProjected k (get_field k m) (get_field k (apply_mapping host (some m) source))
  unfolding apply_mapping get_field
  get_field-apply_mapping k m d = elim (Bool-cases (str_eq k (codes "__proto__"))) [
    | inl e ↦
        let p = str_eq→eq k (codes "__proto__") e in
        rw p (proto-IsProjected (get_field (codes "__proto__") m) _ (no_proto m end refl))
    | inr e ↦
        subst (IsProjected k (get_field k m))
          (sym (get_field-apply_entries k m end e d ∙ overwrite-none _))
          (entry-IsProjected k (get_field k m) e)
  ]
