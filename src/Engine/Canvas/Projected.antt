-- ===== src/Engine/Canvas/Projected.antt =====
-- What holds of a projected canvas, and of its start event.
use bpm_new.Common.{
  Bool, true, false, ◌&&◌, &&_iff, ◌≡◌, refl, ap, ◌↔◌, Option, none, some, List, [], ◌∷◌, ◌++◌, Str,
  codes, str_eq, any, prepend, All, keep, Bool-cases, inl, inr, subst, IsOnly,
}
use bpm_new.Data.Json.{Json, Items, nil, cons, Host, property, is_object}
use bpm_new.Engine.Canvas.Defs.{
  Node, FlowData, Edge, Canvas, is_start, single_start, find_start_event, found,
}
use bpm_new.Engine.Canvas.Project.{
  as_string, as_object, as_array, between_nodes, project_flow_data, project_edge, project_edges,
  project_canvas,
}

module _ {N : Type 0} where
  abbrev pub has_node : List (Node N) → Str → Bool
  has_node nodes id = any (λ n. str_eq n.id id) nodes

  -- Both ends of the edge are nodes.
  abbrev pub IsAttached : List (Node N) → Edge → Type 0
  IsAttached nodes e = (has_node nodes e.source ≡ true) × (has_node nodes e.target ≡ true)

  between_nodes-IsAttached :
      (nodes : List (Node N)) (id source target : Option Str) (d : Option FlowData) (es : List Edge)
      → All (IsAttached nodes) es
      → All (IsAttached nodes) (prepend (between_nodes nodes id source target d) es)
  between_nodes-IsAttached nodes (some i) (some s) (some t) d es h =
      elim (Bool-cases (has_node nodes s && has_node nodes t)) [
        | inl e ↦ rw e ((&&_iff (has_node nodes s) (has_node nodes t)).0 e, h)
        | inr e ↦ rw e h
      ]
  between_nodes-IsAttached nodes none _ _ d es h = h
  between_nodes-IsAttached nodes (some i) none _ d es h = h
  between_nodes-IsAttached nodes (some i) (some s) none d es h = h

module _ {N : Type 0} (host : Host N) where
  project_edges-IsAttached :
      (nodes : List (Node N)) (es : Items N) → All (IsAttached nodes) (project_edges host nodes es)
  unfolding project_edges project_edge
  project_edges-IsAttached nodes nil = tt
  project_edges-IsAttached nodes (cons e es) = elim (Bool-cases (is_object e)) [
    | inl o ↦ rw o (
        between_nodes-IsAttached nodes (as_string (property host e (codes "id")))
          (as_string (property host e (codes "source")))
          (as_string (property host e (codes "target")))
          (project_flow_data host (as_object (property host e (codes "data")))) _
          (project_edges-IsAttached nodes es))
    | inr o ↦ rw o (project_edges-IsAttached nodes es)
  ]

  abbrev AreAttached : Option (Canvas N) → Type 0
  AreAttached none = Unit
  AreAttached (some c) = All (IsAttached c.nodes) c.edges

  project_canvas-AreAttached : (raw : Json N) → AreAttached (project_canvas host raw)
  unfolding project_canvas
  project_canvas-AreAttached raw = elim (Bool-cases (is_object raw)) [
    | inl o ↦ rw o (project_edges-IsAttached _ (as_array (property host raw (codes "edges"))))
    | inr o ↦ rw o tt
  ]

  -- Whatever JSON is stored, every edge of the projected canvas joins two of its nodes.
  pub project_canvas-IsAttached :
      (raw : Json N) {c : Canvas N}
      → project_canvas host raw ≡ some c
      → All (IsAttached c.nodes) c.edges
  project_canvas-IsAttached raw h = subst AreAttached h (project_canvas-AreAttached raw)

module _ {ℓ} {A : Type ℓ} (p : A → Bool) where
  keep_none : (xs : List A) → keep p xs ≡ [] → All (λ y. p y ≡ false) xs
  keep_none [] h = tt
  keep_none (x ∷ xs) h = elim (Bool-cases (p x)) [
    | inl e ↦ absurd (cc (rw e at h))
    | inr e ↦ (e, keep_none xs (rw e at h))
  ]

  none_keep : (xs : List A) → All (λ y. p y ≡ false) xs → keep p xs ≡ []
  none_keep [] h = refl
  none_keep (x ∷ xs) h = rw h.0 (none_keep xs h.1)

  keep_one : (x : A) (xs : List A) → keep p xs ≡ x ∷ [] → IsOnly p x xs
  keep_one x [] h = absurd (cc)
  keep_one x (y ∷ ys) h = elim (Bool-cases (p y)) [
    | inl e ↦
        let h' = rw e at h in
        ([], ys, ap (λ z. z ∷ ys) (cc), tt, subst (λ z. p z ≡ true) (cc) e, keep_none ys (cc))
    | inr e ↦
        let (before, after, a, b, c, d) = keep_one x ys (rw e at h) in
        (y ∷ before, after, ap (λ l. y ∷ l) a, (e, b), c, d)
  ]

  one_keep : (x : A) (xs : List A) → IsOnly p x xs → keep p xs ≡ x ∷ []
  one_keep x xs (before, after, a, b, c, d) = rw a (go before b)
    where
      go : (l : List A) → All (λ y. p y ≡ false) l → keep p (l ++ x ∷ after) ≡ x ∷ []
      go [] h = rw c (ap (λ l. x ∷ l) (none_keep after d))
      go (y ∷ l) h = rw h.0 (go l h.1)

single_start-found :
    {N : Type 0} (n : Node N) (l : List (Node N)) → single_start l ≡ found n → l ≡ n ∷ []
single_start-found n [] h = cc
single_start-found n (m ∷ []) h = cc
single_start-found n (m ∷ k ∷ l) h = cc

-- A start event is found exactly if one node of the canvas, and no other, is a start event that
-- stands in no other node.
pub find_start_event_iff :
    {N : Type 0} (c : Canvas N) (n : Node N)
    → (find_start_event c ≡ found n) ↔ IsOnly is_start n c.nodes
unfolding find_start_event
find_start_event_iff c n = (
  λ h. keep_one is_start n c.nodes (single_start-found n (keep is_start c.nodes) h),
  λ h. ap single_start (one_keep is_start n c.nodes h),
)
