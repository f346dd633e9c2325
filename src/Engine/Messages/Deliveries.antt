-- ===== src/Engine/Messages/Deliveries.antt =====
-- What a delivery of a message finds, and what it leaves to a delivery beside it.
use mathlib.Core.List.{Memᴰ}
use bpm_new.Common.{ℕ, ◌≤◌, Bool, true, false, ◌≡◌, Option, none, some, List, Str, ◌==◌, All}
use bpm_new.Engine.Messages.Defs.{Subscription, is_match}

abbrev Holds : (Subscription → Type 0) → Option Subscription → Type 0
Holds P none = Unit
Holds P (some s) = P s

abbrev IsOldest : List Subscription → Subscription → Type 0
IsOldest subs s = All (λ t. s.created_at ≤ t.created_at) subs

module _ (tenant : ℕ) (name key : Str) (subs : List Subscription) where
  -- Nothing is found where no row matches; a row that is found is one of the table, matches, and is
  -- no younger than any other row that does.
  abbrev pub IsFound : (ℕ → Bool) → Option Subscription → Type 0
  IsFound locked none = All (λ t. is_match locked tenant name key t ≡ false) subs
  IsFound locked (some s) =
      Memᴰ s subs
      × (is_match locked tenant name key s ≡ true)
      × All (λ t. is_match locked tenant name key t ≡ true → s.created_at ≤ t.created_at) subs

  -- The row that a delivery has found is locked until its transaction ends.
  abbrev pub locked_by : Option Subscription → ℕ → Bool
  locked_by none i = false
  locked_by (some s) i = i == s.id

  -- A row found beside another is another, and no older; none is found beside nothing.
  abbrev pub Follows : Option Subscription → Option Subscription → Type 0
  Follows o none = Unit
  Follows none (some t) = ⊥
  Follows (some s) (some t) = ((t.id == s.id) ≡ false) × (s.created_at ≤ t.created_at)
