-- ===== src/Engine/Mapping/Defs.antt =====
-- getByPath, applyMapping, resolveVariableExpression and resolveDirectUserAssignee.
use bpm_new.Common.{
  ℕ, Bool, true, false, ◌&&◌, ◌||◌, Option, none, some, List, [], ◌∷◌, Str, codes, ◌==◌, leb,
  length, str_eq, if◌then◌else◌,
}
use bpm_new.Data.Chars.{is_digit, is_letter, is_space, drop_while, take_while, trim, is_empty, all}
use bpm_new.Data.Split.{split}
use bpm_new.Data.Json.{
  Json, null, str, obj, Fields, end, field, Host, get_field, set_field, property, is_object,
}

module _ {N : Type 0} (host : Host N) where
  -- The loop of `getByPath`; `none` is `undefined`.
  unfoldable pub walk : Option (Json N) → List Str → Option (Json N)
  walk cur [] = cur
  walk none (part ∷ parts) = none
  walk (some v) (part ∷ parts) = if is_object v then walk (property host v part) parts else none

  unfoldable pub get_by_path : Json N → Str → Option (Json N)
  unfolding walk
  get_by_path source path =
      if is_object source
      then (if is_empty path then some source else walk (some source) (split b'.' path))
      else none

  -- One entry of a mapping, which is any JSON value.
  unfoldable pub entry_path : Option (Json N) → Json N → Option (Json N)
  entry_path (some (str path)) source = get_by_path source path
  entry_path _ source = none

  -- `"from" in entry` asks the prototype too, which has no such property.
  unfoldable pub entry_from : Option (Json N) → Fields N → Json N → Option (Json N)
  unfolding entry_path
  entry_from none fs source = some (obj fs)
  entry_from (some path) fs source = entry_path (some path) source

  unfoldable pub entry_object : Fields N → Json N → Option (Json N)
  unfolding entry_from
  entry_object fs source = entry_from (get_field (codes "from") fs) fs source

  unfoldable pub resolve_entry : Json N → Json N → Option (Json N)
  unfolding entry_object
  resolve_entry (str []) source = some (str [])
  resolve_entry (str (c ∷ s)) source =
      if c == b'$' then get_by_path source s else some (str (c ∷ s))
  resolve_entry (obj fs) source = entry_object fs source
  resolve_entry entry source = some entry

  -- `out[target] = value`, which for the key __proto__ sets the prototype of the result and gives it no
  -- property of its own.
  abbrev pub put_defined : Str → Option (Json N) → Fields N → Fields N
  put_defined target none out = out
  put_defined target (some v) out =
      if str_eq target (codes "__proto__") then out else set_field target v out

  -- The loop of `applyMapping`.
  unfoldable pub apply_entries : Fields N → Json N → Fields N → Fields N
  apply_entries end source out = out
  apply_entries (field target entry rest) source out =
      apply_entries rest source (put_defined target (resolve_entry entry source) out)

  -- `none` is a node without mappings.
  unfoldable pub apply_mapping : Option (Fields N) → Json N → Fields N
  unfolding apply_entries
  apply_mapping none source = end
  apply_mapping (some mappings) source = apply_entries mappings source end

abbrev pub after_prefix : Str → Str → Option Str
after_prefix [] s = some s
after_prefix (a ∷ t) [] = none
after_prefix (a ∷ t) (c ∷ s) = if c == a then after_prefix t s else none

abbrev pub bind {ℓ κ} : {A : Type ℓ} {B : Type κ} → Option A → (A → Option B) → Option B
bind none f = none
bind (some a) f = f a

-- [A-Za-z_$] and [A-Za-z0-9_$.]
abbrev pub is_path_start : ℕ → Bool
is_path_start c = is_letter c || c == b'_' || c == b'$'

abbrev pub is_path_char : ℕ → Bool
is_path_char c = is_letter c || is_digit c || c == b'_' || c == b'$' || c == b'.'

abbrev pub is_path : Str → Bool
is_path [] = false
is_path (c ∷ s) = is_path_start c && all is_path_char s

abbrev pub space_only : Str → Bool
space_only s = is_empty (drop_while is_space s)

-- What the regular expression of resolveVariableExpression captures,
-- /^\s*\$\{\s*([A-Za-z_$][A-Za-z0-9_$.]*)\s*\}\s*$/. No class of it meets the next one, so the longest
-- run is the only match.
unfoldable pub variable_reference : Str → Option Str
unfolding drop_while take_while is_space
variable_reference expr = bind (after_prefix (codes "${") (drop_while is_space expr)) λ inner.
    let body = drop_while is_space inner in
    let name = take_while is_path_char body in
    bind (after_prefix (codes "}") (drop_while is_space (drop_while is_path_char body)))
      λ rest. if is_path name && space_only rest then some name else none

-- /^[0-9a-f]{8}-[0-9a-f]{4}-[0-9a-f]{4}-[0-9a-f]{4}-[0-9a-f]{12}$/i
abbrev pub is_hex : ℕ → Bool
is_hex c = is_digit c || leb b'a' c && leb c b'f' || leb b'A' c && leb c b'F'

abbrev pub groups_match : List ℕ → List Str → Bool
groups_match [] [] = true
groups_match (n ∷ ns) (g ∷ gs) = length g == n && all is_hex g && groups_match ns gs
groups_match _ _ = false

unfoldable pub is_uuid : Str → Bool
unfolding split
is_uuid s = groups_match (8 ∷ 4 ∷ 4 ∷ 4 ∷ 12 ∷ []) (split b'-' s)

pub data Diagnostic : Type 0 where
  not_a_uuid empty_role_key empty_expression : Diagnostic
  unresolved_expression expression_not_uuid unsupported_type : Str → Diagnostic

-- A missing property and one that is null are both `none`.
pub record Assignment : Type 0 where
  pub assignee : Option Str
  pub candidate_role : Option Str
  pub diagnostic : Option Diagnostic

abbrev pub nobody : Option Diagnostic → Assignment
nobody d = record { assignee = none; candidate_role = none; diagnostic = d }

abbrev pub user : Str → Assignment
user s = record { assignee = some s; candidate_role = none; diagnostic = none }

abbrev pub role : Str → Assignment
role s = record { assignee = none; candidate_role = some s; diagnostic = none }

module _ {N : Type 0} (host : Host N) where
  unfoldable pub resolve_variable_expression : Str → Fields N → Option (Json N)
  unfolding variable_reference walk split
  resolve_variable_expression expr variables =
      bind (variable_reference expr) λ name. walk host (some (obj variables)) (split b'.' name)

  unfoldable pub assign_direct : Option (Json N) → Assignment
  unfolding is_uuid
  assign_direct (some (str value)) = if is_uuid value then user value else nobody (some not_a_uuid)
  assign_direct _ = nobody (some not_a_uuid)

  unfoldable pub assign_role : Option (Json N) → Assignment
  unfolding trim
  assign_role (some (str value)) =
      if is_empty (trim value) then nobody (some empty_role_key) else role (trim value)
  assign_role _ = nobody (some empty_role_key)

  unfoldable pub assign_resolved : Str → Option (Json N) → Assignment
  unfolding is_uuid
  assign_resolved expr none = nobody (some (unresolved_expression expr))
  assign_resolved expr (some null) = nobody (some (unresolved_expression expr))
  assign_resolved expr (some (str [])) = nobody (some (unresolved_expression expr))
  assign_resolved expr (some (str (c ∷ s))) =
      if is_uuid (c ∷ s) then user (c ∷ s) else nobody (some (expression_not_uuid expr))
  assign_resolved expr (some other) = nobody (some (expression_not_uuid expr))

  unfoldable pub assign_expression : Option (Json N) → Fields N → Assignment
  unfolding trim assign_resolved resolve_variable_expression
  assign_expression (some (str value)) variables =
      if is_empty (trim value)
      then nobody (some empty_expression)
      else assign_resolved value (resolve_variable_expression value variables)
  assign_expression _ variables = nobody (some empty_expression)

  unfoldable pub assign_by : Option (Json N) → Option (Json N) → Fields N → Assignment
  unfolding assign_direct assign_role assign_expression
  assign_by (some (str type)) value variables =
      if str_eq type (codes "directUser")
      then assign_direct value
      else if str_eq type (codes "role")
      then assign_role value
      else if str_eq type (codes "expression")
      then assign_expression value variables
      else nobody (some (unsupported_type type))
  assign_by _ value variables = nobody none

  unfoldable pub assign_from : Option (Json N) → Fields N → Assignment
  unfolding assign_by property
  assign_from none variables = nobody none
  assign_from (some a) variables =
      if is_object a
      then assign_by (property host a (codes "type")) (property host a (codes "value")) variables
      else nobody none

  -- `resolveDirectUserAssignee`, from the `data` of the node.
  unfoldable pub resolve_direct_user_assignee : Option (Json N) → Fields N → Assignment
  unfolding assign_from property
  resolve_direct_user_assignee none variables = nobody none
  resolve_direct_user_assignee (some d) variables =
      assign_from (property host d (codes "assignment")) variables
