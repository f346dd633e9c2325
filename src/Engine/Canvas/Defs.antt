-- ===== src/Engine/Canvas/Defs.antt =====
-- EngineNode, EngineEdge and EngineCanvas, and the functions that read them: findStartEvent and
-- pickNextEdge. Log lines are left out.
use bpm_new.Common.{
  ℕ, Bool, true, false, ◌&&◌, ◌||◌, not, Option, none, some, List, [], ◌∷◌, Str, codes, str_eq,
  opt_eq, keep, head?, length,
}
use bpm_new.Data.Chars.{is_empty}
use bpm_new.Data.Json.{Json}

pub record Node (N : Type 0) : Type 0 where
  pub id : Str
  pub type : Str
  pub parent_id : Option Str
  pub node_data : Option (Json N)

-- `isDefault` is `true` or missing.
pub record FlowData : Type 0 where
  pub condition : Option Str
  pub is_default : Bool
  pub flow_type : Option Str

pub record Edge : Type 0 where
  pub id : Str
  pub source : Str
  pub target : Str
  pub flow_data : Option FlowData

-- `engineConfig` is present exactly if there is a key to redact.
pub record Canvas (N : Type 0) : Type 0 where
  pub nodes : List (Node N)
  pub edges : List Edge
  pub redacted_variable_keys : List Str

abbrev pub flow_type_of : Option FlowData → Option Str
flow_type_of none = none
flow_type_of (some d) = d.flow_type

abbrev pub condition_of : Option FlowData → Option Str
condition_of none = none
condition_of (some d) = d.condition

abbrev pub default_of : Option FlowData → Bool
default_of none = false
default_of (some d) = d.is_default

-- Not one of NON_SEQUENCE_FLOW_TYPES; a missing type reads as the empty string.
unfoldable pub is_sequence_flow : Edge → Bool
is_sequence_flow e = not (
    opt_eq (flow_type_of e.flow_data) (codes "message")
    || opt_eq (flow_type_of e.flow_data) (codes "association"))

abbrev pub is_top_level : Option Str → Bool
is_top_level none = true
is_top_level (some p) = is_empty p

pub data StartResult (N : Type 0) : Type 0 where
  found : Node N → StartResult N
  no_start : StartResult N
  many_starts : ℕ → StartResult N

module _ {N : Type 0} where
  -- The sequence flows that leave a node.
  unfoldable pub outgoing : Canvas N → Str → List Edge
  unfolding is_sequence_flow
  outgoing c from = keep (λ e. str_eq e.source from && is_sequence_flow e) c.edges

  unfoldable pub pick_next_edge : Canvas N → Str → Option Edge
  unfolding outgoing
  pick_next_edge c from = head? (outgoing c from)

  unfoldable pub is_start : Node N → Bool
  is_start n = str_eq n.type (codes "startEvent") && is_top_level n.parent_id

  abbrev pub single_start : List (Node N) → StartResult N
  single_start [] = no_start
  single_start (n ∷ []) = found n
  single_start (n ∷ m ∷ l) = many_starts (length (n ∷ m ∷ l))

  unfoldable pub find_start_event : Canvas N → StartResult N
  find_start_event c = single_start (keep is_start c.nodes)
