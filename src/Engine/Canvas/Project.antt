-- ===== src/Engine/Canvas/Project.antt =====
-- projectCanvas: from the stored JSON to the canvas that the interpreter reads.
use bpm_new.Common.{
  Bool, false, ◌&&◌, Option, none, some, List, [], ◌∷◌, Str, codes, str_eq, if◌then◌else◌, any,
  prepend,
}
use bpm_new.Data.Json.{Json, bool, str, arr, Items, nil, cons, Host, property, is_object}
use bpm_new.Engine.Canvas.Defs.{Node, FlowData, Edge, Canvas}

module _ {N : Type 0} where
  abbrev pub as_string : Option (Json N) → Option Str
  as_string (some (str s)) = some s
  as_string _ = none

  abbrev pub as_object : Option (Json N) → Option (Json N)
  as_object none = none
  as_object (some v) = if is_object v then some v else none

  -- `value === true`
  abbrev pub is_true : Option (Json N) → Bool
  is_true (some (bool b)) = b
  is_true _ = false

  abbrev pub as_array : Option (Json N) → Items N
  as_array (some (arr xs)) = xs
  as_array _ = nil

  abbrev pub strings : Items N → List Str
  strings nil = []
  strings (cons (str s) xs) = s ∷ strings xs
  strings (cons _ xs) = strings xs

  abbrev pub with_id_and_type :
      Option Str → Option Str → Option Str → Option (Json N) → Option (Node N)
  with_id_and_type (some id) (some type) parent_id node_data =
      some (record { id = id; type = type; parent_id = parent_id; node_data = node_data })
  with_id_and_type _ _ parent_id node_data = none

  -- An edge between nodes of the canvas.
  abbrev pub between_nodes :
      List (Node N) → Option Str → Option Str → Option Str → Option FlowData → Option Edge
  between_nodes nodes (some id) (some source) (some target) flow_data =
      if any (λ n. str_eq n.id source) nodes && any (λ n. str_eq n.id target) nodes
      then some (record { id = id; source = source; target = target; flow_data = flow_data })
      else none
  between_nodes nodes _ _ _ flow_data = none

module _ {N : Type 0} (host : Host N) where
  unfoldable pub project_node : Json N → Option (Node N)
  project_node n =
      if is_object n
      then with_id_and_type (as_string (property host n (codes "id")))
          (as_string (property host n (codes "type")))
          (as_string (property host n (codes "parentId")))
          (as_object (property host n (codes "data")))
      else none

  unfoldable pub project_nodes : Items N → List (Node N)
  project_nodes nil = []
  project_nodes (cons n ns) = prepend (project_node n) (project_nodes ns)

  unfoldable pub project_flow_data : Option (Json N) → Option FlowData
  project_flow_data none = none
  project_flow_data (some d) = some record {
    condition = as_string (property host d (codes "condition"));
    is_default = is_true (property host d (codes "isDefault"));
    flow_type = as_string (property host d (codes "flowType"));
  }

  unfoldable pub project_edge : List (Node N) → Json N → Option Edge
  project_edge nodes e =
      if is_object e
      then between_nodes nodes (as_string (property host e (codes "id")))
          (as_string (property host e (codes "source")))
          (as_string (property host e (codes "target")))
          (project_flow_data (as_object (property host e (codes "data"))))
      else none

  unfoldable pub project_edges : List (Node N) → Items N → List Edge
  project_edges nodes nil = []
  project_edges nodes (cons e es) = prepend (project_edge nodes e) (project_edges nodes es)

  abbrev redacted_keys : Option (Json N) → List Str
  redacted_keys none = []
  redacted_keys (some config) =
      strings (as_array (property host config (codes "redactedVariableKeys")))

  -- `none` is the error "Canvas data is malformed."
  unfoldable pub project_canvas : Json N → Option (Canvas N)
  unfolding project_nodes project_edges
  project_canvas raw =
      let nodes = project_nodes (as_array (property host raw (codes "nodes"))) in
      if is_object raw
      then some record {
        nodes = nodes;
        edges = project_edges nodes (as_array (property host raw (codes "edges")));
        redacted_variable_keys =
            redacted_keys (as_object (property host raw (codes "engineConfig")));
      }
      else none
