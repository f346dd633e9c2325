-- ===== src/Examples/Canvas.antt =====
-- A canvas of two nodes.
use bpm_new.Common.{
  ℕ, Bool, true, false, ◌≡◌, refl, [], ◌∷◌, Str, codes, none, some, All, str_eq, if◌then◌else◌,
}
use bpm_new.Data.Json.{
  Json, str, arr, obj, nil, cons, Fields, end, field, Host, property, get_field,
}
use bpm_new.Engine.Canvas.Defs.{Node, Edge, Canvas, outgoing}
use bpm_new.Engine.Canvas.Project.{
  project_canvas, project_nodes, project_node, project_edges, project_edge, project_flow_data,
}
use bpm_new.Engine.Canvas.Projected.{IsAttached, project_canvas-IsAttached}
use bpm_new.Engine.Canvas.Condition.{Run, value, threw}
use bpm_new.Engine.Canvas.Flow.{pick_exclusive_gateway_edge}
use bpm_new.Engine.Canvas.Choice.{IsVerdict, pick_exclusive_gateway_edge-IsVerdict}

-- Nothing is inherited.
abbrev host : Host ℕ
host = record { of_ℕ = λ n. n; inherited_by_object = λ _. none; inherited_by_array = λ _. none }

abbrev member : Str → Str → Fields ℕ → Fields ℕ
member k v fs = field k (str v) fs

abbrev stored : Json ℕ
stored = obj (
    field (codes "nodes")
      (arr (
        cons
          (obj (member (codes "id") (codes "a") (member (codes "type") (codes "startEvent") end)))
          (cons
            (obj (member (codes "id") (codes "b") (member (codes "type") (codes "endEvent") end)))
            nil)))
      (field (codes "edges")
        (arr (
          cons
            (obj (
              member (codes "id") (codes "e")
                (member (codes "source") (codes "a") (member (codes "target") (codes "b") end))))
            (cons
              (obj (
                member (codes "id") (codes "f") (
                  member (codes "source") (codes "a")
                    (member (codes "target") (codes "gone") end))))
              nil)))
        end))

abbrev start_node : Node ℕ
start_node = record {
  id = codes "a";
  type = codes "startEvent";
  parent_id = none;
  node_data = none;
}

abbrev end_node : Node ℕ
end_node = record { id = codes "b"; type = codes "endEvent"; parent_id = none; node_data = none }

abbrev edge : Edge
edge = record { id = codes "e"; source = codes "a"; target = codes "b"; flow_data = none }

abbrev canvas : Canvas ℕ
canvas = record {
  nodes = start_node ∷ end_node ∷ [];
  edges = edge ∷ [];
  redacted_variable_keys = [];
}

projected : project_canvas host stored ≡ some canvas
unfolding project_canvas project_nodes project_node project_edges project_edge property get_field
    project_flow_data
projected = refl

project_canvas-IsAttached_example : All (IsAttached canvas.nodes) canvas.edges
project_canvas-IsAttached_example = project_canvas-IsAttached host stored projected

abbrev yes_no : Str → Fields ℕ → Run
yes_no expr variables =
    if str_eq expr (codes "yes")
    then value true
    else if str_eq expr (codes "no")
    then value false
    else threw []

abbrev flow : Str → Str → Bool → Edge
flow id condition default' = record {
  id = id;
  source = codes "choice";
  target = id;
  flow_data = some record { condition = some condition; is_default = default'; flow_type = none };
}

abbrev choice : Canvas ℕ
choice = record {
  nodes = [];
  edges = flow (codes "right") (codes "no") false ∷ flow (codes "rest") [] true ∷ [];
  redacted_variable_keys = [];
}

pick_exclusive_gateway_edge-IsVerdict_example :
    IsVerdict yes_no end
      (outgoing choice (codes "choice"))
      (pick_exclusive_gateway_edge yes_no end choice (codes "choice"))
pick_exclusive_gateway_edge-IsVerdict_example =
    pick_exclusive_gateway_edge-IsVerdict yes_no end choice (codes "choice")
