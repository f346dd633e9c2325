-- ===== src/Examples/Mapping.antt =====
-- A bag of variables with one nested object.
use bpm_new.Common.{ℕ, refl, codes, none, some}
use bpm_new.Data.Json.{Json, num, str, obj, Fields, end, field, Host, get_field}
use bpm_new.Engine.Mapping.Defs.{apply_mapping, resolve_direct_user_assignee}
use bpm_new.Engine.Mapping.Projection.{DistinctKeys, IsProjected, get_field-apply_mapping}
use bpm_new.Engine.Mapping.Assignment.{IsClean, resolve_direct_user_assignee-IsClean}

abbrev host : Host ℕ
host = record { of_ℕ = λ n. n; inherited_by_object = λ _. none; inherited_by_array = λ _. none }

abbrev order : Fields ℕ
order = field (codes "total") (num 12) end

abbrev variables : Fields ℕ
variables = field (codes "order") (obj order) end

abbrev mapping : Fields ℕ
mapping =
    field (codes "sum") (str (codes "$order.total"))
      (field (codes "none") (str (codes "$order.tax")) end)

mapping-DistinctKeys : DistinctKeys mapping
unfolding get_field
mapping-DistinctKeys = (refl, (refl, tt))

get_field-apply_mapping_example :
    IsProjected host
      (obj variables)
      (codes "sum")
      (get_field (codes "sum") mapping)
      (get_field (codes "sum") (apply_mapping host (some mapping) (obj variables)))
get_field-apply_mapping_example =
    get_field-apply_mapping host (obj variables) (codes "sum") mapping mapping-DistinctKeys

abbrev node_data : Json ℕ
node_data = obj (
    field (codes "assignment")
      (obj (
        field (codes "type") (str (codes "role"))
          (field (codes "value") (str (codes " clerk ")) end)))
      end)

resolve_direct_user_assignee-IsClean_example :
    let a = resolve_direct_user_assignee host (some node_data) variables in
    IsClean a.assignee a.candidate_role a.diagnostic
resolve_direct_user_assignee-IsClean_example =
    resolve_direct_user_assignee-IsClean host (some node_data) variables
