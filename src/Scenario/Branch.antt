-- ===== src/Scenario/Branch.antt =====
-- app/services/scenario_service.py, the pure queries: `get_inject_node`, `get_next_inject_ids`,
-- `resolve_branch`.
use iceberg_ttx.Prelude.{
  String, List, [], ◌∷◌, Option, none, some, ◌==◌, string_eq, find, null, if◌then◌else◌,
}
use iceberg_ttx.Models.Scenario.{InjectOption, InjectNode, ScenarioDefinition}
use iceberg_ttx.Scenario.Graph.{to_list}

unfoldable pub get_inject_node : ScenarioDefinition → String → Option InjectNode
get_inject_node d inject_id = find (λ inj. inj.id == inject_id) d.injects

abbrev pub linear_successor : Option InjectNode → List String
linear_successor none = []
linear_successor (some node) = if null node.options then to_list node.next_inject_id else []

unfoldable pub get_next_inject_ids : ScenarioDefinition → String → List String
get_next_inject_ids d current = linear_successor (get_inject_node d current)

-- The loop over the options: the first with that id.
unfoldable pub option_target : List InjectOption → String → Option String
option_target [] selected = none
option_target (o ∷ os) selected =
    if o.id == selected then o.next_inject_id else option_target os selected

abbrev pub branch_target : Option InjectNode → String → Option String
branch_target none selected = none
branch_target (some node) selected = option_target node.options selected

unfoldable pub resolve_branch : ScenarioDefinition → String → String → Option String
resolve_branch d current selected = branch_target (get_inject_node d current) selected
