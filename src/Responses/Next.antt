-- ===== src/Responses/Next.antt =====
-- The pure part of app/services/response_service.py: what a response must hold, and the branch
-- that it selects.
use iceberg_ttx.Prelude.{
  ℕ, String, Bool, true, not, ◌&&◌, ◌||◌, List, [], ◌∷◌, map, Option, none, some, nat_eq, string_eq,
  option_eq, contains, null, is_none, is_blank, strip, if◌then◌else◌,
}
use iceberg_ttx.Errors.{
  ok, ◌>>=◌, ResponseError, option_required, option_not_valid, content_required,
}
use iceberg_ttx.Models.Scenario.{InjectNode, InjectOption, ScenarioDefinition}
use iceberg_ttx.Models.Inject.{Inject}
use iceberg_ttx.Models.Database.{Db, get_inject}
use iceberg_ttx.Launch.Content.{Http}
use iceberg_ttx.Launch.Freeze.{definition_for_exercise}
use iceberg_ttx.Scenario.Branch.{get_inject_node, get_next_inject_ids, resolve_branch}

abbrev pub option_ids : Option InjectNode → List String
option_ids none = []
option_ids (some node) = map (λ (o : InjectOption). o.id) node.options

abbrev pub free_text : Option InjectNode → Bool
free_text none = true
free_text (some node) = node.free_text_response

abbrev pub content_error : Bool → String → Option ResponseError
content_error required content =
    if required && is_blank (strip content) then some content_required else none

-- With options, the selection is one of them; without, there is none.
abbrev pub selection_error : List String → Option String → Option ResponseError
selection_error [] none = none
selection_error [] (some selected) = some option_not_valid
selection_error (i ∷ ids) none = some option_required
selection_error (i ∷ ids) (some selected) =
    if is_blank selected
    then some option_required
    else if contains selected (i ∷ ids)
    then none
    else some option_not_valid

abbrev pub or_else : Option ResponseError → Option ResponseError → Option ResponseError
or_else none other = other
or_else (some e) other = some e

unfoldable pub response_validation_error :
    Option InjectNode → String → Option String → Option ResponseError
response_validation_error node content selected_option =
    or_else (selection_error (option_ids node) selected_option)
      (content_error (is_none node || null (option_ids node) || free_text node) content)

-- [next_id] if next_id else []
abbrev pub truthy_list : Option String → List String
truthy_list none = []
truthy_list (some s) = if is_blank s then [] else s ∷ []

abbrev pub branch_next : ScenarioDefinition → String → Option String → List String
branch_next d node_id none = []
branch_next d node_id (some selected) =
    if is_blank selected then [] else truthy_list (resolve_branch d node_id selected)

abbrev pub next_of_node :
    ScenarioDefinition → String → Option String → Option InjectNode → List String
next_of_node d node_id selected none = []
next_of_node d node_id selected (some node) =
    if not (null node.options)
    then branch_next d node_id selected
    else if is_none selected
    then get_next_inject_ids d node_id
    else []

unfoldable pub response_next_inject_ids : ScenarioDefinition → String → Option String → List String
unfolding get_inject_node get_next_inject_ids resolve_branch
response_next_inject_ids d node_id selected =
    next_of_node d node_id selected (get_inject_node d node_id)

abbrev pub next_in : ScenarioDefinition → Option String → Option String → List String
next_in d none selected = []
next_in d (some node_id) selected =
    if is_blank node_id then [] else response_next_inject_ids d node_id selected

abbrev pub next_of_inject : Option Inject → Option ScenarioDefinition → Option String → List String
next_of_inject (some inject) (some d) selected = next_in d inject.scenario_node_id selected
next_of_inject _ _ selected = []

unfoldable pub compute_next_inject_ids : Db → ℕ → ℕ → Option String → Http (List String)
unfolding definition_for_exercise response_next_inject_ids
compute_next_inject_ids db exercise_id inject_id selected = do
  definition ← definition_for_exercise db exercise_id
  ok (next_of_inject (get_inject db inject_id) definition selected)
