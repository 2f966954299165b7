-- ===== src/Membership/Teams.antt =====
-- app/services/team_service.py and the team checks of app/services/exercise_service.py. A set of
-- team identifiers that is only asked for its members is the list that it is built from.
use iceberg_ttx.Prelude.{
  ℕ, String, not, List, [], ◌∷◌, map, Option, none, some, string_eq, any, contains, has_duplicates,
  is_blank, strip, if◌then◌else◌,
}
use iceberg_ttx.Errors.{
  Result, ok, err, ◌>>=◌, ◌>>◌, require, ValueError, blank_team_id, duplicate_team_id,
  unknown_team_id, group_not_defined, scenario_missing, invalid_teams,
}
use iceberg_ttx.Models.Scenario.{ParticipantTeam, ScenarioDefinition}
use iceberg_ttx.Models.Exercise.{User, Exercise}
use iceberg_ttx.Models.Database.{Db}
use iceberg_ttx.Launch.Content.{Http}
use iceberg_ttx.Launch.Freeze.{definition_for_exercise, or_raise}

unfoldable pub scenario_team_ids : ScenarioDefinition → List String
scenario_team_ids definition = map (λ (t : ParticipantTeam). t.id) definition.participant_teams

-- normalized or None
abbrev pub or_none : List String → Option (List String)
or_none [] = none
or_none (t ∷ ts) = some (t ∷ ts)

abbrev pub checked_teams : List String → List String → Result ValueError (Option (List String))
checked_teams catalogue normalized = do
  require (not (any is_blank normalized)) blank_team_id
  require (not (has_duplicates normalized)) duplicate_team_id
  require (not (any (λ t. not (contains t catalogue)) normalized)) unknown_team_id
  ok (or_none normalized)

unfoldable pub validate_definition_team_ids :
    Option (List String) → ScenarioDefinition → Result ValueError (Option (List String))
unfolding scenario_team_ids
validate_definition_team_ids none definition = ok none
validate_definition_team_ids (some team_ids) definition =
    checked_teams (scenario_team_ids definition) (map strip team_ids)

abbrev pub team_ids_or_empty : Option ScenarioDefinition → List String
team_ids_or_empty none = []
team_ids_or_empty (some definition) = scenario_team_ids definition

unfoldable pub scenario_group_ids : Db → ℕ → Http (List String)
unfolding definition_for_exercise scenario_team_ids
scenario_group_ids db exercise_id = do
  definition ← definition_for_exercise db exercise_id
  ok (team_ids_or_empty definition)

unfoldable pub validate_group_id : Db → Exercise → Option String → Http (Option String)
unfolding scenario_group_ids
validate_group_id db exercise none = ok none
validate_group_id db exercise (some group_id) = if is_blank (strip group_id) then ok none else (do
  catalogue ← scenario_group_ids db exercise.id
  require (contains (strip group_id) catalogue) group_not_defined
  ok (some (strip group_id)))

-- except ValueError: raise HTTPException(422)
abbrev pub as_http : {A : Type 0} → Result ValueError A → Http A
as_http (ok a) = ok a
as_http (err e) = err (invalid_teams e)

unfoldable pub validate_team_ids :
    Db → Exercise → Option (List String) → Http (Option (List String))
unfolding definition_for_exercise validate_definition_team_ids
validate_team_ids db exercise none = ok none
validate_team_ids db exercise (some team_ids) = do
  found ← definition_for_exercise db exercise.id
  definition ← or_raise found scenario_missing
  as_http (validate_definition_team_ids (some team_ids) definition)

-- user.team, where it is not None and not empty.
abbrev pub default_team : String → List String → Option String
default_team team catalogue = if contains team catalogue then some team else none

unfoldable pub default_group_for_user : Db → Exercise → User → Http (Option String)
unfolding scenario_group_ids
default_group_for_user db exercise user = elim user.team [
  | none ↦ ok none
  | some team ↦
      if is_blank team
      then ok none
      else (do catalogue ← scenario_group_ids db exercise.id; ok (default_team team catalogue))
]
