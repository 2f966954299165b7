-- ===== src/Progression/Cursor.antt =====
-- Audiences, seeding and the cursor lock of app/services/progression_service.py. A context is
-- a group, or none for the shared path.
use iceberg_ttx.Prelude.{
  ℕ, String, Bool, true, false, not, ◌&&◌, List, [], ◌∷◌, ◌++◌, map, Option, none, some, ◌==◌,
  nat_eq, option_eq, string_eq, any, find, select, contains, null, is_some, is_none, to_set,
  if◌then◌else◌,
}
use iceberg_ttx.Errors.{ok, ◌>>=◌}
use iceberg_ttx.Models.Enums.{InjectState, released, participant, inject_state_eq, user_role_eq}
use iceberg_ttx.Models.Scenario.{InjectNode, ScenarioDefinition}
use iceberg_ttx.Models.Exercise.{ExerciseMember, ExerciseProgress}
use iceberg_ttx.Models.Inject.{Inject, InjectProgress}
use iceberg_ttx.Models.Database.{Db, Table, insert, members_of, progress_of}
use iceberg_ttx.Launch.Content.{Http}
use iceberg_ttx.Launch.Freeze.{definition_for_exercise}
use iceberg_ttx.Scenario.Graph.{to_list, option_targets}

abbrev pub new_cursor : ℕ → Option String → ℕ → String → ℕ → ExerciseProgress
new_cursor exercise_id group_id now node id = record {
  id = id;
  exercise_id = exercise_id;
  group_id = group_id;
  current_node_id = some node;
  current_inject_id = none;
  advanced_at = now;
  advanced_by = none;
}

abbrev pub of_group : ℕ → Option String → ExerciseProgress → Bool
of_group exercise_id group_id p = p.exercise_id == exercise_id && p.group_id == group_id

-- ON CONFLICT DO NOTHING on uq_exercise_progress_group, which takes two shared paths as equal.
unfoldable pub seed_cursor :
    Table ExerciseProgress → ℕ → String → ℕ → Option String → Table ExerciseProgress
seed_cursor t exercise_id start_node_id now group_id =
    if any (of_group exercise_id group_id) t.rows
    then t
    else insert (new_cursor exercise_id group_id now start_node_id) t

unfoldable pub seed_cursors :
    Table ExerciseProgress → ℕ → String → ℕ → List (Option String) → Table ExerciseProgress
seed_cursors t exercise_id start_node_id now [] = t
seed_cursors t exercise_id start_node_id now (g ∷ groups) =
    seed_cursors (seed_cursor t exercise_id start_node_id now g) exercise_id start_node_id now
      groups

unfoldable pub seed_progression : Db → ℕ → String → List String → ℕ → Db
unfolding seed_cursors seed_cursor
seed_progression db exercise_id start_node_id group_ids now = record db {
  progress = seed_cursors db.progress exercise_id start_node_id now (none ∷ map some group_ids);
}

unfoldable pub participant_contexts : List ExerciseMember → List (Option String)
participant_contexts members = to_set (
    map (λ (m : ExerciseMember). m.group_id)
      (select (λ (m : ExerciseMember). m.role_at_enrolment == participant) members))

-- contexts & set(inject.target_teams), where the list is not empty.
abbrev pub targeted : Option (List String) → List (Option String) → List (Option String)
targeted none contexts = contexts
targeted (some []) contexts = contexts
targeted (some (t ∷ ts)) contexts = select (λ c. contains c (map some (t ∷ ts))) contexts

abbrev pub audience_of :
    Option String → Option (List String) → List (Option String) → List (Option String)
audience_of (some g) targets contexts = if contains (some g) contexts then some g ∷ [] else []
audience_of none targets contexts = targeted targets contexts

unfoldable pub inject_audience_contexts : Inject → List ExerciseMember → List (Option String)
unfolding participant_contexts
inject_audience_contexts inject members =
    audience_of inject.group_id inject.target_teams (participant_contexts members)

abbrev pub new_inject_progress : Inject → Option String → ℕ → InjectProgress
new_inject_progress inject context id = record {
  id = id;
  exercise_id = inject.exercise_id;
  inject_id = inject.id;
  group_id = context;
  state = released;
  resolved_at = none;
  resolved_by = none;
  resolution_reason = none;
}

abbrev pub of_inject : ℕ → Option String → InjectProgress → Bool
of_inject inject_id context p = p.inject_id == inject_id && p.group_id == context

unfoldable pub seed_context : Table InjectProgress → Inject → Option String → Table InjectProgress
seed_context t inject context =
    if any (of_inject inject.id context) t.rows
    then t
    else insert (new_inject_progress inject context) t

unfoldable pub seed_contexts :
    Table InjectProgress → Inject → List (Option String) → Table InjectProgress
unfolding seed_context
seed_contexts t inject [] = t
seed_contexts t inject (c ∷ cs) = seed_contexts (seed_context t inject c) inject cs

unfoldable pub seed_inject_resolution_contexts : Db → Inject → List (Option String) × Db
unfolding inject_audience_contexts seed_contexts
seed_inject_resolution_contexts db inject =
    let contexts = inject_audience_contexts inject (members_of db inject.exercise_id) in
    (contexts, record db { inject_progress = seed_contexts db.inject_progress inject contexts })

unfoldable pub roster_changes_allowed : Db → ℕ → Bool
roster_changes_allowed db exercise_id = is_none (
    find (λ (i : Inject). i.exercise_id == exercise_id && not (i.state == InjectState.pending))
      db.injects.rows)

-- [node.next_inject_id, *options' targets], less the None
abbrev pub node_successors : InjectNode → List String
node_successors node = to_list node.next_inject_id ++ option_targets node.options

unfoldable pub referenced : List InjectNode → List String
referenced [] = []
referenced (n ∷ ns) = node_successors n ++ referenced ns

-- not inject.scenario_node_id
abbrev pub is_falsy : Option String → Bool
is_falsy none = true
is_falsy (some s) = s == ""

abbrev pub unreferenced : Option String → Option ScenarioDefinition → Bool
unreferenced node_id none = true
unreferenced node_id (some d) = not (contains node_id (map some (referenced d.injects)))

unfoldable pub release_is_allowed : Db → Inject → Bool → Http Bool
unfolding definition_for_exercise referenced
release_is_allowed db inject scheduled =
    let cursors = progress_of db inject.exercise_id in
    if is_falsy inject.scenario_node_id
    then ok true
    else if null cursors
    then ok true
    else if any (λ (c : ExerciseProgress). c.current_node_id == inject.scenario_node_id) cursors
    then ok true
    else if not scheduled && any (λ (c : ExerciseProgress). is_some c.current_inject_id) cursors
    then ok false
    else (do
      definition ← definition_for_exercise db inject.exercise_id
      ok (unreferenced inject.scenario_node_id definition))
