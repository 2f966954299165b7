-- ===== src/Launch/Freeze.antt =====
-- The locks, `freeze_launch_configuration`, and the definition that an exercise runs on
-- (`definition_for_exercise` of app/services/scenario_service.py). A row lock that a transaction
-- takes reads the row anew; a call runs in one transaction, so the reads see one database.
use mathlib.Core.Bool.{decide}
use native.Mathlib.Decide.{ℕ_discrete}
use iceberg_ttx.Prelude.{
  ℕ, String, Bool, true, false, not, ◌&&◌, List, [], ◌∷◌, ◌++◌, map, Option, none, some, ◌==◌, ◌≡◌,
  nat_eq, string_eq, string_discrete, find, select, is_none, is_some, if◌then◌else◌,
}
use iceberg_ttx.Errors.{
  ok, err, ◌>>=◌, ◌>>◌, require, HttpException, scenario_gone, exercise_not_found, scenario_changed,
  not_draft, already_snapshotted, digest_collision, launch_frozen, missing_snapshot,
}
use iceberg_ttx.Models.Enums.{draft, exact, exercise_state_eq, provenance_eq}
use iceberg_ttx.Models.Scenario.{Scenario, ScenarioDefinition}
use iceberg_ttx.Models.Exercise.{Exercise}
use iceberg_ttx.Models.Inject.{Inject}
use iceberg_ttx.Models.Communication.{Communication}
use iceberg_ttx.Models.Launch.{LaunchContent}
use iceberg_ttx.Models.Database.{
  Db, update_rows, get_scenario, get_exercise, injects_of, members_of,
}
use iceberg_ttx.Scenario.Validate.{parse_definition}
use iceberg_ttx.Launch.Content.{Http, External, build_launch_content, validated, export_definition}

unfoldable pub LaunchContent-discrete : Discrete LaunchContent
LaunchContent-discrete = hlevel (ℕ_discrete, string_discrete)

abbrev pub or_raise : {A : Type 0} → Option A → HttpException → Http A
or_raise none e = err e
or_raise (some a) e = ok a

pub or_raise-eq-ok :
    {A : Type 0} (o : Option A) (e : HttpException) {a : A} → or_raise o e ≡ ok a → o ≡ some a
or_raise-eq-ok none e h = cc
or_raise-eq-ok (some a) e h = cc

unfoldable pub lock_configuration_owner : Db → Exercise → Http (Scenario × Exercise)
lock_configuration_owner db exercise = do
  scenario ← or_raise (get_scenario db exercise.scenario_id) scenario_gone
  locked ← or_raise (get_exercise db exercise.id) exercise_not_found
  require (locked.scenario_id == scenario.id) scenario_changed
  ok (scenario, locked)

-- created_during_run is True
abbrev pub is_true : Option Bool → Bool
is_true (some true) = true
is_true _ = false

unfoldable pub require_inject_configuration_mutable : Exercise → Inject → Http (Unit {0})
require_inject_configuration_mutable exercise inject =
    require (not (exercise.launch_provenance == exact && not (is_true inject.created_during_run)))
      launch_frozen

abbrev pub Snapshots : Type 0
Snapshots = List (String × LaunchContent)

abbrev pub find_snapshot : Snapshots → String → Option (String × LaunchContent)
find_snapshot snapshots digest = find (λ (s : String × LaunchContent). s.0 == digest) snapshots

-- INSERT ... ON CONFLICT (digest) DO NOTHING
unfoldable pub insert_snapshot : Snapshots → String → LaunchContent → Snapshots
insert_snapshot snapshots digest content =
    if is_some (find_snapshot snapshots digest)
    then snapshots
    else snapshots ++ (digest, content) ∷ []

-- existing is not None and existing.content != content
abbrev pub collides : LaunchContent → Option (String × LaunchContent) → Bool
collides content none = false
collides content (some (digest, stored)) = not (decide (LaunchContent-discrete stored content))

abbrev pub digest_of : List Inject → Inject → Inject
digest_of digested inject = elim (find (λ (d : Inject). d.id == inject.id) digested) [
  | none ↦ inject
  | some d ↦ record inject { attachment_sha256 = d.attachment_sha256 }
]

abbrev pub freeze_row : String → Exercise → Exercise
freeze_row digest e = record e { launch_snapshot_digest = some digest; launch_provenance = exact }

unfoldable pub freeze_launch_configuration : External → Db → Exercise → Http (Exercise × Db)
unfolding lock_configuration_owner insert_snapshot
freeze_launch_configuration ext db exercise = do
  (scenario, locked) ← lock_configuration_owner db exercise
  require (locked.state == draft) not_draft
  require (is_none locked.launch_snapshot_digest) already_snapshotted
  let communications =
      select (λ (c : Communication). c.exercise_id == locked.id) db.communications.rows
  (content, digested) ←
      build_launch_content ext scenario locked (injects_of db locked.id) (members_of db locked.id)
        communications
  let digest = ext.snapshot_digest content
  let snapshots = insert_snapshot db.snapshots digest content
  require (not (collides content (find_snapshot snapshots digest))) digest_collision
  ok (
    freeze_row digest locked,
    record db {
      snapshots = snapshots;
      exercises =
          update_rows (λ (e : Exercise). e.id == locked.id) (freeze_row digest) db.exercises;
      injects = record db.injects { rows = map (digest_of digested) db.injects.rows };
    },
  )

abbrev pub exported : Option Scenario → Http (Option ScenarioDefinition)
exported none = ok none
exported (some s) = do d ← export_definition s; ok (some d)

unfoldable pub get_scenario_definition : Db → ℕ → Http (Option ScenarioDefinition)
get_scenario_definition db scenario_id =
    if scenario_id == 0 then ok none else exported (get_scenario db scenario_id)

unfoldable pub launch_definition : Db → String → Http ScenarioDefinition
launch_definition db digest = do
  (stored, content) ← or_raise (find_snapshot db.snapshots digest) missing_snapshot
  validated (parse_definition content.definition)

abbrev pub definition_of : Db → Option Exercise → Http (Option ScenarioDefinition)
definition_of db none = ok none
definition_of db (some e) = elim e.launch_snapshot_digest [
  | some digest ↦ (do d ← launch_definition db digest; ok (some d))
  | none ↦ get_scenario_definition db e.scenario_id
]

unfoldable pub definition_for_exercise : Db → ℕ → Http (Option ScenarioDefinition)
unfolding launch_definition get_scenario_definition export_definition
definition_for_exercise db exercise_id = definition_of db (get_exercise db exercise_id)
