-- ===== src/Samples.antt =====
-- Test data: a scenario with a branch, a workshop that runs it, and its rows.
use iceberg_ttx.Prelude.{ℕ, String, true, false, List, [], ◌∷◌, Option, none, some}
use iceberg_ttx.Prelude.Int.{ℤ, pos}
use iceberg_ttx.Errors.{ok, err}
use iceberg_ttx.Models.Enums.{
  ExerciseState, SnapshotProvenance, InjectState, UserRole, facilitator, participant,
}
use iceberg_ttx.Models.Scenario.{
  Scenario, ScenarioDefinition, InjectNode, InjectOption, TriggerComm,
}
use iceberg_ttx.Models.Exercise.{User, Exercise, ExerciseMember, ExerciseProgress}
use iceberg_ttx.Models.Inject.{Inject, InjectProgress}
use iceberg_ttx.Models.Database.{Db, Table}
use iceberg_ttx.Launch.Content.{Http, External}

abbrev pub ok_or : {A : Type 0} → A → Http A → A
ok_or other (ok a) = a
ok_or other (err e) = other

abbrev pub external : External
external = record {
  attachment_digest = λ path. none;
  inject_bytes = λ i. i.title;
  member_bytes = λ m. "member";
  communication_bytes = λ c. c.subject;
  snapshot_digest = λ content. "digest";
}

abbrev pub trigger : TriggerComm
trigger = record {
  external_entity = "NCSC";
  direction = "inbound";
  subject = "Advisory";
  body = "Call us";
  delay_after_release_seconds = pos 60;
}

abbrev pub pay : InjectOption
pay = record { id = "pay"; label = "Pay"; next_inject_id = some "paid" }

abbrev pub refuse : InjectOption
refuse = record { id = "refuse"; label = "Refuse"; next_inject_id = some "leak" }

abbrev pub node : String → List InjectOption → List TriggerComm → Option ℤ → InjectNode
node id options triggers at = record {
  id = id;
  title = id;
  content = "text";
  target_teams = [];
  sequence_order = pos 0;
  next_inject_id = none;
  options = options;
  free_text_response = false;
  triggers_communications = triggers;
  expected_actions = [];
  release_at_minutes = at;
}

abbrev pub ransom : InjectNode
ransom = node "ransom" (pay ∷ refuse ∷ []) (trigger ∷ []) none

abbrev pub definition : ScenarioDefinition
definition = record {
  schema_version = "1.0";
  title = "Ransomware";
  description = none;
  tags = [];
  metadata = record { author = none; estimated_duration_minutes = none };
  participant_teams =
      record { id = "red"; label = "Red" } ∷ record { id = "blue"; label = "Blue" } ∷ [];
  injects = ransom ∷ node "paid" [] [] (some (pos 5)) ∷ node "leak" [] [] none ∷ [];
  start_inject_id = "ransom";
  debrief_notes = none;
}

abbrev pub scenario : Scenario
scenario = record {
  id = 1;
  title = "Ransomware";
  description = none;
  version = "1";
  tags = none;
  definition = definition;
  created_by = 1;
  created_at = 0;
  updated_at = 0;
}

abbrev pub user : ℕ → UserRole → User
user id role = record {
  id = id;
  email = "user@example.org";
  display_name = "User";
  hashed_password = none;
  role = role;
  team = none;
  is_active = true;
  is_admin = false;
  must_change_password = false;
  created_at = 0;
  token_valid_after = none;
  auth_provider = "local";
  subject = none;
  auth_tenant = none;
  role_managed_by_idp = false;
}

abbrev pub exercise : ExerciseState → Option ℕ → Option ℕ → ℤ → Exercise
exercise state started_at paused_at accumulated = record {
  id = 1;
  scenario_id = 1;
  title = "Workshop";
  state = state;
  current_node_id = none;
  llm_enabled = false;
  launch_provenance = SnapshotProvenance.pending;
  launch_snapshot_digest = none;
  debrief_notes = none;
  started_at = started_at;
  ended_at = none;
  paused_at = paused_at;
  accumulated_pause_seconds = accumulated;
  created_by = 1;
  created_at = 0;
}

abbrev pub member : ExerciseMember
member = record {
  id = 1;
  exercise_id = 1;
  user_id = 2;
  group_id = some "red";
  role_at_enrolment = participant;
  created_during_run = some false;
  joined_at = 0;
}

abbrev pub inject : ℕ → String → InjectState → Option ℤ → Inject
inject id node_id state offset = record {
  id = id;
  exercise_id = 1;
  scenario_node_id = some node_id;
  title = node_id;
  content = "text";
  target_teams = none;
  group_id = none;
  sequence_order = pos 0;
  release_offset_minutes = offset;
  state = state;
  released_at = none;
  released_by = none;
  resolved_at = none;
  resolved_by = none;
  resolution_reason = none;
  attachment_filename = none;
  attachment_content_type = none;
  attachment_path = none;
  attachment_size = none;
  attachment_sha256 = none;
  created_during_run = some false;
}

abbrev pub cursor : Option String → Option String → ExerciseProgress
cursor group_id node_id = record {
  id = 1;
  exercise_id = 1;
  group_id = group_id;
  current_node_id = node_id;
  current_inject_id = none;
  advanced_at = 0;
  advanced_by = none;
}

abbrev pub table : {A : Type 0} → List A → Table A
table rows = record { rows = rows; next_id = 9 }

abbrev pub database : Exercise → List Inject → List ExerciseProgress → List InjectProgress → Db
database e injects cursors rows = record {
  users = user 1 facilitator ∷ user 2 participant ∷ [];
  scenarios = table (scenario ∷ []);
  exercises = table (e ∷ []);
  members = table (member ∷ []);
  transitions = table [];
  progress = table cursors;
  injects = table injects;
  inject_progress = table rows;
  responses = table [];
  communications = table [];
  reads = [];
  snapshots = [];
  jobs = [];
  events = [];
}
