-- ===== src/Models/Scenario.antt =====
-- The pydantic models of app/schemas/scenario_json.py and the row of app/models/scenario.py.
-- A row's `definition` column holds JSON text; here it is the definition that the text encodes.
use iceberg_ttx.Prelude.{ℕ, String, Bool, Option, List}
use iceberg_ttx.Prelude.Int.{ℤ}

pub record ParticipantTeam : Type 0 where
  pub id : String
  pub label : String

pub record TriggerComm : Type 0 where
  pub external_entity : String
  pub direction : String
  pub subject : String
  pub body : String
  pub delay_after_release_seconds : ℤ

pub record InjectOption : Type 0 where
  pub id : String
  pub label : String
  pub next_inject_id : Option String

pub record InjectNode : Type 0 where
  pub id : String
  pub title : String
  pub content : String
  pub target_teams : List String
  pub sequence_order : ℤ
  pub next_inject_id : Option String
  pub options : List InjectOption
  pub free_text_response : Bool
  pub triggers_communications : List TriggerComm
  pub expected_actions : List String
  pub release_at_minutes : Option ℤ

pub record ScenarioMetadata : Type 0 where
  pub author : Option String
  pub estimated_duration_minutes : Option ℤ

pub record ScenarioDefinition : Type 0 where
  pub schema_version : String
  pub title : String
  pub description : Option String
  pub tags : List String
  pub metadata : ScenarioMetadata
  pub participant_teams : List ParticipantTeam
  pub injects : List InjectNode
  pub start_inject_id : String
  pub debrief_notes : Option String

pub record Scenario : Type 0 where
  pub id : ℕ
  pub title : String
  pub description : Option String
  pub version : String
  pub tags : Option (List String)
  pub definition : ScenarioDefinition
  pub created_by : ℕ
  pub created_at : ℕ
  pub updated_at : ℕ
