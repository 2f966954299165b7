-- ===== src/Models/Launch.antt =====
-- The content of a row of app/models/launch_snapshot.py, as `build_launch_content` of
-- app/services/launch_snapshot_service.py lays it out.
use iceberg_ttx.Prelude.{ℕ, String, Bool, Option, List}
use iceberg_ttx.Prelude.Int.{ℤ}
use iceberg_ttx.Models.Enums.{CommDirection, UserRole}
use iceberg_ttx.Models.Scenario.{ScenarioDefinition}

pub record AttachmentContent : Type 0 where
  pub filename : Option String
  pub content_type : Option String
  pub size : ℕ
  pub sha256 : String

pub record InjectContent : Type 0 where
  pub scenario_node_id : Option String
  pub title : String
  pub content : String
  pub target_teams : List String
  pub group_id : Option String
  pub sequence_order : ℤ
  pub release_offset_minutes : Option ℤ
  pub attachment : Option AttachmentContent

pub record MemberContent : Type 0 where
  pub user_id : ℕ
  pub group_id : Option String
  pub role : UserRole

pub record CommunicationContent : Type 0 where
  pub direction : CommDirection
  pub sender_id : Option ℕ
  pub sender_team : Option String
  pub external_entity : Option String
  pub subject : String
  pub body : String
  pub visible_to_teams : List String
  pub sent_at : ℕ

pub record LaunchContent : Type 0 where
  pub schema_version : String
  pub scenario_version : String
  pub definition : ScenarioDefinition
  pub title : String
  pub llm_enabled : Bool
  pub injects : List InjectContent
  pub members : List MemberContent
  pub prepared_communications : List CommunicationContent
