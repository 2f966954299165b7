-- ===== src/Models/Inject.antt =====
-- The rows of app/models/inject.py and app/models/response.py.
use iceberg_ttx.Prelude.{ℕ, String, Bool, Option, List}
use iceberg_ttx.Prelude.Int.{ℤ}
use iceberg_ttx.Models.Enums.{InjectState}

pub record Inject : Type 0 where
  pub id : ℕ
  pub exercise_id : ℕ
  pub scenario_node_id : Option String
  pub title : String
  pub content : String
  pub target_teams : Option (List String)
  pub group_id : Option String
  pub sequence_order : ℤ
  pub release_offset_minutes : Option ℤ
  pub state : InjectState
  pub released_at : Option ℕ
  pub released_by : Option ℕ
  pub resolved_at : Option ℕ
  pub resolved_by : Option ℕ
  pub resolution_reason : Option String
  pub attachment_filename : Option String
  pub attachment_content_type : Option String
  pub attachment_path : Option String
  pub attachment_size : Option ℕ
  pub attachment_sha256 : Option String
  pub created_during_run : Option Bool

pub record InjectProgress : Type 0 where
  pub id : ℕ
  pub exercise_id : ℕ
  pub inject_id : ℕ
  pub group_id : Option String
  pub state : InjectState
  pub resolved_at : Option ℕ
  pub resolved_by : Option ℕ
  pub resolution_reason : Option String

pub record Response : Type 0 where
  pub id : ℕ
  pub inject_id : ℕ
  pub exercise_id : ℕ
  pub user_id : ℕ
  pub group_id : Option String
  pub content : String
  pub selected_option : Option String
  pub submitted_at : ℕ
  pub assessment_id : Option ℕ
