-- ===== src/Models/Exercise.antt =====
-- The rows of app/models/exercise.py and app/models/user.py. A time is a number of microseconds.
-- Spans, and the seconds columns, are integers of microseconds: the source's floats are not
-- modelled, and a subtraction of times may be negative.
use iceberg_ttx.Prelude.{ℕ, String, Bool, Option}
use iceberg_ttx.Prelude.Int.{ℤ}
use iceberg_ttx.Models.Enums.{ExerciseState, SnapshotProvenance, UserRole}

pub record User : Type 0 where
  pub id : ℕ
  pub email : String
  pub display_name : String
  pub hashed_password : Option String
  pub role : UserRole
  pub team : Option String
  pub is_active : Bool
  pub is_admin : Bool
  pub must_change_password : Bool
  pub created_at : ℕ
  pub token_valid_after : Option ℕ
  pub auth_provider : String
  pub subject : Option String
  pub auth_tenant : Option String
  pub role_managed_by_idp : Bool

pub record Exercise : Type 0 where
  pub id : ℕ
  pub scenario_id : ℕ
  pub title : String
  pub state : ExerciseState
  pub current_node_id : Option String
  pub llm_enabled : Bool
  pub launch_provenance : SnapshotProvenance
  pub launch_snapshot_digest : Option String
  pub debrief_notes : Option String
  pub started_at : Option ℕ
  pub ended_at : Option ℕ
  pub paused_at : Option ℕ
  pub accumulated_pause_seconds : ℤ
  pub created_by : ℕ
  pub created_at : ℕ

pub record ExerciseMember : Type 0 where
  pub id : ℕ
  pub exercise_id : ℕ
  pub user_id : ℕ
  pub group_id : Option String
  pub role_at_enrolment : UserRole
  pub created_during_run : Option Bool
  pub joined_at : ℕ

pub record ExerciseStateTransition : Type 0 where
  pub id : ℕ
  pub exercise_id : ℕ
  pub from_state : ExerciseState
  pub to_state : ExerciseState
  pub actor_id : Option ℕ
  pub transitioned_at : ℕ

pub record ExerciseProgress : Type 0 where
  pub id : ℕ
  pub exercise_id : ℕ
  pub group_id : Option String
  pub current_node_id : Option String
  pub current_inject_id : Option ℕ
  pub advanced_at : ℕ
  pub advanced_by : Option ℕ
