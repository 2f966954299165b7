-- ===== src/Models/Communication.antt =====
-- The rows of app/models/communication.py.
use iceberg_ttx.Prelude.{ℕ, String, Bool, Option, List}
use iceberg_ttx.Models.Enums.{CommDirection}

pub record Communication : Type 0 where
  pub id : ℕ
  pub exercise_id : ℕ
  pub sender_id : Option ℕ
  pub sender_team : Option String
  pub direction : CommDirection
  pub external_entity : Option String
  pub subject : String
  pub body : String
  pub triggered_by_inject_id : Option ℕ
  pub trigger_key : Option (String × ℕ)
  pub visible_to_teams : Option (List String)
  pub created_during_run : Option Bool
  pub sent_at : ℕ

pub record CommunicationRead : Type 0 where
  pub communication_id : ℕ
  pub user_id : ℕ
  pub read_at : ℕ
