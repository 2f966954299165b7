-- ===== src/Inbox/Send.antt =====
-- Sending: `create_communication` of app/services/communication_service.py, and the routes of
-- app/routers/communications.py that send, inject, open and mark a message. The payload of the
-- answer is not modelled.
use iceberg_ttx.Prelude.{
  ℕ, String, Bool, true, not, List, [], ◌∷◌, ◌++◌, Option, none, some, ◌==◌, nat_eq, find, is_some,
  if◌then◌else◌,
}
use iceberg_ttx.Errors.{
  ok, err, ◌>>=◌, ◌>>◌, require, only_participants, comms_need_active, only_outbound,
  communication_not_found,
}
use iceberg_ttx.Models.Enums.{
  draft, active, exercise_state_eq, participant, user_role_eq, CommDirection, inbound, outbound,
  direction_eq,
}
use iceberg_ttx.Models.Exercise.{Exercise}
use iceberg_ttx.Models.Communication.{Communication, CommunicationRead}
use iceberg_ttx.Models.Database.{Db, insert, communication_created}
use iceberg_ttx.Launch.Content.{Http}
use iceberg_ttx.Launch.Freeze.{definition_for_exercise, lock_configuration_owner}
use iceberg_ttx.Access.Gates.{
  Caller, require_exercise_access, require_operational_mutability, exercise_group_for_user,
}
use iceberg_ttx.Membership.Teams.{or_none, scenario_team_ids, validate_team_ids}
use iceberg_ttx.Inbox.Listing.{inbox, comm_visible_to_user}
use iceberg_ttx.Inbox.Receipts.{communication_read_at, mark_read, unread_count}

-- The arguments of `create_communication`.
pub record NewCommunication : Type 0 where
  pub exercise_id : ℕ
  pub direction : CommDirection
  pub subject : String
  pub body : String
  pub sender_id : Option ℕ
  pub sender_team : Option String
  pub external_entity : Option String
  pub triggered_by_inject_id : Option ℕ
  pub visible_to_teams : Option (List String)
  pub created_during_run : Bool

-- visible_to_teams or None
abbrev pub teams_or_none : Option (List String) → Option (List String)
teams_or_none none = none
teams_or_none (some teams) = or_none teams

abbrev pub comm_row : NewCommunication → ℕ → ℕ → Communication
comm_row new now id = record {
  id = id;
  exercise_id = new.exercise_id;
  sender_id = new.sender_id;
  sender_team = new.sender_team;
  direction = new.direction;
  external_entity = new.external_entity;
  subject = new.subject;
  body = new.body;
  triggered_by_inject_id = new.triggered_by_inject_id;
  trigger_key = none;
  visible_to_teams = teams_or_none new.visible_to_teams;
  created_during_run = some new.created_during_run;
  sent_at = now;
}

unfoldable pub create_communication : Db → NewCommunication → ℕ → Communication × Db
create_communication db new now = (
  comm_row new now db.communications.next_id,
  record db {
    communications = insert (comm_row new now) db.communications;
    events = db.events ++ communication_created new.exercise_id db.communications.next_id ∷ [];
  },
)

unfoldable pub all_team_ids_for_exercise : Db → ℕ → Http (List String)
unfolding definition_for_exercise scenario_team_ids
all_team_ids_for_exercise db exercise_id = do
  definition ← definition_for_exercise db exercise_id
  ok (elim definition [ none ↦ [] | some d ↦ scenario_team_ids d ])

pub record SendCommRequest : Type 0 where
  pub direction : CommDirection
  pub external_entity : Option String
  pub subject : String
  pub body : String
  pub visible_to_teams : Option (List String)

abbrev pub sent_comm :
    ℕ → SendCommRequest → Caller → Option String → Option (List String) → NewCommunication
sent_comm exercise_id body c sender_team visible_to_teams = record {
  exercise_id = exercise_id;
  direction = body.direction;
  subject = body.subject;
  body = body.body;
  sender_id = some c.user.id;
  sender_team = sender_team;
  external_entity = if is_some visible_to_teams then none else body.external_entity;
  triggered_by_inject_id = none;
  visible_to_teams = visible_to_teams;
  created_during_run = true;
}

unfoldable pub send_comm : Db → ℕ → SendCommRequest → Caller → ℕ → Http (Communication × Db)
unfolding require_exercise_access require_operational_mutability exercise_group_for_user
    validate_team_ids create_communication
send_comm db exercise_id body c now = do
  exercise ← require_exercise_access db exercise_id c
  require_operational_mutability exercise
  require (c.user.role == participant) only_participants
  require (exercise.state == active) comms_need_active
  require (body.direction == outbound) only_outbound
  let sender_team = exercise_group_for_user db exercise_id c
  visible_to_teams ← validate_team_ids db exercise body.visible_to_teams
  ok (create_communication db (sent_comm exercise_id body c sender_team visible_to_teams) now)

pub record InjectCommRequest : Type 0 where
  pub external_entity : String
  pub subject : String
  pub body : String
  pub visible_to_teams : Option (List String)

-- The validated audience, or all teams, or None.
abbrev pub audience_or : Db → ℕ → Option (List String) → Http (Option (List String))
audience_or db exercise_id (some (t ∷ ts)) = ok (some (t ∷ ts))
audience_or db exercise_id _ = do
  all_teams ← all_team_ids_for_exercise db exercise_id
  ok (or_none all_teams)

abbrev pub injected_comm :
    ℕ → InjectCommRequest → Exercise → Option (List String) → NewCommunication
injected_comm exercise_id body exercise visible_to_teams = record {
  exercise_id = exercise_id;
  direction = inbound;
  subject = body.subject;
  body = body.body;
  sender_id = none;
  sender_team = none;
  external_entity = some body.external_entity;
  triggered_by_inject_id = none;
  visible_to_teams = visible_to_teams;
  created_during_run = not (exercise.state == draft);
}

-- For facilitators: the route's dependency checks the role.
unfoldable pub inject_comm : Db → ℕ → InjectCommRequest → Caller → ℕ → Http (Communication × Db)
unfolding require_exercise_access require_operational_mutability lock_configuration_owner
    validate_team_ids all_team_ids_for_exercise create_communication
inject_comm db exercise_id body c now = do
  loaded ← require_exercise_access db exercise_id c
  require_operational_mutability loaded
  (scenario, exercise) ← lock_configuration_owner db loaded
  require_operational_mutability exercise
  validated_teams ← validate_team_ids db exercise body.visible_to_teams
  visible_to_teams ← audience_or db exercise_id validated_teams
  ok (create_communication db (injected_comm exercise_id body exercise visible_to_teams) now)

abbrev pub in_exercise_or : ℕ → Option Communication → Http Communication
in_exercise_or exercise_id none = err communication_not_found
in_exercise_or exercise_id (some m) =
    if m.exercise_id == exercise_id then ok m else err communication_not_found

unfoldable pub get_comm_or_404 : Db → ℕ → ℕ → Http Communication
get_comm_or_404 db exercise_id comm_id =
    in_exercise_or exercise_id
      (find (λ (m : Communication). m.id == comm_id) db.communications.rows)

-- The message, and when this caller has read it.
unfoldable pub get_comm : Db → ℕ → ℕ → Caller → Http (Communication × Option ℕ)
unfolding require_exercise_access get_comm_or_404 comm_visible_to_user communication_read_at
get_comm db exercise_id comm_id c = do
  exercise ← require_exercise_access db exercise_id c
  m ← get_comm_or_404 db exercise_id comm_id
  require (comm_visible_to_user db m c) communication_not_found
  ok (m, communication_read_at db comm_id c.user.id)

unfoldable pub put_comm_read : Db → ℕ → ℕ → Caller → ℕ → Http (CommunicationRead × Db)
unfolding require_exercise_access get_comm_or_404 comm_visible_to_user mark_read
put_comm_read db exercise_id comm_id c now = do
  exercise ← require_exercise_access db exercise_id c
  m ← get_comm_or_404 db exercise_id comm_id
  require (comm_visible_to_user db m c) communication_not_found
  mark_read db comm_id c.user.id now

-- The list, newest first, and the badge.
unfoldable pub list_comms : Db → ℕ → Caller → Http (List Communication)
unfolding require_exercise_access inbox
list_comms db exercise_id c = do
  exercise ← require_exercise_access db exercise_id c
  ok (inbox db exercise_id c)

unfoldable pub get_unread_count : Db → ℕ → Caller → Http ℕ
unfolding require_exercise_access unread_count
get_unread_count db exercise_id c = do
  exercise ← require_exercise_access db exercise_id c
  ok (unread_count db exercise_id c)
