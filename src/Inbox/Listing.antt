-- ===== src/Inbox/Listing.antt =====
-- Who sees which message: `list_communications` of app/services/communication_service.py, and the
-- single-message test of app/routers/communications.py. Messages of one time, whose order the query
-- leaves open, are listed as they are stored.
use iceberg_ttx.Prelude.{
  ℕ, String, Bool, true, false, not, ◌&&◌, ◌||◌, List, [], ◌∷◌, Option, none, some, ◌==◌, nat_eq,
  option_eq, string_eq, select, is_none, leb, if◌then◌else◌,
}
use iceberg_ttx.Prelude.Sort.{sorted}
use iceberg_ttx.Models.Enums.{
  facilitator, participant, observer, user_role_eq, outbound, direction_eq,
}
use iceberg_ttx.Models.Communication.{Communication}
use iceberg_ttx.Models.Database.{Db}
use iceberg_ttx.Access.Gates.{Caller, exercise_group_for_user, in_teams}
use iceberg_ttx.Inbox.Senders.{
  dict_get, flat, Resolved, sender_team_for_comm, sender_teams_for_comms,
}

-- ORDER BY sent_at DESC
abbrev pub newer : Communication → Communication → Bool
newer a b = leb b.sent_at a.sent_at

abbrev pub comms_of : Db → ℕ → List Communication
comms_of db exercise_id =
    sorted newer
      (select (λ (c : Communication). c.exercise_id == exercise_id) db.communications.rows)

-- teams is not None and user_team is not None and user_team in teams
abbrev pub received : Option (List String) → Option String → Bool
received none team = false
received (some teams) team = in_teams team teams

abbrev pub sent_by : Communication → ℕ → Option String → Option String → Bool
sent_by c user_id sender_team team =
    c.sender_id == some user_id && (is_none sender_team || sender_team == team)

abbrev pub listed : Resolved → ℕ → Option String → Communication → Bool
listed sender_teams user_id team c =
    if c.direction == outbound
    then sent_by c user_id (flat (dict_get c.id sender_teams)) team
      || received c.visible_to_teams team
    else is_none c.visible_to_teams || received c.visible_to_teams team

unfoldable pub list_communications : Db → ℕ → ℕ → Option String → Bool → List Communication
unfolding sender_teams_for_comms
list_communications db exercise_id user_id user_team participant_view =
    let comms = comms_of db exercise_id in
    if not participant_view && is_none user_team
    then comms
    else select (listed (sender_teams_for_comms db comms) user_id user_team) comms

-- The routes' viewer team: none but for participants.
unfoldable pub viewer_team : Db → ℕ → Caller → Option String
unfolding exercise_group_for_user
viewer_team db exercise_id c =
    if c.user.role == participant then exercise_group_for_user db exercise_id c else none

-- The inbox of a caller, as the list and the count ask for it.
unfoldable pub inbox : Db → ℕ → Caller → List Communication
unfolding list_communications viewer_team
inbox db exercise_id c =
    list_communications db exercise_id c.user.id (viewer_team db exercise_id c)
      (c.user.role == participant)

-- not comm.visible_to_teams
abbrev pub is_open : Option (List String) → Bool
is_open none = true
is_open (some []) = true
is_open (some (t ∷ ts)) = false

unfoldable pub comm_visible_to_user : Db → Communication → Caller → Bool
unfolding exercise_group_for_user sender_team_for_comm
comm_visible_to_user db comm c =
    let group_id = exercise_group_for_user db comm.exercise_id c in
    if c.user.role == facilitator || c.user.role == observer
    then true
    else if comm.direction == outbound
    then sent_by comm c.user.id (sender_team_for_comm db comm) group_id
      || not (is_open comm.visible_to_teams) && received comm.visible_to_teams group_id
    else is_open comm.visible_to_teams || received comm.visible_to_teams group_id
