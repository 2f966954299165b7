-- ===== src/Inbox/Senders.antt =====
-- The team that a message counts for: one at a time (`sender_team_for_comm`), and batched for a list
-- (`sender_teams_for_comms`) of app/services/communication_service.py.
use iceberg_ttx.Prelude.{
  ℕ, String, Bool, false, ◌&&◌, List, [], ◌∷◌, ◌++◌, map, Option, none, some, ◌==◌, Eq, nat_eq,
  pair_eq, select, contains, is_some, is_none, is_blank, if◌then◌else◌,
}
use iceberg_ttx.Models.Exercise.{User, ExerciseMember}
use iceberg_ttx.Models.Communication.{Communication}
use iceberg_ttx.Models.Database.{Db, get_user}
use iceberg_ttx.Access.Gates.{exercise_member_for_user}

-- A dict by the entries that its comprehension runs over: the last entry of a key counts.
abbrev pub later_or : {V : Type 0} → Option V → Option V → Option V
later_or none here = here
later_or (some v) here = some v

abbrev pub dict_get : {K V : Type 0} ⦃e : Eq K⦄ → K → List (K × V) → Option V
dict_get k [] = none
dict_get k ((key, value) ∷ entries) =
    later_or (dict_get k entries) (if k == key then some value else none)

abbrev pub team_of : Option User → Option String
team_of none = none
team_of (some u) = u.team

abbrev pub member_or_user : Option ExerciseMember → Option User → Option String
member_or_user none user = team_of user
member_or_user (some m) user = m.group_id

-- The stored team, where it is not empty.
abbrev pub truthy : Option String → Option String
truthy none = none
truthy (some t) = if is_blank t then none else some t

abbrev pub own_team : Communication → Option String
own_team c = truthy c.sender_team

abbrev pub or_other : {A : Type 0} → Option A → Option A → Option A
or_other (some a) other = some a
or_other none other = other

abbrev pub looked_up : Db → ℕ → Option ℕ → Option String
looked_up db exercise_id none = none
looked_up db exercise_id (some id) =
    member_or_user (exercise_member_for_user db exercise_id id) (get_user db id)

unfoldable pub sender_team_for_comm : Db → Communication → Option String
unfolding exercise_member_for_user
sender_team_for_comm db c = or_other (own_team c) (looked_up db c.exercise_id c.sender_id)

abbrev pub Resolved : Type 0
Resolved = List (ℕ × Option String)

-- The first pass: what needs no query.
abbrev pub is_unresolved : Communication → Bool
is_unresolved c = is_none (own_team c) && is_some c.sender_id

unfoldable pub first_pass : List Communication → Resolved
first_pass [] = []
first_pass (c ∷ comms) =
    let rest = first_pass comms in if is_unresolved c then rest else (c.id, own_team c) ∷ rest

abbrev pub with_sender : Option ℕ → List ℕ → List ℕ
with_sender none rest = rest
with_sender (some id) rest = id ∷ rest

unfoldable pub sender_ids : List Communication → List ℕ
sender_ids [] = []
sender_ids (c ∷ comms) = with_sender c.sender_id (sender_ids comms)

abbrev pub Groups : Type 0
Groups = List ((ℕ × ℕ) × Option String)

-- The query of the members, as the dict of their groups.
unfoldable pub group_ids_for : Db → List Communication → Groups
unfolding sender_ids
group_ids_for db unresolved =
    map (λ (m : ExerciseMember). ((m.exercise_id, m.user_id), m.group_id))
      (select
        (λ (m : ExerciseMember).
          contains m.exercise_id (map (λ (c : Communication). c.exercise_id) unresolved)
          && contains m.user_id (sender_ids unresolved))
        db.members.rows)

abbrev pub is_alone : Groups → ℕ → Option ℕ → Bool
is_alone groups exercise_id none = false
is_alone groups exercise_id (some id) = is_none (dict_get (exercise_id, id) groups)

-- The senders with no membership.
unfoldable pub fallback_ids : Groups → List Communication → List ℕ
unfolding sender_ids
fallback_ids groups unresolved =
    sender_ids
      (select (λ (c : Communication). is_alone groups c.exercise_id c.sender_id) unresolved)

unfoldable pub user_teams_for : Db → List ℕ → Resolved
user_teams_for db ids =
    map (λ (u : User). (u.id, u.team)) (select (λ (u : User). contains u.id ids) db.users)

abbrev pub flat : Option (Option String) → Option String
flat none = none
flat (some team) = team

abbrev pub group_or : Option (Option String) → Option String → Option String
group_or none team = team
group_or (some group) team = group

abbrev pub batched_team : Groups → Resolved → ℕ → ℕ → Option String
batched_team groups teams exercise_id id =
    group_or (dict_get (exercise_id, id) groups) (flat (dict_get id teams))

abbrev pub with_team : Groups → Resolved → Communication → Option ℕ → Resolved → Resolved
with_team groups teams c none rest = rest
with_team groups teams c (some id) rest = (c.id, batched_team groups teams c.exercise_id id) ∷ rest

unfoldable pub second_pass : Groups → Resolved → List Communication → Resolved
second_pass groups teams [] = []
second_pass groups teams (c ∷ comms) =
    with_team groups teams c c.sender_id (second_pass groups teams comms)

-- With nothing left to resolve the queries would find nothing, so that they are not made.
unfoldable pub sender_teams_for_comms : Db → List Communication → Resolved
unfolding first_pass group_ids_for fallback_ids user_teams_for second_pass
sender_teams_for_comms db comms =
    let unresolved = select is_unresolved comms in
    let groups = group_ids_for db unresolved in
    let teams = user_teams_for db (fallback_ids groups unresolved) in
    first_pass comms ++ second_pass groups teams unresolved
