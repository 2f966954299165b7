-- ===== src/Access/Gates.antt =====
-- app/services/access_control.py and app/services/role_preview.py. A caller is the user row that a
-- request runs as, with the attributes that `apply_role_preview` stamps on it. The audit records
-- that a denial emits are not modelled.
use iceberg_ttx.Prelude.{
  ℕ, String, Bool, true, false, not, ◌&&◌, ◌||◌, List, [], ◌∷◌, Option, none, some, ◌==◌, nat_eq,
  option_eq, string_eq, find, contains, is_some, is_blank, strip, if◌then◌else◌,
}
use iceberg_ttx.Errors.{
  ok, ◌>>=◌, ◌>>◌, require, exercise_not_found, access_denied, completed_immutable,
  inject_not_found,
}
use iceberg_ttx.Models.Enums.{
  UserRole, facilitator, participant, observer, user_role_eq, completed, exercise_state_eq,
  InjectState, inject_state_eq,
}
use iceberg_ttx.Models.Exercise.{User, Exercise, ExerciseMember}
use iceberg_ttx.Models.Inject.{Inject}
use iceberg_ttx.Models.Database.{Db, get_exercise}
use iceberg_ttx.Launch.Content.{Http}
use iceberg_ttx.Launch.Freeze.{or_raise}

-- `user` has the effective role and team; the rest is stamped.
pub record Caller : Type 0 where
  pub user : User
  pub actual_role : UserRole
  pub actual_team : Option String
  pub can_switch_roles : Bool

-- UserRole(view_role), where a ValueError is none.
abbrev pub parse_role : String → Option UserRole
parse_role s =
    if s == "facilitator"
    then some facilitator
    else if s == "participant"
    then some participant
    else if s == "observer"
    then some observer
    else none

abbrev pub view_team_or : Option String → Option String → Option String
view_team_or none team = team
view_team_or (some t) team = if is_blank (strip t) then team else some (strip t)

abbrev pub stamped : User → Caller
stamped user = record {
  user = user;
  actual_role = user.role;
  actual_team = user.team;
  can_switch_roles = user.role == facilitator;
}

abbrev pub previewed : User → Option String → Option UserRole → Caller
previewed user view_team none = stamped user
previewed user view_team (some role) = record {
  user = record user { role = role; team = view_team_or view_team user.team };
  actual_role = user.role;
  actual_team = user.team;
  can_switch_roles = true;
}

abbrev pub requested : Option String → Option UserRole
requested none = none
requested (some view_role) = parse_role view_role

unfoldable pub apply_role_preview : User → Option String → Option String → Caller
apply_role_preview user view_role view_team =
    if user.role == facilitator
    then previewed user view_team (requested view_role)
    else stamped user

unfoldable pub is_actual_facilitator : Caller → Bool
is_actual_facilitator c = c.actual_role == facilitator

unfoldable pub is_admin : Caller → Bool
is_admin c = c.user.is_admin

unfoldable pub get_exercise_or_404 : Db → ℕ → Http Exercise
get_exercise_or_404 db exercise_id = or_raise (get_exercise db exercise_id) exercise_not_found

unfoldable pub exercise_member_for_user : Db → ℕ → ℕ → Option ExerciseMember
exercise_member_for_user db exercise_id user_id =
    find (λ (m : ExerciseMember). m.exercise_id == exercise_id && m.user_id == user_id)
      db.members.rows

unfoldable pub is_exercise_member : Db → ℕ → ℕ → Bool
unfolding exercise_member_for_user
is_exercise_member db exercise_id user_id =
    is_some (exercise_member_for_user db exercise_id user_id)

unfoldable pub require_exercise_access : Db → ℕ → Caller → Http Exercise
unfolding get_exercise_or_404 is_admin is_exercise_member
require_exercise_access db exercise_id c = do
  exercise ← get_exercise_or_404 db exercise_id
  require
      (is_admin c
        || exercise.created_by == c.user.id
        || is_exercise_member db exercise_id c.user.id)
      access_denied
  ok exercise

unfoldable pub require_exercise_owner : Db → ℕ → Caller → Http Exercise
unfolding get_exercise_or_404 is_admin is_exercise_member is_actual_facilitator
require_exercise_owner db exercise_id c = do
  exercise ← get_exercise_or_404 db exercise_id
  require
      (is_admin c
        || exercise.created_by == c.user.id
        || is_actual_facilitator c && is_exercise_member db exercise_id c.user.id)
      access_denied
  ok exercise

unfoldable pub require_operational_mutability : Exercise → Http (Unit {0})
require_operational_mutability exercise =
    require (not (exercise.state == completed)) completed_immutable

abbrev pub in_teams : Option String → List String → Bool
in_teams none teams = false
in_teams (some t) teams = contains t teams

-- `user_team` is given only outside an exercise.
abbrev pub targets_match : Option (List String) → Option String → Option String → Bool
targets_match none group_id user_team = true
targets_match (some []) group_id user_team = true
targets_match (some (t ∷ ts)) group_id user_team =
    in_teams group_id (t ∷ ts) || in_teams user_team (t ∷ ts)

unfoldable pub inject_matches_group : Inject → Option String → Option String → Bool
inject_matches_group inject group_id user_team =
    if is_some inject.group_id
    then group_id == inject.group_id
    else targets_match inject.target_teams group_id user_team

abbrev pub group_or_team : Caller → Option ExerciseMember → Option String
group_or_team c none =
    if is_actual_facilitator c && c.user.role == participant then c.user.team else none
group_or_team c (some m) = m.group_id

unfoldable pub exercise_group_for_user : Db → ℕ → Caller → Option String
unfolding exercise_member_for_user is_actual_facilitator
exercise_group_for_user db exercise_id c =
    group_or_team c (exercise_member_for_user db exercise_id c.user.id)

unfoldable pub inject_visible_to : Inject → Caller → Option String → Bool
unfolding inject_matches_group
inject_visible_to inject c group_id =
    if c.user.role == facilitator
    then true
    else if inject.state == InjectState.pending
    then false
    else if c.user.role == observer
    then true
    else inject_matches_group inject group_id none

unfoldable pub is_inject_visible_to_user : Db → Inject → Caller → Bool
unfolding inject_visible_to exercise_group_for_user
is_inject_visible_to_user db inject c =
    if c.user.role == facilitator
    then true
    else if inject.state == InjectState.pending
    then false
    else if c.user.role == observer
    then true
    else inject_visible_to inject c (exercise_group_for_user db inject.exercise_id c)

unfoldable pub require_inject_visible : Db → Inject → Caller → Http (Unit {0})
unfolding is_inject_visible_to_user
require_inject_visible db inject c =
    require (is_inject_visible_to_user db inject c) inject_not_found
