-- ===== src/Membership/Roster.antt =====
-- The roster operations of app/services/exercise_service.py. The owner lock puts the changes of a
-- roster in sequence, so the insert cannot meet a row that the query before it did not see.
use iceberg_ttx.Prelude.{ℕ, String, not, List, [], ◌∷◌, Option, none, some, ◌==◌, nat_eq, select}
use iceberg_ttx.Errors.{
  ok, err, ◌>>=◌, ◌>>◌, require, roster_locked, user_not_found, member_not_found,
}
use iceberg_ttx.Models.Enums.{draft, exercise_state_eq}
use iceberg_ttx.Models.Exercise.{User, Exercise, ExerciseMember}
use iceberg_ttx.Models.Database.{Db, insert, update_rows, get_user}
use iceberg_ttx.Launch.Content.{Http}
use iceberg_ttx.Launch.Freeze.{lock_configuration_owner, or_raise}
use iceberg_ttx.Access.Gates.{require_operational_mutability, exercise_member_for_user}
use iceberg_ttx.Progression.Cursor.{roster_changes_allowed}
use iceberg_ttx.Membership.Teams.{validate_group_id, default_group_for_user}

-- What the three operations begin with: the locked exercise, if its roster may change.
unfoldable pub open_roster : Db → Exercise → Http Exercise
unfolding lock_configuration_owner require_operational_mutability roster_changes_allowed
open_roster db exercise = do
  (scenario, locked) ← lock_configuration_owner db exercise
  require_operational_mutability locked
  require (roster_changes_allowed db locked.id) roster_locked
  ok locked

abbrev pub new_member : Exercise → ℕ → User → Option String → ℕ → ℕ → ExerciseMember
new_member exercise user_id user group_id now id = record {
  id = id;
  exercise_id = exercise.id;
  user_id = user_id;
  group_id = group_id;
  role_at_enrolment = user.role;
  created_during_run = some (not (exercise.state == draft));
  joined_at = now;
}

abbrev pub group_or_default : Db → Exercise → User → Option String → Http (Option String)
group_or_default db exercise user none = default_group_for_user db exercise user
group_or_default db exercise user (some group_id) = ok (some group_id)

-- An enrolment that is there already is returned as it is.
abbrev pub enrolled :
    Db
    → Exercise
    → ℕ
    → User
    → Option String
    → ℕ
    → Option ExerciseMember
    → Http (ExerciseMember × Db)
enrolled db exercise user_id user normalized now (some existing) = ok (existing, db)
enrolled db exercise user_id user normalized now none = do
  group_id ← group_or_default db exercise user normalized
  let row = new_member exercise user_id user group_id now
  ok (row db.members.next_id, record db { members = insert row db.members })

unfoldable pub enrol_member : Db → Exercise → ℕ → Option String → ℕ → Http (ExerciseMember × Db)
unfolding open_roster validate_group_id default_group_for_user exercise_member_for_user
enrol_member db exercise user_id group_id now = do
  locked ← open_roster db exercise
  user ← or_raise (get_user db user_id) user_not_found
  normalized ← validate_group_id db locked group_id
  enrolled db locked user_id user normalized now (exercise_member_for_user db locked.id user_id)

abbrev pub regrouped : Option String → ExerciseMember → ExerciseMember
regrouped group_id m = record m { group_id = group_id }

unfoldable pub update_member_group : Db → Exercise → ℕ → Option String → Http (ExerciseMember × Db)
unfolding open_roster validate_group_id exercise_member_for_user
update_member_group db exercise user_id group_id = do
  locked ← open_roster db exercise
  member ← or_raise (exercise_member_for_user db locked.id user_id) member_not_found
  normalized ← validate_group_id db locked group_id
  ok (
    regrouped normalized member,
    record db { members = update_rows (λ m. m.id == member.id) (regrouped normalized) db.members },
  )

unfoldable pub remove_member : Db → Exercise → ℕ → Http Db
unfolding open_roster exercise_member_for_user
remove_member db exercise user_id = do
  locked ← open_roster db exercise
  member ← or_raise (exercise_member_for_user db locked.id user_id) member_not_found
  ok (record db {
    members = record db.members { rows = select (λ m. not (m.id == member.id)) db.members.rows };
  })

-- A request to change a roster, and a sequence of requests: one that fails is rolled back.
pub data Change : Type 0 where
  enrol : (user_id : ℕ) (group_id : Option String) (now : ℕ) → Change
  regroup : (user_id : ℕ) (group_id : Option String) → Change
  remove : (user_id : ℕ) → Change

unfoldable pub change : Db → Exercise → Change → Http Db
unfolding enrol_member update_member_group remove_member
change db exercise (enrol user_id group_id now) = do
  (member, db') ← enrol_member db exercise user_id group_id now
  ok db'
change db exercise (regroup user_id group_id) = do
  (member, db') ← update_member_group db exercise user_id group_id
  ok db'
change db exercise (remove user_id) = remove_member db exercise user_id

abbrev pub or_before : Db → Http Db → Db
or_before db (ok db') = db'
or_before db (err e) = db

unfoldable pub changes : Db → List (Exercise × Change) → Db
unfolding change
changes db [] = db
changes db ((exercise, c) ∷ rest) = changes (or_before db (change db exercise c)) rest
