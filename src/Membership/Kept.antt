-- ===== src/Membership/Kept.antt =====
-- Each change of a roster keeps its invariant.
use iceberg_ttx.Prelude.{
  ℕ, String, not, ◌&&◌, List, [], ◌∷◌, Option, none, some, ◌≡◌, refl, ap, ◌==◌, ==→≡, nat_eq, Memᴰ,
  mem-of_find, find-holds, and-left,
}
use iceberg_ttx.Errors.{ok, err, >>=-eq-ok, ok-injective, user_not_found, member_not_found}
use iceberg_ttx.Models.Exercise.{User, Exercise, ExerciseMember}
use iceberg_ttx.Models.Database.{Db, get_user}
use iceberg_ttx.Launch.Content.{Http}
use iceberg_ttx.Launch.Freeze.{or_raise, or_raise-eq-ok}
use iceberg_ttx.Access.Gates.{exercise_member_for_user}
use iceberg_ttx.Membership.Teams.{validate_group_id}
use iceberg_ttx.Membership.Roster.{
  open_roster, group_or_default, enrolled, enrol_member, update_member_group, remove_member, Change,
  enrol, regroup, remove, change, or_before, changes,
}
use iceberg_ttx.Membership.Valid.{
  InCatalogue, IsRoster, validate_group_id-InCatalogue, group_or_default-InCatalogue,
  insert-IsRoster, regroup-IsRoster, remove-IsRoster,
}

enrolled-IsRoster :
    (db : Db) (exercise : Exercise) (user_id : ℕ) (user : User) (normalized : Option String)
    (now : ℕ) (existing : Option ExerciseMember) (member : ExerciseMember) (db' : Db)
    → IsRoster db
    → exercise_member_for_user db exercise.id user_id ≡ existing
    → InCatalogue db exercise.id normalized
    → enrolled db exercise user_id user normalized now existing ≡ ok (member, db')
    → IsRoster db'
enrolled-IsRoster db exercise user_id user normalized now (some m) member db' roster found valid h =
    let e : db ≡ db' = cc (ok-injective h) in rw (← e) roster
enrolled-IsRoster db exercise user_id user normalized now none member db' roster found valid h =
    let (group_id, g, h₁) = >>=-eq-ok (group_or_default db exercise user normalized) _ h in
    let in_catalogue = group_or_default-InCatalogue db exercise user normalized group_id valid g in
    rw (← ap (λ r. r.1) (ok-injective h₁))
      (insert-IsRoster db exercise user_id user group_id now roster found in_catalogue)

enrol_member-IsRoster :
    (db : Db) (exercise : Exercise) (user_id : ℕ) (group_id : Option String) (now : ℕ)
    (member : ExerciseMember) (db' : Db)
    → IsRoster db
    → enrol_member db exercise user_id group_id now ≡ ok (member, db')
    → IsRoster db'
unfolding enrol_member
enrol_member-IsRoster db exercise user_id group_id now member db' roster h =
    let (locked, _, h₁) = >>=-eq-ok (open_roster db exercise) _ h in
    let (user, _, h₂) = >>=-eq-ok (or_raise (get_user db user_id) user_not_found) _ h₁ in
    let (normalized, valid, h₃) = >>=-eq-ok (validate_group_id db locked group_id) _ h₂ in
    enrolled-IsRoster db locked user_id user normalized now _ member db' roster refl
      (validate_group_id-InCatalogue db locked group_id normalized valid) h₃

-- The member that a change names is a row of the exercise.
pub member_of :
    (db : Db) (exercise_id user_id : ℕ) (member : ExerciseMember)
    → exercise_member_for_user db exercise_id user_id ≡ some member
    → Memᴰ member db.members.rows × (member.exercise_id ≡ exercise_id)
unfolding exercise_member_for_user
member_of db exercise_id user_id member found =
    let p = λ (m : ExerciseMember). m.exercise_id == exercise_id && m.user_id == user_id in
    (
      mem-of_find p db.members.rows found,
      ==→≡ member.exercise_id exercise_id (
          and-left (member.exercise_id == exercise_id) (member.user_id == user_id)
            (find-holds p db.members.rows found)),
    )

update_member_group-IsRoster :
    (db : Db) (exercise : Exercise) (user_id : ℕ) (group_id : Option String)
    (member : ExerciseMember) (db' : Db)
    → IsRoster db
    → update_member_group db exercise user_id group_id ≡ ok (member, db')
    → IsRoster db'
unfolding update_member_group
update_member_group-IsRoster db exercise user_id group_id member db' roster h =
    let (locked, _, h₁) = >>=-eq-ok (open_roster db exercise) _ h in
    let (row, found, h₂) =
      >>=-eq-ok (or_raise (exercise_member_for_user db locked.id user_id) member_not_found) _ h₁ in
    let (normalized, valid, h₃) = >>=-eq-ok (validate_group_id db locked group_id) _ h₂ in
    let (stands, own) = member_of db locked.id user_id row (or_raise-eq-ok _ _ found) in
    rw (← ap (λ r. r.1) (ok-injective h₃)) (
      regroup-IsRoster db row normalized roster stands
        (rw own (validate_group_id-InCatalogue db locked group_id normalized valid)))

remove_member-IsRoster :
    (db : Db) (exercise : Exercise) (user_id : ℕ) (db' : Db)
    → IsRoster db
    → remove_member db exercise user_id ≡ ok db'
    → IsRoster db'
unfolding remove_member
remove_member-IsRoster db exercise user_id db' roster h =
    let (locked, _, h₁) = >>=-eq-ok (open_roster db exercise) _ h in
    let (row, _, h₂) =
      >>=-eq-ok (or_raise (exercise_member_for_user db locked.id user_id) member_not_found) _ h₁ in
    rw (← ok-injective h₂) (remove-IsRoster db (λ m. not (m.id == row.id)) roster)

pub change-IsRoster :
    (db : Db) (exercise : Exercise) (c : Change) (db' : Db)
    → IsRoster db
    → change db exercise c ≡ ok db'
    → IsRoster db'
unfolding change
change-IsRoster db exercise (enrol user_id group_id now) db' roster h =
    let ((member, after), done, e) =
      >>=-eq-ok (enrol_member db exercise user_id group_id now) _ h in
    rw (← ok-injective e)
      (enrol_member-IsRoster db exercise user_id group_id now member after roster done)
change-IsRoster db exercise (regroup user_id group_id) db' roster h =
    let ((member, after), done, e) =
      >>=-eq-ok (update_member_group db exercise user_id group_id) _ h in
    rw (← ok-injective e)
      (update_member_group-IsRoster db exercise user_id group_id member after roster done)
change-IsRoster db exercise (remove user_id) db' roster h =
    remove_member-IsRoster db exercise user_id db' roster h

pub or_before-IsRoster :
    (db : Db) (result : Http Db)
    → IsRoster db
    → ((db' : Db) → result ≡ ok db' → IsRoster db')
    → IsRoster (or_before db result)
or_before-IsRoster db (ok db') roster keep = keep db' refl
or_before-IsRoster db (err e) roster keep = roster

-- Every sequence of requests to enrol, regroup and remove members keeps the roster invariant: one
-- row for each user in an exercise, distinct identifiers below the serial column, and each group a
-- team of the definition that its exercise runs on.
pub changes-IsRoster :
    (db : Db) (requests : List (Exercise × Change)) → IsRoster db → IsRoster (changes db requests)
unfolding changes
changes-IsRoster db [] roster = roster
changes-IsRoster db ((exercise, c) ∷ rest) roster =
    changes-IsRoster (or_before db (change db exercise c)) rest (
      or_before-IsRoster db (change db exercise c) roster
        (λ db' h. change-IsRoster db exercise c db' roster h))
