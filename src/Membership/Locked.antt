-- ===== src/Membership/Locked.antt =====
-- A roster after the first release: no sequence of changes moves it.
use iceberg_ttx.Prelude.{
  ℕ, String, Bool, true, false, not, List, [], ◌∷◌, Option, none, some, ◌≡◌, arith, refl, ap, ◌∙◌,
  inl, inr, Bool-cases, ◌==◌, ==→≡, nat_eq, Memᴰ, select-snoc, select-update, select-select,
  mem_of_key,
}
use iceberg_ttx.Errors.{
  ok, err, >>=-eq-ok, require-eq-ok, ok-injective, user_not_found, member_not_found,
}
use iceberg_ttx.Models.Exercise.{User, Exercise, ExerciseMember}
use iceberg_ttx.Models.Inject.{Inject}
use iceberg_ttx.Models.Database.{Db, get_user, members_of}
use iceberg_ttx.Launch.Content.{Http}
use iceberg_ttx.Launch.Freeze.{or_raise, or_raise-eq-ok, lock_configuration_owner}
use iceberg_ttx.Access.Gates.{require_operational_mutability, exercise_member_for_user}
use iceberg_ttx.Progression.Cursor.{roster_changes_allowed}
use iceberg_ttx.Progression.Release.{release_inject}
use iceberg_ttx.Progression.Once.{HasInjectKeys}
use iceberg_ttx.Progression.Roster.{roster-locked}
use iceberg_ttx.Membership.Teams.{validate_group_id}
use iceberg_ttx.Membership.Roster.{
  open_roster, group_or_default, enrolled, enrol_member, update_member_group, remove_member, Change,
  enrol, regroup, remove, change, or_before, changes, new_member, regrouped,
}
use iceberg_ttx.Membership.Valid.{IsRoster, member_id}
use iceberg_ttx.Membership.Kept.{change-IsRoster, or_before-IsRoster, member_of}

-- Another exercise is worked on where the roster of this one is locked.
open_roster-other :
    (db : Db) (exercise locked : Exercise) (id : ℕ)
    → open_roster db exercise ≡ ok locked
    → roster_changes_allowed db id ≡ false
    → (locked.id == id) ≡ false
unfolding open_roster
open_roster-other db exercise locked id h lock =
    let ((scenario, row), _, h₁) = >>=-eq-ok (lock_configuration_owner db exercise) _ h in
    let (u, _, h₂) = >>=-eq-ok (require_operational_mutability row) _ h₁ in
    let (allowed, e) = require-eq-ok (roster_changes_allowed db row.id) _ _ h₂ in
    elim (Bool-cases (locked.id == id)) [
      | inl t ↦
          let same : row.id ≡ id =
            ap (λ (x : Exercise). x.id) (ok-injective e) ∙ ==→≡ locked.id id t in
          absurd cc
      | inr f ↦ f
    ]

abbrev in_exercise : ℕ → ExerciseMember → Bool
in_exercise id m = m.exercise_id == id

-- What a change leaves alone.
record Keeps (id : ℕ) (db db' : Db) : Type 0 where
  roster : members_of db' id ≡ members_of db id
  injects : db'.injects ≡ db.injects

Keeps-refl : (id : ℕ) (db : Db) → Keeps id db db
Keeps-refl id db = record { roster = refl; injects = refl }

enrolled-Keeps :
    (db : Db) (exercise : Exercise) (user_id : ℕ) (user : User) (normalized : Option String)
    (now : ℕ) (existing : Option ExerciseMember) (member : ExerciseMember) (db' : Db) (id : ℕ)
    → (exercise.id == id) ≡ false
    → enrolled db exercise user_id user normalized now existing ≡ ok (member, db')
    → Keeps id db db'
enrolled-Keeps db exercise user_id user normalized now (some m) member db' id other h =
    let e : db ≡ db' = cc (ok-injective h) in rw (← e) (Keeps-refl id db)
enrolled-Keeps db exercise user_id user normalized now none member db' id other h =
    let (group_id, g, h₁) = >>=-eq-ok (group_or_default db exercise user normalized) _ h in
    let new = new_member exercise user_id user group_id now db.members.next_id in
    rw (← ap (λ r. r.1) (ok-injective h₁))
      (record { roster = select-snoc (in_exercise id) new db.members.rows other; injects = refl })

-- The row that a change works on stands outside the exercise.
outside :
    (db : Db)
    → IsRoster db
    → (other_id id : ℕ) (m row : ExerciseMember) → Memᴰ m db.members.rows
    → Memᴰ row db.members.rows
    → row.exercise_id ≡ other_id
    → (m.id == row.id) ≡ true
    → (other_id == id) ≡ false
    → in_exercise id m ≡ false
outside db roster other_id id m row mem stands own t other =
    let same : m ≡ row =
      mem_of_key member_id m row db.members.rows roster.keys mem stands (==→≡ m.id row.id t) in
    rw (same, own) other

update_member_group-Keeps :
    (db : Db) (exercise : Exercise) (user_id : ℕ) (group_id : Option String)
    (member : ExerciseMember) (db' : Db) (id : ℕ)
    → IsRoster db
    → roster_changes_allowed db id ≡ false
    → update_member_group db exercise user_id group_id ≡ ok (member, db')
    → Keeps id db db'
unfolding update_member_group
update_member_group-Keeps db exercise user_id group_id member db' id roster lock h =
    let (locked, opened, h₁) = >>=-eq-ok (open_roster db exercise) _ h in
    let (row, found, h₂) =
      >>=-eq-ok (or_raise (exercise_member_for_user db locked.id user_id) member_not_found) _ h₁ in
    let (normalized, _, h₃) = >>=-eq-ok (validate_group_id db locked group_id) _ h₂ in
    let (stands, own) = member_of db locked.id user_id row (or_raise-eq-ok _ _ found) in
    let other = open_roster-other db exercise locked id opened lock in
    rw (← ap (λ r. r.1) (ok-injective h₃)) (record {
      roster =
          select-update (in_exercise id) (λ m. m.id == row.id) (regrouped normalized)
            db.members.rows (λ m. refl)
            (λ m mem t. outside db roster locked.id id m row mem stands own t other);
      injects = refl;
    })

remove_member-Keeps :
    (db : Db) (exercise : Exercise) (user_id : ℕ) (db' : Db) (id : ℕ)
    → IsRoster db
    → roster_changes_allowed db id ≡ false
    → remove_member db exercise user_id ≡ ok db'
    → Keeps id db db'
unfolding remove_member
remove_member-Keeps db exercise user_id db' id roster lock h =
    let (locked, opened, h₁) = >>=-eq-ok (open_roster db exercise) _ h in
    let (row, found, h₂) =
      >>=-eq-ok (or_raise (exercise_member_for_user db locked.id user_id) member_not_found) _ h₁ in
    let (stands, own) = member_of db locked.id user_id row (or_raise-eq-ok _ _ found) in
    let other = open_roster-other db exercise locked id opened lock in
    rw (← ok-injective h₂) (record {
      roster =
          select-select (in_exercise id) (λ m. not (m.id == row.id)) db.members.rows
            (λ m mem f.
              outside db roster locked.id id m row mem stands own (ground (arith, f)) other);
      injects = refl;
    })

change-Keeps :
    (db : Db) (exercise : Exercise) (c : Change) (db' : Db) (id : ℕ)
    → IsRoster db
    → roster_changes_allowed db id ≡ false
    → change db exercise c ≡ ok db'
    → Keeps id db db'
unfolding change enrol_member
change-Keeps db exercise (enrol user_id group_id now) db' id roster lock h =
    let ((member, after), done, e) =
      >>=-eq-ok (enrol_member db exercise user_id group_id now) _ h in
    let (locked, opened, h₁) = >>=-eq-ok (open_roster db exercise) _ done in
    let (user, _, h₂) = >>=-eq-ok (or_raise (get_user db user_id) user_not_found) _ h₁ in
    let (normalized, _, h₃) = >>=-eq-ok (validate_group_id db locked group_id) _ h₂ in
    rw (← ok-injective e) (
      enrolled-Keeps db locked user_id user normalized now _ member after id
        (open_roster-other db exercise locked id opened lock) h₃)
change-Keeps db exercise (regroup user_id group_id) db' id roster lock h =
    let ((member, after), done, e) =
      >>=-eq-ok (update_member_group db exercise user_id group_id) _ h in
    rw (← ok-injective e)
      (update_member_group-Keeps db exercise user_id group_id member after id roster lock done)
change-Keeps db exercise (remove user_id) db' id roster lock h =
    remove_member-Keeps db exercise user_id db' id roster lock h

or_before-Keeps :
    (db : Db) (result : Http Db) (id : ℕ)
    → ((db' : Db) → result ≡ ok db' → Keeps id db db')
    → Keeps id db (or_before db result)
or_before-Keeps db (ok db') id keep = keep db' refl
or_before-Keeps db (err e) id keep = Keeps-refl id db

changes-Keeps :
    (db : Db) (requests : List (Exercise × Change)) (id : ℕ)
    → IsRoster db
    → roster_changes_allowed db id ≡ false
    → members_of (changes db requests) id ≡ members_of db id
unfolding changes roster_changes_allowed
changes-Keeps db [] id roster lock = refl
changes-Keeps db ((exercise, c) ∷ rest) id roster lock =
    let one = or_before db (change db exercise c) in
    let kept =
      or_before-Keeps db (change db exercise c) id
        (λ db' h. change-Keeps db exercise c db' id roster lock h) in
    let valid =
      or_before-IsRoster db (change db exercise c) roster
        (λ db' h. change-IsRoster db exercise c db' roster h) in
    let still : roster_changes_allowed one id ≡ false = rw kept.injects lock in
    changes-Keeps one rest id valid still ∙ kept.roster

-- After a release of an inject goes through, no sequence of roster requests, on any exercises,
-- changes the member rows of its exercise. The identifiers of the injects are distinct, and the
-- roster after the release is valid.
pub changes-locked :
    (db : Db) (inject : Inject) (released_by : Option ℕ) (scheduled : Bool) (now : ℕ)
    (after : Inject) (db' : Db) (requests : List (Exercise × Change))
    → HasInjectKeys db
    → IsRoster db'
    → release_inject db inject released_by scheduled now ≡ ok (after, db')
    → members_of (changes db' requests) after.exercise_id ≡ members_of db' after.exercise_id
changes-locked db inject released_by scheduled now after db' requests keys roster h =
    changes-Keeps db' requests after.exercise_id roster
      (roster-locked db inject released_by scheduled now after db' keys h)
