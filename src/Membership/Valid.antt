-- ===== src/Membership/Valid.antt =====
-- The invariant of a roster, which every change keeps.
use iceberg_ttx.Prelude.{
  ℕ, ◌<◌, String, Bool, true, false, ◌&&◌, List, map, Option, none, some, ◌≡◌, refl, arith, inl,
  inr, Bool-cases, Option-cases, ◌==◌, ==→≡, nat_eq, string_eq, pair_eq, contains, has_duplicates,
  select, is_blank, strip, Memᴰ, mem-snoc, mem-update, mem-select, some_inj, contains-map_of_above,
  contains-map_of_none, has_duplicates-snoc, has_duplicates-select, map-update, mem_of_key,
}
use iceberg_ttx.Errors.{ok, >>=-eq-ok, require-eq-ok, ok-injective}
use iceberg_ttx.Models.Exercise.{User, Exercise, ExerciseMember}
use iceberg_ttx.Models.Database.{Db, Table, insert, update_rows}
use iceberg_ttx.Access.Gates.{exercise_member_for_user}
use iceberg_ttx.Membership.Teams.{scenario_group_ids, validate_group_id, default_group_for_user}
use iceberg_ttx.Membership.Roster.{new_member, group_or_default, regrouped}

-- The group, where there is one, is a team of the definition that the exercise runs on.
pub record InCatalogue (db : Db) (exercise_id : ℕ) (group_id : Option String) : Type 0 where
  pub listed :
      (g : String)
      → group_id ≡ some g
      → (catalogue : List String) × (scenario_group_ids db exercise_id ≡ ok catalogue)
        × (contains g catalogue ≡ true)

abbrev pub member_key : ExerciseMember → ℕ × ℕ
member_key m = (m.exercise_id, m.user_id)

abbrev pub member_id : ExerciseMember → ℕ
member_id m = m.id

pub record IsRoster (db : Db) : Type 0 where
  -- uq_exercisemember_exercise_user, and the primary key, which the serial column gives.
  pub once : has_duplicates (map member_key db.members.rows) ≡ false
  pub keys : has_duplicates (map member_id db.members.rows) ≡ false
  pub below : (m : ExerciseMember) → Memᴰ m db.members.rows → m.id < db.members.next_id
  pub groups :
      (m : ExerciseMember) → Memᴰ m db.members.rows → InCatalogue db m.exercise_id m.group_id

InCatalogue-none : (db : Db) (id : ℕ) → InCatalogue db id none
InCatalogue-none db id = record { listed = λ g q. cc }

InCatalogue-some :
    (db : Db) (id : ℕ) (g : String) (catalogue : List String)
    → scenario_group_ids db id ≡ ok catalogue
    → contains g catalogue ≡ true
    → InCatalogue db id (some g)
InCatalogue-some db id g catalogue found has = record {
  listed = λ h q. (catalogue, found, rw (← some_inj q) has);
}

pub validate_group_id-InCatalogue :
    (db : Db) (exercise : Exercise) (group_id normalized : Option String)
    → validate_group_id db exercise group_id ≡ ok normalized
    → InCatalogue db exercise.id normalized
unfolding validate_group_id
validate_group_id-InCatalogue db exercise none normalized h =
    rw (← ok-injective h) (InCatalogue-none db exercise.id)
validate_group_id-InCatalogue db exercise (some g) normalized h =
    elim (Bool-cases (is_blank (strip g))) [
      | inl t ↦ rw (← ok-injective (rw t at h)) (InCatalogue-none db exercise.id)
      | inr f ↦
          let (catalogue, found, h₁) =
            >>=-eq-ok (scenario_group_ids db exercise.id) _ (rw f at h) in
          let (has, h₂) = require-eq-ok (contains (strip g) catalogue) _ _ h₁ in
          rw (← ok-injective h₂) (InCatalogue-some db exercise.id (strip g) catalogue found has)
    ]

default_group_for_user-InCatalogue :
    (db : Db) (exercise : Exercise) (user : User) (group_id : Option String)
    → default_group_for_user db exercise user ≡ ok group_id
    → InCatalogue db exercise.id group_id
unfolding default_group_for_user
default_group_for_user-InCatalogue db exercise user group_id h = elim (Option-cases user.team) [
  | inl n ↦ rw (← ok-injective (rw n at h)) (InCatalogue-none db exercise.id)
  | inr (team, s) ↦ elim (Bool-cases (is_blank team)) [
    | inl t ↦ rw (← ok-injective (rw (s, t) at h)) (InCatalogue-none db exercise.id)
    | inr f ↦
        let (catalogue, found, h₁) =
          >>=-eq-ok (scenario_group_ids db exercise.id) _ (rw (s, f) at h) in
        elim (Bool-cases (contains team catalogue)) [
          | inl has ↦
              rw (← ok-injective (rw has at h₁))
                (InCatalogue-some db exercise.id team catalogue found has)
          | inr lacks ↦ rw (← ok-injective (rw lacks at h₁)) (InCatalogue-none db exercise.id)
        ]
  ]
]

pub group_or_default-InCatalogue :
    (db : Db) (exercise : Exercise) (user : User) (normalized group_id : Option String)
    → InCatalogue db exercise.id normalized
    → group_or_default db exercise user normalized ≡ ok group_id
    → InCatalogue db exercise.id group_id
group_or_default-InCatalogue db exercise user none group_id valid h =
    default_group_for_user-InCatalogue db exercise user group_id h
group_or_default-InCatalogue db exercise user (some g) group_id valid h =
    rw (← ok-injective h) valid

-- The catalogue is not read off the members.
abbrev with_members : Db → Table ExerciseMember → Db
with_members db t = record db { members = t }

moved :
    (db : Db) (t : Table ExerciseMember) (id : ℕ) (group_id : Option String)
    → InCatalogue db id group_id
    → InCatalogue (with_members db t) id group_id
unfolding scenario_group_ids
moved db t id group_id valid = record { listed = valid.listed }

fresh_id :
    (db : Db) → IsRoster db → contains db.members.next_id (map member_id db.members.rows) ≡ false
fresh_id db roster = contains-map_of_above member_id db.members.next_id db.members.rows roster.below

pub insert-IsRoster :
    (db : Db) (exercise : Exercise) (user_id : ℕ) (user : User) (group_id : Option String) (now : ℕ)
    → IsRoster db
    → exercise_member_for_user db exercise.id user_id ≡ none
    → InCatalogue db exercise.id group_id
    → IsRoster (with_members db (insert (new_member exercise user_id user group_id now) db.members))
unfolding exercise_member_for_user
insert-IsRoster db exercise user_id user group_id now roster absent valid =
    let new = new_member exercise user_id user group_id now db.members.next_id in
    record {
      once = has_duplicates-snoc member_key new db.members.rows roster.once (
          contains-map_of_none member_key (member_key new)
            (λ m. m.exercise_id == exercise.id && m.user_id == user_id) db.members.rows
            (λ m. ground arith) absent);
      keys = has_duplicates-snoc member_id new db.members.rows roster.keys (fresh_id db roster);
      below = λ m mem. elim (mem-snoc m new db.members.rows mem) [
        | inl old ↦ omega (arith, roster.below m old)
        | inr e ↦ rw e (omega arith)
      ];
      groups = λ m mem. elim (mem-snoc m new db.members.rows mem) [
        | inl old ↦ moved db _ m.exercise_id m.group_id (roster.groups m old)
        | inr e ↦ rw e (moved db _ exercise.id group_id valid)
      ];
    }

pub regroup-IsRoster :
    (db : Db) (member : ExerciseMember) (group_id : Option String)
    → IsRoster db
    → Memᴰ member db.members.rows
    → InCatalogue db member.exercise_id group_id
    → IsRoster
        (with_members db (update_rows (λ m. m.id == member.id) (regrouped group_id) db.members))
regroup-IsRoster db member group_id roster stands valid =
    let p = λ (m : ExerciseMember). m.id == member.id in
    let f = regrouped group_id in
    record {
      once = rw (map-update member_key p f db.members.rows (λ m. refl)) roster.once;
      keys = rw (map-update member_id p f db.members.rows (λ m. refl)) roster.keys;
      below = λ m mem.
          let (x, old, e) = mem-update p f m db.members.rows mem in
          elim (Bool-cases (p x)) [
            | inl t ↦ rw (e, t) (roster.below x old)
            | inr n ↦ rw (e, n) (roster.below x old)
          ];
      groups = λ m mem.
          let (x, old, e) = mem-update p f m db.members.rows mem in
          elim (Bool-cases (p x)) [
            | inl t ↦
                let same : x ≡ member =
                  mem_of_key member_id x member db.members.rows roster.keys old stands
                    (==→≡ x.id member.id t) in
                rw (e, t, same) (moved db _ member.exercise_id group_id valid)
            | inr n ↦ rw (e, n) (moved db _ x.exercise_id x.group_id (roster.groups x old))
          ];
    }

pub remove-IsRoster :
    (db : Db) (p : ExerciseMember → Bool)
    → IsRoster db
    → IsRoster (with_members db (record db.members { rows = select p db.members.rows }))
remove-IsRoster db p roster = record {
  once = has_duplicates-select member_key p db.members.rows roster.once;
  keys = has_duplicates-select member_id p db.members.rows roster.keys;
  below = λ m mem. roster.below m (mem-select p m db.members.rows mem).0;
  groups = λ m mem.
      moved db _ m.exercise_id m.group_id (roster.groups m (mem-select p m db.members.rows mem).0);
}
