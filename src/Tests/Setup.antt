-- ===== src/Tests/Setup.antt =====
-- A new exercise and its roster.
use iceberg_ttx.Prelude.{
  String, true, false, [], ◌∷◌, List, none, some, ◌≡◌, refl, Memᴰ, some_inj, inl, inr, length,
  arith, strip,
}
use iceberg_ttx.Prelude.Memᴰ
use iceberg_ttx.Prelude.Int.{pos}
use iceberg_ttx.Errors.{ok}
use iceberg_ttx.Models.Enums.{draft}
use iceberg_ttx.Models.Scenario.{Scenario, ScenarioDefinition}
use iceberg_ttx.Models.Exercise.{Exercise, ExerciseMember}
use iceberg_ttx.Models.Database.{Db, get_scenario, members_of}
use iceberg_ttx.Launch.Content.{export_definition}
use iceberg_ttx.Scenario.Validate.{parse_definition}
use iceberg_ttx.Progression.Release.{release_inject}
use iceberg_ttx.Membership.Teams.{scenario_group_ids}
use iceberg_ttx.Membership.Roster.{Change, enrol, regroup, remove, changes}
use iceberg_ttx.Membership.Valid.{IsRoster, InCatalogue}
use iceberg_ttx.Membership.Kept.{changes-IsRoster}
use iceberg_ttx.Membership.Locked.{changes-locked}
use iceberg_ttx.Membership.Create.{create_exercise}
use iceberg_ttx.Membership.Opened.{IsFresh, Opens, create_exercise-Opens}
use iceberg_ttx.Samples.{exercise, member, database, ok_or}
use iceberg_ttx.Tests.Releases.{opening, opened, opened-ok, note}

abbrev setting_up : Exercise
setting_up = exercise draft none none (pos 0)

abbrev planned : Db
planned = database setting_up [] [] []

abbrev teams : List String
teams = "red" ∷ "blue" ∷ []

only_member : {m : ExerciseMember} → Memᴰ m (member ∷ []) → m ≡ member
only_member m = elim (Memᴰ.cases_cons m) [ inl e ↦ e | inr r ↦ elim r [ ] ]

in_red :
    (db : Db) (m : ExerciseMember)
    → scenario_group_ids db 1 ≡ ok teams
    → m ≡ member
    → InCatalogue db m.exercise_id m.group_id
in_red db m found e = rw e (record { listed = λ g q. (teams, found, rw (← some_inj q) refl) })

group_ids_planned : scenario_group_ids planned 1 ≡ ok teams
unfolding scenario_group_ids parse_definition iceberg_ttx.Scenario.Validate.normalized_id strip
    iceberg_ttx.Scenario.Graph.check_no_cycles iceberg_ttx.Scenario.Graph.successors
    iceberg_ttx.Scenario.Graph.option_targets
group_ids_planned = refl

planned-IsRoster : IsRoster planned
planned-IsRoster = record {
  once = refl;
  keys = refl;
  below = λ m mem. rw (only_member mem) (omega arith);
  groups = λ m mem. in_red planned m group_ids_planned (only_member mem);
}

-- One request that goes through, and two that do not.
abbrev requests : List (Exercise × Change)
requests =
    (setting_up, enrol 1 (some " blue ") 5)
    ∷ (setting_up, regroup 1 (some "green"))
    ∷ (setting_up, remove 7)
    ∷ []

changes-IsRoster_example : IsRoster (changes planned requests)
changes-IsRoster_example = changes-IsRoster planned requests planned-IsRoster

two_members : length (members_of (changes planned requests) 1) ≡ 2
unfolding changes strip parse_definition iceberg_ttx.Scenario.Validate.normalized_id
    iceberg_ttx.Scenario.Graph.check_no_cycles iceberg_ttx.Scenario.Graph.successors
    iceberg_ttx.Scenario.Graph.option_targets
two_members = refl

group_ids_opened : scenario_group_ids opened.1 1 ≡ ok teams
unfolding scenario_group_ids opened release_inject iceberg_ttx.Progression.Cursor.release_is_allowed
    iceberg_ttx.Schedule.Jobs.schedule_release_triggered_comms parse_definition
    iceberg_ttx.Scenario.Validate.normalized_id strip iceberg_ttx.Scenario.Graph.check_no_cycles
    iceberg_ttx.Scenario.Graph.successors iceberg_ttx.Scenario.Graph.option_targets
group_ids_opened = refl

opened-IsRoster : IsRoster opened.1
unfolding opened release_inject iceberg_ttx.Progression.Cursor.release_is_allowed
    iceberg_ttx.Schedule.Jobs.schedule_release_triggered_comms parse_definition
    iceberg_ttx.Scenario.Validate.normalized_id strip iceberg_ttx.Scenario.Graph.check_no_cycles
    iceberg_ttx.Scenario.Graph.successors iceberg_ttx.Scenario.Graph.option_targets
opened-IsRoster = record {
  once = refl;
  keys = refl;
  below = λ m mem. rw (only_member mem) (omega arith);
  groups = λ m mem. in_red opened.1 m group_ids_opened (only_member mem);
}

changes-locked_example :
    members_of (changes opened.1 requests) opened.0.exercise_id
    ≡ members_of opened.1 opened.0.exercise_id
changes-locked_example =
    changes-locked opening note (some 1) false 300 opened.0 opened.1 requests refl opened-IsRoster
      opened-ok

unfoldable created : Exercise × Db
created = ok_or (setting_up, planned) (create_exercise planned 1 "Workshop" 1 true 20)

created-ok : create_exercise planned 1 "Workshop" 1 true 20 ≡ ok (created.0, created.1)
unfolding created create_exercise parse_definition iceberg_ttx.Scenario.Validate.normalized_id strip
    iceberg_ttx.Scenario.Graph.check_no_cycles iceberg_ttx.Scenario.Graph.successors
    iceberg_ttx.Scenario.Graph.option_targets
created-ok = refl

none_of : {A B : Type 0} {x : A} → Memᴰ x [] → B
none_of m = elim m [ ]

fresh : IsFresh planned
fresh = record {
  exercises = λ e m. elim (Memᴰ.cases_cons m) [ inl q ↦ rw q (omega arith) | inr r ↦ none_of r ];
  injects = λ i m. none_of m;
  cursors = λ c m. none_of m;
  history = λ t m. none_of m;
}

create_exercise-Opens_example :
    (s : Scenario) × (d : ScenarioDefinition) × (get_scenario planned 1 ≡ some s)
    × (export_definition s ≡ ok d)
    × Opens created.1 d created.0
create_exercise-Opens_example =
    create_exercise-Opens planned 1 "Workshop" 1 true 20 created.0 created.1 fresh created-ok
