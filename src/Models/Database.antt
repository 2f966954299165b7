-- ===== src/Models/Database.antt =====
-- The PostgreSQL tables that the services share. A service function takes the database at the time
-- when its transaction runs, and an object that the caller loaded before as a separate argument, so
-- that a stale object is expressible. Serial columns count up and are never used twice.
use iceberg_ttx.Prelude.{
  ℕ, suc, String, Bool, List, [], ◌∷◌, ◌++◌, Option, ◌==◌, find, select, update, nat_eq,
}
use iceberg_ttx.Models.Scenario.{Scenario}
use iceberg_ttx.Models.Launch.{LaunchContent}
use iceberg_ttx.Models.Exercise.{
  User, Exercise, ExerciseMember, ExerciseStateTransition, ExerciseProgress,
}
use iceberg_ttx.Models.Inject.{Inject, InjectProgress, Response}
use iceberg_ttx.Models.Communication.{Communication, CommunicationRead}

pub record Table {ℓ} (A : Type ℓ) : Type ℓ where
  pub rows : List A
  pub next_id : ℕ

-- session.add and flush: the row gets the next identifier.
abbrev pub insert {ℓ} : {A : Type ℓ} → (ℕ → A) → Table A → Table A
insert row t = record { rows = t.rows ++ row t.next_id ∷ []; next_id = suc t.next_id }

-- UPDATE ... WHERE p
abbrev pub update_rows {ℓ} : {A : Type ℓ} → (A → Bool) → (A → A) → Table A → Table A
update_rows p f t = record t { rows = update p f t.rows }

-- The args of a row of procrastinate_jobs, by task.
pub data Task : Type 0 where
  release_inject_task : (exercise_id inject_id : ℕ) → Task
  deliver_comm_task : (exercise_id inject_id : ℕ) (node_id : String) (trigger_index : ℕ) → Task
  assess_response_task : (response_id inject_id exercise_id : ℕ) → Task
  generate_summary_task : (exercise_id : ℕ) → Task

-- A job that waits to run, status 'todo'.
pub record Job : Type 0 where
  pub task : Task
  pub scheduled_at : ℕ

-- The events of services/domain_events.py, as the committed transactions record them.
pub data DomainEvent : Type 0 where
  exercise_state_changed : (exercise_id transition_id : ℕ) (action : String) → DomainEvent
  inject_released : (exercise_id inject_id : ℕ) → DomainEvent
  response_submitted : (exercise_id response_id : ℕ) → DomainEvent
  communication_created : (exercise_id communication_id : ℕ) → DomainEvent

pub record Db : Type 0 where
  pub users : List User
  pub scenarios : Table Scenario
  pub exercises : Table Exercise
  pub members : Table ExerciseMember
  pub transitions : Table ExerciseStateTransition
  pub progress : Table ExerciseProgress
  pub injects : Table Inject
  pub inject_progress : Table InjectProgress
  pub responses : Table Response
  pub communications : Table Communication
  pub reads : List CommunicationRead
  pub snapshots : List (String × LaunchContent)
  pub jobs : List Job
  pub events : List DomainEvent

-- session.get
abbrev pub get_user : Db → ℕ → Option User
get_user db id = find (λ u. u.id == id) db.users

abbrev pub get_scenario : Db → ℕ → Option Scenario
get_scenario db id = find (λ s. s.id == id) db.scenarios.rows

abbrev pub get_exercise : Db → ℕ → Option Exercise
get_exercise db id = find (λ e. e.id == id) db.exercises.rows

abbrev pub get_inject : Db → ℕ → Option Inject
get_inject db id = find (λ i. i.id == id) db.injects.rows

-- The rows of one exercise.
abbrev pub members_of : Db → ℕ → List ExerciseMember
members_of db id = select (λ m. m.exercise_id == id) db.members.rows

abbrev pub transitions_of : Db → ℕ → List ExerciseStateTransition
transitions_of db id = select (λ t. t.exercise_id == id) db.transitions.rows

abbrev pub progress_of : Db → ℕ → List ExerciseProgress
progress_of db id = select (λ p. p.exercise_id == id) db.progress.rows

abbrev pub injects_of : Db → ℕ → List Inject
injects_of db id = select (λ i. i.exercise_id == id) db.injects.rows
