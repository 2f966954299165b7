-- ===== src/Schedule/Arm.antt =====
-- The bulk enqueueing of app/services/schedule_service.py, from the durable rows.
use iceberg_ttx.Prelude.{
  ℕ, suc, String, Bool, false, not, ◌&&◌, ◌||◌, List, [], ◌∷◌, map, Option, none, some, ◌==◌,
  nat_eq, string_eq, option_eq, any, select, contains, is_some, ltb, leb, if◌then◌else◌,
}
use iceberg_ttx.Prelude.Int.{ℤ, ◌-ℤ◌}
use iceberg_ttx.Prelude.Sort.{sorted}
use iceberg_ttx.Errors.{ok, ◌>>=◌}
use iceberg_ttx.Models.Enums.{active, InjectState, exercise_state_eq, inject_state_eq}
use iceberg_ttx.Models.Scenario.{TriggerComm, InjectNode, ScenarioDefinition}
use iceberg_ttx.Models.Exercise.{Exercise, ExerciseStateTransition, ExerciseProgress}
use iceberg_ttx.Models.Inject.{Inject}
use iceberg_ttx.Models.Communication.{Communication}
use iceberg_ttx.Models.Database.{
  Db, Task, Job, release_inject_task, deliver_comm_task, injects_of, progress_of, transitions_of,
}
use iceberg_ttx.Launch.Content.{Http}
use iceberg_ttx.Launch.Freeze.{definition_for_exercise}
use iceberg_ttx.Lifecycle.Clock.{active_elapsed_since}
use iceberg_ttx.Progression.Cursor.{is_falsy}
use iceberg_ttx.Schedule.Jobs.{defer_inject_release, defer_triggered_comm, seconds}

-- exercise.state != active or exercise.started_at is None
abbrev pub is_running : Exercise → Bool
is_running e = e.state == active && is_some e.started_at

abbrev pub is_scheduled : Inject → Bool
is_scheduled i = i.state == InjectState.pending && is_some i.release_offset_minutes

unfoldable pub arm_inject_schedule : Db → Exercise → Inject → ℕ → Db
unfolding defer_inject_release
arm_inject_schedule db exercise inject now =
    if is_running exercise && is_scheduled inject
    then defer_inject_release db exercise inject now
    else db

unfoldable pub defer_all : Db → Exercise → List Inject → ℕ → Db
unfolding defer_inject_release
defer_all db exercise [] now = db
defer_all db exercise (i ∷ is) now =
    defer_all (defer_inject_release db exercise i now) exercise is now

-- {cursor.current_node_id for cursor in cursors if cursor.current_node_id}
unfoldable pub cursor_nodes : List ExerciseProgress → List (Option String)
cursor_nodes cursors =
    map (λ (c : ExerciseProgress). c.current_node_id)
      (select (λ (c : ExerciseProgress). not (is_falsy c.current_node_id)) cursors)

unfoldable pub reached : Db → Exercise → List Inject
unfolding cursor_nodes
reached db exercise =
    let node_ids = cursor_nodes (progress_of db exercise.id) in
    if is_running exercise
    then select (λ (i : Inject). is_scheduled i && contains i.scenario_node_id node_ids)
        (injects_of db exercise.id)
    else []

unfoldable pub arm_cursor_reached_injects : Db → Exercise → ℕ → Db
unfolding defer_all reached
arm_cursor_reached_injects db exercise now = defer_all db exercise (reached db exercise) now

-- The arguments of a waiting release job.
abbrev pub is_release_task : ℕ → ℕ → Task → Bool
is_release_task exercise_id inject_id (release_inject_task e i) = e == exercise_id && i == inject_id
is_release_task exercise_id inject_id _ = false

-- (exercise.id, inject.id) in live
abbrev pub is_release_live : List Job → ℕ → ℕ → Bool
is_release_live jobs exercise_id inject_id =
    any (λ (j : Job). is_release_task exercise_id inject_id j.task) jobs

abbrev pub is_comm_task : ℕ → String → ℕ → Task → Bool
is_comm_task exercise_id node_id index (deliver_comm_task e i n x) =
    e == exercise_id && n == node_id && x == index
is_comm_task exercise_id node_id index _ = false

abbrev pub is_comm_live : List Job → ℕ → String → ℕ → Bool
is_comm_live jobs exercise_id node_id index =
    any (λ (j : Job). is_comm_task exercise_id node_id index j.task) jobs

-- A set of trigger keys, f"{node.id}:{index}".
abbrev pub Keys : Type 0
Keys = List (String × ℕ)

abbrev pub is_key : String → ℕ → Keys → Bool
is_key node_id index keys = any (λ (k : String × ℕ). k.0 == node_id && k.1 == index) keys

abbrev pub delivered_key : ℕ → Communication → Option (String × ℕ)
delivered_key exercise_id c = if c.exercise_id == exercise_id then c.trigger_key else none

unfoldable pub delivered : List Communication → ℕ → Keys
delivered [] exercise_id = []
delivered (c ∷ cs) exercise_id = elim (delivered_key exercise_id c) [
  | none ↦ delivered cs exercise_id
  | some k ↦ k ∷ delivered cs exercise_id
]

-- nodes = {node.id: node for node in definition.injects}: of two with an id, the later.
unfoldable pub last_node : List InjectNode → String → Option InjectNode
last_node [] id = none
last_node (n ∷ ns) id = elim (last_node ns id) [
  | some m ↦ some m
  | none ↦ if n.id == id then some n else none
]

-- The body of the inner loop, and the loop.
unfoldable pub arm_trigger :
    List Job → Exercise → ℕ → String → ℤ → ℕ → ℕ → TriggerComm → Keys × Db → Keys × Db
unfolding defer_triggered_comm
arm_trigger live exercise inject_id node_id elapsed now index trigger (considered, db) =
    if is_key node_id index considered
    then (considered, db)
    else if is_comm_live live exercise.id node_id index
    then ((node_id, index) ∷ considered, db)
    else (
      (node_id, index) ∷ considered,
      defer_triggered_comm db exercise.id inject_id node_id index
          (seconds trigger.delay_after_release_seconds -ℤ elapsed) now,
    )

unfoldable pub arm_triggers :
    List Job → Exercise → ℕ → String → ℤ → ℕ → ℕ → List TriggerComm → Keys × Db → Keys × Db
unfolding arm_trigger
arm_triggers live exercise inject_id node_id elapsed now index [] s = s
arm_triggers live exercise inject_id node_id elapsed now index (t ∷ ts) s =
    arm_triggers live exercise inject_id node_id elapsed now (suc index) ts
      (arm_trigger live exercise inject_id node_id elapsed now index t s)

abbrev pub arm_node :
    List Job
    → Exercise
    → ℕ
    → ℕ
    → List ExerciseStateTransition
    → ℕ
    → Option InjectNode
    → Keys × Db
    → Keys × Db
arm_node live exercise inject_id released_at transitions now none s = s
arm_node live exercise inject_id released_at transitions now (some node) s =
    arm_triggers live exercise inject_id node.id
      (active_elapsed_since exercise released_at transitions now) now 0 node.triggers_communications
      s

abbrev pub or_zero : Option ℕ → ℕ
or_zero none = 0
or_zero (some n) = n

abbrev pub or_empty_id : Option String → String
or_empty_id none = ""
or_empty_id (some s) = s

unfoldable pub arm_released :
    List Job
    → Exercise
    → List InjectNode
    → List ExerciseStateTransition
    → ℕ
    → List Inject
    → Keys × Db
    → Keys × Db
unfolding arm_triggers last_node active_elapsed_since
arm_released live exercise nodes transitions now [] s = s
arm_released live exercise nodes transitions now (i ∷ is) s =
    arm_released live exercise nodes transitions now is (
      arm_node live exercise i.id (or_zero i.released_at) transitions now
        (last_node nodes (or_empty_id i.scenario_node_id)) s)

-- ORDER BY released_at, id
abbrev pub by_release : Inject → Inject → Bool
by_release a b =
    ltb (or_zero a.released_at) (or_zero b.released_at)
    || or_zero a.released_at == or_zero b.released_at && leb a.id b.id

abbrev pub armed_communications : Db → Exercise → ℕ → Option ScenarioDefinition → Db
armed_communications db exercise now none = db
armed_communications db exercise now (some d) =
    let injects = sorted by_release (
      select (λ (i : Inject). is_some i.released_at && is_some i.scenario_node_id)
        (injects_of db exercise.id)) in
    (arm_released db.jobs exercise d.injects (transitions_of db exercise.id) now injects
      (delivered db.communications.rows exercise.id, db)).1

unfoldable pub schedule_exercise_communications : Db → Exercise → ℕ → Http Db
unfolding arm_released definition_for_exercise delivered
schedule_exercise_communications db exercise now =
    if not (exercise.state == active) then ok db else (do
      definition ← definition_for_exercise db exercise.id
      ok (armed_communications db exercise now definition))

unfoldable pub schedule_exercise_injects : Db → Exercise → ℕ → Http Db
unfolding defer_all schedule_exercise_communications
schedule_exercise_injects db exercise now =
    let owed =
      select (λ (i : Inject). is_scheduled i && not (is_release_live db.jobs exercise.id i.id))
        (injects_of db exercise.id) in
    if is_running exercise
    then schedule_exercise_communications (defer_all db exercise owed now) exercise now
    else ok db
