-- ===== src/Schedule/Jobs.antt =====
-- The enqueueing of app/services/schedule_service.py. A job row is written in the caller's
-- transaction; `now` is `task_queue.now()`, and spans are microseconds.
use iceberg_ttx.Prelude.{
  ℕ, suc, ◌+◌, ◌*◌, String, List, [], ◌∷◌, ◌++◌, Option, none, some, if◌then◌else◌,
}
use iceberg_ttx.Prelude.Int.{ℤ, pos, negsuc, ◌-ℤ◌, pos_part}
use iceberg_ttx.Errors.{ok, ◌>>=◌}
use iceberg_ttx.Models.Scenario.{TriggerComm, InjectNode, ScenarioDefinition}
use iceberg_ttx.Models.Exercise.{Exercise}
use iceberg_ttx.Models.Inject.{Inject}
use iceberg_ttx.Models.Database.{Db, Task, release_inject_task, deliver_comm_task}
use iceberg_ttx.Launch.Content.{Http}
use iceberg_ttx.Launch.Freeze.{definition_for_exercise}
use iceberg_ttx.Scenario.Branch.{get_inject_node}
use iceberg_ttx.Lifecycle.Clock.{seconds_until_due}
use iceberg_ttx.Progression.Cursor.{is_falsy}

-- A second, in the microseconds of the model.
abbrev pub second : ℕ
second = 1000000

abbrev pub seconds : ℤ → ℤ
seconds (pos n) = pos (n * second)
seconds (negsuc n) = pos 0 -ℤ pos (suc n * second)

unfoldable pub defer_job : Db → Task → ℤ → ℕ → Db
defer_job db task wait now = record db {
  jobs = db.jobs ++ record { task = task; scheduled_at = now + pos_part wait } ∷ [];
}

unfoldable pub defer_inject_release : Db → Exercise → Inject → ℕ → Db
unfolding defer_job seconds_until_due
defer_inject_release db exercise inject now =
    defer_job db (release_inject_task exercise.id inject.id) (seconds_until_due exercise inject now)
      now

unfoldable pub defer_triggered_comm : Db → ℕ → ℕ → String → ℕ → ℤ → ℕ → Db
unfolding defer_job
defer_triggered_comm db exercise_id inject_id node_id trigger_index delay now =
    defer_job db (deliver_comm_task exercise_id inject_id node_id trigger_index) delay now

-- for index, trigger in enumerate(...): the loop, from an index on.
unfoldable pub defer_triggers : Db → ℕ → ℕ → String → ℕ → List TriggerComm → ℕ → Db
unfolding defer_triggered_comm
defer_triggers db exercise_id inject_id node_id index [] now = db
defer_triggers db exercise_id inject_id node_id index (t ∷ ts) now =
    defer_triggers
      (defer_triggered_comm db exercise_id inject_id node_id index
        (seconds t.delay_after_release_seconds) now)
      exercise_id inject_id node_id (suc index) ts now

abbrev pub node_of : Option ScenarioDefinition → Option String → Option InjectNode
node_of (some d) (some node_id) = get_inject_node d node_id
node_of _ _ = none

abbrev pub defer_node : Db → ℕ → ℕ → Option InjectNode → ℕ → Db
defer_node db exercise_id inject_id none now = db
defer_node db exercise_id inject_id (some node) now =
    defer_triggers db exercise_id inject_id node.id 0 node.triggers_communications now

unfoldable pub schedule_release_triggered_comms : Db → ℕ → Inject → ℕ → Http Db
unfolding defer_triggers definition_for_exercise get_inject_node
schedule_release_triggered_comms db exercise_id inject now =
    if is_falsy inject.scenario_node_id then ok db else (do
      definition ← definition_for_exercise db exercise_id
      ok (defer_node db exercise_id inject.id (node_of definition inject.scenario_node_id) now))
