-- ===== src/Schedule/Worker.antt =====
-- The two tasks of app/services/task_queue.py that run a schedule, and
-- `deliver_triggered_communication` of app/services/communication_service.py. Everything is read
-- anew when the job runs.
use iceberg_ttx.Prelude.{
  ℕ, zero, suc, String, Bool, true, false, not, ◌&&◌, ◌||◌, List, [], ◌∷◌, ◌++◌, Option, none, some,
  ◌==◌, nat_eq, string_eq, any, is_none, if◌then◌else◌,
}
use iceberg_ttx.Prelude.Int.{ℤ, pos, ◌-ℤ◌, ltb_ℤ}
use iceberg_ttx.Errors.{ok, err, ◌>>=◌, invalid_definition, bad_direction}
use iceberg_ttx.Models.Enums.{
  active, InjectState, CommDirection, inbound, outbound, exercise_state_eq, inject_state_eq,
}
use iceberg_ttx.Models.Scenario.{TriggerComm, InjectNode}
use iceberg_ttx.Models.Exercise.{Exercise}
use iceberg_ttx.Models.Inject.{Inject}
use iceberg_ttx.Models.Communication.{Communication}
use iceberg_ttx.Models.Database.{Db, insert, get_exercise, get_inject, communication_created}
use iceberg_ttx.Launch.Content.{Http}
use iceberg_ttx.Launch.Freeze.{definition_for_exercise}
use iceberg_ttx.Lifecycle.Clock.{seconds_until_due, active_seconds_since}
use iceberg_ttx.Progression.Cursor.{release_is_allowed}
use iceberg_ttx.Progression.Release.{release_inject}
use iceberg_ttx.Schedule.Jobs.{second, seconds, defer_inject_release, defer_triggered_comm, node_of}

-- DUE_EPSILON_SECONDS
abbrev pub due_epsilon : ℤ
due_epsilon = pos second

-- Not pending, not active, or no longer scheduled.
abbrev pub stands_down : Exercise → Inject → Bool
stands_down exercise inject =
    not (inject.state == InjectState.pending)
    || not (exercise.state == active)
    || is_none inject.release_offset_minutes

unfoldable pub run_release : Db → Exercise → Inject → ℕ → Http Db
unfolding seconds_until_due defer_inject_release release_inject
run_release db exercise inject now =
    if stands_down exercise inject
    then ok db
    else if ltb_ℤ due_epsilon (seconds_until_due exercise inject now)
    then ok (defer_inject_release db exercise inject now)
    else (do
      allowed ← release_is_allowed db inject true
      (if allowed then (do (row, db') ← release_inject db inject none true now; ok db') else ok db))

abbrev pub with_rows :
    Db → Option Exercise → Option Inject → (Exercise → Inject → Http Db) → Http Db
with_rows db (some exercise) (some inject) run = run exercise inject
with_rows db _ _ run = ok db

unfoldable pub release_scheduled_inject : Db → ℕ → ℕ → ℕ → Http Db
unfolding run_release
release_scheduled_inject db exercise_id inject_id now =
    with_rows db (get_exercise db exercise_id) (get_inject db inject_id)
      (λ exercise inject. run_release db exercise inject now)

-- CommDirection(direction)
abbrev pub direction_of : String → Http CommDirection
direction_of direction =
    if direction == "inbound"
    then ok inbound
    else if direction == "outbound"
    then ok outbound
    else err (invalid_definition bad_direction)

abbrev pub is_this_key : String → ℕ → Option (String × ℕ) → Bool
is_this_key node_id index none = false
is_this_key node_id index (some (n, x)) = n == node_id && x == index

abbrev pub is_trigger : ℕ → String → ℕ → Communication → Bool
is_trigger exercise_id node_id index c =
    c.exercise_id == exercise_id && is_this_key node_id index c.trigger_key

abbrev pub triggered_row : ℕ → ℕ → CommDirection → TriggerComm → String → ℕ → ℕ → ℕ → Communication
triggered_row exercise_id inject_id direction trigger node_id index now id = record {
  id = id;
  exercise_id = exercise_id;
  sender_id = none;
  sender_team = none;
  direction = direction;
  external_entity = some trigger.external_entity;
  subject = trigger.subject;
  body = trigger.body;
  triggered_by_inject_id = some inject_id;
  trigger_key = some (node_id, index);
  visible_to_teams = none;
  created_during_run = some true;
  sent_at = now;
}

-- INSERT ... ON CONFLICT DO NOTHING on the exercise and the trigger key; the event only with a row.
unfoldable pub deliver_triggered_communication : Db → ℕ → ℕ → TriggerComm → String → ℕ → ℕ → Http Db
deliver_triggered_communication db exercise_id inject_id trigger node_id index now = do
  direction ← direction_of trigger.direction
  (if any (is_trigger exercise_id node_id index) db.communications.rows
      then ok db
      else ok (record db {
        communications =
            insert (triggered_row exercise_id inject_id direction trigger node_id index now)
              db.communications;
        events = db.events ++ communication_created exercise_id db.communications.next_id ∷ [];
      }))

-- node.triggers_communications[trigger_index], where the index is in range.
unfoldable pub trigger_at : List TriggerComm → ℕ → Option TriggerComm
trigger_at [] index = none
trigger_at (t ∷ ts) zero = some t
trigger_at (t ∷ ts) (suc index) = trigger_at ts index

abbrev pub node_trigger : Option InjectNode → ℕ → Option TriggerComm
node_trigger none index = none
node_trigger (some node) index = trigger_at node.triggers_communications index

-- The delivery, once the exercise is active, the inject released and the trigger defined.
unfoldable pub run_delivery : Db → Exercise → Inject → String → ℕ → ℕ → ℕ → TriggerComm → Http Db
unfolding deliver_triggered_communication active_seconds_since defer_triggered_comm
run_delivery db exercise inject node_id index released_at now trigger =
    let remaining =
      seconds trigger.delay_after_release_seconds
      -ℤ active_seconds_since db exercise released_at now in
    if ltb_ℤ due_epsilon remaining
    then ok (defer_triggered_comm db exercise.id inject.id node_id index remaining now)
    else deliver_triggered_communication db exercise.id inject.id trigger node_id index now

abbrev pub with_trigger : Db → Option TriggerComm → (TriggerComm → Http Db) → Http Db
with_trigger db none run = ok db
with_trigger db (some t) run = run t

abbrev pub run_released : Db → Exercise → Inject → String → ℕ → ℕ → Option ℕ → Http Db
run_released db exercise inject node_id index now none = ok db
run_released db exercise inject node_id index now (some released_at) = do
  definition ← definition_for_exercise db exercise.id
  with_trigger db (node_trigger (node_of definition (some node_id)) index)
      (run_delivery db exercise inject node_id index released_at now)

unfoldable pub deliver_triggered_comm : Db → ℕ → ℕ → String → ℕ → ℕ → Http Db
unfolding run_delivery trigger_at definition_for_exercise
deliver_triggered_comm db exercise_id inject_id node_id index now =
    with_rows db (get_exercise db exercise_id) (get_inject db inject_id) (λ exercise inject.
      if exercise.state == active
      then run_released db exercise inject node_id index now inject.released_at
      else ok db)
