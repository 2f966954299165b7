-- ===== src/Responses/Submit.antt =====
-- `submit_response`, `queue_llm_pipeline` of app/services/llm_service.py, and the `submit` route of
-- app/routers/responses.py. The suggestions that `submit_response` returns beside the row, which the
-- route drops, and the progression that it shows are not modelled.
use iceberg_ttx.Prelude.{
  ℕ, String, Bool, true, false, not, ◌&&◌, List, [], ◌∷◌, ◌++◌, Option, none, some, ◌==◌, nat_eq,
  string_eq, option_eq, any, if◌then◌else◌,
}
use iceberg_ttx.Errors.{
  ok, err, ◌>>=◌, ◌>>◌, require, only_participants, responses_need_active, responses_need_released,
  already_submitted, invalid_response, key_error, ResponseError,
}
use iceberg_ttx.Models.Enums.{
  participant, user_role_eq, active, exercise_state_eq, released, inject_state_eq,
}
use iceberg_ttx.Models.Exercise.{Exercise}
use iceberg_ttx.Models.Inject.{Response}
use iceberg_ttx.Models.Database.{
  Db, Task, Job, insert, get_inject, get_exercise, response_submitted, assess_response_task,
}
use iceberg_ttx.Launch.Content.{Http}
use iceberg_ttx.Launch.Freeze.{or_raise, definition_for_exercise}
use iceberg_ttx.Access.Gates.{
  Caller, require_exercise_access, require_operational_mutability, require_inject_visible,
  exercise_group_for_user,
}
use iceberg_ttx.Progression.Resolve.{resolve_response_progression}
use iceberg_ttx.Progression.Release.{get_inject_or_404}
use iceberg_ttx.Schedule.Jobs.{node_of}
use iceberg_ttx.Schedule.Arm.{arm_cursor_reached_injects}
use iceberg_ttx.Responses.Next.{response_validation_error, compute_next_inject_ids}

abbrev pub is_submitted : ℕ → ℕ → ℕ → Response → Bool
is_submitted exercise_id inject_id user_id r =
    r.exercise_id == exercise_id && r.inject_id == inject_id && r.user_id == user_id

abbrev pub new_response : ℕ → ℕ → ℕ → String → Option String → Option String → ℕ → ℕ → Response
new_response inject_id exercise_id user_id content selected_option group_id now id = record {
  id = id;
  inject_id = inject_id;
  exercise_id = exercise_id;
  user_id = user_id;
  group_id = group_id;
  content = content;
  selected_option = selected_option;
  submitted_at = now;
  assessment_id = none;
}

-- next_ids[0] if len(next_ids) == 1 else None
abbrev pub only_one : List String → Option String
only_one (id ∷ []) = some id
only_one _ = none

abbrev pub armed_for : Db → Option Exercise → ℕ → Db
armed_for db none now = db
armed_for db (some exercise) now = arm_cursor_reached_injects db exercise now

abbrev pub with_response : Db → Response → Db
with_response db response = record db { responses = insert (λ id. response) db.responses }

unfoldable pub submit_response :
    Db → ℕ → ℕ → ℕ → String → Option String → Option String → ℕ → Http (Response × Db)
unfolding compute_next_inject_ids resolve_response_progression arm_cursor_reached_injects
submit_response db inject_id exercise_id user_id content selected_option group_id now = do
  require (not (any (is_submitted exercise_id inject_id user_id) db.responses.rows))
      already_submitted
  let response =
      new_response inject_id exercise_id user_id content selected_option group_id now
        db.responses.next_id
  let flushed = with_response db response
  next_ids ← compute_next_inject_ids flushed exercise_id inject_id selected_option
  inject ← or_raise (get_inject flushed inject_id) key_error
  (advanced, moved) ←
      resolve_response_progression flushed inject group_id user_id (only_one next_ids) now
  let announced = record moved {
    events = moved.events ++ response_submitted exercise_id response.id ∷ [];
  }
  ok (response, armed_for announced (get_exercise announced exercise_id) now)

abbrev pub is_assessment : ℕ → Task → Bool
is_assessment response_id (assess_response_task r i e) = r == response_id
is_assessment response_id _ = false

-- defer_job_once under the queueing lock `assess:{response_id}`: due at once, one waiting at most.
unfoldable pub queue_llm_pipeline : Db → ℕ → ℕ → ℕ → ℕ → Bool × Db
queue_llm_pipeline db response_id inject_id exercise_id now =
    if any (λ (j : Job). is_assessment response_id j.task) db.jobs then (false, db) else (
      true,
      record db {
        jobs =
            db.jobs
            ++ record {
              task = assess_response_task response_id inject_id exercise_id;
              scheduled_at = now;
            }
              ∷ [];
      },
    )

abbrev pub accepted : Option ResponseError → Http (Unit {0})
accepted none = ok tt
accepted (some e) = err (invalid_response e)

-- The route's checks before it stores anything.
unfoldable pub check_submission : Db → ℕ → ℕ → Caller → String → Option String → Http Exercise
unfolding require_exercise_access require_operational_mutability get_inject_or_404
    require_inject_visible
check_submission db exercise_id inject_id caller content selected_option = do
  exercise ← require_exercise_access db exercise_id caller
  require_operational_mutability exercise
  require (caller.user.role == participant) only_participants
  require (exercise.state == active) responses_need_active
  inject ← get_inject_or_404 db exercise_id inject_id
  require_inject_visible db inject caller
  require (inject.state == released) responses_need_released
  require (not (any (is_submitted exercise_id inject_id caller.user.id) db.responses.rows))
      already_submitted
  definition ← definition_for_exercise db exercise_id
  accepted (
      response_validation_error (node_of definition inject.scenario_node_id) content
        selected_option)
  ok exercise

unfoldable pub submit : Db → ℕ → ℕ → Caller → String → Option String → ℕ → Http (Response × Db)
unfolding check_submission submit_response queue_llm_pipeline
submit db exercise_id inject_id caller content selected_option now = do
  exercise ← check_submission db exercise_id inject_id caller content selected_option
  let group_id = exercise_group_for_user db exercise_id caller
  (response, stored) ←
      submit_response db inject_id exercise_id caller.user.id content selected_option group_id now
  ok (
    response,
    if exercise.llm_enabled
        then (queue_llm_pipeline stored response.id inject_id exercise_id now).1
        else stored,
  )
