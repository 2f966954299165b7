-- ===== src/Lifecycle/Transition.antt =====
-- `transition_state_with_history`: the request names the exercise as it loaded it (`observed`), and
-- `now` is the clock's answer. The UPDATE is a compare-and-swap on the observed state.
use iceberg_ttx.Prelude.{
  ℕ, String, Bool, ◌&&◌, [], ◌∷◌, ◌++◌, Option, none, some, ◌==◌, nat_eq, find, contains, is_some,
  is_none, if◌then◌else◌,
}
use iceberg_ttx.Prelude.Int.{ℤ, pos, ◌+ℤ◌, ◌-ℤ◌}
use iceberg_ttx.Errors.{
  ok, err, ◌>>=◌, ◌>>◌, require, exercise_not_found, invalid_transition, state_changed, key_error,
}
use iceberg_ttx.Models.Enums.{ExerciseState, draft, active, paused, completed, exercise_state_eq}
use iceberg_ttx.Models.Exercise.{Exercise, ExerciseStateTransition}
use iceberg_ttx.Models.Database.{Db, insert, update_rows, get_exercise, exercise_state_changed}
use iceberg_ttx.Launch.Content.{Http, External}
use iceberg_ttx.Launch.Freeze.{freeze_launch_configuration, or_raise}
use iceberg_ttx.Lifecycle.States.{valid_transitions, transition_action}

-- values["started_at"], where the key is set.
abbrev pub new_started_at : Exercise → ExerciseState → ℕ → Option ℕ → Option ℕ
new_started_at observed new_state now old =
    if new_state == active && is_none observed.started_at then some now else old

-- values["accumulated_pause_seconds"]: the open pause of the observed exercise is added.
abbrev pub resumed : Option ℕ → ℤ → ℕ → ℤ → ℤ
resumed none accumulated now old = old
resumed (some paused_at) accumulated now old = accumulated +ℤ (pos now -ℤ pos paused_at)

abbrev pub new_accumulated : Exercise → ExerciseState → ℕ → ℤ → ℤ
new_accumulated observed new_state now old =
    if new_state == active
    then resumed observed.paused_at observed.accumulated_pause_seconds now old
    else old

abbrev pub new_paused_at : Exercise → ExerciseState → ℕ → Option ℕ → Option ℕ
new_paused_at observed new_state now old =
    if new_state == paused
    then some now
    else if new_state == active && is_some observed.paused_at
    then none
    else old

abbrev pub new_ended_at : ExerciseState → ℕ → Option ℕ → Option ℕ
new_ended_at new_state now old = if new_state == completed then some now else old

-- The row after the UPDATE: keys that `values` lacks keep the row's own value.
unfoldable pub apply_values : Exercise → ExerciseState → ℕ → Exercise → Exercise
apply_values observed new_state now row = record row {
  state = new_state;
  started_at = new_started_at observed new_state now row.started_at;
  paused_at = new_paused_at observed new_state now row.paused_at;
  accumulated_pause_seconds = new_accumulated observed new_state now row.accumulated_pause_seconds;
  ended_at = new_ended_at new_state now row.ended_at;
}

abbrev pub swaps : Exercise → Exercise → Bool
swaps observed row = row.id == observed.id && row.state == observed.state

-- actor_id if actor_id is not None else exercise.created_by
abbrev pub actor : Option ℕ → Exercise → ℕ
actor none observed = observed.created_by
actor (some id) observed = id

abbrev pub new_transition : Exercise → ExerciseState → Option ℕ → ℕ → ℕ → ExerciseStateTransition
new_transition observed new_state actor_id now id = record {
  id = id;
  exercise_id = observed.id;
  from_state = observed.state;
  to_state = new_state;
  actor_id = some (actor actor_id observed);
  transitioned_at = now;
}

-- The row that the UPDATE matched; where it matched none, the request lost.
abbrev pub won : Exercise → Option Exercise → Option Exercise → Http Exercise
won observed (some row) current = ok row
won observed none none = err exercise_not_found
won observed none (some current) = err (state_changed observed.state current.state)

unfoldable pub committed : Db → Exercise → ExerciseState → Option ℕ → ℕ → String → Db
committed db observed new_state actor_id now action = record db {
  exercises = update_rows (swaps observed) (apply_values observed new_state now) db.exercises;
  transitions = insert (new_transition observed new_state actor_id now) db.transitions;
  events = db.events ++ exercise_state_changed observed.id db.transitions.next_id action ∷ [];
}

-- The part after the launch configuration is frozen.
unfoldable pub compare_and_swap :
    Db → Exercise → ExerciseState → Option ℕ → ℕ → Http (Exercise × Db)
unfolding committed
compare_and_swap db observed new_state actor_id now = do
  require (contains new_state (valid_transitions observed.state))
      (invalid_transition observed.state new_state)
  _ ← won observed (find (swaps observed) db.exercises.rows) (get_exercise db observed.id)
  action ← or_raise (transition_action observed.state new_state) key_error
  let db' = committed db observed new_state actor_id now action
  updated ← or_raise (get_exercise db' observed.id) exercise_not_found
  ok (updated, db')

unfoldable pub transition_state_with_history :
    External → Db → Exercise → ExerciseState → Option ℕ → ℕ → Http (Exercise × Db)
unfolding compare_and_swap
transition_state_with_history ext db exercise new_state actor_id now =
    if exercise.state == draft && new_state == active
    then (do
      (frozen, db') ← freeze_launch_configuration ext db exercise
      compare_and_swap db' frozen new_state actor_id now)
    else compare_and_swap db exercise new_state actor_id now
