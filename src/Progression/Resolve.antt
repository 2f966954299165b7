-- ===== src/Progression/Resolve.antt =====
-- `resolve_response_progression` of app/services/progression_service.py.
use iceberg_ttx.Prelude.{
  ℕ, String, Bool, true, false, not, ◌&&◌, List, Option, none, some, ◌==◌, nat_eq, option_eq,
  string_eq, all, any, find, select, null, is_none, if◌then◌else◌,
}
use iceberg_ttx.Errors.{ok, ◌>>=◌, no_row}
use iceberg_ttx.Models.Enums.{resolved, inject_state_eq}
use iceberg_ttx.Models.Exercise.{ExerciseProgress}
use iceberg_ttx.Models.Inject.{Inject, InjectProgress}
use iceberg_ttx.Models.Database.{Db, Table, insert, update_rows, get_inject}
use iceberg_ttx.Launch.Content.{Http}
use iceberg_ttx.Launch.Freeze.{or_raise}
use iceberg_ttx.Progression.Cursor.{of_inject, of_group, seed_inject_resolution_contexts}

-- group_id or inject.group_id
abbrev pub context_of : Option String → Option String → Option String
context_of none other = other
context_of (some g) other = if g == "" then other else some g

abbrev pub resolve_row : ℕ → ℕ → InjectProgress → InjectProgress
resolve_row actor_id now p = record p {
  state = resolved;
  resolved_at = some now;
  resolved_by = some actor_id;
  resolution_reason = some "participant_response";
}

abbrev pub resolve_inject : ℕ → ℕ → Inject → Inject
resolve_inject actor_id now i = record i {
  state = resolved;
  resolved_at = some now;
  resolved_by = some actor_id;
  resolution_reason = some "participant_response";
}

-- A shared inject closes after every context of its audience.
unfoldable pub is_complete : List InjectProgress → ℕ → Bool
is_complete rows inject_id =
    let resolutions = select (λ (p : InjectProgress). p.inject_id == inject_id) rows in
    not (null resolutions) && all (λ (p : InjectProgress). p.state == resolved) resolutions

unfoldable pub close_inject : Db → Inject → ℕ → ℕ → Db
close_inject db inject actor_id now =
    if is_complete db.inject_progress.rows inject.id
    then record db {
      injects =
          update_rows (λ (i : Inject). i.id == inject.id) (resolve_inject actor_id now) db.injects;
    }
    else db

abbrev pub advance_row : ℕ → Option String → ℕ → ℕ → ExerciseProgress → ExerciseProgress
advance_row inject_id next_node_id actor_id now p = record p {
  current_inject_id = some inject_id;
  current_node_id = next_node_id;
  advanced_at = now;
  advanced_by = some actor_id;
}

abbrev pub fresh_cursor : Inject → Option String → Option String → ℕ → ℕ → ℕ → ExerciseProgress
fresh_cursor inject context next_node_id actor_id now id = record {
  id = id;
  exercise_id = inject.exercise_id;
  group_id = context;
  current_node_id = next_node_id;
  current_inject_id = some inject.id;
  advanced_at = now;
  advanced_by = some actor_id;
}

unfoldable pub advance_cursor :
    Table ExerciseProgress → Inject → Option String → Option String → ℕ → ℕ → Table ExerciseProgress
advance_cursor t inject context next_node_id actor_id now =
    if any (of_group inject.exercise_id context) t.rows
    then update_rows (of_group inject.exercise_id context)
        (advance_row inject.id next_node_id actor_id now) t
    else insert (fresh_cursor inject context next_node_id actor_id now) t

-- From the row of the context on: replays and contexts outside the audience change nothing.
unfoldable pub resolve_context :
    Db → Inject → Option String → ℕ → Option String → ℕ → Option InjectProgress → Bool × Db
unfolding close_inject is_complete advance_cursor
resolve_context db inject context actor_id next_node_id now none = (false, db)
resolve_context db inject context actor_id next_node_id now (some row) =
    if row.state == resolved
    then (false, db)
    else let marked = record db {
      inject_progress =
          update_rows (of_inject inject.id context) (resolve_row actor_id now) db.inject_progress;
    } in
      let closed = close_inject marked inject actor_id now in
      if is_none inject.scenario_node_id then (true, closed) else (
        true,
        record closed {
          progress = advance_cursor closed.progress inject context next_node_id actor_id now;
        },
      )

unfoldable pub resolve_response_progression :
    Db → Inject → Option String → ℕ → Option String → ℕ → Http (Bool × Db)
unfolding resolve_context seed_inject_resolution_contexts
resolve_response_progression db inject group_id actor_id next_node_id now = do
  locked ← or_raise (get_inject db inject.id) no_row
  let context = context_of group_id locked.group_id
  let seeded = seed_inject_resolution_contexts db locked
  let row = find (of_inject locked.id context) seeded.1.inject_progress.rows
  ok (resolve_context seeded.1 locked context actor_id next_node_id now row)
