-- ===== src/Progression/Release.antt =====
-- The release and the deletion of an inject, in app/services/inject_service.py: each is a
-- compare-and-swap on the pending state. `now` is what the clock answers in the transaction.
use iceberg_ttx.Prelude.{
  ℕ, Bool, not, ◌&&◌, [], ◌∷◌, ◌++◌, Option, some, ◌==◌, nat_eq, find, select, null, is_some,
}
use iceberg_ttx.Errors.{
  ok, ◌>>=◌, ◌>>◌, require, release_needs_active, not_current_branch, no_audience, not_pending,
  no_row, released_undeletable, inject_not_found,
}
use iceberg_ttx.Models.Enums.{active, InjectState, released, exercise_state_eq, inject_state_eq}
use iceberg_ttx.Models.Exercise.{Exercise}
use iceberg_ttx.Models.Inject.{Inject}
use iceberg_ttx.Models.Database.{Db, update_rows, get_exercise, get_inject, inject_released}
use iceberg_ttx.Launch.Content.{Http}
use iceberg_ttx.Launch.Freeze.{or_raise}
use iceberg_ttx.Progression.Cursor.{release_is_allowed, seed_inject_resolution_contexts}
use iceberg_ttx.Schedule.Jobs.{schedule_release_triggered_comms}

-- The locked row, read anew.
unfoldable pub lock_exercise_for_audience_snapshot : Db → ℕ → Http Exercise
lock_exercise_for_audience_snapshot db exercise_id = or_raise (get_exercise db exercise_id) no_row

abbrev pub is_pending : ℕ → Inject → Bool
is_pending id i = i.id == id && i.state == InjectState.pending

abbrev pub release_row : ℕ → Option ℕ → Inject → Inject
release_row now released_by i = record i {
  state = released;
  released_at = some now;
  released_by = released_by;
}

unfoldable pub marked_released : Db → Inject → Option ℕ → ℕ → Db
marked_released db inject released_by now = record db {
  injects = update_rows (is_pending inject.id) (release_row now released_by) db.injects;
  events = db.events ++ inject_released inject.exercise_id inject.id ∷ [];
}

unfoldable pub release_inject : Db → Inject → Option ℕ → Bool → ℕ → Http (Inject × Db)
unfolding lock_exercise_for_audience_snapshot seed_inject_resolution_contexts marked_released
release_inject db inject released_by scheduled now = do
  exercise ← lock_exercise_for_audience_snapshot db inject.exercise_id
  require (exercise.state == active) release_needs_active
  allowed ← release_is_allowed db inject scheduled
  require allowed not_current_branch
  let (contexts, seeded) = seed_inject_resolution_contexts db inject
  require (not (null contexts)) no_audience
  require (is_some (find (is_pending inject.id) seeded.injects.rows)) not_pending
  armed ←
      schedule_release_triggered_comms (marked_released seeded inject released_by now)
        inject.exercise_id inject now
  row ← or_raise (get_inject armed inject.id) inject_not_found
  ok (row, armed)

unfoldable pub get_inject_or_404 : Db → ℕ → ℕ → Http Inject
get_inject_or_404 db exercise_id inject_id = do
  inject ← or_raise (get_inject db inject_id) inject_not_found
  require (inject.exercise_id == exercise_id) inject_not_found
  ok inject

unfoldable pub delete_pending_inject : Db → Inject → Http Db
delete_pending_inject db inject = do
  require (is_some (find (is_pending inject.id) db.injects.rows)) released_undeletable
  ok (record db {
    injects = record db.injects {
      rows = select (λ i. not (is_pending inject.id i)) db.injects.rows;
    };
  })
