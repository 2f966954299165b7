-- ===== src/Schedule/Due.antt =====
-- A release job that is due goes through.
use iceberg_ttx.Prelude.{
  ℕ, Bool, true, false, not, ◌&&◌, ◌||◌, Option, none, some, ◌≡◌, refl, ◌∙◌, inl, inr, Bool-cases,
  ◌==◌, ==_refl, nat_eq, find, find-of_mem, option_eq, string_eq, null, is_some, is_none, Memᴰ,
  mem-select, mem-find, and-left, and-right, contains,
}
use iceberg_ttx.Prelude.Int.{ℤ, ltb_ℤ}
use iceberg_ttx.Errors.{ok, ◌>>=◌}
use iceberg_ttx.Models.Enums.{active, released, InjectState, exercise_state_eq, inject_state_eq}
use iceberg_ttx.Models.Scenario.{ScenarioDefinition}
use iceberg_ttx.Models.Exercise.{Exercise}
use iceberg_ttx.Models.Inject.{Inject}
use iceberg_ttx.Models.Database.{Db, get_exercise, get_inject, members_of, injects_of, progress_of}
use iceberg_ttx.Launch.Content.{Http}
use iceberg_ttx.Launch.Freeze.{definition_for_exercise}
use iceberg_ttx.Lifecycle.Clock.{seconds_until_due}
use iceberg_ttx.Progression.Cursor.{
  release_is_allowed, inject_audience_contexts, seed_inject_resolution_contexts, is_falsy,
}
use iceberg_ttx.Progression.Release.{
  lock_exercise_for_audience_snapshot, is_pending, release_row, marked_released, release_inject,
}
use iceberg_ttx.Progression.Enqueued.{schedule_release-rows}
use iceberg_ttx.Progression.Once.{HasInjectKeys, released-row, get_inject-rows}
use iceberg_ttx.Schedule.Jobs.{schedule_release_triggered_comms, defer_node, node_of}
use iceberg_ttx.Schedule.Arm.{reached, cursor_nodes, is_running, is_scheduled}
use iceberg_ttx.Schedule.Settled.{reached-allowed}
use iceberg_ttx.Schedule.Worker.{due_epsilon, stands_down, run_release, release_scheduled_inject}

-- Enqueueing goes through wherever the definition can be read.
schedule_release-ok :
    (db : Db) (exercise_id : ℕ) (inject : Inject) (now : ℕ) (d : Option ScenarioDefinition)
    → definition_for_exercise db exercise_id ≡ ok d
    → (db' : Db) × (schedule_release_triggered_comms db exercise_id inject now ≡ ok db')
unfolding schedule_release_triggered_comms
schedule_release-ok db exercise_id inject now d read =
    elim (Bool-cases (is_falsy inject.scenario_node_id)) [
      | inl blank ↦ (db, rw blank refl)
      | inr named ↦ (
        defer_node db exercise_id inject.id (node_of d inject.scenario_node_id) now,
        rw (named, read) refl,
      )
    ]

-- What a release needs is enough for it.
release_inject-ok :
    (db : Db) (inject : Inject) (scheduled : Bool) (now : ℕ) (exercise : Exercise)
    (d : Option ScenarioDefinition)
    → HasInjectKeys db
    → get_exercise db inject.exercise_id ≡ some exercise
    → (exercise.state == active) ≡ true
    → release_is_allowed db inject scheduled ≡ ok true
    → null (inject_audience_contexts inject (members_of db inject.exercise_id)) ≡ false
    → is_some (find (is_pending inject.id) db.injects.rows) ≡ true
    → definition_for_exercise db inject.exercise_id ≡ ok d
    → (after : Inject) × (db' : Db) × (release_inject db inject none scheduled now
        ≡ ok (after, db'))
      × (get_inject db' inject.id ≡ some after)
      × (after.state ≡ released)
unfolding release_inject lock_exercise_for_audience_snapshot seed_inject_resolution_contexts
    marked_released definition_for_exercise
release_inject-ok db inject scheduled now exercise d keys found running allowed audience waits
      read =
    let seeded : Db = (seed_inject_resolution_contexts db inject).1 in
    let marked : Db = marked_released seeded inject none now in
    let (armed, all_armed) = schedule_release-ok marked inject.exercise_id inject now d read in
    let rows = schedule_release-rows marked inject.exercise_id inject now all_armed in
    let (row, was, _, written) = released-row seeded inject none now keys waits in
    let here : get_inject armed inject.id ≡ some (release_row now none row) =
      get_inject-rows armed marked inject.id rows.0 ∙ written in
    (
      release_row now none row,
      armed,
      rw (found, running, allowed, audience, waits, all_armed, here) refl,
      here,
      refl,
    )

-- What is armed is a row of the exercise, scheduled and pending.
reached_row :
    (db : Db) (exercise : Exercise) (inject : Inject)
    → Memᴰ inject (reached db exercise)
    → Memᴰ inject db.injects.rows
      × ((exercise.state == active) ≡ true)
      × (is_scheduled inject ≡ true)
unfolding reached
reached_row db exercise inject m = elim (Bool-cases (is_running exercise)) [
  | inl up ↦
      let (mine, both) =
        mem-select
          (λ (i : Inject).
            is_scheduled i
            && contains i.scenario_node_id (cursor_nodes (progress_of db exercise.id)))
          inject (injects_of db exercise.id) (rw up at m) in
      (
        (mem-select (λ (i : Inject). i.exercise_id == exercise.id) inject db.injects.rows mine).0,
        and-left _ _ up,
        and-left _ _ both,
      )
  | inr down ↦ elim (rw down at m) [ ]
]

>>=-of_ok :
    {A B : Type 0} (first : Http A) (next : A → Http B) {a : A}
    → first ≡ ok a
    → (first >>= next) ≡ next a
>>=-of_ok first next h = rw h refl

some_of_none : {A : Type 0} (o : Option A) → is_none o ≡ false → is_some o ≡ true
some_of_none none h = cc
some_of_none (some a) h = refl

down_false :
    (a b : Bool) (o : Option ℤ)
    → a ≡ true
    → b ≡ true
    → is_some o ≡ true
    → (not a || not b || is_none o) ≡ false
down_false a b none ha hb ho = cc
down_false a b (some x) ha hb ho = rw (ha, hb) refl

-- The release job of an inject that a cursor reached, once it is due, goes through and leaves the
-- inject released, where the inject has an audience and the definition of the exercise can be
-- read. The identifiers of the injects are distinct, and the exercise is the stored row.
pub reached-released :
    (db : Db) (exercise : Exercise) (inject : Inject) (now : ℕ) (d : Option ScenarioDefinition)
    → HasInjectKeys db
    → get_exercise db exercise.id ≡ some exercise
    → Memᴰ inject (reached db exercise)
    → ltb_ℤ due_epsilon (seconds_until_due exercise inject now) ≡ false
    → null (inject_audience_contexts inject (members_of db inject.exercise_id)) ≡ false
    → definition_for_exercise db exercise.id ≡ ok d
    → (db' : Db) × (after : Inject) × (release_scheduled_inject db exercise.id inject.id now
        ≡ ok db')
      × (get_inject db' inject.id ≡ some after)
      × (after.state ≡ released)
unfolding release_scheduled_inject run_release
reached-released db exercise inject now d keys found m due audience read =
    let (row, running, scheduled) = reached_row db exercise inject m in
    let (own, allowed) = reached-allowed db exercise inject true m in
    let here : get_inject db inject.id ≡ some inject =
      find-of_mem (λ (i : Inject). i.id) inject db.injects.rows keys row in
    let waits : (inject.state == InjectState.pending) ≡ true = and-left _ _ scheduled in
    let timed : is_some inject.release_offset_minutes ≡ true = and-right _ _ scheduled in
    let hit : is_pending inject.id inject ≡ true = rw (==_refl inject.id, waits) refl in
    let standing : is_some (find (is_pending inject.id) db.injects.rows) ≡ true =
      some_of_none _ (mem-find (is_pending inject.id) inject db.injects.rows row hit) in
    let (after, db', done, stored, out) =
      release_inject-ok db inject true now exercise d keys (rw own found) running allowed audience
        standing (rw own read) in
    let up : stands_down exercise inject ≡ false = down_false _ _ _ waits running timed in
    (
      db',
      after,
      rw (found, here, up, due)
          (>>=-of_ok (release_is_allowed db inject true) _ allowed
            ∙ >>=-of_ok (release_inject db inject none true now) _ done),
      stored,
      out,
    )
