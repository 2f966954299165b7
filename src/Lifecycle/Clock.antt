-- ===== src/Lifecycle/Clock.antt =====
-- The pause-aware clocks of app/services/schedule_service.py and of static/js/app.js. `now` is the answer of
-- `task_queue.now()`; spans are microseconds.
use iceberg_ttx.Prelude.{
  ℕ, suc, ◌*◌, Bool, List, [], ◌∷◌, Option, none, some, ◌==◌, ltb, leb, min, if◌then◌else◌,
}
use iceberg_ttx.Prelude.Int.{ℤ, pos, negsuc, ◌+ℤ◌, ◌-ℤ◌, pos_part}
use iceberg_ttx.Prelude.Sort.{sorted}
use iceberg_ttx.Models.Enums.{paused, completed, exercise_state_eq}
use iceberg_ttx.Models.Exercise.{Exercise, ExerciseStateTransition}
use iceberg_ttx.Models.Inject.{Inject}
use iceberg_ttx.Models.Database.{Db, transitions_of}

abbrev pub elapsed_from : Exercise → ℕ → Option ℕ → ℤ
elapsed_from exercise now none = pos 0
elapsed_from exercise now (some started_at) =
    pos now -ℤ pos started_at -ℤ exercise.accumulated_pause_seconds

unfoldable pub effective_elapsed_seconds : Exercise → ℕ → ℤ
effective_elapsed_seconds exercise now = elapsed_from exercise now exercise.started_at

-- A minute, in the microseconds of the model.
abbrev pub minute : ℕ
minute = 60000000

abbrev pub minutes : ℤ → ℤ
minutes (pos n) = pos (n * minute)
minutes (negsuc n) = pos 0 -ℤ pos (suc n * minute)

abbrev pub until_offset : Exercise → ℕ → Option ℤ → ℤ
until_offset exercise now none = pos 0
until_offset exercise now (some offset) = minutes offset -ℤ effective_elapsed_seconds exercise now

unfoldable pub seconds_until_due : Exercise → Inject → ℕ → ℤ
unfolding effective_elapsed_seconds
seconds_until_due exercise inject now = until_offset exercise now inject.release_offset_minutes

-- The two variables of the loop of `_active_elapsed_since`.
pub record PauseScan : Type 0 where
  pub paused_seconds : ℤ
  pub pause_started : Option ℕ

abbrev pub no_pause : PauseScan
no_pause = record { paused_seconds = pos 0; pause_started = none }

abbrev pub close_pause : PauseScan → Option ℕ → ℕ → PauseScan
close_pause s none at = s
close_pause s (some p) at = record {
  paused_seconds = s.paused_seconds +ℤ (pos at -ℤ pos p);
  pause_started = none;
}

-- The body of the loop, for a transition at or after the release.
unfoldable pub scan_one : PauseScan → ExerciseStateTransition → PauseScan
scan_one s t =
    if t.to_state == paused
    then record s { pause_started = some t.transitioned_at }
    else if t.from_state == paused
    then close_pause s s.pause_started t.transitioned_at
    else s

unfoldable pub scan_since : ℕ → PauseScan → List ExerciseStateTransition → PauseScan
scan_since released_at s [] = s
scan_since released_at s (t ∷ ts) =
    scan_since released_at (if ltb t.transitioned_at released_at then s else scan_one s t) ts

abbrev pub by_time : ExerciseStateTransition → ExerciseStateTransition → Bool
by_time a b = leb a.transitioned_at b.transitioned_at

-- exercise.ended_at or now
abbrev pub or_now : Option ℕ → ℕ → ℕ
or_now none now = now
or_now (some at) now = at

-- The pause that is still open counts up to the end.
abbrev pub open_pause : Option ℕ → ℕ → ℤ
open_pause none end = pos 0
open_pause (some p) end = pos end -ℤ pos p

-- max(0.0, span)
abbrev pub at_least_zero : ℤ → ℤ
at_least_zero span = pos (pos_part span)

abbrev pub span_of : PauseScan → ℕ → ℕ → ℤ
span_of s end released_at =
    at_least_zero
      (pos end -ℤ pos released_at -ℤ (s.paused_seconds +ℤ open_pause s.pause_started end))

unfoldable pub active_elapsed_since : Exercise → ℕ → List ExerciseStateTransition → ℕ → ℤ
unfolding scan_since scan_one
active_elapsed_since exercise released_at transitions now =
    let end = min (or_now exercise.ended_at now) now in
    span_of (scan_since released_at no_pause (sorted by_time transitions)) end released_at

unfoldable pub active_seconds_since : Db → Exercise → ℕ → ℕ → ℤ
unfolding active_elapsed_since
active_seconds_since db exercise released_at now =
    active_elapsed_since exercise released_at (transitions_of db exercise.id) now

-- The reference time of `exerciseElapsedSeconds` in static/js/app.js, which the pages show.
abbrev pub reference_time : Exercise → ℕ → ℕ
reference_time exercise now =
    if exercise.state == paused
    then or_now exercise.paused_at now
    else if exercise.state == completed
    then or_now exercise.ended_at now
    else now

unfoldable pub exercise_elapsed_seconds : Exercise → ℕ → Option ℤ
exercise_elapsed_seconds exercise now = elim exercise.started_at [
  | none ↦ none
  | some start ↦ some (
      at_least_zero
        (pos (reference_time exercise now) -ℤ pos start -ℤ exercise.accumulated_pause_seconds))
]
