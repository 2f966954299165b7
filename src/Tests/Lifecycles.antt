-- ===== src/Tests/Lifecycles.antt =====
-- The life cycle of a workshop: started at 100, paused at 160.
use iceberg_ttx.Prelude.{
  ℕ, ◌≤◌, Bool, true, false, List, [], ◌∷◌, Option, none, some, ◌≡◌, ◌≢◌, refl, arith,
  string_discrete, Bool-cases, is_some, contains,
}
use mathlib.Core.Bool.{decide}
use iceberg_ttx.Launch.Freeze.{freeze_launch_configuration, LaunchContent-discrete}
use iceberg_ttx.Launch.Content.{build_launch_content}
use iceberg_ttx.Prelude.Int.{pos, ◌+ℤ◌, ◌-ℤ◌}
use iceberg_ttx.Errors.{ok, err, state_changed}
use iceberg_ttx.Models.Enums.{exercise_state_eq, draft, active, paused, completed}
use iceberg_ttx.Models.Exercise.{Exercise}
use iceberg_ttx.Models.Database.{Db, get_exercise, transitions_of}
use iceberg_ttx.Lifecycle.States.{
  transition_action, valid_transitions, transition_action-total, Reach, Reach-completed,
}
use iceberg_ttx.Lifecycle.Transition.{compare_and_swap, transition_state_with_history}
use iceberg_ttx.Lifecycle.Clock.{
  active_elapsed_since, effective_elapsed_seconds, exercise_elapsed_seconds, no_pause,
}
use iceberg_ttx.Lifecycle.Timeline.{IsTimeline, IsTimeline-draft, Before, scan_all}
use iceberg_ttx.Lifecycle.Outcome.{Commits, HasKeys, compare_and_swap-Commits}
use iceberg_ttx.Lifecycle.History.{
  transition-IsTimeline, completed_while_paused, overtaken, stale_resume,
}
use iceberg_ttx.Lifecycle.Agreement.{kept_pause, clocks_agree, running_time}
use iceberg_ttx.Samples.{external, exercise, database, ok_or}

abbrev workshop : Exercise
workshop = exercise draft none none (pos 0)

abbrev before : Db
before = database workshop [] [] []

unfoldable started : Exercise × Db
unfolding transition_state_with_history freeze_launch_configuration build_launch_content decide
    LaunchContent-discrete string_discrete Bool-cases
    iceberg_ttx.Launch.Content.canonical_scenario_definition iceberg_ttx.Prelude.Sort.sorted
    native.Mathlib.Decide.ℕ_discrete transition_action iceberg_ttx.Lifecycle.Transition.apply_values
    iceberg_ttx.Launch.Content.export_definition iceberg_ttx.Scenario.Validate.parse_definition
    iceberg_ttx.Scenario.Validate.normalized_id iceberg_ttx.Prelude.strip
    iceberg_ttx.Scenario.Graph.check_no_cycles iceberg_ttx.Scenario.Graph.successors
    iceberg_ttx.Scenario.Graph.option_targets
started =
    ok_or (workshop, before)
      (transition_state_with_history external before workshop active (some 1) 100)

started-ok : transition_state_with_history external before workshop active (some 1) 100 ≡ ok started
unfolding started
started-ok = refl

transition-IsTimeline_line : IsTimeline started.0 (transitions_of started.1 started.0.id)
unfolding started
transition-IsTimeline_line =
    transition-IsTimeline external before workshop active (some 1) 100 refl refl
      (IsTimeline-draft workshop refl refl refl refl refl) tt started-ok

transition-IsTimeline_example : IsTimeline started.0 (transitions_of started.1 1)
transition-IsTimeline_example =
    transition-IsTimeline external before workshop active (some 1) 100 refl refl
      (IsTimeline-draft workshop refl refl refl refl refl) tt started-ok

-- Paused after a minute, with the state that the start left.
unfoldable paused_at_160 : Exercise × Db
unfolding transition_state_with_history started
paused_at_160 =
    ok_or started (transition_state_with_history external started.1 started.0 paused none 160)

paused-ok :
    transition_state_with_history external started.1 started.0 paused none 160 ≡ ok paused_at_160
unfolding paused_at_160 started
paused-ok = refl

started-rows : started.1.exercises.rows ≡ started.0 ∷ []
unfolding started
started-rows = refl

started-keys : HasKeys started.1
started-keys = rw started-rows refl

started-current : get_exercise started.1 started.0.id ≡ some started.0
unfolding started
started-current = refl

started-Before : Before 160 (transitions_of started.1 started.0.id)
unfolding started
started-Before = (omega arith, tt)

paused-IsTimeline : IsTimeline paused_at_160.0 (transitions_of paused_at_160.1 started.0.id)
paused-IsTimeline =
    transition-IsTimeline external started.1 started.0 paused none 160 started-keys started-current
      transition-IsTimeline_line started-Before paused-ok

paused-start : paused_at_160.0.started_at ≡ some 100
unfolding paused_at_160 started
paused-start = refl

paused-Before : Before 400 (transitions_of paused_at_160.1 started.0.id)
unfolding paused_at_160 started
paused-Before = (omega arith, (omega arith, tt))

clocks_agree_example :
    exercise_elapsed_seconds paused_at_160.0 400
    ≡ some (
        active_elapsed_since paused_at_160.0 100 (transitions_of paused_at_160.1 started.0.id) 400
        +ℤ kept_pause paused_at_160.0)
clocks_agree_example =
    clocks_agree paused_at_160.0 (transitions_of paused_at_160.1 started.0.id) 100 400
      paused-IsTimeline paused-start paused-Before

-- Completed from the pause.
unfoldable ended_at_200 : Exercise × Db
unfolding paused_at_160 started
ended_at_200 = ok_or started (compare_and_swap paused_at_160.1 paused_at_160.0 completed none 200)

ended-ok :
    compare_and_swap paused_at_160.1 paused_at_160.0 completed none 200
    ≡ ok (ended_at_200.0, ended_at_200.1)
unfolding ended_at_200 paused_at_160 started
ended-ok = refl

paused-keys : HasKeys paused_at_160.1
unfolding paused_at_160 started
paused-keys = refl

paused-current : get_exercise paused_at_160.1 paused_at_160.0.id ≡ some paused_at_160.0
unfolding paused_at_160 started
paused-current = refl

paused-since : paused_at_160.0.paused_at ≡ some 160
unfolding paused_at_160 started
paused-since = refl

paused-Before_200 : Before 200 (transitions_of paused_at_160.1 paused_at_160.0.id)
unfolding paused_at_160 started
paused-Before_200 = (omega arith, (omega arith, tt))

paused-line : IsTimeline paused_at_160.0 (transitions_of paused_at_160.1 paused_at_160.0.id)
unfolding paused_at_160 started
paused-line = paused-IsTimeline

completed_while_paused_example :
    (ended_at_200.0.state ≡ completed)
    × (ended_at_200.0.paused_at ≡ some 160)
    × ((scan_all no_pause (transitions_of ended_at_200.1 paused_at_160.0.id)).paused_seconds
        ≡ ended_at_200.0.accumulated_pause_seconds +ℤ (pos 200 -ℤ pos 160))
completed_while_paused_example =
    completed_while_paused paused_at_160.1 paused_at_160.0 none 200 160 paused-keys paused-current
      paused-line paused-Before_200 paused-since ended-ok

started-start : started.0.started_at ≡ some 100
unfolding started
started-start = refl

started-active : started.0.state ≡ active
unfolding started
started-active = refl

running_time_example :
    active_elapsed_since started.0 100 (transitions_of started.1 started.0.id) 160
    ≡ effective_elapsed_seconds started.0 160
running_time_example =
    running_time started.0 (transitions_of started.1 started.0.id) 100 160
      transition-IsTimeline_line started-start started-Before started-active

swap-ok :
    compare_and_swap started.1 started.0 paused none 160 ≡ ok (paused_at_160.0, paused_at_160.1)
unfolding paused_at_160 started
swap-ok = refl

compare_and_swap-Commits_example :
    Commits started.1 paused_at_160.1 started.0 paused 160 paused_at_160.0
compare_and_swap-Commits_example =
    compare_and_swap-Commits started.1 started.0 paused none 160 paused_at_160.0 paused_at_160.1
      started-keys swap-ok

abbrev paused_db : Db
paused_db = database (exercise paused (some 100) (some 160) (pos 0)) [] [] []

abbrev late_db : Db
late_db = database (exercise paused (some 100) (some 300) (pos 40)) [] [] []

paused-active : paused ≢ active
paused-active e = cc

-- Two requests that saw the workshop active: the one that comes second finds it paused.
overtaken_example :
    compare_and_swap paused_db (exercise active (some 100) none (pos 0)) completed none 200
    ≡ err (state_changed active paused)
overtaken_example =
    overtaken paused_db (exercise active (some 100) none (pos 0))
      (exercise paused (some 100) (some 160) (pos 0)) completed none 200 refl refl paused-active
      refl

-- A resume asked for in the pause at 160, which runs in the pause at 300.
unfoldable resumed_late : Exercise × Db
unfolding compare_and_swap
resumed_late =
    ok_or (workshop, before)
      (compare_and_swap late_db (exercise paused (some 100) (some 160) (pos 0)) active none 310)

late-ok :
    compare_and_swap late_db (exercise paused (some 100) (some 160) (pos 0)) active none 310
    ≡ ok resumed_late
unfolding resumed_late transition_action iceberg_ttx.Lifecycle.Transition.apply_values
late-ok = refl

stale_resume_example :
    resumed_late.0.accumulated_pause_seconds -ℤ (pos 40 +ℤ (pos 310 -ℤ pos 300))
    ≡ (pos 0 -ℤ pos 40) +ℤ (pos 300 -ℤ pos 160)
stale_resume_example =
    stale_resume late_db (exercise paused (some 100) (some 160) (pos 0))
      (exercise paused (some 100) (some 300) (pos 40)) none 310 160 300 refl refl refl refl late-ok

transition_action-total_example :
    is_some (transition_action paused active) ≡ contains active (valid_transitions paused)
transition_action-total_example = transition_action-total paused active

Reach-completed_example : completed ≡ completed
Reach-completed_example = Reach-completed Reach.here
