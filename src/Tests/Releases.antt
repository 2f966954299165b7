-- ===== src/Tests/Releases.antt =====
-- Releases, schedules and responses in a running workshop.
use iceberg_ttx.Prelude.{
  String, Bool, true, false, [], ◌∷◌, Option, none, some, ◌≡◌, ◌≢◌, refl, Memᴰ, strip,
}
use iceberg_ttx.Prelude.Int.{pos}
use iceberg_ttx.Errors.{ok}
use iceberg_ttx.Models.Enums.{active, paused, InjectState, inbound, resolved}
use iceberg_ttx.Models.Scenario.{InjectNode, InjectOption}
use iceberg_ttx.Models.Exercise.{Exercise, ExerciseProgress}
use iceberg_ttx.Models.Inject.{Inject, InjectProgress}
use iceberg_ttx.Models.Database.{Db}
use iceberg_ttx.Scenario.Branch.{get_inject_node}
use iceberg_ttx.Scenario.Validate.{parse_definition}
use iceberg_ttx.Scenario.Accepted.{IsPlayable, parse_definition-IsPlayable}
use iceberg_ttx.Progression.Cursor.{roster_changes_allowed, release_is_allowed, new_inject_progress}
use iceberg_ttx.Progression.Resolve.{resolve_response_progression, resolve_context}
use iceberg_ttx.Progression.Release.{release_inject}
use iceberg_ttx.Progression.Once.{Releases, release_inject-Releases, release_inject-once}
use iceberg_ttx.Progression.Roster.{roster-locked}
use iceberg_ttx.Progression.Advance.{cursor_of}
use iceberg_ttx.Progression.Isolation.{resolve-isolation, resolve_context-moves}
use iceberg_ttx.Schedule.Arm.{reached}
use iceberg_ttx.Schedule.Worker.{deliver_triggered_communication, release_scheduled_inject}
use iceberg_ttx.Schedule.Settled.{reached-allowed, halted, deliver-once, settled_release}
use iceberg_ttx.Responses.Next.{response_validation_error, response_next_inject_ids, truthy_list}
use iceberg_ttx.Responses.Branch.{accepted-branch, next-playable}
use iceberg_ttx.Samples.{definition, ransom, trigger, exercise, inject, cursor, database, ok_or}

abbrev pub running : Exercise
running = exercise active (some 100) none (pos 0)

abbrev pub note : Inject
note = inject 1 "ransom" InjectState.pending none

abbrev pub paid : Inject
paid = inject 2 "paid" InjectState.pending (some (pos 5))

-- The cursors stand on the node of the second inject.
abbrev pub advanced : Db
advanced = database running (note ∷ paid ∷ []) (cursor (some "red") (some "paid") ∷ []) []

-- The opening: no cursor yet.
abbrev pub opening : Db
opening = database running (note ∷ paid ∷ []) [] []

unfoldable pub opened : Inject × Db
opened = ok_or (note, opening) (release_inject opening note (some 1) false 300)

pub opened-ok : release_inject opening note (some 1) false 300 ≡ ok (opened.0, opened.1)
unfolding opened release_inject release_is_allowed
    iceberg_ttx.Schedule.Jobs.schedule_release_triggered_comms parse_definition
    iceberg_ttx.Scenario.Validate.normalized_id strip iceberg_ttx.Scenario.Graph.check_no_cycles
    iceberg_ttx.Scenario.Graph.successors iceberg_ttx.Scenario.Graph.option_targets
opened-ok = refl

release_inject-Releases_example : Releases opening opened.1 note (some 1) false 300 opened.0
release_inject-Releases_example =
    release_inject-Releases opening note (some 1) false 300 opened.0 opened.1 refl opened-ok

-- A job for the same inject, from the schedule.
release_inject-once_example : release_inject opened.1 note none true 310 ≢ ok (opened.0, opened.1)
release_inject-once_example =
    release_inject-once opening note (some 1) none false true 300 310 opened.0 opened.0 opened.1
      opened.1 refl opened-ok

roster-locked_example : roster_changes_allowed opened.1 opened.0.exercise_id ≡ false
roster-locked_example =
    roster-locked opening note (some 1) false 300 opened.0 opened.1 refl opened-ok

pub armed : Memᴰ paid (reached advanced running)
unfolding reached
armed = Memᴰ.head refl

reached-allowed_example :
    (paid.exercise_id ≡ running.id) × (release_is_allowed advanced paid true ≡ ok true)
reached-allowed_example = reached-allowed advanced running paid true armed

unfoldable given : Db
given = ok_or opening (deliver_triggered_communication opening 1 1 trigger "ransom" 0 400)

given-ok : deliver_triggered_communication opening 1 1 trigger "ransom" 0 400 ≡ ok given
unfolding given deliver_triggered_communication
given-ok = refl

deliver-once_example : deliver_triggered_communication given 1 2 trigger "ransom" 0 500 ≡ ok given
deliver-once_example =
    deliver-once opening given 1 1 2 trigger trigger "ransom" 0 400 500 inbound given-ok refl

abbrev stopped : Db
stopped = database (exercise paused (some 100) (some 200) (pos 0)) (note ∷ paid ∷ []) [] []

settled_release_example : release_scheduled_inject stopped 1 2 400 ≡ ok stopped
settled_release_example =
    settled_release stopped 1 2 400
      (halted (exercise paused (some 100) (some 200) (pos 0)) refl (λ up. cc))

parsed : parse_definition definition ≡ ok definition
unfolding parse_definition iceberg_ttx.Scenario.Validate.normalized_id strip
    iceberg_ttx.Scenario.Graph.check_no_cycles iceberg_ttx.Scenario.Graph.successors
    iceberg_ttx.Scenario.Graph.option_targets
parsed = refl

playable : IsPlayable definition
playable = parse_definition-IsPlayable definition parsed

pays : response_validation_error (some ransom) "" (some "pay") ≡ none
unfolding response_validation_error
pays = refl

accepted-branch_example :
    (o : InjectOption) × Memᴰ o ransom.options
    × (some "pay" ≡ some o.id)
    × (response_next_inject_ids definition ransom.id (some "pay") ≡ truthy_list o.next_inject_id)
accepted-branch_example =
    accepted-branch definition ransom "" (some "pay") playable (Memᴰ.head refl) refl pays

selects : Memᴰ "paid" (response_next_inject_ids definition "ransom" (some "pay"))
unfolding response_next_inject_ids iceberg_ttx.Scenario.Branch.option_target
selects = Memᴰ.head refl

next-playable_example :
    (m : InjectNode) × Memᴰ m definition.injects × (get_inject_node definition "paid" ≡ some m)
next-playable_example = next-playable definition "ransom" "paid" (some "pay") playable selects

abbrev waiting : InjectProgress
waiting = new_inject_progress note (some "red") 7

abbrev live : Db
live =
    database running (note ∷ paid ∷ [])
      (cursor (some "red") (some "ransom") ∷ cursor (some "blue") (some "ransom") ∷ [])
      (waiting ∷ [])

unfoldable answered : Bool × Db
answered =
    ok_or (false, live) (resolve_response_progression live note (some "red") 2 (some "paid") 500)

answered-ok :
    resolve_response_progression live note (some "red") 2 (some "paid") 500
    ≡ ok (answered.0, answered.1)
unfolding answered resolve_response_progression
answered-ok = refl

blue_not_red : ◌≢◌ {A = Option String} (some "blue") (some "red")
blue_not_red e = cc

resolve-isolation_example :
    cursor_of answered.1.progress.rows 1 (some "blue")
    ≡ cursor_of live.progress.rows 1 (some "blue")
resolve-isolation_example =
    resolve-isolation live note (some "red") (some "blue") (some "paid") 2 500 refl answered-ok
      blue_not_red

on : waiting.state ≢ resolved
on e = cc

resolve_context-moves_example :
    (c : ExerciseProgress) × (cursor_of
        (resolve_context live note (some "red") 2 (some "paid") 500 (some waiting)).1.progress.rows
        1
        (some "red")
      ≡ some c)
    × (c.current_node_id ≡ some "paid")
    × (c.current_inject_id ≡ some 1)
resolve_context-moves_example =
    resolve_context-moves live note (some "red") (some "paid") 2 500 waiting on refl
