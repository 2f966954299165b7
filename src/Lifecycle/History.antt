-- ===== src/Lifecycle/History.antt =====
-- A request on the database: the timeline of its exercise, and the requests that lose.
use iceberg_ttx.Prelude.{
  ℕ, String, true, ◌&&◌, List, [], ◌∷◌, ◌++◌, Option, none, some, ◌≡◌, ◌≢◌, sym, ◌∙◌, ap, subst,
  some_inj, refl, inl, inr, ◌==◌, ==→≡, ==_refl, nat_eq, find, select, contains, Bool-cases,
  Option-cases, find-and, select-append,
}
use iceberg_ttx.Errors.{ok, err, >>=-eq-ok, state_changed}
use iceberg_ttx.Models.Enums.{ExerciseState, draft, active, completed, exercise_state_eq}
use iceberg_ttx.Models.Exercise.{Exercise, ExerciseStateTransition}
use iceberg_ttx.Models.Database.{Db, get_exercise, transitions_of}
use iceberg_ttx.Launch.Content.{External}
use iceberg_ttx.Launch.Freeze.{freeze_launch_configuration, freeze_row}
use iceberg_ttx.Launch.Frozen.{Freezes, freeze_launch_configuration-Freezes}
use iceberg_ttx.Lifecycle.States.{valid_transitions, Step}
use iceberg_ttx.Prelude.Int.{pos, ◌+ℤ◌, ◌-ℤ◌, int_laws}
use iceberg_ttx.Lifecycle.Transition.{
  apply_values, swaps, compare_and_swap, transition_state_with_history,
}
use iceberg_ttx.Lifecycle.Clock.{no_pause}
use iceberg_ttx.Lifecycle.Timeline.{Before, IsTimeline, scan_all}
use iceberg_ttx.Lifecycle.Timeline.Moves.{moved-IsTimeline}
use iceberg_ttx.Lifecycle.Outcome.{HasKeys, compare_and_swap-Commits}

-- A request on the current row.
compare_and_swap-IsTimeline :
    (db : Db) (e : Exercise) (new_state : ExerciseState) (actor_id : Option ℕ) (now : ℕ)
    {updated : Exercise} {db' : Db}
    → HasKeys db
    → get_exercise db e.id ≡ some e
    → IsTimeline e (transitions_of db e.id)
    → Before now (transitions_of db e.id)
    → compare_and_swap db e new_state actor_id now ≡ ok (updated, db')
    → IsTimeline updated (transitions_of db' e.id)
compare_and_swap-IsTimeline db e new_state actor_id now {updated} {db'} keys current line later h =
    let c = compare_and_swap-Commits db e new_state actor_id now updated db' keys h in
    let same : c.row ≡ e = some_inj (sym c.current ∙ current) in
    let t : ExerciseStateTransition = record {
      id = db.transitions.next_id;
      exercise_id = e.id;
      from_state = c.row.state;
      to_state = new_state;
      actor_id = some c.actor;
      transitioned_at = now;
    } in
    let appended : transitions_of db' e.id ≡ transitions_of db e.id ++ t ∷ [] =
      ap (λ rows. select (λ (x : ExerciseStateTransition). x.exercise_id == e.id) rows) c.history
      ∙ select-append (λ (x : ExerciseStateTransition). x.exercise_id == e.id) db.transitions.rows
          (t ∷ [])
      ∙ rw (==_refl e.id) in
    let written : updated ≡ apply_values e new_state now e = c.applied ∙ rw same in
    rw (written, appended)
      (moved-IsTimeline e (transitions_of db e.id) t
        (subst (λ (x : Exercise). Step x.state new_state) same c.step)
        (ap (λ (x : Exercise). x.state) same) line later)

-- Freezing the launch configuration keeps the times.
freeze_row-IsTimeline :
    (digest : String) (e : Exercise) (h : List ExerciseStateTransition)
    → IsTimeline e h
    → IsTimeline (freeze_row digest e) h
freeze_row-IsTimeline digest e h line = record {
  ends = line.ends;
  ordered = line.ordered;
  started = line.started;
  ended = line.ended;
  since = line.since;
  drafted = line.drafted;
  start_first = line.start_first;
  closed = line.closed;
  total = line.total;
  settled = line.settled;
  still_open = line.still_open;
  while_paused = line.while_paused;
  pause_kept = line.pause_kept;
  pause_ended = line.pause_ended;
  ended_last = line.ended_last;
  fits = line.fits;
}

module _ (db : Db) (e : Exercise) (frozen : Exercise) (frozen_db : Db) (keys : HasKeys db)
    (current : get_exercise db e.id ≡ some e) (f : Freezes db frozen_db e frozen) where
  frozen-eq : frozen ≡ freeze_row f.digest e
  frozen-eq = f.stamped ∙ ap (freeze_row f.digest) (some_inj (sym f.current ∙ current))

  frozen-id : frozen.id ≡ e.id
  frozen-id = ap (λ (x : Exercise). x.id) frozen-eq

  frozen-current : get_exercise frozen_db frozen.id ≡ some frozen
  frozen-current =
      let same : f.row ≡ e = some_inj (sym f.current ∙ current) in
      rw frozen-id (f.exercises e.id ∙ rw (current, same, frozen-eq) (rw (==_refl e.id)))

  frozen-HasKeys : HasKeys frozen_db
  frozen-HasKeys = rw f.keys keys

  frozen-transitions : transitions_of frozen_db frozen.id ≡ transitions_of db e.id
  frozen-transitions = rw (f.transitions, frozen-id)

-- A request that goes through on the current row of an exercise, whose stored times fit its
-- history, at a time not before that history, leaves times on the returned row that fit the
-- history with the new transition: the states, the start, the end, and until completion the open
-- pause, and the accumulator as the sum of the closed pauses. On a completed row that sum is the
-- accumulator plus the pause up to the end that `paused_at` still keeps, if it keeps one. The
-- identifiers of the exercises are distinct.
pub transition-IsTimeline :
    (ext : External) (db : Db) (e : Exercise) (new_state : ExerciseState) (actor_id : Option ℕ)
    (now : ℕ) {updated : Exercise} {db' : Db}
    → HasKeys db
    → get_exercise db e.id ≡ some e
    → IsTimeline e (transitions_of db e.id)
    → Before now (transitions_of db e.id)
    → transition_state_with_history ext db e new_state actor_id now ≡ ok (updated, db')
    → IsTimeline updated (transitions_of db' e.id)
unfolding transition_state_with_history
transition-IsTimeline ext db e new_state actor_id now {updated} {db'} keys current line later h =
    elim (Bool-cases (e.state == draft && new_state == active)) [
      | inr other ↦
          compare_and_swap-IsTimeline db e new_state actor_id now keys current line later
            (rw other at h)
      | inl launch ↦
          let ((frozen, frozen_db), froze, h₁) =
            >>=-eq-ok (freeze_launch_configuration ext db e) _ (rw launch at h) in
          let f = freeze_launch_configuration-Freezes ext db e froze in
          let same_id = frozen-id db e frozen frozen_db keys current f in
          let same_history = frozen-transitions db e frozen frozen_db keys current f in
          let frozen_line : IsTimeline frozen (transitions_of frozen_db frozen.id) =
            rw (same_history, frozen-eq db e frozen frozen_db keys current f)
              (freeze_row-IsTimeline f.digest e _ line) in
          let result =
            compare_and_swap-IsTimeline frozen_db frozen new_state actor_id now
              (frozen-HasKeys db e frozen frozen_db keys current f)
              (frozen-current db e frozen frozen_db keys current f) frozen_line
              (rw same_history later) h₁ in
          rw same_id at result
    ]

-- A completion of a paused exercise, on the current row whose stored times fit its history, leaves
-- the pause in `paused_at`, and the accumulator short of the closed pauses of the history by that
-- pause. The identifiers of the exercises are distinct.
pub completed_while_paused :
    (db : Db) (e : Exercise) (actor_id : Option ℕ) (now p : ℕ) {updated : Exercise} {db' : Db}
    → HasKeys db
    → get_exercise db e.id ≡ some e
    → IsTimeline e (transitions_of db e.id)
    → Before now (transitions_of db e.id)
    → e.paused_at ≡ some p
    → compare_and_swap db e completed actor_id now ≡ ok (updated, db')
    → (updated.state ≡ completed)
      × (updated.paused_at ≡ some p)
      × ((scan_all no_pause (transitions_of db' e.id)).paused_seconds
          ≡ updated.accumulated_pause_seconds +ℤ (pos now -ℤ pos p))
unfolding apply_values
completed_while_paused db e actor_id now p {updated} {db'} keys current line later open_since h =
    let c = compare_and_swap-Commits db e completed actor_id now updated db' keys h in
    let same : c.row ≡ e = some_inj (sym c.current ∙ current) in
    let written : updated ≡ apply_values e completed now e = c.applied ∙ rw same in
    let after = compare_and_swap-IsTimeline db e completed actor_id now keys current line later h in
    let over : updated.state ≡ completed = rw written refl in
    let kept : updated.paused_at ≡ some p = rw written open_since in
    let stop : updated.ended_at ≡ some now = rw written refl in
    (over, kept, rw (kept, stop) at (after.total over))

-- A request for a valid step from the state it observed, when the current row has another state,
-- answers with the conflict that names both states. The identifiers of the exercises are distinct.
pub overtaken :
    (db : Db) (observed row : Exercise) (new_state : ExerciseState) (actor_id : Option ℕ) (now : ℕ)
    → HasKeys db
    → get_exercise db observed.id ≡ some row
    → row.state ≢ observed.state
    → contains new_state (valid_transitions observed.state) ≡ true
    → compare_and_swap db observed new_state actor_id now
      ≡ err (state_changed observed.state row.state)
unfolding compare_and_swap
overtaken db observed row new_state actor_id now keys current moved valid =
    let lost : find (swaps observed) db.exercises.rows ≡ none =
      elim (Option-cases (find (swaps observed) db.exercises.rows)) [
        | inl gone ↦ gone
        | inr (x, found) ↦
            let (at_key, same) =
              find-and (λ (e : Exercise). e.id) observed.id (λ e. e.state == observed.state)
                db.exercises.rows keys found in
            let same_row : x ≡ row = some_inj (sym at_key ∙ current) in
            absurd (moved (rw (← same_row) (==→≡ x.state observed.state same)))
      ] in
    rw (valid, lost) (rw current)

-- A resume that goes through on a request that saw a pause since `seen`, while the current row is
-- in a pause since `current`, stores an accumulator that is off the row's own total by the
-- difference of the accumulators and of the two starts of the pause. The identifiers of the
-- exercises are distinct.
pub stale_resume :
    (db : Db) (observed row : Exercise) (actor_id : Option ℕ) (now seen current : ℕ)
    {updated : Exercise} {db' : Db}
    → HasKeys db
    → get_exercise db observed.id ≡ some row
    → observed.paused_at ≡ some seen
    → row.paused_at ≡ some current
    → compare_and_swap db observed active actor_id now ≡ ok (updated, db')
    → updated.accumulated_pause_seconds
        -ℤ (row.accumulated_pause_seconds +ℤ (pos now -ℤ pos current))
      ≡ (observed.accumulated_pause_seconds -ℤ row.accumulated_pause_seconds)
        +ℤ (pos current -ℤ pos seen)
unfolding apply_values
stale_resume db observed row actor_id now seen current {updated} {db'} keys found p₁ p₂ h =
    let c = compare_and_swap-Commits db observed active actor_id now updated db' keys h in
    rw (c.applied, p₁) (omega int_laws)
