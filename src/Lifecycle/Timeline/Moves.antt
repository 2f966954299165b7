-- ===== src/Lifecycle/Timeline/Moves.antt =====
-- `apply_values` keeps the timeline.
use iceberg_ttx.Prelude.{
  ℕ, ◌≤◌, not, List, [], ◌∷◌, ◌++◌, none, some, ◌≡◌, ◌≢◌, ◌⊎◌, refl, ◌∙◌, arith, inl, inr,
  Option-cases, ◌==◌, ==→≡, is_some, All-append, Bool-cases,
}
use iceberg_ttx.Prelude.Int.{pos, ◌+ℤ◌, ◌-ℤ◌, ◌≤ℤ◌, int_laws}
use iceberg_ttx.Models.Enums.{draft, active, paused, completed, exercise_state_eq}
use iceberg_ttx.Models.Exercise.{Exercise, ExerciseStateTransition}
use iceberg_ttx.Lifecycle.States.{Step, Step-cases}
use iceberg_ttx.Lifecycle.Transition.{apply_values}
use iceberg_ttx.Lifecycle.Clock.{no_pause, scan_one, open_pause, or_now}
use iceberg_ttx.Lifecycle.Timeline.{
  last_state, scan_all, last_state-snoc, scan_all-snoc, Before, After, accounted_until, IsTimeline,
  IsSorted-snoc, Before-snoc,
}

-- One step of a lifecycle, on a row that nobody else has changed since it was loaded.
module _ (e : Exercise) (h : List ExerciseStateTransition) (t : ExerciseStateTransition)
    (step : Step e.state t.to_state) (from : t.from_state ≡ e.state) (line : IsTimeline e h)
    (later : Before t.transitioned_at h) where
  abbrev moved : Exercise
  moved = apply_values e t.to_state t.transitioned_at e

  not_completed : e.state ≢ completed
  not_completed q = ground (arith, Step-cases step)

  moved-ends : last_state draft (h ++ t ∷ []) ≡ moved.state
  unfolding apply_values
  moved-ends = last_state-snoc draft h t

  moved-started : is_some moved.started_at ≡ not (moved.state == draft)
  unfolding apply_values
  moved-started = ground (arith, Step-cases step, line.started)

  moved-ended : is_some moved.ended_at ≡ (moved.state == completed)
  unfolding apply_values
  moved-ended = ground (arith, Step-cases step, line.ended)

  moved-closed :
      moved.state ≢ completed
      → moved.accumulated_pause_seconds ≡ (scan_all no_pause (h ++ t ∷ [])).paused_seconds
  unfolding apply_values scan_one
  moved-closed ne = rw (scan_all-snoc no_pause h t) (
      ground (
        arith,
        Step-cases step,
        line.closed not_completed,
        line.still_open not_completed,
        line.while_paused not_completed,
      ))

  moved-still_open :
      moved.state ≢ completed → moved.paused_at ≡ (scan_all no_pause (h ++ t ∷ [])).pause_started
  unfolding apply_values scan_one
  moved-still_open ne = rw (scan_all-snoc no_pause h t) (
      ground
        (arith, Step-cases step, line.still_open not_completed, line.while_paused not_completed))

  moved-while_paused : moved.state ≢ completed → is_some moved.paused_at ≡ (moved.state == paused)
  unfolding apply_values
  moved-while_paused ne = ground (arith, Step-cases step, line.while_paused not_completed)

  moved-total :
      moved.state ≡ completed
      → (scan_all no_pause (h ++ t ∷ [])).paused_seconds
        ≡ moved.accumulated_pause_seconds +ℤ open_pause moved.paused_at (or_now moved.ended_at 0)
  unfolding apply_values scan_one ◌+ℤ◌ ◌-ℤ◌
  moved-total q = rw (scan_all-snoc no_pause h t) (
      ground (
        arith,
        Step-cases step,
        line.closed not_completed,
        line.still_open not_completed,
        line.while_paused not_completed,
      ))

  moved-settled : moved.state ≡ completed → (scan_all no_pause (h ++ t ∷ [])).pause_started ≡ none
  unfolding apply_values scan_one
  moved-settled q = rw (scan_all-snoc no_pause h t) (
      ground
        (arith, Step-cases step, line.still_open not_completed, line.while_paused not_completed))

  -- A first start, on an empty history, or a start that is kept.
  started-cases :
      (s : ℕ)
      → moved.started_at ≡ some s
      → ((h ≡ []) × (e.state ≡ draft) × (s ≡ t.transitioned_at)) ⊎ (e.started_at ≡ some s)
  unfolding apply_values
  started-cases s q = elim (Step-cases step) [
    | inl (a, b) ↦ inl (line.drafted a, a, ground (arith, line.started))
    | inr other ↦ inr (ground (arith, line.started))
  ]

  moved-since : (s : ℕ) → moved.started_at ≡ some s → After s (h ++ t ∷ [])
  moved-since s q = elim (started-cases s q) [
    | inl (nil, _, first) ↦ rw nil (omega arith, tt)
    | inr kept ↦
        All-append _ h (t ∷ []) (line.since s kept)
          (line.start_first s t.transitioned_at kept later, tt)
  ]

  moved-start_first : (s m : ℕ) → moved.started_at ≡ some s → Before m (h ++ t ∷ []) → s ≤ m
  moved-start_first s m q b =
      let (_, last) = Before-snoc h t b in
      elim (started-cases s q) [
        | inl (_, _, first) ↦ omega arith
        | inr kept ↦ omega (arith, line.start_first s t.transitioned_at kept later)
      ]

  moved-ended_last : (x m : ℕ) → moved.ended_at ≡ some x → Before m (h ++ t ∷ []) → x ≤ m
  unfolding apply_values
  moved-ended_last x m q b =
      let (_, last) = Before-snoc h t b in ground (arith, Step-cases step, line.ended)

  moved-pause_kept : (p m : ℕ) → moved.paused_at ≡ some p → Before m (h ++ t ∷ []) → p ≤ m
  unfolding apply_values
  moved-pause_kept p m q b =
      let (_, last) = Before-snoc h t b in
      elim (Step-cases step) [
        | inl (a, b) ↦ ground (arith, line.while_paused not_completed)
        | inr other ↦ ground (
          arith,
          other,
          line.pause_kept p t.transitioned_at,
          later,
          line.while_paused not_completed,
        )
      ]

  moved-pause_ended : (p x : ℕ) → moved.paused_at ≡ some p → moved.ended_at ≡ some x → p ≤ x
  unfolding apply_values
  moved-pause_ended p x q stop = elim (Bool-cases (t.to_state == completed)) [
    | inr on ↦ ground (arith, line.ended, not_completed)
    | inl over ↦
        let kept : e.paused_at ≡ some p = ground arith in
        let at_step : x ≡ t.transitioned_at = ground arith in
        rw at_step (line.pause_kept p t.transitioned_at kept later)
  ]

  -- Up to a step that does not run the clock again, the clock shows what it showed at the step.
  accounted_until-stays :
      (m : ℕ) → t.to_state ≢ active → accounted_until moved m ≡ accounted_until e t.transitioned_at
  unfolding apply_values
  accounted_until-stays m ne =
      ground (arith, Step-cases step, line.while_paused not_completed, line.ended)

  accounted_until-runs : (m : ℕ) → t.to_state ≡ active → accounted_until moved m ≡ m
  unfolding apply_values
  accounted_until-runs m up =
      ground (arith, Step-cases step, line.while_paused not_completed, line.ended)

  -- On a step back to active the accumulator takes in the pause; on a start there is none.
  runs-fits :
      (s m : ℕ)
      → t.to_state ≡ active
      → moved.started_at ≡ some s
      → t.transitioned_at ≤ m
      → moved.accumulated_pause_seconds +ℤ pos s ≤ℤ pos m
  runs-fits s m up q last = elim (started-cases s q) [
    | inl (nil, fresh, first) ↦
        let zero_acc : e.accumulated_pause_seconds ≡ pos 0 =
          line.closed not_completed ∙ rw nil (unfold scan_all in refl) in
        let kept : moved.accumulated_pause_seconds ≡ pos 0 =
          unfold apply_values in
          ground (arith, zero_acc, rw fresh at (line.while_paused not_completed)) in
        rw kept (omega int_laws)
    | inr kept_start ↦ elim (Option-cases e.paused_at) [
      | inl not_open ↦
          absurd (ground (arith, Step-cases step, line.while_paused not_completed, line.started))
      | inr (p, paused_p) ↦
          let before = rw paused_p at (line.fits s t.transitioned_at kept_start later) in
          unfold apply_values in rw (up, paused_p) (omega int_laws)
    ]
  ]

  moved-fits :
      (s m : ℕ)
      → moved.started_at ≡ some s
      → Before m (h ++ t ∷ [])
      → moved.accumulated_pause_seconds +ℤ pos s ≤ℤ pos (accounted_until moved m)
  moved-fits s m q b =
      let (before, last) = Before-snoc h t b in
      elim (Bool-cases (t.to_state == active)) [
        | inl up ↦
            let up' = ==→≡ t.to_state active up in
            rw (accounted_until-runs m up') (runs-fits s m up' q last)
        | inr down ↦
            let stays : t.to_state ≢ active = λ up. ground arith in
            let kept : moved.accumulated_pause_seconds ≡ e.accumulated_pause_seconds =
              unfold apply_values in rw down in
            let kept_start : e.started_at ≡ some s = unfold apply_values in rw down at q in
            rw (accounted_until-stays m stays, kept)
              (line.fits s t.transitioned_at kept_start later)
      ]

  -- The row that the update writes is on the history with the new transition.
  pub moved-IsTimeline : IsTimeline moved (h ++ t ∷ [])
  moved-IsTimeline = record {
    ends = moved-ends;
    ordered = IsSorted-snoc h t line.ordered later;
    started = moved-started;
    ended = moved-ended;
    since = moved-since;
    drafted = λ q. absurd (unfold apply_values in ground (arith, Step-cases step));
    start_first = moved-start_first;
    closed = moved-closed;
    total = moved-total;
    settled = moved-settled;
    still_open = moved-still_open;
    while_paused = moved-while_paused;
    pause_kept = moved-pause_kept;
    pause_ended = moved-pause_ended;
    ended_last = moved-ended_last;
    fits = moved-fits;
  }
