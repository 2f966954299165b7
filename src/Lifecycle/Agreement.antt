-- ===== src/Lifecycle/Agreement.antt =====
-- The clocks of the source: the accumulator on the row, in the service and on the pages, and the walk over
-- the history.
use iceberg_ttx.Prelude.{
  ℕ, ◌≤◌, false, List, [], ◌∷◌, Option, none, some, ◌≡◌, ◌≢◌, refl, ap, ◌∙◌, arith, inl, inr, ltb,
  min, Option-cases, Bool-cases, ◌==◌, ==→≡, if◌then◌else◌,
}
use iceberg_ttx.Prelude.Int.{ℤ, pos, ◌+ℤ◌, ◌-ℤ◌, ◌≤ℤ◌, int_laws}
use iceberg_ttx.Prelude.Sort.{sorted-of_IsSorted}
use iceberg_ttx.Models.Enums.{active, paused, completed, exercise_state_eq}
use iceberg_ttx.Models.Exercise.{Exercise, ExerciseStateTransition}
use iceberg_ttx.Lifecycle.Clock.{
  PauseScan, no_pause, scan_one, scan_since, by_time, or_now, open_pause, at_least_zero,
  active_elapsed_since, effective_elapsed_seconds, reference_time, exercise_elapsed_seconds,
}
use iceberg_ttx.Lifecycle.Timeline.{scan_all, Before, After, accounted_until, IsTimeline}

-- No transition of the exercise stands before its start, so the walk skips none.
scan_since-eq :
    (s : ℕ) (sc : PauseScan) (h : List ExerciseStateTransition)
    → After s h
    → scan_since s sc h ≡ scan_all sc h
unfolding scan_since scan_all
scan_since-eq s sc [] a = refl
scan_since-eq s sc (t ∷ h) a =
    let no_skip : ltb t.transitioned_at s ≡ false = ground arith in
    rw no_skip (scan_since-eq s (scan_one sc t) h a.1)

-- A span that is not negative is what the maximum with zero keeps.
at_least_zero-eq : (c : ℤ) → pos 0 ≤ℤ c → at_least_zero c ≡ c
at_least_zero-eq c le = ground arith

-- With the pauses counted up to the end, the clock shows `r`.
span-eq :
    (s r end : ℕ) (acc pauses : ℤ)
    → pauses ≡ acc +ℤ (pos end -ℤ pos r)
    → acc +ℤ pos s ≤ℤ pos r
    → at_least_zero (pos end -ℤ pos s -ℤ pauses) ≡ pos r -ℤ pos s -ℤ acc
span-eq s r end acc pauses q le =
    let inner : pos end -ℤ pos s -ℤ pauses ≡ pos r -ℤ pos s -ℤ acc = rw q (omega int_laws) in
    rw inner (at_least_zero-eq (pos r -ℤ pos s -ℤ acc) (omega int_laws))

open_pause-eq : (o : Option ℕ) (end : ℕ) → open_pause o end ≡ pos end -ℤ pos (or_now o end)
open_pause-eq none end = omega int_laws
open_pause-eq (some p) end = refl

min_self : (n : ℕ) → min n n ≡ n
min_self n = omega arith

min_first : (n m : ℕ) → n ≤ m → min n m ≡ n
min_first n m le = omega arith

-- The pause that a completion left in `paused_at`.
abbrev pub kept_pause : Exercise → ℤ
kept_pause e = if e.state == completed then open_pause e.paused_at (or_now e.ended_at 0) else pos 0

module _ (e : Exercise) (h : List ExerciseStateTransition) (s now : ℕ) (line : IsTimeline e h)
    (started : e.started_at ≡ some s) (later : Before now h) where
  abbrev scan : PauseScan
  scan = scan_all no_pause h

  abbrev end : ℕ
  end = min (or_now e.ended_at now) now

  -- What the history counts as paused up to the end.
  pauses-on :
      e.state ≢ completed
      → scan.paused_seconds +ℤ open_pause scan.pause_started end
        ≡ e.accumulated_pause_seconds +ℤ (pos end -ℤ pos (accounted_until e now))
  pauses-on on =
      let running : e.ended_at ≡ none = ground (arith, line.ended) in
      rw (← line.closed on, ← line.still_open on, running, min_self now)
        (ap (λ x. e.accumulated_pause_seconds +ℤ x) (open_pause-eq e.paused_at now))

  pauses-over :
      (x : ℕ)
      → e.state ≡ completed
      → e.ended_at ≡ some x
      → scan.paused_seconds +ℤ open_pause scan.pause_started end
        ≡ e.accumulated_pause_seconds +ℤ (pos end -ℤ pos (accounted_until e now))
  pauses-over x over stop =
      let counted = rw stop at (line.total over) in
      rw
        (
          line.settled over,
          counted,
          stop,
          min_first x now (line.ended_last x now stop later),
          open_pause-eq e.paused_at x,
        )
        (omega int_laws)

  pauses-eq :
      scan.paused_seconds +ℤ open_pause scan.pause_started end
      ≡ e.accumulated_pause_seconds +ℤ (pos end -ℤ pos (accounted_until e now))
  pauses-eq = elim (Option-cases e.ended_at) [
    | inl running ↦ pauses-on (λ over. ground (arith, line.ended))
    | inr (x, stop) ↦ pauses-over x (ground (arith, line.ended)) stop
  ]

  walk-eq :
      active_elapsed_since e s h now
      ≡ pos (accounted_until e now) -ℤ pos s -ℤ e.accumulated_pause_seconds
  unfolding active_elapsed_since
  walk-eq =
      rw
        (
          sorted-of_IsSorted by_time h line.ordered,
          scan_since-eq s no_pause h (line.since s started),
        )
        (span-eq s (accounted_until e now) end e.accumulated_pause_seconds _ pauses-eq
          (line.fits s now started later))

  reference-over :
      e.state ≡ completed
      → (pos (reference_time e now) ≡ pos (accounted_until e now) +ℤ kept_pause e)
        × (pos 0 ≤ℤ kept_pause e)
  reference-over over = elim (Option-cases e.ended_at) [
    | inl running ↦ absurd (ground (arith, line.ended))
    | inr (x, stop) ↦ elim (Option-cases e.paused_at) [
      | inl unpaused ↦ rw (over, stop, unpaused) (omega int_laws, omega int_laws)
      | inr (p, kept) ↦
          let before = line.pause_ended p x kept stop in
          rw (over, stop, kept) (omega int_laws, omega (int_laws, before))
    ]
  ]

  reference-on :
      e.state ≢ completed
      → (pos (reference_time e now) ≡ pos (accounted_until e now) +ℤ kept_pause e)
        × (pos 0 ≤ℤ kept_pause e)
  reference-on on =
      let running : e.ended_at ≡ none = ground (arith, line.ended) in
      let f : (e.state == completed) ≡ false = ground arith in
      elim (Bool-cases (e.state == paused)) [
        | inl held ↦ rw (held, f, running) (omega int_laws, omega int_laws)
        | inr up ↦
            let unpaused : e.paused_at ≡ none = ground (arith, line.while_paused on) in
            rw (up, f, running, unpaused) (omega int_laws, omega int_laws)
      ]

  reference-eq :
      (pos (reference_time e now) ≡ pos (accounted_until e now) +ℤ kept_pause e)
      × (pos 0 ≤ℤ kept_pause e)
  reference-eq = elim (Bool-cases (e.state == completed)) [
    | inl over ↦ reference-over (==→≡ e.state completed over)
    | inr on ↦ reference-on (λ over. ground arith)
  ]

  -- For a started exercise whose times fit its history, at a time not before that history, the
  -- clock that the pages show is the walk over the history since the start, plus, on a completed
  -- row, the pause up to the end that `paused_at` still keeps, if it keeps one.
  pub clocks_agree :
      exercise_elapsed_seconds e now ≡ some (active_elapsed_since e s h now +ℤ kept_pause e)
  unfolding exercise_elapsed_seconds active_elapsed_since
  clocks_agree =
      let fits = line.fits s now started later in
      let (same, positive) = reference-eq in
      let inner : pos (reference_time e now) -ℤ pos s -ℤ e.accumulated_pause_seconds
          ≡ active_elapsed_since e s h now +ℤ kept_pause e =
        rw (same, walk-eq) (omega int_laws) in
      rw started (
        ap some (
          at_least_zero-eq (pos (reference_time e now) -ℤ pos s -ℤ e.accumulated_pause_seconds)
            (rw same (omega (int_laws, fits, positive)))
          ∙ inner))

  -- For an active exercise whose times fit its history, at a time not before that history, the
  -- walk over the history since the start gives the elapsed seconds that the accumulator gives.
  pub running_time :
      e.state ≡ active → active_elapsed_since e s h now ≡ effective_elapsed_seconds e now
  unfolding effective_elapsed_seconds
  running_time up =
      let on : e.state ≢ completed = λ over. ground arith in
      let running : e.ended_at ≡ none = ground (arith, line.ended) in
      let unpaused : e.paused_at ≡ none = ground (arith, line.while_paused on) in
      walk-eq ∙ rw (started, running, unpaused)
