-- ===== src/Lifecycle/Timeline.antt =====
-- The stored times of an exercise against its transition history: the invariant.
pub mod Moves
use iceberg_ttx.Prelude.{
  ℕ, ◌≤◌, ◌<◌, ◌+◌, Bool, true, false, not, ◌&&◌, List, [], ◌∷◌, ◌++◌, Option, none, some, ◌≡◌, ◌≢◌,
  ◌⊎◌, refl, sym, ◌∙◌, arith, inl, inr, Option-cases, ◌==◌, ==→≡, ltb, leb, is_some, All,
  All-append, Bool-cases, if◌then◌else◌,
}
use iceberg_ttx.Prelude.Int.{
  ℤ, pos, ◌+ℤ◌, ◌-ℤ◌, ◌≤ℤ◌, pos_part, neg_part, +ℤ_parts, -ℤ_parts, eq_of_parts, int_laws,
}
use iceberg_ttx.Prelude.Sort.{IsSorted}
use iceberg_ttx.Models.Enums.{ExerciseState, draft, active, paused, completed, exercise_state_eq}
use iceberg_ttx.Models.Exercise.{Exercise, ExerciseStateTransition}
use iceberg_ttx.Lifecycle.States.{Step, Step-cases}
use iceberg_ttx.Lifecycle.Transition.{apply_values, resumed}
use iceberg_ttx.Lifecycle.Clock.{PauseScan, no_pause, scan_one, by_time, open_pause, or_now}

-- The state after a history, and its pauses: closed ones in sum, and the one that is open.
pub last_state : ExerciseState → List ExerciseStateTransition → ExerciseState
last_state s [] = s
last_state s (t ∷ ts) = last_state t.to_state ts

unfoldable pub scan_all : PauseScan → List ExerciseStateTransition → PauseScan
scan_all s [] = s
scan_all s (t ∷ ts) = scan_all (scan_one s t) ts

pub last_state-snoc :
    (s : ExerciseState) (h : List ExerciseStateTransition) (t : ExerciseStateTransition)
    → last_state s (h ++ t ∷ []) ≡ t.to_state
unfolding last_state
last_state-snoc s [] t = refl
last_state-snoc s (u ∷ h) t = last_state-snoc u.to_state h t

pub scan_all-snoc :
    (s : PauseScan) (h : List ExerciseStateTransition) (t : ExerciseStateTransition)
    → scan_all s (h ++ t ∷ []) ≡ scan_one (scan_all s h) t
unfolding scan_all
scan_all-snoc s [] t = refl
scan_all-snoc s (u ∷ h) t = scan_all-snoc (scan_one s u) h t

abbrev pub Before : ℕ → List ExerciseStateTransition → Type 0
Before m h = All (λ t. t.transitioned_at ≤ m) h

abbrev pub After : ℕ → List ExerciseStateTransition → Type 0
After m h = All (λ t. m ≤ t.transitioned_at) h

-- Up to this time the accumulator has taken in every pause: the start of the pause that the row keeps,
-- else the end, else now. A row that was completed while paused keeps that pause.
abbrev pub accounted_until : Exercise → ℕ → ℕ
accounted_until e now = or_now e.paused_at (or_now e.ended_at now)

pub record IsTimeline (e : Exercise) (h : List ExerciseStateTransition) : Type 0 where
  -- The history ends in the state of the row, and its times do not go back.
  pub ends : last_state draft h ≡ e.state
  pub ordered : IsSorted by_time h
  -- The start is recorded from the first activation on, the end at completion.
  pub started : is_some e.started_at ≡ not (e.state == draft)
  pub ended : is_some e.ended_at ≡ (e.state == completed)
  pub since : (s : ℕ) → e.started_at ≡ some s → After s h
  pub drafted : e.state ≡ draft → h ≡ []
  pub start_first : (s m : ℕ) → e.started_at ≡ some s → Before m h → s ≤ m
  -- Until completion the accumulator is the sum of the closed pauses of the history.
  pub closed :
      e.state ≢ completed → e.accumulated_pause_seconds ≡ (scan_all no_pause h).paused_seconds
  -- At completion the history closes the pause that was open; the row keeps it in `paused_at`, and the
  -- accumulator lacks it.
  pub total :
      e.state ≡ completed
      → (scan_all no_pause h).paused_seconds
        ≡ e.accumulated_pause_seconds +ℤ open_pause e.paused_at (or_now e.ended_at 0)
  pub settled : e.state ≡ completed → (scan_all no_pause h).pause_started ≡ none
  -- Until completion `paused_at` is the open pause of the history: there is one while paused.
  pub still_open : e.state ≢ completed → e.paused_at ≡ (scan_all no_pause h).pause_started
  pub while_paused : e.state ≢ completed → is_some e.paused_at ≡ (e.state == paused)
  -- The pause that the row keeps began within the history, and before its end.
  pub pause_kept : (p m : ℕ) → e.paused_at ≡ some p → Before m h → p ≤ m
  pub pause_ended : (p x : ℕ) → e.paused_at ≡ some p → e.ended_at ≡ some x → p ≤ x
  pub ended_last : (x m : ℕ) → e.ended_at ≡ some x → Before m h → x ≤ m
  -- The closed pauses fit between the start and that time.
  pub fits :
      (s m : ℕ)
      → e.started_at ≡ some s
      → Before m h
      → e.accumulated_pause_seconds +ℤ pos s ≤ℤ pos (accounted_until e m)

pub IsSorted-snoc :
    (h : List ExerciseStateTransition) (t : ExerciseStateTransition)
    → IsSorted by_time h
    → Before t.transitioned_at h
    → IsSorted by_time (h ++ t ∷ [])
IsSorted-snoc [] t s b = (tt, tt)
IsSorted-snoc (u ∷ h) t s b =
    (All-append _ h (t ∷ []) s.0 (ground arith, tt), IsSorted-snoc h t s.1 b.1)

pub Before-snoc :
    {m : ℕ} (h : List ExerciseStateTransition) (t : ExerciseStateTransition)
    → Before m (h ++ t ∷ [])
    → Before m h × (t.transitioned_at ≤ m)
Before-snoc [] t b = (tt, b.0)
Before-snoc (u ∷ h) t b = let r = Before-snoc h t b.1 in ((b.0, r.0), r.1)

-- A draft has no history yet.
pub IsTimeline-draft :
    (e : Exercise)
    → e.state ≡ draft
    → e.started_at ≡ none
    → e.ended_at ≡ none
    → e.paused_at ≡ none
    → e.accumulated_pause_seconds ≡ pos 0
    → IsTimeline e []
unfolding last_state scan_all
IsTimeline-draft e st sa ea pa acc = record {
  ends = sym st;
  ordered = tt;
  started = rw (sa, st);
  ended = rw (ea, st);
  since = λ s h. tt;
  drafted = λ q. refl;
  start_first = λ s m q. cc (rw sa at q);
  closed = λ ne. acc;
  total = λ q. cc (rw st at q);
  settled = λ q. refl;
  still_open = λ ne. pa;
  while_paused = λ ne. rw (pa, st);
  pause_kept = λ p m q. cc (rw pa at q);
  pause_ended = λ p x q. cc (rw pa at q);
  ended_last = λ x m q. cc (rw ea at q);
  fits = λ s m q. cc (rw sa at q);
}
