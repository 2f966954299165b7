-- ===== src/Progression/Isolation.antt =====
-- A response moves the cursor of its own context, and no other.
use iceberg_ttx.Prelude.{
  ℕ, String, Bool, false, Option, none, some, ◌≡◌, ◌≢◌, refl, sym, ◌∙◌, ap, arith, inl, inr, ◌==◌,
  nat_eq, string_eq, option_eq, is_none, Bool-cases,
}
use iceberg_ttx.Errors.{ok, ok-injective}
use iceberg_ttx.Models.Enums.{resolved, inject_state_eq}
use iceberg_ttx.Models.Exercise.{ExerciseProgress}
use iceberg_ttx.Models.Inject.{Inject, InjectProgress}
use iceberg_ttx.Models.Database.{Db, get_inject, update_rows}
use iceberg_ttx.Progression.Cursor.{of_inject, seed_inject_resolution_contexts}
use iceberg_ttx.Progression.Resolve.{
  resolve_context, resolve_response_progression, context_of, close_inject, is_complete, resolve_row,
}
use iceberg_ttx.Progression.Advance.{cursor_of, advance_cursor-other, advance_cursor-own}

close_inject-progress :
    (db : Db) (inject : Inject) (actor_id now : ℕ)
    → (close_inject db inject actor_id now).progress ≡ db.progress
unfolding close_inject
close_inject-progress db inject actor_id now =
    elim (Bool-cases (is_complete db.inject_progress.rows inject.id)) [
      | inl t ↦ rw t refl
      | inr f ↦ rw f refl
    ]

resolve_context-other :
    (db : Db) (inject : Inject) (context group_id next_node_id : Option String) (actor_id now : ℕ)
    (row : Option InjectProgress)
    → group_id ≢ context
    → cursor_of
        (resolve_context db inject context actor_id next_node_id now row).1.progress.rows
        inject.exercise_id
        group_id
      ≡ cursor_of db.progress.rows inject.exercise_id group_id
unfolding resolve_context
resolve_context-other db inject context group_id next_node_id actor_id now none ne = refl
resolve_context-other db inject context group_id next_node_id actor_id now (some row) ne =
    let marked = record db {
      inject_progress =
          update_rows (of_inject inject.id context) (resolve_row actor_id now) db.inject_progress;
    } in
    let same = close_inject-progress marked inject actor_id now in
    elim (Bool-cases (row.state == resolved)) [
      | inl over ↦ rw over refl
      | inr on ↦ elim (Bool-cases (is_none inject.scenario_node_id)) [
        | inl adhoc ↦ rw (on, adhoc) (rw same refl)
        | inr node ↦
            rw (on, node)
              (rw same (
                advance_cursor-other db.progress inject context group_id next_node_id actor_id now
                  ne))
      ]
    ]

-- A response whose progression goes through leaves the cursor of every context of the exercise
-- other than its own (its group, or that of the inject) where it was.
pub resolve-isolation :
    (db : Db) (inject : Inject) (group_id other next_node_id : Option String) (actor_id now : ℕ)
    {locked : Inject} {advanced : Bool} {db' : Db}
    → get_inject db inject.id ≡ some locked
    → resolve_response_progression db inject group_id actor_id next_node_id now ≡ ok (advanced, db')
    → other ≢ context_of group_id locked.group_id
    → cursor_of db'.progress.rows locked.exercise_id other
      ≡ cursor_of db.progress.rows locked.exercise_id other
unfolding resolve_response_progression seed_inject_resolution_contexts
resolve-isolation db inject group_id other next_node_id actor_id now {locked} {advanced} {db'} found
      h ne =
    let result = ok-injective (rw found at h) in
    ap (λ (x : Bool × Db). cursor_of x.1.progress.rows locked.exercise_id other) (sym result)
    ∙ resolve_context-other _ locked (context_of group_id locked.group_id) other next_node_id
        actor_id now _ ne

-- A response of a context that has not resolved an inject with a scenario node puts the cursor of
-- that context onto the node that it selects, behind that inject.
pub resolve_context-moves :
    (db : Db) (inject : Inject) (context next_node_id : Option String) (actor_id now : ℕ)
    (row : InjectProgress)
    → row.state ≢ resolved
    → is_none inject.scenario_node_id ≡ false
    → (c : ExerciseProgress) × (cursor_of
          (resolve_context db inject context actor_id next_node_id now (some row)).1.progress.rows
          inject.exercise_id
          context
        ≡ some c)
      × (c.current_node_id ≡ next_node_id)
      × (c.current_inject_id ≡ some inject.id)
unfolding resolve_context
resolve_context-moves db inject context next_node_id actor_id now row live node =
    let marked = record db {
      inject_progress =
          update_rows (of_inject inject.id context) (resolve_row actor_id now) db.inject_progress;
    } in
    let on : (row.state == resolved) ≡ false = ground arith in
    let same = close_inject-progress marked inject actor_id now in
    rw (on, node)
      (rw same (advance_cursor-own db.progress inject context next_node_id actor_id now))
