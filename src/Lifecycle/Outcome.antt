-- ===== src/Lifecycle/Outcome.antt =====
-- What a committed transition has done, and which requests lose.
use iceberg_ttx.Prelude.{
  ℕ, String, true, false, [], ◌∷◌, ◌++◌, map, Option, none, some, ◌≡◌, ◌≢◌, refl, sym, ◌∙◌, subst,
  some_inj, arith, inl, inr, ◌==◌, ==→≡, ==_refl, nat_eq, find, contains, has_duplicates,
  Option-cases, find-and, find-update, find-holds, update_row,
}
use iceberg_ttx.Errors.{ok, require-eq-ok, >>=-eq-ok, ok-injective, exercise_not_found, key_error}
use iceberg_ttx.Models.Enums.{ExerciseState, exercise_state_eq}
use iceberg_ttx.Models.Exercise.{Exercise}
use iceberg_ttx.Models.Database.{Db, get_exercise, exercise_state_changed}
use iceberg_ttx.Launch.Freeze.{or_raise, or_raise-eq-ok}
use iceberg_ttx.Lifecycle.States.{
  valid_transitions, transition_action, Step, valid_transitions-Step,
}
use iceberg_ttx.Lifecycle.Transition.{apply_values, swaps, won, actor, committed, compare_and_swap}

-- The primary key of the exercises.
abbrev pub HasKeys : Db → Type 0
HasKeys db = has_duplicates (map (λ (e : Exercise). e.id) db.exercises.rows) ≡ false

-- The request, made on `observed`, has taken the current row of its exercise to a new state.
pub record Commits (db db' : Db) (observed : Exercise) (new_state : ExerciseState) (now : ℕ)
    (updated : Exercise) : Type 0 where
  pub row : Exercise
  -- The observed state was still the current one, and the step is one of the state machine.
  pub current : get_exercise db observed.id ≡ some row
  pub same_state : row.state ≡ observed.state
  pub step : Step row.state new_state
  -- The row has the new state and the times of `apply_values`; it is what the call returns.
  pub applied : updated ≡ apply_values observed new_state now row
  pub stored : get_exercise db' observed.id ≡ some updated
  -- One history row is appended, and one event.
  pub actor : ℕ
  pub history :
      db'.transitions.rows
      ≡ db.transitions.rows
        ++ record {
          id = db.transitions.next_id;
          exercise_id = observed.id;
          from_state = row.state;
          to_state = new_state;
          actor_id = some actor;
          transitioned_at = now;
        }
          ∷ []
  pub action : String
  pub named : transition_action row.state new_state ≡ some action
  pub announced :
      db'.events
      ≡ db.events ++ exercise_state_changed observed.id db.transitions.next_id action ∷ []
  -- Every other exercise is as it was.
  pub others : (id : ℕ) → id ≢ observed.id → get_exercise db' id ≡ get_exercise db id

won-eq-ok :
    (observed : Exercise) (found current : Option Exercise) {row : Exercise}
    → won observed found current ≡ ok row
    → found ≡ some row
won-eq-ok observed (some x) current h = cc
won-eq-ok observed none none h = cc
won-eq-ok observed none (some c) h = cc

module _ (db : Db) (observed : Exercise) (new_state : ExerciseState) (actor_id : Option ℕ)
    (now : ℕ) where
  get_exercise-committed :
      (action : String) (id : ℕ)
      → get_exercise (committed db observed new_state actor_id now action) id
        ≡ update_row (swaps observed) (apply_values observed new_state now) (get_exercise db id)
  unfolding committed apply_values
  get_exercise-committed action id =
      find-update (swaps observed) (λ (e : Exercise). e.id == id)
        (apply_values observed new_state now) (λ e. refl) db.exercises.rows

  others-committed :
      (action : String) (id : ℕ)
      → id ≢ observed.id
      → get_exercise (committed db observed new_state actor_id now action) id ≡ get_exercise db id
  others-committed action id ne =
      rw (get_exercise-committed action id) (elim (Option-cases (get_exercise db id)) [
        | inl e ↦ rw e
        | inr (row, e) ↦
            let same : row.id ≡ id =
              ==→≡ row.id id (find-holds (λ (x : Exercise). x.id == id) db.exercises.rows e) in
            rw e (ground arith)
      ])

  committed-Commits :
      {updated : Exercise} (row : Exercise) (action : String)
      → get_exercise db observed.id ≡ some row
      → row.state ≡ observed.state
      → contains new_state (valid_transitions observed.state) ≡ true
      → transition_action observed.state new_state ≡ some action
      → get_exercise (committed db observed new_state actor_id now action) observed.id
        ≡ some updated
      → Commits db
          (committed db observed new_state actor_id now action)
          observed
          new_state
          now
          updated
  unfolding committed
  committed-Commits {updated} row action current same valid named stored = record {
    row = row;
    current = current;
    same_state = same;
    step = rw same (valid_transitions-Step observed.state new_state valid);
    applied = applied;
    stored = stored;
    actor = actor actor_id observed;
    history = rw same refl;
    action = action;
    named = rw same named;
    announced = refl;
    others = others-committed action;
  }
    where
      matched : swaps observed row ≡ true
      matched =
          let same_id =
            find-holds (λ (x : Exercise). x.id == observed.id) db.exercises.rows current in
          rw (same_id, same) (==_refl observed.state)

      after :
          get_exercise (committed db observed new_state actor_id now action) observed.id
          ≡ some (apply_values observed new_state now row)
      after = get_exercise-committed action observed.id ∙ rw current (rw matched)

      applied : updated ≡ apply_values observed new_state now row
      applied = some_inj (sym stored ∙ after)

  -- A compare-and-swap that goes through has found the observed state to be the current one and
  -- the step valid; it stores and returns the row with the new state and times, appends one
  -- history row and one event, and leaves the other exercises as they were. The identifiers of the
  -- exercises are distinct.
  pub compare_and_swap-Commits :
      (updated : Exercise) (db' : Db)
      → HasKeys db
      → compare_and_swap db observed new_state actor_id now ≡ ok (updated, db')
      → Commits db db' observed new_state now updated
  unfolding compare_and_swap
  compare_and_swap-Commits updated db' keys h =
      let (valid, h₁) = require-eq-ok _ _ _ h in
      let (row, found, h₂) =
        >>=-eq-ok
          (won observed (find (swaps observed) db.exercises.rows) (get_exercise db observed.id)) _
          h₁ in
      let (action, named, h₃) =
        >>=-eq-ok (or_raise (transition_action observed.state new_state) key_error) _ h₂ in
      let after = committed db observed new_state actor_id now action in
      let (updated', stored, h₄) =
        >>=-eq-ok (or_raise (get_exercise after observed.id) exercise_not_found) _ h₃ in
      let same = ok-injective h₄ in
      let (current, swapped) =
        find-and (λ (e : Exercise). e.id) observed.id (λ e. e.state == observed.state)
          db.exercises.rows keys (won-eq-ok observed _ _ found) in
      subst (λ (x : Exercise × Db). Commits db x.1 observed new_state now x.0) same
        (committed-Commits row action current (==→≡ row.state observed.state swapped) valid
          (or_raise-eq-ok _ _ named) (or_raise-eq-ok _ _ stored))
