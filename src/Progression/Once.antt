-- ===== src/Progression/Once.antt =====
-- What a release has done, and that it happens once.
use iceberg_ttx.Prelude.{
  ℕ, Bool, true, false, not, List, [], ◌∷◌, ◌++◌, map, Option, some, ◌≡◌, ◌≢◌, refl, sym, ◌∙◌, ap,
  subst, arith, inl, inr, ◌==◌, ==→≡, nat_eq, find, update, null, is_some, has_duplicates, find-and,
  find-holds, find-update, update_row, Option-cases, Bool-cases, some_inj,
}
use iceberg_ttx.Errors.{
  ok, require-eq-ok, >>=-eq-ok, ok-injective, not_pending, no_row, inject_not_found,
  release_needs_active, not_current_branch, no_audience,
}
use iceberg_ttx.Models.Enums.{active, InjectState, exercise_state_eq, inject_state_eq}
use iceberg_ttx.Models.Exercise.{Exercise}
use iceberg_ttx.Models.Inject.{Inject}
use iceberg_ttx.Models.Database.{Db, Table, get_exercise, get_inject, inject_released, members_of}
use iceberg_ttx.Launch.Freeze.{or_raise, or_raise-eq-ok}
use iceberg_ttx.Progression.Cursor.{
  release_is_allowed, seed_inject_resolution_contexts, inject_audience_contexts,
}
use iceberg_ttx.Progression.Release.{
  lock_exercise_for_audience_snapshot, is_pending, release_row, marked_released, release_inject,
}
use iceberg_ttx.Schedule.Jobs.{schedule_release_triggered_comms}
use iceberg_ttx.Progression.Enqueued.{SameRows, schedule_release-rows}

abbrev pub HasInjectKeys : Db → Type 0
HasInjectKeys db = has_duplicates (map (λ (i : Inject). i.id) db.injects.rows) ≡ false

-- The release of `inject` in `db` has gone through.
pub record Releases (db db' : Db) (inject : Inject) (released_by : Option ℕ) (scheduled : Bool)
    (now : ℕ) (after : Inject) : Type 0 where
  pub exercise : Exercise
  pub current : get_exercise db inject.exercise_id ≡ some exercise
  pub running : exercise.state ≡ active
  pub allowed : release_is_allowed db inject scheduled ≡ ok true
  pub audience : null (inject_audience_contexts inject (members_of db inject.exercise_id)) ≡ false
  -- It was pending, and now it is released: by whom, and when.
  pub row : Inject
  pub was : get_inject db inject.id ≡ some row
  pub was_pending : row.state ≡ InjectState.pending
  pub after_eq : after ≡ release_row now released_by row
  pub stored : get_inject db' inject.id ≡ some after
  pub others : (id : ℕ) → id ≢ inject.id → get_inject db' id ≡ get_inject db id
  pub keys : HasInjectKeys db'
  pub announced : db'.events ≡ db.events ++ inject_released inject.exercise_id inject.id ∷ []

get_inject-marked :
    (db : Db) (inject : Inject) (released_by : Option ℕ) (now id : ℕ)
    → get_inject (marked_released db inject released_by now) id
      ≡ update_row (is_pending inject.id) (release_row now released_by) (get_inject db id)
unfolding marked_released
get_inject-marked db inject released_by now id =
    find-update (is_pending inject.id) (λ (i : Inject). i.id == id) (release_row now released_by)
      (λ i. refl) db.injects.rows

others-marked :
    (db : Db) (inject : Inject) (released_by : Option ℕ) (now id : ℕ)
    → id ≢ inject.id
    → get_inject (marked_released db inject released_by now) id ≡ get_inject db id
others-marked db inject released_by now id ne =
    rw (get_inject-marked db inject released_by now id) (elim (Option-cases (get_inject db id)) [
      | inl e ↦ rw e
      | inr (row, e) ↦
          let same : row.id ≡ id =
            ==→≡ row.id id (find-holds (λ (x : Inject). x.id == id) db.injects.rows e) in
          rw e (ground arith)
    ])

keys-update :
    (p : Inject → Bool) (released_by : Option ℕ) (now : ℕ) (xs : List Inject)
    → map (λ (i : Inject). i.id) (update p (release_row now released_by) xs)
      ≡ map (λ (i : Inject). i.id) xs
keys-update p released_by now [] = refl
keys-update p released_by now (x ∷ xs) = elim (Bool-cases (p x)) [
  | inl t ↦ rw (t, keys-update p released_by now xs)
  | inr f ↦ rw (f, keys-update p released_by now xs)
]

-- The update of the row, found pending.
pub released-row :
    (db : Db) (inject : Inject) (released_by : Option ℕ) (now : ℕ)
    → HasInjectKeys db
    → is_some (find (is_pending inject.id) db.injects.rows) ≡ true
    → (row : Inject) × (get_inject db inject.id ≡ some row)
      × (row.state ≡ InjectState.pending)
      × (get_inject (marked_released db inject released_by now) inject.id
          ≡ some (release_row now released_by row))
released-row db inject released_by now keys h =
    elim (Option-cases (find (is_pending inject.id) db.injects.rows)) [
      | inl gone ↦ cc (rw gone at h)
      | inr (row, found) ↦
          let (current, waits) =
            find-and (λ (i : Inject). i.id) inject.id (λ i. i.state == InjectState.pending)
              db.injects.rows keys found in
          let hit : is_pending inject.id row ≡ true =
            find-holds (is_pending inject.id) db.injects.rows found in
          (
            row,
            current,
            ==→≡ row.state InjectState.pending waits,
            get_inject-marked db inject released_by now inject.id ∙ rw current (rw hit),
          )
    ]

pub get_inject-rows :
    (a b : Db) (id : ℕ) → a.injects ≡ b.injects → get_inject a id ≡ get_inject b id
get_inject-rows a b id e = ap (λ (t : Table Inject). find (λ (i : Inject). i.id == id) t.rows) e

-- A release that goes through has found the exercise active, the release allowed, an audience, and
-- the inject pending; the stored row is then released, by whom and when, every other inject is as
-- it was, the identifiers stay distinct, and one event is recorded. The identifiers of the injects
-- are distinct.
pub release_inject-Releases :
    (db : Db) (inject : Inject) (released_by : Option ℕ) (scheduled : Bool) (now : ℕ)
    (after : Inject) (db' : Db)
    → HasInjectKeys db
    → release_inject db inject released_by scheduled now ≡ ok (after, db')
    → Releases db db' inject released_by scheduled now after
unfolding release_inject lock_exercise_for_audience_snapshot seed_inject_resolution_contexts
    marked_released
release_inject-Releases db inject released_by scheduled now after db' keys h =
    let (exercise, locked, h₁) =
      >>=-eq-ok (or_raise (get_exercise db inject.exercise_id) no_row) _ h in
    let (running, h₂) = require-eq-ok (exercise.state == active) release_needs_active _ h₁ in
    let (allowed, permit, h₃) = >>=-eq-ok (release_is_allowed db inject scheduled) _ h₂ in
    let (granted, h₄) = require-eq-ok allowed not_current_branch _ h₃ in
    let (audience, h₅) =
      require-eq-ok
        (not (null (inject_audience_contexts inject (members_of db inject.exercise_id))))
        no_audience _ h₄ in
    let (swapped, h₆) =
      require-eq-ok (is_some (find (is_pending inject.id) db.injects.rows)) not_pending _ h₅ in
    let seeded : Db = (seed_inject_resolution_contexts db inject).1 in
    let marked : Db = marked_released seeded inject released_by now in
    let (armed, all_armed, h₇) =
      >>=-eq-ok (schedule_release_triggered_comms marked inject.exercise_id inject now) _ h₆ in
    let (stored_row, stored, h₈) =
      >>=-eq-ok (or_raise (get_inject armed inject.id) inject_not_found) _ h₇ in
    let rows : SameRows armed marked =
      schedule_release-rows marked inject.exercise_id inject now all_armed in
    let (row, was, waits, written) = released-row seeded inject released_by now keys swapped in
    let here : get_inject armed inject.id ≡ some (release_row now released_by row) =
      get_inject-rows armed marked inject.id rows.0 ∙ written in
    let read : get_inject armed inject.id ≡ some stored_row = or_raise-eq-ok _ _ stored in
    subst (λ (x : Inject × Db). Releases db x.1 inject released_by scheduled now x.0)
      (ok-injective h₈)
      (record {
        exercise = exercise;
        current = or_raise-eq-ok _ _ locked;
        running = ==→≡ exercise.state active running;
        allowed = permit ∙ ap ok granted;
        audience = ground arith;
        row = row;
        was = was;
        was_pending = waits;
        after_eq = some_inj (sym read ∙ here);
        stored = read;
        others = λ id ne.
            get_inject-rows armed marked id rows.0
            ∙ others-marked seeded inject released_by now id ne;
        keys = rw (rows.0, keys-update (is_pending inject.id) released_by now db.injects.rows) keys;
        announced = rows.1;
      })

-- After an inject has been released, a further release of it on the resulting rows does not go
-- through, whoever asks and whether or not the schedule asks. The identifiers of the injects are
-- distinct.
pub release_inject-once :
    (db : Db) (inject : Inject) (released_by other : Option ℕ) (scheduled again : Bool)
    (now later : ℕ) (after after' : Inject) (db' db'' : Db)
    → HasInjectKeys db
    → release_inject db inject released_by scheduled now ≡ ok (after, db')
    → release_inject db' inject other again later ≢ ok (after', db'')
release_inject-once db inject released_by other scheduled again now later after after' db' db'' keys
      h second =
    let r = release_inject-Releases db inject released_by scheduled now after db' keys h in
    let r' = release_inject-Releases db' inject other again later after' db'' r.keys second in
    let same : r'.row ≡ after = some_inj (sym r'.was ∙ r.stored) in
    let waits : after.state ≡ InjectState.pending =
      ap (λ (i : Inject). i.state) (sym same) ∙ r'.was_pending in
    cc (rw (r.after_eq) at waits)
