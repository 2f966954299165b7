-- ===== src/Schedule/Settled.antt =====
-- What the jobs of a schedule do when they run: early, late, twice, or after the exercise stopped.
use iceberg_ttx.Prelude.{
  ℕ, suc, String, Bool, true, ◌&&◌, List, [], ◌∷◌, Option, none, some, ◌≡◌, ◌≢◌, some_inj,
  Option-cases, refl, sym, ◌∙◌, ap, arith, inl, inr, ◌==◌, ==→≡, ==_refl, nat_eq, string_eq,
  option_eq, any, any-append, and-right, Memᴰ, mem-select, null, contains, Bool-cases,
  if◌then◌else◌,
}
use iceberg_ttx.Errors.{ok, >>=-eq-ok, ok-injective}
use iceberg_ttx.Models.Enums.{
  CommDirection, InjectState, active, exercise_state_eq, inject_state_eq,
}
use iceberg_ttx.Models.Scenario.{TriggerComm}
use iceberg_ttx.Models.Exercise.{Exercise, ExerciseProgress}
use iceberg_ttx.Models.Inject.{Inject}
use iceberg_ttx.Models.Communication.{Communication}
use iceberg_ttx.Models.Database.{Db, get_exercise, get_inject, progress_of, injects_of}
use iceberg_ttx.Schedule.Worker.{
  direction_of, is_trigger, triggered_row, deliver_triggered_communication, stands_down,
  release_scheduled_inject, run_release,
}
use iceberg_ttx.Schedule.Arm.{reached, cursor_nodes, is_running, is_scheduled}
use iceberg_ttx.Progression.Cursor.{release_is_allowed, is_falsy}

-- There is nothing left to release: a row is gone, or the inject is out, or its exercise does not run, or
-- the inject has no time.
pub data IsSettled (db : Db) (exercise_id inject_id : ℕ) : Type 0 where
  no_exercise : get_exercise db exercise_id ≡ none → IsSettled db exercise_id inject_id
  no_inject : get_inject db inject_id ≡ none → IsSettled db exercise_id inject_id
  taken :
      (i : Inject)
      → get_inject db inject_id ≡ some i
      → i.state ≢ InjectState.pending
      → IsSettled db exercise_id inject_id
  halted :
      (e : Exercise)
      → get_exercise db exercise_id ≡ some e
      → e.state ≢ active
      → IsSettled db exercise_id inject_id
  untimed :
      (i : Inject)
      → get_inject db inject_id ≡ some i
      → i.release_offset_minutes ≡ none
      → IsSettled db exercise_id inject_id

stopped-down :
    (db : Db) (exercise_id inject_id : ℕ) (e : Exercise) (i : Inject)
    → get_exercise db exercise_id ≡ some e
    → get_inject db inject_id ≡ some i
    → IsSettled db exercise_id inject_id
    → stands_down e i ≡ true
stopped-down db exercise_id inject_id e i found_e found_i (no_exercise gone) = cc
stopped-down db exercise_id inject_id e i found_e found_i (no_inject gone) = cc
stopped-down db exercise_id inject_id e i found_e found_i (taken j found out) =
    let same : j ≡ i = some_inj (sym found ∙ found_i) in
    let out_i : i.state ≢ InjectState.pending = rw same at out in ground arith
stopped-down db exercise_id inject_id e i found_e found_i (halted x found off) =
    let same : x ≡ e = some_inj (sym found ∙ found_e) in
    let off_e : e.state ≢ active = rw same at off in ground arith
stopped-down db exercise_id inject_id e i found_e found_i (untimed j found timeless) =
    let same : j ≡ i = some_inj (sym found ∙ found_i) in
    let open_i : i.release_offset_minutes ≡ none = rw same at timeless in rw open_i (ground arith)

-- The job of an inject leaves the database as it is where the exercise or the inject is gone, the
-- inject is not pending, the exercise is not active, or the inject has no release time.
pub settled_release :
    (db : Db) (exercise_id inject_id now : ℕ)
    → IsSettled db exercise_id inject_id
    → release_scheduled_inject db exercise_id inject_id now ≡ ok db
unfolding release_scheduled_inject run_release
settled_release db exercise_id inject_id now settled =
    elim (Option-cases (get_exercise db exercise_id)) [
      | inl gone ↦ rw gone refl
      | inr (e, found_e) ↦ elim (Option-cases (get_inject db inject_id)) [
        | inl gone ↦ rw (found_e, gone) refl
        | inr (i, found_i) ↦
            rw (found_e, found_i)
              (rw (stopped-down db exercise_id inject_id e i found_e found_i settled) refl)
      ]
    ]

count_triggers : ℕ → String → ℕ → List Communication → ℕ
count_triggers exercise_id node_id index [] = 0
count_triggers exercise_id node_id index (c ∷ cs) =
    let rest = count_triggers exercise_id node_id index cs in
    if is_trigger exercise_id node_id index c then suc rest else rest

-- After a trigger has been delivered, delivering it again, from any inject and with any valid
-- direction, leaves the database as it is.
pub deliver-once :
    (db db' : Db) (exercise_id inject_id other : ℕ) (trigger again : TriggerComm) (node_id : String)
    (index now later : ℕ) (direction : CommDirection)
    → deliver_triggered_communication db exercise_id inject_id trigger node_id index now ≡ ok db'
    → direction_of again.direction ≡ ok direction
    → deliver_triggered_communication db' exercise_id other again node_id index later ≡ ok db'
unfolding deliver_triggered_communication
deliver-once db db' exercise_id inject_id other trigger again node_id index now later direction h
      valid =
    let (d, _, same) = >>=-eq-ok (direction_of trigger.direction) _ h in
    let delivered : any (is_trigger exercise_id node_id index) db'.communications.rows ≡ true =
      elim (Bool-cases (any (is_trigger exercise_id node_id index) db.communications.rows)) [
        | inl there ↦
            let kept : db ≡ db' = ok-injective (rw there at same) in
            ap (λ (x : Db). any (is_trigger exercise_id node_id index) x.communications.rows)
              (sym kept)
            ∙ there
        | inr new ↦
            let made = ok-injective (rw new at same) in
            ap (λ (x : Db). any (is_trigger exercise_id node_id index) x.communications.rows)
              (sym made)
            ∙ any-append (is_trigger exercise_id node_id index) db.communications.rows (
                triggered_row exercise_id inject_id d trigger node_id index now
                  db.communications.next_id
                ∷ [])
            ∙ rw (==_refl exercise_id, ==_refl node_id, ==_refl index) (ground arith)
      ] in
    rw valid (rw delivered)

on_node :
    (node : Option String) (cursors : List ExerciseProgress)
    → contains node (cursor_nodes cursors) ≡ true
    → any (λ (c : ExerciseProgress). c.current_node_id == node) cursors ≡ true
unfolding cursor_nodes
on_node node_id [] h = cc
on_node node_id (c ∷ cs) h = elim (Bool-cases (is_falsy c.current_node_id)) [
  | inl blank ↦ ground (arith, on_node node_id cs (rw blank at h))
  | inr named ↦ elim (Bool-cases (node_id == c.current_node_id)) [
    | inl here ↦
        let same : node_id ≡ c.current_node_id = ==→≡ node_id c.current_node_id here in
        rw (← same, ==_refl node_id) refl
    | inr there ↦ ground (arith, on_node node_id cs (rw (named, there) at h))
  ]
]

-- A cursor on the node of the inject opens it, in a release by hand and by schedule.
opened :
    (db : Db) (inject : Inject) (scheduled : Bool)
    → contains inject.scenario_node_id (cursor_nodes (progress_of db inject.exercise_id)) ≡ true
    → release_is_allowed db inject scheduled ≡ ok true
unfolding release_is_allowed cursor_nodes
opened db inject scheduled h =
    let hit = on_node inject.scenario_node_id (progress_of db inject.exercise_id) h in
    elim (Bool-cases (is_falsy inject.scenario_node_id)) [
      | inl blank ↦ rw blank refl
      | inr named ↦ elim (Bool-cases (null (progress_of db inject.exercise_id))) [
        | inl empty ↦ rw (named, empty) refl
        | inr some_cursor ↦ rw (named, some_cursor, hit) refl
      ]
    ]

-- Every inject that is armed because a cursor reached it belongs to the exercise and is allowed to
-- be released, by hand and by schedule.
pub reached-allowed :
    (db : Db) (exercise : Exercise) (inject : Inject) (scheduled : Bool)
    → Memᴰ inject (reached db exercise)
    → (inject.exercise_id ≡ exercise.id) × (release_is_allowed db inject scheduled ≡ ok true)
unfolding reached
reached-allowed db exercise inject scheduled m = elim (Bool-cases (is_running exercise)) [
  | inl up ↦
      let (mine, both) =
        mem-select
          (λ (i : Inject).
            is_scheduled i
            && contains i.scenario_node_id (cursor_nodes (progress_of db exercise.id)))
          inject (injects_of db exercise.id) (rw up at m) in
      let (_, owner) =
        mem-select (λ (i : Inject). i.exercise_id == exercise.id) inject db.injects.rows mine in
      let same : inject.exercise_id ≡ exercise.id = ==→≡ inject.exercise_id exercise.id owner in
      (same, opened db inject scheduled (rw same (and-right _ _ both)))
  | inr down ↦ elim (rw down at m) [ ]
]
