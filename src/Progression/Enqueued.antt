-- ===== src/Progression/Enqueued.antt =====
-- What the enqueueing of a release leaves alone.
use iceberg_ttx.Prelude.{
  ℕ, suc, String, List, [], ◌∷◌, Option, none, some, ◌≡◌, refl, subst, inl, inr, nat_eq, Bool-cases,
}
use iceberg_ttx.Errors.{ok, >>=-eq-ok, ok-injective}
use iceberg_ttx.Models.Enums.{exercise_state_eq, inject_state_eq}
use iceberg_ttx.Models.Inject.{Inject}
use iceberg_ttx.Models.Database.{Db}
use iceberg_ttx.Progression.Cursor.{is_falsy}
use iceberg_ttx.Schedule.Jobs.{
  schedule_release_triggered_comms, defer_triggers, defer_triggered_comm, defer_job, defer_node,
  node_of, seconds,
}
use iceberg_ttx.Launch.Freeze.{definition_for_exercise}
use iceberg_ttx.Models.Scenario.{TriggerComm, InjectNode}

-- Enqueueing leaves the rows and the events alone.
abbrev pub SameRows : Db → Db → Type 0
SameRows a b =
    (a.injects ≡ b.injects)
    × (a.events ≡ b.events)
    × (a.exercises ≡ b.exercises)
    × (a.inject_progress ≡ b.inject_progress)

defer_triggers-rows :
    (db : Db) (exercise_id inject_id : ℕ) (node_id : String) (index : ℕ) (ts : List TriggerComm)
    (now : ℕ)
    → SameRows (defer_triggers db exercise_id inject_id node_id index ts now) db
unfolding defer_triggers defer_triggered_comm defer_job
defer_triggers-rows db exercise_id inject_id node_id index [] now = (refl, refl, refl, refl)
defer_triggers-rows db exercise_id inject_id node_id index (t ∷ ts) now =
    defer_triggers-rows
      (defer_triggered_comm db exercise_id inject_id node_id index
        (seconds t.delay_after_release_seconds) now)
      exercise_id inject_id node_id (suc index) ts now

defer_node-rows :
    (db : Db) (exercise_id inject_id : ℕ) (node : Option InjectNode) (now : ℕ)
    → SameRows (defer_node db exercise_id inject_id node now) db
defer_node-rows db exercise_id inject_id none now = (refl, refl, refl, refl)
defer_node-rows db exercise_id inject_id (some node) now =
    defer_triggers-rows db exercise_id inject_id node.id 0 node.triggers_communications now

pub schedule_release-rows :
    (db : Db) (exercise_id : ℕ) (inject : Inject) (now : ℕ) {db' : Db}
    → schedule_release_triggered_comms db exercise_id inject now ≡ ok db'
    → SameRows db' db
unfolding schedule_release_triggered_comms
schedule_release-rows db exercise_id inject now {db'} h =
    elim (Bool-cases (is_falsy inject.scenario_node_id)) [
      | inl blank ↦
          subst (λ (x : Db). SameRows x db) (ok-injective (rw blank at h)) (refl, refl, refl, refl)
      | inr node ↦
          let (d, _, same) = >>=-eq-ok (definition_for_exercise db exercise_id) _ (rw node at h) in
          subst (λ (x : Db). SameRows x db) (ok-injective same)
            (defer_node-rows db exercise_id inject.id (node_of d inject.scenario_node_id) now)
    ]
