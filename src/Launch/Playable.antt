-- ===== src/Launch/Playable.antt =====
-- The definition that an exercise runs on has passed the validator.
use iceberg_ttx.Prelude.{
  ℕ, Option, none, some, ◌≡◌, inl, inr, ◌==◌, nat_eq, string_eq, Bool-cases, Option-cases, some_inj,
}
use iceberg_ttx.Errors.{ok, ◌>>=◌, >>=-eq-ok, ok-injective}
use iceberg_ttx.Models.Enums.{exercise_state_eq}
use iceberg_ttx.Models.Scenario.{ScenarioDefinition}
use iceberg_ttx.Models.Exercise.{Exercise}
use iceberg_ttx.Models.Database.{Db, get_scenario, get_exercise}
use iceberg_ttx.Scenario.Validate.{parse_definition}
use iceberg_ttx.Scenario.Accepted.{IsPlayable, parse_definition-IsPlayable}
use iceberg_ttx.Launch.Content.{validated, validated-eq-ok, export_definition}
use iceberg_ttx.Launch.Freeze.{
  find_snapshot, definition_of, definition_for_exercise, get_scenario_definition, launch_definition,
}

validated-IsPlayable :
    (raw : ScenarioDefinition) {d : ScenarioDefinition}
    → (validated (parse_definition raw) >>= λ (x : ScenarioDefinition). ok (some x)) ≡ ok (some d)
    → IsPlayable d
validated-IsPlayable raw {d} h =
    let (x, checked, same) = >>=-eq-ok (validated (parse_definition raw)) _ h in
    rw (some_inj (ok-injective same)) at
      (parse_definition-IsPlayable raw (validated-eq-ok _ checked))

definition_of-IsPlayable :
    (db : Db) (e : Option Exercise) (d : ScenarioDefinition)
    → definition_of db e ≡ ok (some d)
    → IsPlayable d
unfolding get_scenario_definition launch_definition export_definition
definition_of-IsPlayable db none d h = cc (ok-injective h)
definition_of-IsPlayable db (some e) d h = elim (Option-cases e.launch_snapshot_digest) [
  | inl live ↦ elim (Bool-cases (e.scenario_id == 0)) [
    | inl no_id ↦ cc (ok-injective (rw (live, no_id) at h))
    | inr id ↦ elim (Option-cases (get_scenario db e.scenario_id)) [
      | inl gone ↦ cc (ok-injective (rw (live, id, gone) at h))
      | inr (s, found) ↦ validated-IsPlayable s.definition (rw (live, id, found) at h)
    ]
  ]
  | inr (digest, frozen) ↦ elim (Option-cases (find_snapshot db.snapshots digest)) [
    | inl gone ↦ cc (rw (frozen, gone) at h)
    | inr ((key, content), found) ↦
        validated-IsPlayable content.definition (rw (frozen, found) at h)
  ]
]

-- Whatever definition an exercise runs on, live or frozen, is playable.
pub definition_for_exercise-IsPlayable :
    (db : Db) (id : ℕ) (d : ScenarioDefinition)
    → definition_for_exercise db id ≡ ok (some d)
    → IsPlayable d
unfolding definition_for_exercise
definition_for_exercise-IsPlayable db id d h = definition_of-IsPlayable db (get_exercise db id) d h
