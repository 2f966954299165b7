-- ===== src/Tests/Scenarios.antt =====
-- Scenario files, and the freeze of a launch.
use iceberg_ttx.Prelude.{
  ℕ, zero, suc, ◌≤◌, String, List, [], ◌∷◌, length, Option, none, some, ◌≡◌, refl, arith, Memᴰ,
  strip,
}
use iceberg_ttx.Prelude.Memᴰ
use iceberg_ttx.Prelude.Int.{pos}
use iceberg_ttx.Errors.{ok, err, cycle_detected, ◌>>=◌}
use iceberg_ttx.Models.Enums.{draft}
use iceberg_ttx.Models.Scenario.{InjectNode, ScenarioDefinition, Scenario}
use iceberg_ttx.Models.Exercise.{Exercise}
use iceberg_ttx.Models.Database.{Db, get_scenario}
use iceberg_ttx.Scenario.Graph.{check_no_cycles}
use iceberg_ttx.Scenario.Dict.{by_option}
use iceberg_ttx.Scenario.Acyclic.{Walk, check_no_cycles-bounds, check_no_cycles-endless}
use iceberg_ttx.Scenario.Validate.{parse_definition}
use iceberg_ttx.Scenario.Accepted.{IsPlayable, parse_definition-IsPlayable}
use iceberg_ttx.Launch.Content.{canonical_scenario_definition, validated, export_definition}
use iceberg_ttx.Launch.Freeze.{freeze_launch_configuration, definition_for_exercise}
use iceberg_ttx.Launch.Frozen.{Freezes, freeze_launch_configuration-Freezes, frozen_definition}
use iceberg_ttx.Launch.Playable.{definition_for_exercise-IsPlayable}
use iceberg_ttx.Samples.{
  definition, ransom, refuse, node, exercise, database, external, ok_or, table,
}

parsed : parse_definition definition ≡ ok definition
unfolding parse_definition iceberg_ttx.Scenario.Validate.normalized_id strip check_no_cycles
    iceberg_ttx.Scenario.Graph.successors iceberg_ttx.Scenario.Graph.option_targets
parsed = refl

parse_definition-IsPlayable_example : IsPlayable definition
parse_definition-IsPlayable_example = parse_definition-IsPlayable definition parsed

acyclic : check_no_cycles definition.injects ≡ ok tt
unfolding check_no_cycles iceberg_ttx.Scenario.Graph.successors
    iceberg_ttx.Scenario.Graph.option_targets
acyclic = refl

one_step : Walk definition.injects "ransom" "leak" 1
one_step =
    Walk.go ransom "leak" (Memᴰ.head refl) (by_option refuse (Memᴰ.tail (Memᴰ.head refl)) refl)
      Walk.stay

check_no_cycles-bounds_example : 1 ≤ length definition.injects
check_no_cycles-bounds_example = check_no_cycles-bounds definition.injects refl acyclic one_step

abbrev circle : List InjectNode
circle =
    record (node "a" [] [] none) { next_inject_id = some "b" }
    ∷ record (node "b" [] [] none) { next_inject_id = some "a" }
    ∷ []

cyclic : check_no_cycles circle ≡ err cycle_detected
unfolding check_no_cycles iceberg_ttx.Scenario.Graph.successors
    iceberg_ttx.Scenario.Graph.option_targets
cyclic = refl

check_no_cycles-endless_example : (a : String) × (b : String) × Walk circle a b 7
check_no_cycles-endless_example = check_no_cycles-endless circle 7 cyclic

abbrev workshop : Exercise
workshop = exercise draft none none (pos 0)

abbrev before : Db
before = database workshop [] [] []

unfoldable launched : Exercise × Db
launched = ok_or (workshop, before) (freeze_launch_configuration external before workshop)

launched-ok : freeze_launch_configuration external before workshop ≡ ok (launched.0, launched.1)
unfolding launched freeze_launch_configuration iceberg_ttx.Launch.Content.build_launch_content
    mathlib.Core.Bool.decide iceberg_ttx.Launch.Freeze.LaunchContent-discrete
    iceberg_ttx.Prelude.string_discrete iceberg_ttx.Prelude.Bool-cases canonical_scenario_definition
    iceberg_ttx.Prelude.Sort.sorted native.Mathlib.Decide.ℕ_discrete export_definition
    parse_definition iceberg_ttx.Scenario.Validate.normalized_id strip check_no_cycles
    iceberg_ttx.Scenario.Graph.successors iceberg_ttx.Scenario.Graph.option_targets
launched-ok = refl

freeze_launch_configuration-Freezes_example : Freezes before launched.1 workshop launched.0
freeze_launch_configuration-Freezes_example =
    freeze_launch_configuration-Freezes external before workshop launched-ok

-- The library is emptied after the launch.
frozen_definition_example :
    (s : Scenario) × (d : ScenarioDefinition) × (get_scenario before launched.0.scenario_id
      ≡ some s)
    × (export_definition s ≡ ok d)
    × (definition_for_exercise (record launched.1 { scenarios = table [] }) workshop.id
        ≡ (validated (parse_definition (canonical_scenario_definition d)) >>= λ x. ok (some x)))
frozen_definition_example = frozen_definition external before workshop (table []) launched-ok

live : definition_for_exercise before 1 ≡ ok (some definition)
unfolding definition_for_exercise parse_definition iceberg_ttx.Scenario.Validate.normalized_id strip
    check_no_cycles iceberg_ttx.Scenario.Graph.successors iceberg_ttx.Scenario.Graph.option_targets
live = refl

definition_for_exercise-IsPlayable_example : IsPlayable definition
definition_for_exercise-IsPlayable_example =
    definition_for_exercise-IsPlayable before 1 definition live
