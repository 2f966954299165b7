-- ===== src/Tests/Deadlines.antt =====
-- A scheduled inject that a cursor reached, past its time.
use iceberg_ttx.Prelude.{String, some, ◌≡◌, refl, strip}
use iceberg_ttx.Errors.{ok}
use iceberg_ttx.Models.Enums.{released}
use iceberg_ttx.Models.Inject.{Inject}
use iceberg_ttx.Models.Database.{Db, get_inject}
use iceberg_ttx.Launch.Freeze.{definition_for_exercise}
use iceberg_ttx.Schedule.Worker.{release_scheduled_inject}
use iceberg_ttx.Schedule.Due.{reached-released}
use iceberg_ttx.Samples.{definition}
use iceberg_ttx.Tests.Releases.{running, paid, advanced, armed}

read_definition : definition_for_exercise advanced 1 ≡ ok (some definition)
unfolding definition_for_exercise iceberg_ttx.Scenario.Validate.parse_definition
    iceberg_ttx.Scenario.Validate.normalized_id strip iceberg_ttx.Scenario.Graph.check_no_cycles
    iceberg_ttx.Scenario.Graph.successors iceberg_ttx.Scenario.Graph.option_targets
read_definition = refl

reached-released_example :
    (db' : Db) × (after : Inject) × (release_scheduled_inject advanced 1 2 1_000_000_000 ≡ ok db')
    × (get_inject db' 2 ≡ some after)
    × (after.state ≡ released)
unfolding iceberg_ttx.Lifecycle.Clock.seconds_until_due iceberg_ttx.Prelude.Int.◌-ℤ◌
    iceberg_ttx.Progression.Cursor.inject_audience_contexts
reached-released_example =
    reached-released advanced running paid 1_000_000_000 (some definition) refl refl armed refl refl
      read_definition
