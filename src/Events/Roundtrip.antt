-- ===== src/Events/Roundtrip.antt =====
-- What one replica puts on the bus, another reads back.
use iceberg_ttx.Prelude.{String, some, ◌≡◌, refl, string_eq}
use iceberg_ttx.Events.Wire.{
  EventClass, Event, Values, fields, to_descriptor, from_descriptor, exercise_state_changed,
  inject_released, inject_updated, inject_comment_created, response_submitted,
  communication_created, response_assessed, inject_suggested, summary_generated,
}

class_roundtrip :
    (origin : String) (cls : EventClass) (values : Values (fields cls))
    → from_descriptor (to_descriptor origin (record { cls = cls; values = values }))
      ≡ some (record { cls = cls; values = values })
unfolding from_descriptor to_descriptor
class_roundtrip origin exercise_state_changed values = refl
class_roundtrip origin inject_released values = refl
class_roundtrip origin inject_updated values = refl
class_roundtrip origin inject_comment_created values = refl
class_roundtrip origin response_submitted values = refl
class_roundtrip origin communication_created values = refl
class_roundtrip origin response_assessed values = refl
class_roundtrip origin inject_suggested values = refl
class_roundtrip origin summary_generated values = refl

-- An event that is rendered as a bus descriptor, under any origin, is rebuilt from it.
pub from_descriptor-to_descriptor :
    (origin : String) (ev : Event) → from_descriptor (to_descriptor origin ev) ≡ some ev
from_descriptor-to_descriptor origin ev = class_roundtrip origin ev.cls ev.values
