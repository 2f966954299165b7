-- ===== src/Events/Wire.antt =====
-- Events on the bus: the classes of app/services/domain_events.py, and the descriptors of
-- app/services/pg_bus.py. A descriptor is a dict whose values are numbers, texts or null, as an
-- association list; the first entry of a name counts.
use iceberg_ttx.Prelude.{
  ℕ, String, Bool, false, List, [], ◌∷◌, Option, none, some, ◌==◌, nat_eq, string_eq, option_eq,
  find, leb, All, if◌then◌else◌,
}
use iceberg_ttx.Errors.{Result, ok, ◌>>◌, require}

pub data EventClass : Type 0 where
  exercise_state_changed inject_released inject_updated inject_comment_created : EventClass
  response_submitted communication_created response_assessed inject_suggested : EventClass
  summary_generated : EventClass

-- fields(cls): the base class's field comes first.
abbrev pub fields : EventClass → List String
fields exercise_state_changed = "exercise_id" ∷ "transition_id" ∷ "action" ∷ []
fields inject_released = "exercise_id" ∷ "inject_id" ∷ []
fields inject_updated = "exercise_id" ∷ "inject_id" ∷ []
fields inject_comment_created = "exercise_id" ∷ "comment_id" ∷ []
fields response_submitted = "exercise_id" ∷ "response_id" ∷ []
fields communication_created = "exercise_id" ∷ "communication_id" ∷ []
fields response_assessed = "exercise_id" ∷ "response_id" ∷ "assessment_id" ∷ []
fields inject_suggested = "exercise_id" ∷ "suggested_id" ∷ []
fields summary_generated = "exercise_id" ∷ "summary_id" ∷ []

abbrev pub event_name : EventClass → String
event_name exercise_state_changed = "exercise_state_changed"
event_name inject_released = "inject_released"
event_name inject_updated = "inject_updated"
event_name inject_comment_created = "inject_comment_created"
event_name response_submitted = "response_submitted"
event_name communication_created = "communication_created"
event_name response_assessed = "response_assessed"
event_name inject_suggested = "inject_suggested"
event_name summary_generated = "summary_generated"

-- The keys of EVENT_NAMES.
abbrev pub event_classes : List EventClass
event_classes =
    exercise_state_changed ∷ inject_released ∷ inject_updated ∷ inject_comment_created
    ∷ response_submitted ∷ communication_created ∷ response_assessed ∷ inject_suggested
    ∷ summary_generated ∷ []

pub data Value : Type 0 where
  null : Value
  number : ℕ → Value
  text : String → Value

-- An event object: its class and the values of its fields, in order.
abbrev pub Values : List String → Type 0
Values names = All (λ name. Value) names

pub record Event : Type 0 where
  pub cls : EventClass
  pub values : Values (fields cls)

abbrev pub Descriptor : Type 0
Descriptor = List (String × Value)

abbrev pub entry : String → Descriptor → Option Value
entry name [] = none
entry name ((key, value) ∷ rest) = if key == name then some value else entry name rest

-- asdict(ev)
abbrev pub as_dict : (names : List String) → Values names → Descriptor
as_dict [] values = []
as_dict (name ∷ names) values = (name, values.0) ∷ as_dict names values.1

unfoldable pub envelope : String → Descriptor → Descriptor
envelope origin entries = ("v", number 1) ∷ ("origin", text origin) ∷ entries

-- descriptor.get("origin") == ORIGIN
abbrev pub is_text : String → Option Value → Bool
is_text s (some (text t)) = t == s
is_text s _ = false

unfoldable pub is_own : String → Descriptor → Bool
is_own origin descriptor = is_text origin (entry "origin" descriptor)

unfoldable pub to_descriptor : String → Event → Descriptor
unfolding envelope
to_descriptor origin ev =
    envelope origin (("event", text (event_name ev.cls)) ∷ as_dict (fields ev.cls) ev.values)

abbrev pub paired : {A B : Type 0} → Option A → Option B → Option (A × B)
paired (some a) (some b) = some (a, b)
paired _ _ = none

-- {f.name: descriptor[f.name] for f in fields(cls)}, where a KeyError is none.
abbrev pub collect : (names : List String) → Descriptor → Option (Values names)
collect [] descriptor = some tt
collect (name ∷ names) descriptor = paired (entry name descriptor) (collect names descriptor)

abbrev pub event_of : (cls : EventClass) → Option (Values (fields cls)) → Option Event
event_of cls none = none
event_of cls (some values) = some (record { cls = cls; values = values })

abbrev pub rebuild : Descriptor → Option EventClass → Option Event
rebuild descriptor none = none
rebuild descriptor (some cls) = event_of cls (collect (fields cls) descriptor)

-- _EVENTS_BY_NAME.get(descriptor.get("event", ""))
unfoldable pub from_descriptor : Descriptor → Option Event
from_descriptor descriptor =
    rebuild descriptor
      (find (λ cls. is_text (event_name cls) (entry "event" descriptor)) event_classes)

pub data WireError : Type 0 where
  payload_too_long : WireError

abbrev pub payload_limit_bytes : ℕ
payload_limit_bytes = 7000

-- What json.loads makes of a payload: a dict, or a value of another type.
pub data Json : Type 0 where
  object : Descriptor → Json
  other : Json

-- descriptor.get("v") != 1
abbrev pub is_version : Option Value → Bool
is_version (some (number n)) = n == 1
is_version _ = false

abbrev pub understood : Option Json → Option Descriptor
understood none = none
understood (some other) = none
understood (some (object d)) = if is_version (entry "v" d) then some d else none

-- The json module, which is a parameter: a payload, its text and its length in UTF-8.
pub record Codec (Payload : Type 0) : Type 0 where
  pub dumps : Descriptor → Payload
  pub loads : Payload → Option Json
  pub size : Payload → ℕ
  pub same : Payload → Payload → Bool

module _ {Payload : Type 0} (json : Codec Payload) where
  unfoldable pub encode : Descriptor → Result WireError Payload
  encode descriptor =
      require (leb (json.size (json.dumps descriptor)) payload_limit_bytes) payload_too_long
      >> ok (json.dumps descriptor)

  unfoldable pub decode : Payload → Option Descriptor
  decode payload = understood (json.loads payload)
