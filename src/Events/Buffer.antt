-- ===== src/Events/Buffer.antt =====
-- The session's buffer of app/services/domain_events.py, and the handlers that its events reach: of
-- this replica by `dispatch`, of a peer by `handle` of app/services/ws_relay.py. The replica's
-- session has no savepoint while events are pending; a session without a buffer has an empty one.
use iceberg_ttx.Prelude.{
  String, Bool, true, false, not, ◌&&◌, List, [], ◌∷◌, ◌++◌, Option, none, some, select, null, any,
  if◌then◌else◌,
}
use iceberg_ttx.Errors.{Result, ok, err, ◌>>◌, require}
use iceberg_ttx.Events.Wire.{
  EventClass, Event, Value, Values, fields, Codec, WireError, to_descriptor, from_descriptor,
  encode, is_own, Descriptor,
}

pub record Buffer : Type 0 where
  pub pending : List Event
  pub committed : List Event

pub record Session : Type 0 where
  pub in_transaction : Bool
  pub buffer : Buffer

abbrev pub new_session : Session
new_session = record { in_transaction = false; buffer = record { pending = []; committed = [] } }

pub data RecordError : Type 0 where
  no_transaction unset_field : RecordError

-- No field is None.
abbrev pub all_set : (names : List String) → Values names → Bool
all_set [] values = true
all_set (name ∷ names) values = elim values.0 [
  | Value.null ↦ false
  | Value.number n ↦ all_set names values.1
  | Value.text s ↦ all_set names values.1
]

unfoldable pub is_complete : Event → Bool
is_complete ev = all_set (fields ev.cls) ev.values

abbrev pub append_pending : Event → Session → Session
append_pending ev s = record s {
  buffer = record s.buffer { pending = s.buffer.pending ++ ev ∷ [] };
}

unfoldable pub record_event : Session → Event → Result RecordError Session
unfolding is_complete
record_event s ev = do
  require s.in_transaction no_transaction
  require (is_complete ev) unset_field
  ok (append_pending ev s)

unfoldable pub promote_on_commit : Buffer → Buffer
promote_on_commit b =
    if null b.pending then b else record { pending = []; committed = b.committed ++ b.pending }

unfoldable pub discard_on_rollback : Buffer → Buffer
discard_on_rollback b = if null b.pending then b else record b { pending = [] }

-- The subscribers of each class, and the ones that are local only.
pub record Registry (Handler : Type 0) : Type 0 where
  pub subscribers : EventClass → List Handler
  pub local_only : Handler → Bool

-- The handlers that ran, each with its event.
abbrev pub Calls : Type 0 → Type 0
Calls Handler = List (Handler × Event)

module _ {Handler : Type 0} (registry : Registry Handler) where
  abbrev pub calls_for : Event → List Handler → Calls Handler
  calls_for ev [] = []
  calls_for ev (h ∷ handlers) = (h, ev) ∷ calls_for ev handlers

  -- A handler that raises is logged, and the next one runs.
  unfoldable pub project : Event → Bool → Calls Handler
  project ev is_local =
      calls_for ev
        (select (λ h. not (not is_local && registry.local_only h)) (registry.subscribers ev.cls))

  unfoldable pub project_all : Bool → List Event → Calls Handler
  project_all is_local [] = []
  project_all is_local (ev ∷ events) = project ev is_local ++ project_all is_local events

  unfoldable pub dispatch : Session → Calls Handler × Session
  unfolding project_all
  dispatch s = (
    project_all true s.buffer.committed,
    record s { buffer = record s.buffer { committed = [] } },
  )

  abbrev pub project_peer : Option Event → Calls Handler
  project_peer none = []
  project_peer (some ev) = project ev false

  -- An instruction to close a user's connections is no domain event: it has no class.
  unfoldable pub handle : String → Descriptor → Calls Handler
  unfolding project is_own from_descriptor
  handle origin descriptor =
      if is_own origin descriptor then [] else project_peer (from_descriptor descriptor)

module _ {Payload : Type 0} (json : Codec Payload) where
  -- A descriptor that cannot be rendered is logged and left out.
  abbrev pub rendered : Result WireError Payload → List Payload → List Payload
  rendered (ok payload) rest = payload ∷ rest
  rendered (err e) rest = rest

  unfoldable pub publish_on_commit : String → List Event → List Payload
  unfolding encode to_descriptor
  publish_on_commit origin [] = []
  publish_on_commit origin (ev ∷ events) =
      rendered (encode json (to_descriptor origin ev)) (publish_on_commit origin events)

-- Of the same items the first one.
unfoldable pub once : {A : Type 0} → (A → A → Bool) → (seen items : List A) → List A
once same seen [] = []
once same seen (x ∷ items) =
    if any (λ y. same y x) seen then once same seen items else x ∷ once same (x ∷ seen) items

-- What the database delivers at the commit: PostgreSQL folds the notifications of one transaction that
-- have identical payloads.
unfoldable pub notified : {Payload : Type 0} → Codec Payload → String → List Event → List Payload
unfolding once publish_on_commit
notified json origin events = once json.same [] (publish_on_commit json origin events)
