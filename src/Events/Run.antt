-- ===== src/Events/Run.antt =====
-- A replica's units of work as a sequence of actions on one session, and what they promise.
use iceberg_ttx.Prelude.{String, Bool, true, false, ◌&&◌, List, [], ◌∷◌, ◌++◌, if◌then◌else◌}
use iceberg_ttx.Errors.{Result, ok, err}
use iceberg_ttx.Events.Wire.{Event, Codec}
use iceberg_ttx.Events.Buffer.{
  Session, new_session, RecordError, is_complete, record_event, promote_on_commit,
  discard_on_rollback, Registry, Calls, dispatch, notified,
}

-- The statements of a unit of work, its end, and the fan-out after it.
pub data Action : Type 0 where
  begin commit rollback drain : Action
  announce : Event → Action

-- The session, the handlers that ran here, and the notifications that the database delivered.
pub record Replica (Handler Payload : Type 0) : Type 0 where
  pub session : Session
  pub calls : Calls Handler
  pub bus : List Payload

abbrev pub session_or : Session → Result RecordError Session → Session
session_or s (ok s') = s'
session_or s (err e) = s

module _ {Handler Payload : Type 0} (registry : Registry Handler) (json : Codec Payload)
    (origin : String) where
  unfoldable pub step : Replica Handler Payload → Action → Replica Handler Payload
  unfolding record_event promote_on_commit discard_on_rollback dispatch notified
  step r begin = record r { session = record r.session { in_transaction = true } }
  step r (announce ev) = record r { session = session_or r.session (record_event r.session ev) }
  step r commit = record r {
    session = record { in_transaction = false; buffer = promote_on_commit r.session.buffer };
    bus = r.bus ++ notified json origin r.session.buffer.pending;
  }
  step r rollback = record r {
    session = record { in_transaction = false; buffer = discard_on_rollback r.session.buffer };
  }
  step r drain =
      let done = dispatch registry r.session in
      record r { session = done.1; calls = r.calls ++ done.0 }

  unfoldable pub run : Replica Handler Payload → List Action → Replica Handler Payload
  run r [] = r
  run r (a ∷ actions) = run (step r a) actions

abbrev pub new_replica : {Handler Payload : Type 0} → Replica Handler Payload
new_replica = record { session = new_session; calls = []; bus = [] }

-- The promise, with no buffer: the transaction that is open at the head of the actions commits.
unfoldable pub commits : List Action → Bool
commits [] = false
commits (commit ∷ actions) = true
commits (rollback ∷ actions) = false
commits (begin ∷ actions) = commits actions
commits (drain ∷ actions) = commits actions
commits (announce ev ∷ actions) = commits actions

-- There is a fan-out.
unfoldable pub drains : List Action → Bool
drains [] = false
drains (drain ∷ actions) = true
drains (begin ∷ actions) = drains actions
drains (commit ∷ actions) = drains actions
drains (rollback ∷ actions) = drains actions
drains (announce ev ∷ actions) = drains actions

-- The transaction that is open at the head commits, and a fan-out follows.
unfoldable pub survives : List Action → Bool
survives [] = false
survives (commit ∷ actions) = drains actions
survives (rollback ∷ actions) = false
survives (begin ∷ actions) = survives actions
survives (drain ∷ actions) = survives actions
survives (announce ev ∷ actions) = survives actions

abbrev pub cons_if : Bool → Event → List Event → List Event
cons_if b ev events = if b then ev ∷ events else events

-- The announcements, in order, that stand in a transaction and whose fate is `fate`.
unfoldable pub announced : (List Action → Bool) → Bool → List Action → List Event
announced fate tx [] = []
announced fate tx (begin ∷ actions) = announced fate true actions
announced fate tx (commit ∷ actions) = announced fate false actions
announced fate tx (rollback ∷ actions) = announced fate false actions
announced fate tx (drain ∷ actions) = announced fate tx actions
announced fate tx (announce ev ∷ actions) =
    cons_if (tx && is_complete ev && fate actions) ev (announced fate tx actions)

abbrev pub push_if : Bool → Event → List (List Event) → List (List Event)
push_if b ev [] = []
push_if b ev (events ∷ batches) = (if b then ev ∷ events else events) ∷ batches

-- The complete announcements of each transaction that commits, in order.
unfoldable pub batches : Bool → List Action → List (List Event)
unfolding commits
batches tx [] = []
batches tx (begin ∷ actions) = batches true actions
batches tx (commit ∷ actions) = [] ∷ batches false actions
batches tx (rollback ∷ actions) = batches false actions
batches tx (drain ∷ actions) = batches tx actions
batches tx (announce ev ∷ actions) =
    push_if (tx && is_complete ev && commits actions) ev (batches tx actions)
