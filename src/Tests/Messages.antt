-- ===== src/Tests/Messages.antt =====
-- Events of a workshop on the bus.
use iceberg_ttx.Prelude.{
  String, Bool, ◌&&◌, nat_eq, true, false, [], ◌∷◌, List, none, some, ◌≡◌, refl, length, ◌==◌,
  string_eq, if◌then◌else◌,
}
use iceberg_ttx.Events.Wire.{
  Event, Codec, Descriptor, Value, null, number, text, object, to_descriptor, from_descriptor,
  exercise_state_changed, inject_released, summary_generated,
}
use iceberg_ttx.Events.Roundtrip.{from_descriptor-to_descriptor}
use iceberg_ttx.Events.Buffer.{Registry, project_all, once}
use iceberg_ttx.Events.Run.{
  Action, begin, commit, rollback, drain, announce, new_replica, run, commits, survives, announced,
  batches,
}
use iceberg_ttx.Events.Delivered.{run-announced}
use iceberg_ttx.Events.Relay.{receive_all, folded, run-heard}

abbrev started : Event
started = record {
  cls = exercise_state_changed;
  values = (number 1, (number 3, (text "start", tt)));
}

abbrev release : Event
release = record { cls = inject_released; values = (number 1, (number 2, tt)) }

abbrev unflushed : Event
unflushed = record { cls = summary_generated; values = (number 1, (null, tt)) }

from_descriptor-to_descriptor_example :
    from_descriptor (to_descriptor "replica-a" started) ≡ some started
from_descriptor-to_descriptor_example = from_descriptor-to_descriptor "replica-a" started

-- The name of a class that this build does not know.
unknown_event :
    from_descriptor (("event", text "exercise_archived") ∷ ("exercise_id", number 1) ∷ []) ≡ none
unfolding from_descriptor
unknown_event = refl

abbrev handlers : Registry String
handlers = record { subscribers = λ cls. "frame" ∷ "timer" ∷ []; local_only = λ h. h == "timer" }

abbrev same_value : Value → Value → Bool
same_value null null = true
same_value (number n) (number m) = n == m
same_value (text s) (text t) = s == t
same_value _ _ = false

abbrev same_text : Descriptor → Descriptor → Bool
same_text [] [] = true
same_text (d ∷ ds) (e ∷ es) = d.0 == e.0 && same_value d.1 e.1 && same_text ds es
same_text _ _ = false

-- A codec whose payload is the descriptor itself.
abbrev plain : Codec Descriptor
plain = record { dumps = λ d. d; loads = λ d. some (object d); size = length; same = same_text }

-- A commit, a rollback, and a commit without a fan-out after it.
abbrev session : List Action
session =
    begin
    ∷ announce started
    ∷ announce unflushed
    ∷ commit
    ∷ begin
    ∷ announce release
    ∷ rollback
    ∷ announce release
    ∷ drain
    ∷ begin
    ∷ announce release
    ∷ commit
    ∷ []

run-announced_example :
    (run handlers plain "replica-a" new_replica session).calls
    ≡ project_all handlers true (announced survives false session)
run-announced_example = run-announced handlers plain "replica-a" session

sent_once : announced survives false session ≡ started ∷ []
unfolding announced survives iceberg_ttx.Events.Buffer.is_complete iceberg_ttx.Events.Run.drains
sent_once = refl

both_committed : announced commits false session ≡ started ∷ release ∷ []
unfolding announced commits iceberg_ttx.Events.Buffer.is_complete
both_committed = refl

abbrev twice : List Action
twice = begin ∷ announce started ∷ announce release ∷ announce started ∷ commit ∷ []

twice_batch : batches false twice ≡ (started ∷ release ∷ started ∷ []) ∷ []
unfolding batches commits iceberg_ttx.Events.Buffer.is_complete
twice_batch = refl

-- The second announcement of the same event in one transaction is not delivered.
folded_once : folded plain "replica-a" (batches false twice) ≡ started ∷ release ∷ []
unfolding folded batches commits once to_descriptor iceberg_ttx.Events.Buffer.is_complete
folded_once = refl

run-heard_example :
    receive_all handlers plain "replica-b" (run handlers plain "replica-a" new_replica twice).bus
    ≡ (if ◌==◌ {A = String} "replica-a" "replica-b"
        then []
        else project_all handlers false (folded plain "replica-a" (batches false twice)))
unfolding to_descriptor
run-heard_example =
    run-heard handlers plain "replica-a" "replica-b" (λ d distinct. refl) twice
      (rw twice_batch ((refl, (refl, (refl, tt))), tt))
