-- ===== src/Events/Relay.antt =====
-- A peer's side of the bus: `_dispatch` of app/services/pg_listener.py with the handler of
-- app/services/ws_relay.py, which is the only one on the channel of events.
use iceberg_ttx.Prelude.{
  Bool, map, any, has_duplicates, sym, ◌∙◌, String, true, false, List, [], ◌∷◌, ◌++◌, Option, none,
  some, ◌≡◌, refl, ◌==◌, string_eq, All, Bool-cases, inl, inr, leb, if◌then◌else◌,
}
use iceberg_ttx.Errors.{ok, require-eq-ok, ok-injective}
use iceberg_ttx.Events.Wire.{
  EventClass, Values, Value, fields, Event, Codec, Descriptor, object, is_own, to_descriptor,
  encode, decode, payload_limit_bytes,
}
use iceberg_ttx.Events.Roundtrip.{from_descriptor-to_descriptor}
use iceberg_ttx.Events.Buffer.{
  Registry, Calls, project, project_all, handle, publish_on_commit, once, notified,
}
use iceberg_ttx.Events.Run.{Action, new_replica, run, batches}
use iceberg_ttx.Events.Published.{run-published, notified_all}
use iceberg_ttx.Events.Steps.{append_assoc}

module _ {Payload : Type 0} (json : Codec Payload) (origin : String) where
  -- Two events have the same rendering.
  abbrev pub same_event : Event → Event → Bool
  same_event a b =
      json.same (json.dumps (to_descriptor origin a)) (json.dumps (to_descriptor origin b))

  -- The events of each transaction, of those with the same rendering the first.
  unfoldable pub folded : List (List Event) → List Event
  folded [] = []
  folded (b ∷ bs) = once same_event [] b ++ folded bs

class_keys :
    (origin : String) (cls : EventClass) (values : Values (fields cls))
    → has_duplicates (
        map
          (λ (e : String × Value). e.0)
          (to_descriptor origin (record { cls = cls; values = values })))
      ≡ false
unfolding to_descriptor
class_keys origin EventClass.exercise_state_changed values = refl
class_keys origin EventClass.inject_released values = refl
class_keys origin EventClass.inject_updated values = refl
class_keys origin EventClass.inject_comment_created values = refl
class_keys origin EventClass.response_submitted values = refl
class_keys origin EventClass.communication_created values = refl
class_keys origin EventClass.response_assessed values = refl
class_keys origin EventClass.inject_suggested values = refl
class_keys origin EventClass.summary_generated values = refl

-- The keys of a descriptor are distinct.
descriptor-keys :
    (origin : String) (ev : Event)
    → has_duplicates (map (λ (e : String × Value). e.0) (to_descriptor origin ev)) ≡ false
descriptor-keys origin ev = class_keys origin ev.cls ev.values

module _ {Handler Payload : Type 0} (registry : Registry Handler) (json : Codec Payload)
    (own : String) where
  abbrev pub handled : Option Descriptor → Calls Handler
  handled none = []
  handled (some descriptor) = handle registry own descriptor

  unfoldable pub receive : Payload → Calls Handler
  unfolding decode handle
  receive payload = handled (decode json payload)

  unfoldable pub receive_all : List Payload → Calls Handler
  unfolding receive
  receive_all [] = []
  receive_all (payload ∷ bus) = receive payload ++ receive_all bus

module _ {Handler Payload : Type 0} (registry : Registry Handler) (json : Codec Payload)
    (origin own : String)
    (faithful : (d : Descriptor)
      → has_duplicates (map (λ (e : String × Value). e.0) d) ≡ false
      → json.loads (json.dumps d) ≡ some (object d)) where
  -- The relay's own test of the descriptor.
  handled-own :
      (ev : Event) → (origin == own) ≡ true → handle registry own (to_descriptor origin ev) ≡ []
  unfolding handle to_descriptor is_own
  handled-own ev same = rw same refl

  not_own : (ev : Event) → (origin == own) ≡ false → is_own own (to_descriptor origin ev) ≡ false
  unfolding is_own to_descriptor
  not_own ev other = other

  handled-peer :
      (ev : Event)
      → (origin == own) ≡ false
      → handle registry own (to_descriptor origin ev) ≡ project registry ev false
  unfolding handle
  handled-peer ev other =
      let apart : is_own own (to_descriptor origin ev) ≡ false = not_own ev other in
      rw (apart, from_descriptor-to_descriptor origin ev) refl

  decoded :
      (ev : Event) (payload : Payload)
      → encode json (to_descriptor origin ev) ≡ ok payload
      → decode json payload ≡ some (to_descriptor origin ev)
  unfolding encode decode to_descriptor
  decoded ev payload h =
      let d = to_descriptor origin ev in
      let (_, e) = require-eq-ok (leb (json.size (json.dumps d)) payload_limit_bytes) _ _ h in
      rw (← ok-injective e, faithful d (descriptor-keys origin ev)) refl

  abbrev Fits : Event → Type 0
  Fits ev = leb (json.size (json.dumps (to_descriptor origin ev))) payload_limit_bytes ≡ true

  -- What a replica does on an event that `origin` committed.
  abbrev heard : List Event → Calls Handler
  heard events = if origin == own then [] else project_all registry false events

  handled-heard :
      (ev : Event)
      → handle registry own (to_descriptor origin ev)
        ≡ (if origin == own then [] else project registry ev false)
  handled-heard ev = elim (Bool-cases (origin == own)) [
    | inl t ↦ rw t (handled-own ev t)
    | inr f ↦ rw f (handled-peer ev f)
  ]

  Fits-encode :
      (ev : Event)
      → Fits ev
      → encode json (to_descriptor origin ev) ≡ ok (json.dumps (to_descriptor origin ev))
  unfolding encode
  Fits-encode ev fits = rw fits refl

  abbrev payloads : List Event → List Payload
  payloads = map (λ (ev : Event). json.dumps (to_descriptor origin ev))

  any-payloads :
      (ev : Event) (seen : List Event)
      → any (λ p. json.same p (json.dumps (to_descriptor origin ev))) (payloads seen)
        ≡ any (λ e. same_event json origin e ev) seen
  any-payloads ev [] = refl
  any-payloads ev (e ∷ seen) = rw (any-payloads ev seen) refl

  heard-cons :
      (ev : Event) (events : List Event)
      → heard (ev ∷ events)
        ≡ (if origin == own then [] else project registry ev false) ++ heard events
  unfolding project_all
  heard-cons ev events = elim (Bool-cases (origin == own)) [ inl t ↦ rw t refl | inr f ↦ rw f refl ]

  heard-nil : heard [] ≡ []
  unfolding project_all
  heard-nil = elim (Bool-cases (origin == own)) [ inl t ↦ rw t refl | inr f ↦ rw f refl ]

  heard-append : (xs ys : List Event) → heard (xs ++ ys) ≡ heard xs ++ heard ys
  heard-append [] ys = rw heard-nil refl
  heard-append (x ∷ xs) ys =
      rw (heard-cons x (xs ++ ys), heard-cons x xs, heard-append xs ys)
        (sym (
          append_assoc (if origin == own then [] else project registry x false) (heard xs)
            (heard ys)))

  receive-once :
      (seen events : List Event)
      → All Fits events
      → receive_all registry json own
          (once json.same (payloads seen) (publish_on_commit json origin events))
        ≡ heard (once (same_event json origin) seen events)
  unfolding receive_all receive publish_on_commit once
  receive-once seen [] fits = sym heard-nil
  receive-once seen (ev ∷ events) fits =
      let sent = Fits-encode ev fits.0 in
      elim (Bool-cases (any (λ e. same_event json origin e ev) seen)) [
        | inl there ↦ rw (sent, any-payloads ev seen, there) (receive-once seen events fits.1)
        | inr new ↦
            rw (sent, any-payloads ev seen, new)
              (rw
                (
                  decoded ev _ sent,
                  handled-heard ev,
                  receive-once (ev ∷ seen) events fits.1,
                  heard-cons ev (once (same_event json origin) (ev ∷ seen) events),
                )
                refl)
      ]

  receive_all-append :
      (xs ys : List Payload)
      → receive_all registry json own (xs ++ ys)
        ≡ receive_all registry json own xs ++ receive_all registry json own ys
  unfolding receive_all
  receive_all-append [] ys = refl
  receive_all-append (x ∷ xs) ys = rw (receive_all-append xs ys) (
      sym (
        append_assoc (receive registry json own x) (receive_all registry json own xs)
          (receive_all registry json own ys)))

  receive-notified :
      (bs : List (List Event))
      → All (All Fits) bs
      → receive_all registry json own (notified_all registry json origin bs)
        ≡ heard (folded json origin bs)
  unfolding notified_all notified folded receive_all
  receive-notified [] fits = sym heard-nil
  receive-notified (b ∷ bs) fits =
      receive_all-append (once json.same [] (publish_on_commit json origin b))
        (notified_all registry json origin bs)
      ∙ rw (receive-once [] b fits.0, receive-notified bs fits.1)
          (sym (heard-append (once (same_event json origin) [] b) (folded json origin bs)))

  -- Of the notifications that a new session of one replica leads the database to deliver, another
  -- replica runs the relayed projections of exactly the complete announcements whose transaction
  -- commits, in their order, where of the announcements of one transaction with the same rendering
  -- the first one counts; the same replica runs nothing again. The JSON codec reads back what it
  -- writes of an object with distinct keys, and the committed descriptors are within the payload
  -- limit.
  pub run-heard :
      (actions : List Action)
      → All (All Fits) (batches false actions)
      → receive_all registry json own (run registry json origin new_replica actions).bus ≡ (
          if origin == own
          then []
          else project_all registry false (folded json origin (batches false actions)))
  run-heard actions fits =
      rw (run-published registry json origin actions)
        (receive-notified (batches false actions) fits)
