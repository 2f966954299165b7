-- ===== src/Lib.antt =====
-- IcebergTTX runs cyber tabletop exercises: a facilitator starts a draft exercise of a scenario, injects
-- are released to participants by hand or by schedule, responses choose branches, and cursors for
-- each team say where it stands. The services under app/services share one PostgreSQL database.
--
-- Models holds the rows (app/models) and the scenario format, and Models.Database the database as one
-- record of tables. A service function takes the database as it is when its transaction runs and gives
-- the new one, or the exception (Errors); a failed call has rolled back. A request's own copy of a row
-- is a separate argument, so that a stale copy can be stated. The clock's answer `now` is an argument;
-- a transaction that reads the clock twice reads the same time. Times and spans are whole microseconds,
-- where the code has datetimes and floats of seconds.
--
-- - Scenario: app/schemas/scenario_json.py (Validate, Graph) and the walks through a definition of
--   app/services/scenario_service.py (Branch); Acyclic and Accepted prove what acceptance means, by way of
--   Rounds and Dict. The rounds of Graph stand for TopologicalSorter of the standard library: as many
--   rounds as there are nodes, which is enough since a round that drops nothing changes nothing. Walks
--   are defined on the injects, without the graph.
-- - Launch: app/services/launch_snapshot_service.py. Content lays a snapshot out, Freeze stores it and
--   finds the definition an exercise runs on. The digest function, the canonical bytes and the
--   attachment files are the fields of External; no assumption is made on them.
-- - Lifecycle: app/models/exercise.py (States), transition_state_with_history of
--   app/services/exercise_service.py (Transition) and the clocks of app/services/schedule_service.py
--   and static/js/app.js (Clock). Timeline is the invariant of the stored times, Moves its preservation by a step, Outcome
--   and History what a request does on the database, Agreement relates the clocks.
-- - Progression: app/services/progression_service.py (Cursor, Resolve) and the release and deletion of
--   app/services/inject_service.py (Release); Once, Isolation and Roster prove what they do.
-- - Schedule: app/services/schedule_service.py (Jobs, Arm), the tasks of app/services/task_queue.py
--   and deliver_triggered_communication of app/services/communication_service.py (Worker). A
--   trigger key is the pair of node and index that its text encodes.
-- - Responses: app/services/response_service.py (Next, Submit) and the submit route of
--   app/routers/responses.py.
-- - Access: app/services/access_control.py and app/services/role_preview.py.
-- - Membership: app/services/team_service.py (Teams), the roster operations (Roster) and create_exercise
--   (Create) of app/services/exercise_service.py, with the insertion of injects of
--   app/services/inject_service.py. Valid and Kept are the invariant of a roster, Locked what a release
--   does to it, Seeded, Paths and Opened what a new exercise starts with.
-- - Events: app/services/domain_events.py. Wire has the descriptors of app/services/pg_bus.py, Buffer the
--   session's buffer and the fan-out, Run the actions on one session and what they promise, Relay a
--   peer's side (app/services/pg_listener.py, app/services/ws_relay.py). The JSON codec is the record
--   Codec, which also has the test by which PostgreSQL folds the identical notifications of a transaction.
-- - Inbox: app/services/communication_service.py and app/routers/communications.py. Senders resolves the
--   team of a message, alone and in a batch, Listing decides who sees it, Receipts counts the unread, and
--   Send has the routes; Lookups, Batched, Visible, Unread and Sent are their theorems.
-- - Suggestions: app/routers/suggested_injects.py over the table of app/models/suggested_inject.py;
--   Review has the operations, Approved what an approval promises.
-- - Accounts: app/services/token_service.py over the table of app/models/auth_token.py; Tokens has the
--   operations, with the SELECT and the UPDATE of consume apart and the deferred commit, Sessions their
--   interleavings, Taken what no interleaving undoes, SingleUse what a link promises. SHA-256 and the random generator are arguments.
-- - RateLimit: app/services/rate_limit.py, over its own table.
-- - Samples and Tests: concrete exercises on which the theorems are applied.
--
-- A new exercise of Membership seeds the cursors of Progression, and an approval of Suggestions inserts
-- an inject the way that Membership does.
-- Release calls the enqueueing of Schedule, whose worker calls Release; a response resolves a context of
-- Progression and arms what the new cursor reaches. Loops are structural recursion throughout.
--
-- Not modelled: row locks and, outside of Accounts and Events, sessions below the level of a transaction,
-- audit records, savepoints, the frames sent over WebSockets, passwords and login sessions, settings,
-- language-model calls and reports.
pub mod Prelude
pub mod Errors
pub mod Models
pub mod Scenario
pub mod Launch
pub mod Lifecycle
pub mod Progression
pub mod Schedule
pub mod Access
pub mod Accounts
pub mod Responses
pub mod RateLimit
pub mod Membership
pub mod Events
pub mod Inbox
pub mod Suggestions
pub mod Samples
pub mod Tests
