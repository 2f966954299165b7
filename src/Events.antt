-- ===== src/Events.antt =====
-- Domain events: app/services/domain_events.py, with the bus of app/services/pg_bus.py and the
-- relay of app/services/ws_relay.py.
pub mod Wire
pub mod Roundtrip
pub mod Buffer
pub mod Run
pub mod Steps
pub mod Delivered
pub mod Published
pub mod Relay
