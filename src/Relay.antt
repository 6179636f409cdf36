-- ===== src/Relay.antt =====
-- The loopback relay of packages/relay: authentication, and the hub that routes between adapters.
pub mod Auth
pub mod Origin
pub mod Hub
pub mod Client
pub mod Examples
mod Tests
