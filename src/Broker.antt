-- ===== src/Broker.antt =====
-- The broker that clients talk to, under broker/.
pub mod Protocol
pub mod Topics
pub mod Requests
pub mod Publish
pub mod Consume
pub mod Refused
pub mod Admin
pub mod Handler
pub mod Outbound
pub mod Catalog
pub mod Routing
pub mod Sending
pub mod Config
pub mod Reading
pub mod Dispatch
pub mod Wiring
pub mod Startup
mod Tests
mod DispatchTests
