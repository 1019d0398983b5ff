-- ===== src/Api.antt =====
-- pkg/api/server.go: the HTTP API over the store, the engine and the broker.
pub mod Types
pub mod System
pub mod Documents
pub mod Events
pub mod Routes
pub mod Confined
pub mod Forwarded
pub mod Authority
pub mod Stable
pub mod Asks
pub mod RoundTrip
pub mod Tests
