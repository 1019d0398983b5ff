-- ===== src/Client.antt =====
-- pkg/client/client.go: the requests of the client, and how it follows the stream of events.
pub mod Types
pub mod Calls
pub mod Watch
pub mod Cuts
pub mod Drained
pub mod Chunks
pub mod Stream
pub mod Served
pub mod Tests
