-- ===== src/Pocket.antt =====
-- internal/cli/pocket: the backup of a Pocket ID instance to SealHub, and its restore.
pub mod Machine
pub mod Transfer
pub mod Uploaded
pub mod RoundTrip
pub mod Tests
