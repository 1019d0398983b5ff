-- ===== src/Hub.antt =====
-- cmd/hub and internal/cli/auth: the command hub, its credentials, and how it creates a service token.
pub mod Token
pub mod Scopes
pub mod Created
pub mod Credentials
pub mod Command
pub mod Session
pub mod Encryption
pub mod Tests
