-- ===== src/Auth.antt =====
-- pkg/auth: who may do what (auth.go) and the exchange of OIDC tokens (oidc.go).
pub mod Pattern
pub mod Engine
pub mod Authorize
pub mod Grants
pub mod Bearer
pub mod Oidc
pub mod ClearTokens
pub mod Tests
