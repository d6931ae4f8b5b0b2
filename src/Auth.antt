-- ===== src/Auth.antt =====
-- user-service/internal/features/auth: sessions, tokens and credentials of users.
pub mod Domain
pub mod Keyspace
pub mod Sessions
pub mod TokenVersions
pub mod PasswordChange
pub mod Tokens
pub mod Lifecycle
pub mod Bearer
pub mod Issuer
pub mod UseCases
pub mod Refresh
pub mod Replay
pub mod Credentials
pub mod Verifier
pub mod Validator
