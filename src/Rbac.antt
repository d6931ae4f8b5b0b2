-- ===== src/Rbac.antt =====
-- user-service/internal/features/permission: how a committed RBAC policy change reaches the
-- authorization engine of every replica.
pub mod Outbox
pub mod Dispatcher
pub mod Engine
pub mod Message
pub mod Sync
pub mod Watcher
