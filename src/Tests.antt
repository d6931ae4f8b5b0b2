-- ===== src/Tests.antt =====
-- Concrete runs of the modelled code: the theorems at inputs that exercise it.
mod Outbox
mod Engine
mod Refresh
mod Runtime
mod Server
mod Auth
mod Tokens
mod Cache
mod Pool
mod Credentials
