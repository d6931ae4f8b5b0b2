-- ===== src/Runtime.antt =====
-- common: the libraries that the services share.
pub mod Scheduler
pub mod Subscriber
pub mod RateLimit
pub mod LocalCache
pub mod WorkerPool
