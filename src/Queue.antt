-- ===== src/Queue.antt =====
-- The Redis queue (backend/internal/queue/redis.go).
pub mod Resp
pub mod Connection
pub mod Messages
pub mod Broker
mod Samples
