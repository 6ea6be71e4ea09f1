-- ===== src/Connection.antt =====
-- server/src/connection.c
pub mod Deadline
pub mod RateLimiter
pub mod MessageQueue
pub mod Pool
pub mod Messages
