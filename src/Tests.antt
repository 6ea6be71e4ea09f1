-- ===== src/Tests.antt =====
-- The theorems applied at concrete inputs.
mod Utils
mod Config
mod Connection
mod Messages
mod ThreadPool
mod WebSocket
mod Auth
mod Transfer
mod Monitoring
mod Database
mod ServerCore
mod MessageHandler
