-- ===== src/WebSocket.antt =====
-- The WebSocket server of server/src/websocket_server.c.
pub mod Frame
pub mod Receive
pub mod Handshake
pub mod Closing
pub mod Server
