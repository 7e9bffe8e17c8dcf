-- ===== src/WsServer.antt =====
-- bridge/src/ws_server.rs: the WebSocket server for extensions and for clients.
pub mod Admit
pub mod Extension
pub mod Client
pub mod Slots
pub mod Delivery
pub mod Disconnect
pub mod Numbers
pub mod Turns
pub mod Accept
pub mod Connection
