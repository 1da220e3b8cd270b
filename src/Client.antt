-- ===== src/Client.antt =====
-- internal/network/client: the WebSocket sender and the client that starts and stops everything.
pub mod DataSender
pub mod SystemClient
pub mod Lifecycle
pub mod Delivery
mod Tests
