-- ===== src/SignalingClient.antt =====
-- The client of the signaling server: src/signaling/signaling_client.h and
-- src/signaling/signaling_client.cpp. Escape is the text helpers, Ports the connection, and Loop the
-- receiving thread; Delivery is a message's way from one client over the server to another.
pub mod Escape
pub mod State
pub mod Ports
pub mod Loop
pub mod Delivery
pub mod Reconnect
mod Examples
