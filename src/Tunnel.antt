-- ===== src/Tunnel.antt =====
-- The tunnel that Bambu Studio opens to a printer: bambu-farm-client/cpp/tunnel_protocol.cpp splits
-- a large file response into frames, bambu-farm-client/cpp/tunnel_bridge.cpp keeps the
-- session.
mod Tests
pub mod Protocol
pub mod Session
pub mod Stream
pub mod Message
pub mod Exports
pub mod Lifecycle
