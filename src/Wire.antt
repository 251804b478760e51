-- ===== src/Wire.antt =====
-- The byte-level protocol (src/common/wire.h, wire.cpp, wire_v2.cpp, protocol.h, protocol_v2.h) and
-- the framing on a connection (src/common/uds.cpp, src/daemon/daemon.cpp, src/agent/rpc_client.cpp).
pub mod Words
pub mod Buffer
pub mod RoundTrips
pub mod Messages
pub mod Lossless
pub mod OpCodes
pub mod Calls
pub mod Frames
pub mod Connection
