-- ===== src/Wire/Lossless.antt =====
-- Encoders against decoders, for each message.
pub mod Keys
pub mod Registration
pub mod Offloads
pub mod Prefetches
pub mod Leases
pub mod Objects
pub mod Versions
pub mod Reads
pub mod Releases
